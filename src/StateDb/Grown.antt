-- ===== src/StateDb/Grown.antt =====
-- What no rollback of cpp-guest/src/zisk_state_db.cpp restores: the marks of creations and the table of
-- codes. A frame only adds to them.
use ziskethone.Prelude.{
  ℕ, ◌≡◌, refl, sym, ◌∙◌, ap, arith, true, Option, none, some, List, [], length, ◌∷◌, ◌++◌,
  append_assoc, append-nil, ◌==◌, if◌then◌else◌, Option-cases, Bool-cases, inl, inr,
}
use ziskethone.Contracts.{Contract, Contracts, at, insert}
use ziskethone.Journal
use ziskethone.Journal.{Journal, World, member}
use ziskethone.StateDb.{State}

-- The rows of `c` and the entries of its index are in `d` unchanged, with rows added after them.
pub record CodesGrown (c d : Contracts) : Type 0 where
  pub added : List Contract
  pub rows : d.contracts ≡ c.contracts ++ added
  pub index : (h i : ℕ) → c.index h ≡ some i → d.index h ≡ some i

pub record Grown (s t : State) : Type 0 where
  pub created : (i : ℕ) → member i s.created ≡ true → member i t.created ≡ true
  pub codes : CodesGrown s.contracts t.contracts
  pub wiped : t.wiped ≡ s.wiped

CodesGrown-refl : (c : Contracts) → CodesGrown c c
CodesGrown-refl c = record { added = []; rows = sym (append-nil _); index = λ h i e. e }

CodesGrown-trans : {c d e : Contracts} → CodesGrown c d → CodesGrown d e → CodesGrown c e
CodesGrown-trans {c} g k = record {
  added = g.added ++ k.added;
  rows = k.rows ∙ ap (λ r. r ++ k.added) g.rows ∙ append_assoc c.contracts g.added k.added;
  index = λ h i e. k.index h i (g.index h i e);
}

pub Grown-refl : (s : State) → Grown s s
Grown-refl s = record { created = λ i e. e; codes = CodesGrown-refl s.contracts; wiped = refl }

-- The log, the world and the emitted logs are no part of this.
pub Grown-journal :
    (s : State) (j : Journal) (w : World) (l : Option (List ℕ))
    → Grown s (record s { journal = j; world = w; logs = l })
Grown-journal s j w l = record {
  created = λ i e. e;
  codes = CodesGrown-refl s.contracts;
  wiped = refl;
}

pub Grown-trans : {s t u : State} → Grown s t → Grown t u → Grown s u
Grown-trans g k = record {
  created = λ i e. k.created i (g.created i e);
  codes = CodesGrown-trans g.codes k.codes;
  wiped = k.wiped ∙ g.wiped;
}

member-insert :
    (i j : ℕ) (rows : List ℕ) → member i rows ≡ true → member i (Journal.insert j rows) ≡ true
unfolding Journal.insert member
member-insert i j rows e = ground (arith, e)

pub Grown-mark : (j : ℕ) (s : State) → Grown s (record s { created = Journal.insert j s.created })
Grown-mark j s = record {
  created = λ i e. member-insert i j s.created e;
  codes = CodesGrown-refl s.contracts;
  wiped = refl;
}

CodesGrown-insert :
    (hash : ℕ) (code : List ℕ) (owner : ℕ) (c : Contracts) → CodesGrown c (insert hash code owner c)
unfolding insert
CodesGrown-insert hash code owner c = elim (Option-cases (c.index hash)) [
  | inl e ↦ rw e (record {
    added = record { hash = hash; code = code; staged = true } ∷ [];
    rows = refl;
    index = λ h i f. other h i e f;
  })
  | inr (i, e) ↦ rw e (elim (Bool-cases (at i c).staged) [
    | inl on ↦ rw on (record { added = []; rows = sym (append-nil _); index = λ h i e. e })
    | inr off ↦ rw off (CodesGrown-refl c)
  ])
]
  where
    other :
        (h i : ℕ)
        → c.index hash ≡ none
        → c.index h ≡ some i
        → (if h == hash then some (length c.contracts) else c.index h) ≡ some i
    other h i e f = elim (Bool-cases (h == hash)) [
      | inl hit ↦
          let same : h ≡ hash = ground arith in
          absurd (let wrong = sym f ∙ ap c.index same ∙ e in cc)
      | inr miss ↦ rw miss f
    ]

pub Grown-codes :
    (hash : ℕ) (code : List ℕ) (owner : ℕ) (s : State)
    → Grown s (record s { contracts = insert hash code owner s.contracts })
Grown-codes hash code owner s = record {
  created = λ i e. e;
  codes = CodesGrown-insert hash code owner s.contracts;
  wiped = refl;
}
