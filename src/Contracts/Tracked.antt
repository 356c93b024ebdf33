-- ===== src/Contracts/Tracked.antt =====
-- The marks of the codes of this transaction are kept track of.
use ziskethone.Prelude.{
  ℕ, suc, ◌≡◌, ◌<◌, refl, sym, ap, ◌∙◌, arith, Bool, true, false, Option, none, some, List, [], ◌∷◌,
  ◌++◌, ◌==◌, if◌then◌else◌, length, ltb, Bool-cases, Option-cases, inl, inr, subst, ◌⊎◌,
}
use ziskethone.Prelude.Rows.{hits, get_or-update, length-update}
use ziskethone.Contracts
use ziskethone.Contracts.{
  Contract, Staged, Contracts, at, no_contract, insert, keep_all, forget_all, settle_staged, assign,
}
use ziskethone.Contracts.Lookup.{IsIndexed, insert-IsIndexed}
use ziskethone.Contracts.Loops.{
  row, rows_of_pair, index_of_pair, unmark, is_recorded, is_forgotten, or_right, or_true,
  forget_all-row, forget_all-index, past_end,
}
use ziskethone.Contracts.Settle.{IsTracked, still_staged, same_hash}

is_recorded-more :
    (staged : List Staged) (s : Staged) (i : ℕ)
    → is_recorded staged i ≡ true
    → is_recorded (staged ++ (s ∷ [])) i ≡ true
unfolding is_recorded
is_recorded-more [] s i e = absurd (cc)
is_recorded-more (t ∷ staged) s i e = elim (Bool-cases (t.contract == i)) [
  | inl same ↦ rw same
  | inr other ↦
      rw (is_recorded-more staged s i (or_right (t.contract == i) (is_recorded staged i) other e))
        (or_true _)
]

is_recorded-last :
    (staged : List Staged) (s : Staged) → is_recorded (staged ++ (s ∷ [])) s.contract ≡ true
unfolding is_recorded
is_recorded-last [] s = let same : (s.contract == s.contract) ≡ true = ground arith in rw same
is_recorded-last (t ∷ staged) s = rw (is_recorded-last staged s) (or_true _)

-- A row of the table with one more row.
row-cases :
    (rows : List Contract) (r : Contract) (i : ℕ)
    → (row (rows ++ (r ∷ [])) i).staged ≡ true
    → ((i ≡ length rows) × (row (rows ++ (r ∷ [])) i ≡ r))
      ⊎ (((row rows i).staged ≡ true) × (row (rows ++ (r ∷ [])) i ≡ row rows i))
row-cases [] r ℕ.zero e = inl (refl, refl)
row-cases [] r (suc i) e = absurd (cc)
row-cases (q ∷ rows) r ℕ.zero e = inr (e, refl)
row-cases (q ∷ rows) r (suc i) e = elim (row-cases rows r i e) [
  | inl (f, g) ↦ inl (ap suc f, g)
  | inr (f, g) ↦ inr (f, g)
]

-- The table with one more row, for a hash that had no entry.
insert_new-IsTracked :
    (hash : ℕ) (code : List ℕ) (owner : ℕ) (c : Contracts)
    → IsTracked c
    → c.index hash ≡ none
    → IsIndexed (Contracts.insert_at none hash code owner c)
    → IsTracked (Contracts.insert_at none hash code owner c)
insert_new-IsTracked hash code owner c w e indexed = record {
  indexed = indexed;
  recorded = λ i f. elim (row-cases c.contracts new i f) [
    | inl (g, r) ↦ rw g (is_recorded-last c.staged mark)
    | inr (old, r) ↦ is_recorded-more c.staged mark i (w.recorded i old)
  ];
  reachable = λ i f. elim (row-cases c.contracts new i f) [
    | inl (g, r) ↦ let same : (hash == hash) ≡ true = ground arith in rw (r, same, g)
    | inr (old, r) ↦
        rw (r, differs (row c.contracts i).hash i (w.reachable i old)) (w.reachable i old)
  ];
}
  where
    new : Contract
    new = record { hash = hash; code = code; staged = true }

    mark : Staged
    mark = record { contract = length c.contracts; owner = owner }

    differs : (h i : ℕ) → c.index h ≡ some i → (h == hash) ≡ false
    differs h i f = elim (Bool-cases (h == hash)) [
      | inl hit ↦
          let same : hash ≡ h = ground arith in
          let absent : c.index h ≡ none = subst (λ x. c.index x ≡ none) same e in absurd (cc)
      | inr miss ↦ miss
    ]

-- `insert` keeps track of the codes of this transaction: each is recorded, and its hash leads to it.
pub insert-IsTracked :
    (hash : ℕ) (code : List ℕ) (owner : ℕ) (c : Contracts)
    → IsTracked c
    → IsTracked (insert hash code owner c)
unfolding insert
insert-IsTracked hash code owner c w = elim (Option-cases (c.index hash)) [
  | inl e ↦
      let indexed : IsIndexed (Contracts.insert_at none hash code owner c) =
        subst (λ o. IsIndexed (Contracts.insert_at o hash code owner c)) e
          (insert-IsIndexed hash code owner c w.indexed) in
      rw e (insert_new-IsTracked hash code owner c w e indexed)
  | inr (i, e) ↦ rw e (elim (Bool-cases (at i c).staged) [
    | inl on ↦ rw on (record {
      indexed = record { in_range = w.indexed.in_range; same_hash = w.indexed.same_hash };
      recorded = λ j f. is_recorded-more c.staged _ j (w.recorded j f);
      reachable = w.reachable;
    })
    | inr off ↦ rw off w
  ])
]

forget-unmarked :
    (s : Staged) (rows : List Contract) (index : ℕ → Option ℕ) (i : ℕ)
    → (s.contract == i) ≡ true
    → (row (rows_of_pair (Contracts.forget s rows index)) i).staged ≡ false
forget-unmarked s rows index i e = elim (Bool-cases (row rows s.contract).staged) [
  | inl on ↦
      rw (on, get_or-update rows s.contract i unmark no_contract, e)
        (elim (Bool-cases (ltb s.contract (length rows))) [
          | inl inside ↦ rw inside
          | inr outside ↦ rw outside (past_end rows s.contract i e outside)
        ])
  | inr off ↦
      let same : s.contract ≡ i = ground arith in
      rw off (subst (λ k. (row rows k).staged ≡ false) same off)
]

-- A recorded row is unmarked by the second loop.
forget_all-unmarked :
    (staged : List Staged) (rows : List Contract) (index : ℕ → Option ℕ) (i : ℕ)
    → is_recorded staged i ≡ true
    → (row (rows_of_pair (forget_all staged rows index)) i).staged ≡ false
unfolding is_recorded forget_all
forget_all-unmarked [] rows index i e = absurd (cc)
forget_all-unmarked (s ∷ staged) rows index i e = elim (Bool-cases (s.contract == i)) [
  | inl same ↦
      let step = Contracts.forget s rows index in
      let off = forget-unmarked s rows index i same in
      ap (λ c. c.staged) (forget_all-row staged step.0 step.1 i off) ∙ off
  | inr other ↦
      let step = Contracts.forget s rows index in
      forget_all-unmarked staged step.0 step.1 i
        (or_right (s.contract == i) (is_recorded staged i) other e)
]

-- The loops keep the number of rows and their hashes.
length-keep_all :
    (code_hash_at : ℕ → ℕ) (staged : List Staged) (rows : List Contract)
    → length (keep_all code_hash_at staged rows) ≡ length rows
unfolding keep_all
length-keep_all code_hash_at [] rows = refl
length-keep_all code_hash_at (s ∷ staged) rows =
    length-keep_all code_hash_at staged _ ∙ length-update rows s.contract _

abbrev SameHashes : List Contract → List Contract → Type 0
SameHashes rows rows' =
    (length rows' ≡ length rows) × ((i : ℕ) → (row rows' i).hash ≡ (row rows i).hash)

forget-SameHashes :
    (s : Staged) (rows : List Contract) (index : ℕ → Option ℕ)
    → SameHashes rows (rows_of_pair (Contracts.forget s rows index))
forget-SameHashes s rows index = elim (Bool-cases (row rows s.contract).staged) [
  | inl on ↦ rw on (
    length-update rows s.contract unmark,
    λ i.
        rw (get_or-update rows s.contract i unmark no_contract)
          (same_hash (hits s.contract i rows) i),
  )
  | inr off ↦ rw off (refl, λ i. refl)
]
  where
    same_hash :
        (hit : Bool) (i : ℕ)
        → (if hit then unmark (row rows i) else row rows i).hash ≡ (row rows i).hash
    same_hash true i = refl
    same_hash false i = refl

forget_all-SameHashes :
    (staged : List Staged) (rows : List Contract) (index : ℕ → Option ℕ)
    → SameHashes rows (rows_of_pair (forget_all staged rows index))
unfolding forget_all
forget_all-SameHashes [] rows index = (refl, λ i. refl)
forget_all-SameHashes (s ∷ staged) rows index =
    let step = Contracts.forget s rows index in
    let here = forget-SameHashes s rows index in
    let rest = forget_all-SameHashes staged step.0 step.1 in
    (rest.0 ∙ here.0, λ i. rest.1 i ∙ here.1 i)

if_some : (b : Bool) (o : Option ℕ) (i : ℕ) → (if b then none else o) ≡ some i → o ≡ some i
if_some true o i e = absurd (cc)
if_some false o i e = e

-- `settle_staged` leaves no marked row, and keeps track of the codes of the next transaction.
pub settle_staged-IsTracked :
    (code_hash_at : ℕ → ℕ) (c : Contracts)
    → IsTracked c
    → IsTracked (settle_staged code_hash_at c)
      × ((i : ℕ) → (at i (settle_staged code_hash_at c)).staged ≡ false)
unfolding settle_staged
settle_staged-IsTracked code_hash_at c w = (
  record {
    indexed = record {
      in_range = λ h i e. subst (λ n. i < n) (sym size) (w.indexed.in_range h i (was h i e));
      same_hash =
          λ h i e. hashes.1 i ∙ same_hash code_hash_at c i ∙ w.indexed.same_hash h i (was h i e);
    };
    recorded = λ i e. let off = unmarked i in absurd (cc);
    reachable = λ i e. let off = unmarked i in absurd (cc);
  },
  unmarked,
)
  where
    kept : List Contract
    kept = keep_all code_hash_at c.staged c.contracts

    hashes : SameHashes kept (rows_of_pair (forget_all c.staged kept c.index))
    hashes = forget_all-SameHashes c.staged kept c.index

    size : length (rows_of_pair (forget_all c.staged kept c.index)) ≡ length c.contracts
    size = hashes.0 ∙ length-keep_all code_hash_at c.staged c.contracts

    was :
        (h i : ℕ) → index_of_pair (forget_all c.staged kept c.index) h ≡ some i → c.index h ≡ some i
    was h i e =
        if_some (is_forgotten c.staged kept h) (c.index h) i
          (sym (forget_all-index c.staged kept c.index h) ∙ e)

    unmarked : (i : ℕ) → (row (rows_of_pair (forget_all c.staged kept c.index)) i).staged ≡ false
    unmarked i = elim (Bool-cases (row kept i).staged) [
      | inl on ↦
          forget_all-unmarked c.staged kept c.index i
            (w.recorded i (still_staged code_hash_at c i on))
      | inr off ↦ ap (λ r. r.staged) (forget_all-row c.staged kept c.index i off) ∙ off
    ]
