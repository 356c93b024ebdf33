-- ===== src/Contracts/Loops.antt =====
-- The two loops of `settle_staged`, row by row and hash by hash.
use ziskethone.Prelude.{
  ℕ, ◌≡◌, refl, ap, ◌∙◌, arith, Bool, true, false, not, ◌&&◌, ◌||◌, Option, none, List, [], ◌∷◌,
  ◌==◌, if◌then◌else◌, length, get_or, ltb, Bool-cases, inl, inr, subst,
}
use ziskethone.Prelude.Rows.{update, hits, get_or-update}
use ziskethone.Contracts.{Contract, Staged, no_contract, keep, keep_all, forget_all, assign}

abbrev pub row : List Contract → ℕ → Contract
row rows i = get_or rows i no_contract

-- Whether a record says that the account `owner` has the row's code, at the transaction's end.
unfoldable pub is_owned : (ℕ → ℕ) → List Staged → ℕ → ℕ → Bool
is_owned code_hash_at [] i hash = false
is_owned code_hash_at (s ∷ staged) i hash =
    (s.contract == i && code_hash_at s.owner == hash) || is_owned code_hash_at staged i hash

abbrev pub marked : Bool → Contract → Contract
marked b c = record c { staged = b }

and_not : (b x o : Bool) → (b && not x) && not o ≡ b && not (x || o)
and_not true true o = refl
and_not true false o = refl
and_not false x o = refl

and_true : (b : Bool) → b ≡ b && true
and_true true = refl
and_true false = refl

-- One row after one step of the first loop. A row past the table is not marked.
keep-marked :
    (e n same : Bool) (r : Contract)
    → (e ≡ true → n ≡ false → r.staged ≡ false)
    → (if e && n then (if r.staged && same then marked false r else r) else r)
      ≡ marked (r.staged && not (e && same)) r
keep-marked e n same r past = go e n same r.staged refl past
  where
    as_marked : (b : Bool) → r.staged ≡ b → r ≡ marked b r
    as_marked b f = ap (λ c. marked c r) f

    go :
        (e n same b : Bool)
        → r.staged ≡ b
        → (e ≡ true → n ≡ false → r.staged ≡ false)
        → (if e && n then (if b && same then marked false r else r) else r)
          ≡ marked (b && not (e && same)) r
    go true true true true f past = refl
    go true true true false f past = as_marked false f
    go true true false true f past = as_marked true f
    go true true false false f past = as_marked false f
    go true false same true f past = absurd (let off = past refl refl in cc)
    go true false same false f past = as_marked false f
    go false n same true f past = as_marked true f
    go false n same false f past = as_marked false f

pub past_end :
    (rows : List Contract) (i j : ℕ)
    → (i == j) ≡ true
    → ltb i (length rows) ≡ false
    → (row rows j).staged ≡ false
past_end [] i j e h = refl
past_end (r ∷ rows) i ℕ.zero e h = absurd (ground arith)
past_end (r ∷ rows) i (ℕ.suc j) e h = past_end rows j j (ground arith) (ground arith)

keep-row :
    (code_hash_at : ℕ → ℕ) (s : Staged) (rows : List Contract) (i : ℕ)
    → row (update rows s.contract (keep code_hash_at s)) i
      ≡ marked
          ((row rows i).staged
            && not ((s.contract == i) && (code_hash_at s.owner == (row rows i).hash)))
          (row rows i)
keep-row code_hash_at s rows i =
    get_or-update rows s.contract i (keep code_hash_at s) no_contract
    ∙ keep-marked (s.contract == i) (ltb s.contract (length rows))
        (code_hash_at s.owner == (row rows i).hash) (row rows i) (past_end rows s.contract i)

-- The first loop unmarks the rows that are owned, and changes nothing else.
pub keep_all-row :
    (code_hash_at : ℕ → ℕ) (staged : List Staged) (rows : List Contract) (i : ℕ)
    → row (keep_all code_hash_at staged rows) i ≡ record (row rows i) {
      staged = (row rows i).staged && not (is_owned code_hash_at staged i (row rows i).hash);
    }
unfolding keep_all is_owned
keep_all-row code_hash_at [] rows i = ap (λ b. marked b (row rows i)) (and_true (row rows i).staged)
keep_all-row code_hash_at (s ∷ staged) rows i = rw (
  keep_all-row code_hash_at staged (update rows s.contract (keep code_hash_at s)) i,
  keep-row code_hash_at s rows i,
  and_not (row rows i).staged ((s.contract == i) && (code_hash_at s.owner == (row rows i).hash))
      (is_owned code_hash_at staged i (row rows i).hash),
)

-- Whether a record's row is marked and has the hash: such a hash leaves the index.
unfoldable pub is_forgotten : List Staged → List Contract → ℕ → Bool
is_forgotten [] rows h = false
is_forgotten (s ∷ staged) rows h =
    ((row rows s.contract).staged && (h == (row rows s.contract).hash))
    || is_forgotten staged rows h

abbrev pub index_of_pair : List Contract × (ℕ → Option ℕ) → ℕ → Option ℕ
index_of_pair r = r.1

abbrev pub unmark : Contract → Contract
unmark c = record c { code = []; staged = false }

and_false : (b o : Bool) → o ≡ ((b && false) || o)
and_false true o = refl
and_false false o = refl

pub both_none : (b : Bool) (o : Option ℕ) → o ≡ none → (if b then none else o) ≡ none
both_none true o e = refl
both_none false o e = e

-- Unmarking the row of another hash forgets no less of this one.
is_forgotten-unmarked :
    (staged : List Staged) (rows : List Contract) (k h : ℕ)
    → (h == (row rows k).hash) ≡ false
    → is_forgotten staged (update rows k unmark) h ≡ is_forgotten staged rows h
unfolding is_forgotten
is_forgotten-unmarked [] rows k h e = refl
is_forgotten-unmarked (s ∷ staged) rows k h e =
    rw (get_or-update rows k s.contract unmark no_contract, is_forgotten-unmarked staged rows k h e)
      (elim (Bool-cases (hits k s.contract rows)) [
        | inl hit ↦
            let same : k ≡ s.contract = ground arith in
            let other : (h == (row rows s.contract).hash) ≡ false =
              subst (λ i. (h == (row rows i).hash) ≡ false) same e in
            rw (hit, other) (and_false (row rows s.contract).staged (is_forgotten staged rows h))
        | inr miss ↦ rw miss
      ])

pub forget_all-index :
    (staged : List Staged) (rows : List Contract) (index : ℕ → Option ℕ) (h : ℕ)
    → index_of_pair (forget_all staged rows index) h
      ≡ (if is_forgotten staged rows h then none else index h)
unfolding forget_all is_forgotten
forget_all-index [] rows index h = refl
forget_all-index (s ∷ staged) rows index h = elim (Bool-cases (row rows s.contract).staged) [
  | inl on ↦ rw on (
      forget_all-index staged (update rows s.contract unmark)
        (assign (row rows s.contract).hash none index) h
      ∙ elim (Bool-cases (h == (row rows s.contract).hash)) [
        | inl hit ↦
            rw hit (both_none (is_forgotten staged (update rows s.contract unmark) h) none refl)
        | inr miss ↦ rw (is_forgotten-unmarked staged rows s.contract h miss, miss)
      ])
  | inr off ↦ rw off (forget_all-index staged rows index h)
]

abbrev pub rows_of_pair : List Contract × (ℕ → Option ℕ) → List Contract
rows_of_pair r = r.0

pub forget_all-row :
    (staged : List Staged) (rows : List Contract) (index : ℕ → Option ℕ) (i : ℕ)
    → (row rows i).staged ≡ false
    → row (rows_of_pair (forget_all staged rows index)) i ≡ row rows i
unfolding forget_all
forget_all-row [] rows index i e = refl
forget_all-row (s ∷ staged) rows index i e = elim (Bool-cases (row rows s.contract).staged) [
  | inl on ↦ rw on (
      let kept : row (update rows s.contract unmark) i ≡ row rows i =
        get_or-update rows s.contract i unmark no_contract ∙ missed on in
      forget_all-row staged (update rows s.contract unmark)
        (assign (row rows s.contract).hash none index) i (ap (λ c. c.staged) kept ∙ e)
      ∙ kept)
  | inr off ↦ rw off (forget_all-row staged rows index i e)
]
  where
    missed :
        (row rows s.contract).staged ≡ true
        → (if hits s.contract i rows then unmark (row rows i) else row rows i) ≡ row rows i
    missed on = elim (Bool-cases (hits s.contract i rows)) [
      | inl hit ↦
          let same : s.contract ≡ i = ground arith in
          let both : (row rows i).staged ≡ true = subst (λ k. (row rows k).staged ≡ true) same on in
          absurd (cc)
      | inr miss ↦ rw miss
    ]

-- Whether some record is of the row.
unfoldable pub is_recorded : List Staged → ℕ → Bool
is_recorded [] i = false
is_recorded (s ∷ staged) i = (s.contract == i) || is_recorded staged i

pub or_right : (a b : Bool) → a ≡ false → (a || b) ≡ true → b ≡ true
or_right true b e f = absurd (cc)
or_right false b e f = f

pub and_left : (a b : Bool) → (a && b) ≡ true → a ≡ true
and_left true b e = refl
and_left false b e = e

pub or_true : (a : Bool) → (a || true) ≡ true
or_true true = refl
or_true false = refl

pub is_forgotten-recorded :
    (staged : List Staged) (rows : List Contract) (h i : ℕ)
    → is_recorded staged i ≡ true
    → (row rows i).staged ≡ true
    → (h == (row rows i).hash) ≡ true
    → is_forgotten staged rows h ≡ true
unfolding is_recorded is_forgotten
is_forgotten-recorded [] rows h i r e f = absurd (cc)
is_forgotten-recorded (s ∷ staged) rows h i r e f = elim (Bool-cases (s.contract == i)) [
  | inl same ↦
      let at_i : i ≡ s.contract = ground arith in
      rw (
        subst (λ k. (row rows k).staged ≡ true) at_i e,
        subst (λ k. (h == (row rows k).hash) ≡ true) at_i f,
      )
  | inr other ↦
      let rest =
        is_forgotten-recorded staged rows h i
          (or_right (s.contract == i) (is_recorded staged i) other r) e f in
      rw rest (or_true _)
]

pub is_forgotten-unmarked_all :
    (staged : List Staged) (rows : List Contract) (h : ℕ)
    → ((k : ℕ) → ((row rows k).staged && (h == (row rows k).hash)) ≡ false)
    → is_forgotten staged rows h ≡ false
unfolding is_forgotten
is_forgotten-unmarked_all [] rows h e = refl
is_forgotten-unmarked_all (s ∷ staged) rows h e =
    rw (e s.contract, is_forgotten-unmarked_all staged rows h e)
