-- ===== src/Contracts/Lookup.antt =====
-- What a lookup by hash finds in the table of codes.
use ziskethone.Prelude.{
  ℕ, ◌≡◌, ◌<◌, sym, arith, true, Option, none, some, List, [], ◌∷◌, ◌++◌, ◌==◌, if◌then◌else◌,
  length, get_or, get_or-append_left, get_or-append_last, Result, ok, Option-cases, Bool-cases, inl,
  inr, ◌⊎◌, ◌∙◌, not, ◌&&◌, length-append,
}
use ziskethone.Contracts
use ziskethone.Contracts.{Contract, Contracts, at, by_hash, has, insert, index_of, no_contract}

-- Every entry of the index is a row that has its hash.
pub record IsIndexed (c : Contracts) : Type 0 where
  pub in_range : (h i : ℕ) → c.index h ≡ some i → i < length c.contracts
  pub same_hash : (h i : ℕ) → c.index h ≡ some i → (at i c).hash ≡ h

abbrev index_with : ℕ → ℕ → Contracts → ℕ → Option ℕ
index_with hash i c h = if h == hash then some i else c.index h

-- An entry of the index with one more hash: the new one, or one from before.
index_with-cases :
    (hash n : ℕ) (c : Contracts) (h i : ℕ)
    → index_with hash n c h ≡ some i
    → ((hash ≡ h) × (n ≡ i)) ⊎ (c.index h ≡ some i)
index_with-cases hash n c h i f = elim (Bool-cases (h == hash)) [
  | inl hit ↦ inl (ground arith, ground arith)
  | inr miss ↦ inr (ground arith)
]

insert_new-IsIndexed :
    (hash : ℕ) (code : List ℕ) (owner : ℕ) (c : Contracts)
    → IsIndexed c
    → c.index hash ≡ none
    → IsIndexed (insert hash code owner c)
unfolding insert
insert_new-IsIndexed hash code owner c w e =
    rw e (record { in_range = λ h i f. ranged h i f; same_hash = λ h i f. hashed h i f })
  where
    row : Contract
    row = record { hash = hash; code = code; staged = true }

    ranged :
        (h i : ℕ)
        → index_with hash (length c.contracts) c h ≡ some i
        → i < length (c.contracts ++ (row ∷ []))
    ranged h i f = elim (index_with-cases hash (length c.contracts) c h i f) [
      | inl (a, b) ↦ omega (arith, length-append c.contracts (row ∷ []))
      | inr old ↦ omega (arith, length-append c.contracts (row ∷ []), w.in_range h i old)
    ]

    hashed :
        (h i : ℕ)
        → index_with hash (length c.contracts) c h ≡ some i
        → (get_or (c.contracts ++ (row ∷ [])) i no_contract).hash ≡ h
    hashed h i f = elim (index_with-cases hash (length c.contracts) c h i f) [
      | inl (a, b) ↦ rw (sym b, get_or-append_last c.contracts row no_contract) a
      | inr old ↦
          rw (get_or-append_left c.contracts (row ∷ []) i no_contract (w.in_range h i old))
            (w.same_hash h i old)
    ]

-- `insert` keeps the index sound: each entry is a row in range that has the entry's hash.
pub insert-IsIndexed :
    (hash : ℕ) (code : List ℕ) (owner : ℕ) (c : Contracts)
    → IsIndexed c
    → IsIndexed (insert hash code owner c)
unfolding insert
insert-IsIndexed hash code owner c w = elim (Option-cases (c.index hash)) [
  | inl e ↦ insert_new-IsIndexed hash code owner c w e
  | inr (i, e) ↦ rw e (elim (Bool-cases (at i c).staged) [
    | inl on ↦ rw on (record { in_range = w.in_range; same_hash = w.same_hash })
    | inr off ↦ rw off w
  ])
]

-- The answer for `h` after `insert` of a hash that has no entry.
by_hash-insert_new :
    (hash : ℕ) (code : List ℕ) (owner : ℕ) (c : Contracts) (h : ℕ)
    → IsIndexed c
    → c.index hash ≡ none
    → by_hash h (insert hash code owner c)
      ≡ (if h == hash then ok (record { hash = hash; code = code; staged = true }) else by_hash h c)
unfolding insert by_hash
by_hash-insert_new hash code owner c h w e = rw e (elim (Bool-cases (h == hash)) [
  | inl hit ↦ rw (hit, get_or-append_last c.contracts row no_contract)
  | inr miss ↦ rw miss (elim (Option-cases (c.index h)) [
    | inl absent ↦ rw absent
    | inr (i, f) ↦
        rw (f, get_or-append_left c.contracts (row ∷ []) i no_contract (w.in_range h i f))
  ])
])
  where
    row : Contract
    row = record { hash = hash; code = code; staged = true }

-- Inserting a hash that has an entry changes no lookup.
known_index :
    (hash : ℕ) (code : List ℕ) (owner : ℕ) (c : Contracts) (h i : ℕ)
    → c.index hash ≡ some i
    → by_hash h (insert hash code owner c) ≡ by_hash h c
unfolding insert by_hash
known_index hash code owner c h i e =
    rw e (elim (Bool-cases (at i c).staged) [ inl on ↦ rw on | inr off ↦ rw off ])

-- After `insert` in a table whose index is sound, the inserted hash leads to the code given with it
-- where the table had none, and every other lookup answers as before, also that of a hash which the
-- table had.
pub by_hash-insert :
    (hash : ℕ) (code : List ℕ) (owner : ℕ) (c : Contracts) (h : ℕ)
    → IsIndexed c
    → by_hash h (insert hash code owner c) ≡ (
        if (h == hash) && not (has hash c)
        then ok (record { hash = hash; code = code; staged = true })
        else by_hash h c)
unfolding has
by_hash-insert hash code owner c h w = elim (Option-cases (c.index hash)) [
  | inl e ↦ by_hash-insert_new hash code owner c h w e ∙ same_test e
  | inr (i, e) ↦ known i e ∙ other_test i e
]
  where
    new : Result Contracts.Fault Contract
    new = ok (record { hash = hash; code = code; staged = true })

    same_test :
        c.index hash ≡ none
        → (if h == hash then new else by_hash h c)
          ≡ (if (h == hash) && not (Contracts.is_some (c.index hash)) then new else by_hash h c)
    same_test e = rw e (ground arith)

    known : (i : ℕ) → c.index hash ≡ some i → by_hash h (insert hash code owner c) ≡ by_hash h c
    known i e = known_index hash code owner c h i e

    other_test :
        (i : ℕ)
        → c.index hash ≡ some i
        → by_hash h c
          ≡ (if (h == hash) && not (Contracts.is_some (c.index hash)) then new else by_hash h c)
    other_test i e = rw e (ground arith)
