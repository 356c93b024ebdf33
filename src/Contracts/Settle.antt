-- ===== src/Contracts/Settle.antt =====
-- The end of a transaction in the table of codes: which codes stay.
use ziskethone.Prelude.{
  ℕ, ◌≡◌, refl, sym, ap, ◌∙◌, arith, true, false, not, ◌&&◌, Option, none, some, List, ◌==◌,
  if◌then◌else◌, Bool-cases, Option-cases, inl, inr, subst, Result, ◌>>=◌, ok, fatal,
}
use ziskethone.Contracts
use ziskethone.Contracts.Lookup.{IsIndexed}
use ziskethone.Contracts.{
  Contract, Staged, Contracts, Fault, missing_code, by_hash, at, no_contract, keep, keep_all,
  forget, forget_all, assign, settle_staged,
}
use ziskethone.Contracts.Loops.{
  row, marked, rows_of_pair, index_of_pair, keep_all-row, is_owned, is_recorded, is_forgotten,
  is_forgotten-recorded, is_forgotten-unmarked_all, and_left, both_none, forget_all-index,
  forget_all-row,
}

-- Every marked row has a record and is the one that its hash leads to.
pub record IsTracked (c : Contracts) : Type 0 where
  pub indexed : IsIndexed c
  pub recorded : (i : ℕ) → (at i c).staged ≡ true → is_recorded c.staged i ≡ true
  pub reachable : (i : ℕ) → (at i c).staged ≡ true → c.index (at i c).hash ≡ some i

-- What a lookup answers once the transaction is settled: a code that it deployed stays where an owner
-- still has its hash, and then is unmarked.
abbrev pub surviving : (ℕ → ℕ) → Contracts → ℕ → Option ℕ → Result Fault Contract
surviving code_hash_at c h none = fatal missing_code
surviving code_hash_at c h (some i) =
    if (at i c).staged && not (is_owned code_hash_at c.staged i h)
    then fatal missing_code
    else ok (record (at i c) { staged = false })

abbrev answer : List Contract → Option ℕ → Result Fault Contract
answer rows none = fatal missing_code
answer rows (some i) = ok (row rows i)

as_answer :
    (rows : List Contract) (o : Option ℕ)
    → (Contracts.found o >>= λ idx. ok (row rows idx)) ≡ answer rows o
as_answer rows none = refl
as_answer rows (some i) = refl

abbrev some_row : ℕ → Option ℕ
some_row i = some i

some_injective : {i k : ℕ} → some_row i ≡ some_row k → i ≡ k
some_injective e = cc

module _ (code_hash_at : ℕ → ℕ) (c : Contracts) where
  abbrev kept_rows : List Contract
  kept_rows = keep_all code_hash_at c.staged c.contracts

  kept_row :
      (i : ℕ)
      → row kept_rows i
        ≡ marked ((at i c).staged && not (is_owned code_hash_at c.staged i (at i c).hash)) (at i c)
  kept_row i = keep_all-row code_hash_at c.staged c.contracts i

  pub same_hash : (i : ℕ) → (row kept_rows i).hash ≡ (at i c).hash
  same_hash i = ap (λ r. r.hash) (kept_row i)

  pub still_staged : (i : ℕ) → (row kept_rows i).staged ≡ true → (at i c).staged ≡ true
  still_staged i e = and_left _ _ (sym (ap (λ r. r.staged) (kept_row i)) ∙ e)

  -- No marked row has a hash that the index lacks or that leads to an unmarked row.
  not_forgotten :
      (h : ℕ)
      → IsTracked c
      → ((k : ℕ) → c.index h ≡ some k → (row kept_rows k).staged ≡ false)
      → is_forgotten c.staged kept_rows h ≡ false
  not_forgotten h w none_marked = is_forgotten-unmarked_all c.staged kept_rows h each
    where
      each : (k : ℕ) → ((row kept_rows k).staged && (h == (row kept_rows k).hash)) ≡ false
      each k = elim (Bool-cases (row kept_rows k).staged) [
        | inr off ↦ rw off
        | inl on ↦ elim (Bool-cases (h == (row kept_rows k).hash)) [
          | inr other ↦ rw (on, other)
          | inl same ↦
              let h_at_k : h ≡ (row kept_rows k).hash = ground arith in
              let h_of_k : (at k c).hash ≡ h = sym (same_hash k) ∙ sym h_at_k in
              let leads : c.index h ≡ some k =
                subst (λ x. c.index x ≡ some k) h_of_k (w.reachable k (still_staged k on)) in
              let off = none_marked k leads in absurd (cc)
        ]
      ]

  lookup :
      (h : ℕ)
      → by_hash h (settle_staged code_hash_at c)
        ≡ answer
            (rows_of_pair (forget_all c.staged kept_rows c.index))
            (if is_forgotten c.staged kept_rows h then none else c.index h)
  unfolding by_hash settle_staged
  lookup h =
      as_answer (rows_of_pair settled) (index_of_pair settled h)
      ∙ ap (answer (rows_of_pair settled)) (forget_all-index c.staged kept_rows c.index h)
    where
      settled : List Contract × (ℕ → Option ℕ)
      settled = forget_all c.staged kept_rows c.index

  staged_at :
      (h i : ℕ)
      → IsTracked c
      → c.index h ≡ some i
      → (row kept_rows i).staged ≡ ((at i c).staged && not (is_owned code_hash_at c.staged i h))
  staged_at h i w e =
      ap (λ r. r.staged) (kept_row i)
      ∙ ap (λ x. (at i c).staged && not (is_owned code_hash_at c.staged i x))
          (w.indexed.same_hash h i e)

  found_case :
      (h i : ℕ)
      → IsTracked c
      → c.index h ≡ some i
      → by_hash h (settle_staged code_hash_at c) ≡ surviving code_hash_at c h (some i)
  found_case h i w e =
      elim (Bool-cases ((at i c).staged && not (is_owned code_hash_at c.staged i h))) [
        | inl gone ↦
            let on : (row kept_rows i).staged ≡ true = staged_at h i w e ∙ gone in
            let test : (h == (row kept_rows i).hash) ≡ true =
              rw (same_hash i, w.indexed.same_hash h i e) (ground arith) in
            let forgotten : is_forgotten c.staged kept_rows h ≡ true =
              is_forgotten-recorded c.staged kept_rows h i (w.recorded i (and_left _ _ gone)) on
                test in
            lookup h ∙ rw (gone, forgotten)
        | inr stays ↦
            let off : (row kept_rows i).staged ≡ false = staged_at h i w e ∙ stays in
            let kept = not_forgotten h w (λ k f.
              let same : i ≡ k = some_injective (sym e ∙ f) in
              subst (λ x. (row kept_rows x).staged ≡ false) same off) in
            lookup h
            ∙ rw (kept, e, stays, forget_all-row c.staged kept_rows c.index i off)
                (ap ok (
                  kept_row i
                  ∙ ap (λ b. marked b (at i c)) (sym (ap (λ r. r.staged) (kept_row i)) ∙ off)))
      ]

  -- In a table whose marked rows are recorded and are those that their hashes lead to, a lookup after
  -- `settle_staged` answers as before, but for a code that was marked and whose hash no recorded owner
  -- has: that one is gone.
  pub by_hash-settle_staged :
      (h : ℕ)
      → IsTracked c
      → by_hash h (settle_staged code_hash_at c) ≡ surviving code_hash_at c h (c.index h)
  by_hash-settle_staged h w = elim (Option-cases (c.index h)) [
    | inl e ↦
        lookup h ∙ rw e (ap (answer _) (both_none (is_forgotten c.staged kept_rows h) none refl))
    | inr (i, e) ↦ rw e (found_case h i w e)
  ]
