-- ===== src/Contracts/Tests.antt =====
-- Codes that a transaction deploys.
use ziskethone.Prelude.{ℕ, ◌≡◌, refl, false, none, [], ◌∷◌, ◌==◌, if◌then◌else◌, fatal}
use ziskethone.Contracts.{Contracts, at, by_hash, insert, settle_staged, missing_code}
use ziskethone.Contracts.Loops.{is_owned}
use ziskethone.Contracts.Settle.{IsTracked, by_hash-settle_staged}
use ziskethone.Contracts.Tracked.{insert-IsTracked, settle_staged-IsTracked}

abbrev empty : Contracts
empty = record { contracts = []; index = λ h. none; staged = [] }

no_rows : (i : ℕ) → (at i empty).staged ≡ false
no_rows i = refl

empty-IsTracked : IsTracked empty
empty-IsTracked = record {
  indexed = record { in_range = λ h i e. absurd (cc); same_hash = λ h i e. absurd (cc) };
  recorded = λ i e. let off = no_rows i in absurd (cc);
  reachable = λ i e. let off = no_rows i in absurd (cc);
}

-- The code 0x60 0x00 with the hash 2, deployed on row 1, and another with the hash 5 on row 0.
abbrev deployed : Contracts
deployed = insert 5 (0xff ∷ []) 0 (insert 2 (0x60 ∷ 0x00 ∷ []) 1 empty)

deployed-IsTracked : IsTracked deployed
deployed-IsTracked =
    insert-IsTracked 5 (0xff ∷ []) 0 _
      (insert-IsTracked 2 (0x60 ∷ 0x00 ∷ []) 1 empty empty-IsTracked)

insert-IsTracked_example : IsTracked (insert 2 (0x60 ∷ 0x00 ∷ []) 1 empty)
insert-IsTracked_example = insert-IsTracked 2 (0x60 ∷ 0x00 ∷ []) 1 empty empty-IsTracked

-- At the end row 1 has the hash 2, and no row the hash 5.
abbrev hash_at : ℕ → ℕ
hash_at row = if row == 1 then 2 else 0

by_hash-settle_staged_example : by_hash 5 (settle_staged hash_at deployed) ≡ fatal missing_code
unfolding insert is_owned
by_hash-settle_staged_example = by_hash-settle_staged hash_at deployed 5 deployed-IsTracked

settle_staged-IsTracked_example :
    IsTracked (settle_staged hash_at deployed)
    × ((i : ℕ) → (at i (settle_staged hash_at deployed)).staged ≡ false)
settle_staged-IsTracked_example = settle_staged-IsTracked hash_at deployed deployed-IsTracked
