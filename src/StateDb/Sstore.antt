-- ===== src/StateDb/Sstore.antt =====
-- What `compute_storage_status` answers, against the nine shapes that the EVMC documents for a write:
-- the slot's value at the start of the transaction, its value before the write, and the value written.
use ziskethone.Prelude.{ℕ, ◌≡◌, ◌≢◌, arith, ◌⊎◌, ◌↔◌}
use ziskethone.StateDb.Status.{
  StorageStatus, assigned, added, deleted, modified, deleted_added, modified_deleted,
  deleted_restored, added_deleted, modified_restored, compute_storage_status,
}

-- `0 -> 0 -> Z`, `X -> X -> 0` and so on, where X, Y and Z are three values other than 0.
abbrev pub HasShape : StorageStatus → ℕ → ℕ → ℕ → Type 0
HasShape assigned o c n = (c ≡ n) ⊎ ((c ≢ 0) × (n ≢ 0) × (o ≢ c) × (o ≢ n) × (c ≢ n))
HasShape added o c n = (o ≡ 0) × (c ≡ 0) × (n ≢ 0)
HasShape deleted o c n = (o ≢ 0) × (c ≡ o) × (n ≡ 0)
HasShape modified o c n = (o ≢ 0) × (c ≡ o) × (n ≢ 0) × (n ≢ o)
HasShape deleted_added o c n = (o ≢ 0) × (c ≡ 0) × (n ≢ 0) × (n ≢ o)
HasShape modified_deleted o c n = (o ≢ 0) × (c ≢ 0) × (c ≢ o) × (n ≡ 0)
HasShape deleted_restored o c n = (o ≢ 0) × (c ≡ 0) × (n ≡ o)
HasShape added_deleted o c n = (o ≡ 0) × (c ≢ 0) × (n ≡ 0)
HasShape modified_restored o c n = (o ≢ 0) × (c ≢ 0) × (c ≢ o) × (n ≡ o)

-- `compute_storage_status` answers each of the nine statuses exactly for the writes of its shape.
pub compute_storage_status_lem :
    (status : StorageStatus) (original current new_value : ℕ)
    → (compute_storage_status original current new_value ≡ status)
      ↔ HasShape status original current new_value
unfolding compute_storage_status
compute_storage_status_lem assigned o c n = (λ h. grind arith, λ h. ground arith)
compute_storage_status_lem added o c n = (λ h. ground arith, λ h. ground arith)
compute_storage_status_lem deleted o c n = (λ h. ground arith, λ h. ground arith)
compute_storage_status_lem modified o c n = (λ h. ground arith, λ h. ground arith)
compute_storage_status_lem deleted_added o c n = (λ h. ground arith, λ h. ground arith)
compute_storage_status_lem modified_deleted o c n = (λ h. ground arith, λ h. ground arith)
compute_storage_status_lem deleted_restored o c n = (λ h. ground arith, λ h. ground arith)
compute_storage_status_lem added_deleted o c n = (λ h. ground arith, λ h. ground arith)
compute_storage_status_lem modified_restored o c n = (λ h. ground arith, λ h. ground arith)
