-- ===== src/StateDb/Status.antt =====
-- `compute_storage_status` and `set_storage` of cpp-guest/src/zisk_state_db.cpp.
use ziskethone.Prelude.{ℕ, not, ◌&&◌, ◌==◌, if◌then◌else◌, Result, ok, ◌>>=◌}
use ziskethone.Storages
use ziskethone.StateDb.{State, Fault, storage_row, write_slot}

-- `evmc_storage_status`
pub data StorageStatus : Type 0 where
  assigned added deleted modified deleted_added modified_deleted deleted_restored added_deleted
        modified_restored :
      StorageStatus

unfoldable pub compute_storage_status : ℕ → ℕ → ℕ → StorageStatus
compute_storage_status original current new_value =
    if new_value == current
    then assigned
    else if original == current
    then (if original == 0 then added else if new_value == 0 then deleted else modified)
    else if not (original == 0) && current == 0
    then (if new_value == original then deleted_restored else deleted_added)
    else if not (original == 0) && new_value == 0
    then modified_deleted
    else if original == 0 && new_value == 0
    then added_deleted
    else if original == new_value
    then modified_restored
    else assigned

unfoldable pub set_storage : ℕ → ℕ → ℕ → State → Result Fault (StorageStatus × State)
set_storage addr key value s = do
  (idx, s1) ← storage_row addr key s
  let original = Storages.tx_original_at idx s1.storages
  let current = Storages.value_at idx s1.storages
  ok (compute_storage_status original current value, write_slot idx value s1)
