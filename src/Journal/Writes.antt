-- ===== src/Journal/Writes.antt =====
-- Each kind of logged write, and the entry that undoes it.
use ziskethone.Prelude.{ℕ, refl, arith, ltb, if◌then◌else◌, Bool}
use ziskethone.Accounts
use ziskethone.Accounts.View.{SameAccounts, SameAccounts-refl, SameAccounts-restore, view_at}
use ziskethone.Storages
use ziskethone.Storages.View as StoragesView
use ziskethone.Storages.View.{SameStorages, SameStorages-refl, SameStorages-restore}
use ziskethone.WarmKeys.{SameWarmKeys-refl}
use ziskethone.Journal.{World, undo, nonce, balance, code_hash, storage, account_warm, storage_warm}
use ziskethone.Journal.Same.{SameWorld}

-- Worlds that differ in one table.
abbrev with_accounts : World → Accounts.Accounts → World
with_accounts w a = record w { accounts = a }

abbrev with_storages : World → Storages.Storages → World
with_storages w s = record w { storages = s }

pub SameWorld-accounts :
    {exact : Bool} (w : World) (a : Accounts.Accounts)
    → SameAccounts exact a w.accounts
    → SameWorld exact (record w { accounts = a }) w
SameWorld-accounts w a h = record {
  accounts = h;
  storages = SameStorages-refl w.storages;
  warm_keys = SameWarmKeys-refl w.warm_keys;
  transients = λ x p. refl;
  pending = λ i. refl;
}

pub SameWorld-storages :
    {exact : Bool} (w : World) (s : Storages.Storages)
    → SameStorages exact s w.storages
    → SameWorld exact (record w { storages = s }) w
SameWorld-storages w s h = record {
  accounts = SameAccounts-refl w.accounts;
  storages = h;
  warm_keys = SameWarmKeys-refl w.warm_keys;
  transients = λ x p. refl;
  pending = λ i. refl;
}

module _ (i v tx : ℕ) (w : World) where
  pub undo-set_nonce_at :
      {exact : Bool}
      → SameWorld exact
          (undo
            (nonce i (Accounts.nonce_at i w.accounts) (Accounts.last_tx_idx_at i w.accounts))
            (record w { accounts = Accounts.set_nonce_at i v tx w.accounts }))
          w
  unfolding undo Accounts.set_nonce_at Accounts.nonce_at Accounts.last_tx_idx_at view_at
  undo-set_nonce_at = SameWorld-accounts w _ (
      SameAccounts-restore (Accounts.with_nonce v tx)
        (Accounts.with_nonce (Accounts.nonce_at i w.accounts)
          (Accounts.last_tx_idx_at i w.accounts))
        (λ r. record r { nonce = v; last_tx_idx = tx })
        (λ r. record r {
          nonce = Accounts.nonce_at i w.accounts;
          last_tx_idx = Accounts.last_tx_idx_at i w.accounts;
        })
        (λ o m. refl) (λ o m. refl) i w.accounts refl)

  pub undo-set_balance_at :
      {exact : Bool}
      → SameWorld exact
          (undo
            (balance i (Accounts.balance_at i w.accounts) (Accounts.last_tx_idx_at i w.accounts))
            (record w { accounts = Accounts.set_balance_at i v tx w.accounts }))
          w
  unfolding undo Accounts.set_balance_at Accounts.balance_at Accounts.last_tx_idx_at view_at
  undo-set_balance_at = SameWorld-accounts w _ (
      SameAccounts-restore (Accounts.with_balance v tx)
        (Accounts.with_balance (Accounts.balance_at i w.accounts)
          (Accounts.last_tx_idx_at i w.accounts))
        (λ r. record r { balance = v; last_tx_idx = tx })
        (λ r. record r {
          balance = Accounts.balance_at i w.accounts;
          last_tx_idx = Accounts.last_tx_idx_at i w.accounts;
        })
        (λ o m. refl) (λ o m. refl) i w.accounts refl)

  pub undo-set_code_hash_at :
      {exact : Bool}
      → SameWorld exact
          (undo
            (code_hash i
              (Accounts.code_hash_at i w.accounts)
              (Accounts.last_tx_idx_at i w.accounts))
            (record w { accounts = Accounts.set_code_hash_at i v tx w.accounts }))
          w
  unfolding undo Accounts.set_code_hash_at Accounts.code_hash_at Accounts.last_tx_idx_at view_at
  undo-set_code_hash_at = SameWorld-accounts w _ (
      SameAccounts-restore (Accounts.with_code_hash v tx)
        (Accounts.with_code_hash (Accounts.code_hash_at i w.accounts)
          (Accounts.last_tx_idx_at i w.accounts))
        (λ r. record r { code_hash = v; last_tx_idx = tx })
        (λ r. record r {
          code_hash = Accounts.code_hash_at i w.accounts;
          last_tx_idx = Accounts.last_tx_idx_at i w.accounts;
        })
        (λ o m. refl) (λ o m. refl) i w.accounts refl)

  pub undo-set_value_at :
      {exact : Bool}
      → SameWorld exact
          (undo
            (storage i (Storages.value_at i w.storages) (Storages.last_tx_idx_at i w.storages))
            (record w { storages = Storages.set_value_at i v tx w.storages }))
          w
  unfolding undo Storages.set_value_at Storages.value_at Storages.last_tx_idx_at
      StoragesView.view_at
  undo-set_value_at = SameWorld-storages w _ (
      SameStorages-restore (Storages.with_value v tx)
        (Storages.with_value (Storages.value_at i w.storages)
          (Storages.last_tx_idx_at i w.storages))
        (λ r. record r { value = v; last_tx_idx = tx })
        (λ r. record r {
          value = Storages.value_at i w.storages;
          last_tx_idx = Storages.last_tx_idx_at i w.storages;
        })
        (λ o m. refl) (λ o m. refl) i w.storages refl)

module _ (i tx : ℕ) (w : World) where
  pub undo-mark_touched_at :
      {exact : Bool}
      → SameWorld exact
          (undo
            (account_warm i (Accounts.last_tx_idx_at i w.accounts))
            (record w { accounts = Accounts.mark_touched_at i tx w.accounts }))
          w
  unfolding undo Accounts.mark_touched_at Accounts.set_warm_at Accounts.last_tx_idx_at view_at
  undo-mark_touched_at = SameWorld-accounts w _ (
      SameAccounts-restore (Accounts.with_touch tx)
        (Accounts.with_warm (Accounts.last_tx_idx_at i w.accounts))
        (λ r. if ltb r.last_tx_idx tx then record r { last_tx_idx = tx } else r)
        (λ r. record r { last_tx_idx = Accounts.last_tx_idx_at i w.accounts }) (λ o m. ground arith)
        (λ o m. refl) i w.accounts (ground arith))

  pub undo-touch_slot :
      {exact : Bool}
      → SameWorld exact
          (undo
            (storage_warm i (Storages.last_tx_idx_at i w.storages))
            (record w { storages = Storages.mark_touched_at i tx w.storages }))
          w
  unfolding undo Storages.mark_touched_at Storages.set_warm_at Storages.last_tx_idx_at
      StoragesView.view_at
  undo-touch_slot = SameWorld-storages w _ (
      SameStorages-restore (Storages.with_touch (Storages.value_at i w.storages) tx)
        (Storages.with_warm (Storages.last_tx_idx_at i w.storages))
        (λ r. if ltb r.last_tx_idx tx then record r { last_tx_idx = tx } else r)
        (λ r. record r { last_tx_idx = Storages.last_tx_idx_at i w.storages }) (λ o m. ground arith)
        (λ o m. refl) i w.storages (ground arith))
