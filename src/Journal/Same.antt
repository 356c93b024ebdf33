-- ===== src/Journal/Same.antt =====
-- Two worlds that no reader can tell apart, and the operations that respect this.
use ziskethone.Prelude.{
  ℕ, ◌≡◌, refl, ◌∙◌, arith, true, false, List, [], ◌∷◌, ◌==◌, if◌then◌else◌, Bool,
}
use ziskethone.Accounts
use ziskethone.Accounts.View.{
  SameAccounts, SameAccounts-refl, SameAccounts-trans, SameAccounts-write_row,
}
use ziskethone.Storages
use ziskethone.Storages.View.{
  SameStorages, SameStorages-refl, SameStorages-trans, SameStorages-write_row,
}
use ziskethone.WarmKeys
use ziskethone.WarmKeys.{
  WarmKeys, SameWarmKeys, SameWarmKeys-refl, account-set_account, slot-set_slot, slot-set_account,
  account-set_slot,
}
use ziskethone.TransientStorage
use ziskethone.Journal.{
  Entry, World, member, erase, undo, checkpoint_marker, nonce, balance, code_hash, storage,
  account_warm, storage_warm, transient, warm_key_account, warm_key_slot, pending_destruct,
}

pub record SameWorld (exact : Bool) (v w : World) : Type 0 where
  pub accounts : SameAccounts exact v.accounts w.accounts
  pub storages : SameStorages exact v.storages w.storages
  pub warm_keys : SameWarmKeys v.warm_keys w.warm_keys
  pub transients : (a p : ℕ) → v.transients a p ≡ w.transients a p
  pub pending : (i : ℕ) → member i v.pending ≡ member i w.pending

pub SameWorld-refl : {exact : Bool} (w : World) → SameWorld exact w w
SameWorld-refl w = record {
  accounts = SameAccounts-refl w.accounts;
  storages = SameStorages-refl w.storages;
  warm_keys = SameWarmKeys-refl w.warm_keys;
  transients = λ a p. refl;
  pending = λ i. refl;
}

pub SameWorld-trans :
    {exact : Bool} {u v w : World} → SameWorld exact u v → SameWorld exact v w → SameWorld exact u w
SameWorld-trans h k = record {
  accounts = SameAccounts-trans h.accounts k.accounts;
  storages = SameStorages-trans h.storages k.storages;
  warm_keys = record {
    accounts = λ a. h.warm_keys.accounts a ∙ k.warm_keys.accounts a;
    slots = λ a p. h.warm_keys.slots a p ∙ k.warm_keys.slots a p;
  };
  transients = λ a p. h.transients a p ∙ k.transients a p;
  pending = λ i. h.pending i ∙ k.pending i;
}

pub member-erase :
    (i j : ℕ) (rows : List ℕ) → member j (erase i rows) ≡ (if i == j then false else member j rows)
unfolding member erase
member-erase i j [] = ground arith
member-erase i j (k ∷ rows) = ground (arith, member-erase i j rows)

set_account-Same :
    (addr tx : ℕ) {v w : WarmKeys}
    → SameWarmKeys v w
    → SameWarmKeys (WarmKeys.set_account addr tx v) (WarmKeys.set_account addr tx w)
set_account-Same addr tx {v} {w} h = record {
  accounts =
      λ a. rw (account-set_account addr tx v a, account-set_account addr tx w a, h.accounts a);
  slots = λ a p. rw (slot-set_account addr tx v a p, slot-set_account addr tx w a p) (h.slots a p);
}

set_slot-Same :
    (addr key tx : ℕ) {v w : WarmKeys}
    → SameWarmKeys v w
    → SameWarmKeys (WarmKeys.set_slot addr key tx v) (WarmKeys.set_slot addr key tx w)
set_slot-Same addr key tx {v} {w} h = record {
  accounts =
      λ a. rw (account-set_slot addr key tx v a, account-set_slot addr key tx w a) (h.accounts a);
  slots = λ a p. rw (slot-set_slot addr key tx v a p, slot-set_slot addr key tx w a p, h.slots a p);
}

-- Undoing the same entry in two such worlds leaves two such worlds.
pub undo-SameWorld :
    {exact : Bool} (e : Entry) {v w : World}
    → SameWorld exact v w
    → SameWorld exact (undo e v) (undo e w)
unfolding undo Accounts.set_nonce_at Accounts.set_balance_at Accounts.set_code_hash_at
    Accounts.set_warm_at Storages.set_value_at Storages.set_warm_at TransientStorage.restore
undo-SameWorld checkpoint_marker h = h
undo-SameWorld (nonce i x t) h = record {
  accounts =
      SameAccounts-write_row (Accounts.with_nonce x t)
        (λ r. record r { nonce = x; last_tx_idx = t }) (λ o m. refl) (λ r. refl) i h.accounts;
  storages = h.storages;
  warm_keys = h.warm_keys;
  transients = h.transients;
  pending = h.pending;
}
undo-SameWorld (balance i x t) h = record {
  accounts =
      SameAccounts-write_row (Accounts.with_balance x t)
        (λ r. record r { balance = x; last_tx_idx = t }) (λ o m. refl) (λ r. refl) i h.accounts;
  storages = h.storages;
  warm_keys = h.warm_keys;
  transients = h.transients;
  pending = h.pending;
}
undo-SameWorld (code_hash i x t) h = record {
  accounts =
      SameAccounts-write_row (Accounts.with_code_hash x t)
        (λ r. record r { code_hash = x; last_tx_idx = t }) (λ o m. refl) (λ r. refl) i h.accounts;
  storages = h.storages;
  warm_keys = h.warm_keys;
  transients = h.transients;
  pending = h.pending;
}
undo-SameWorld (account_warm i t) h = record {
  accounts =
      SameAccounts-write_row (Accounts.with_warm t) (λ r. record r { last_tx_idx = t })
        (λ o m. refl) (λ r. refl) i h.accounts;
  storages = h.storages;
  warm_keys = h.warm_keys;
  transients = h.transients;
  pending = h.pending;
}
undo-SameWorld (storage i x t) h = record {
  storages =
      SameStorages-write_row (Storages.with_value x t)
        (λ r. record r { value = x; last_tx_idx = t }) (λ o m. refl) (λ r. refl) i h.storages;
  accounts = h.accounts;
  warm_keys = h.warm_keys;
  transients = h.transients;
  pending = h.pending;
}
undo-SameWorld (storage_warm i t) h = record {
  storages =
      SameStorages-write_row (Storages.with_warm t) (λ r. record r { last_tx_idx = t })
        (λ o m. refl) (λ r. refl) i h.storages;
  accounts = h.accounts;
  warm_keys = h.warm_keys;
  transients = h.transients;
  pending = h.pending;
}
undo-SameWorld (transient addr pos present x) h = record {
  transients = λ a p. rw (h.transients a p);
  accounts = h.accounts;
  storages = h.storages;
  warm_keys = h.warm_keys;
  pending = h.pending;
}
undo-SameWorld (warm_key_account addr t) h = record {
  warm_keys = set_account-Same addr t h.warm_keys;
  accounts = h.accounts;
  storages = h.storages;
  transients = h.transients;
  pending = h.pending;
}
undo-SameWorld (warm_key_slot addr pos t) h = record {
  warm_keys = set_slot-Same addr pos t h.warm_keys;
  accounts = h.accounts;
  storages = h.storages;
  transients = h.transients;
  pending = h.pending;
}
undo-SameWorld (pending_destruct i true) h = h
undo-SameWorld (pending_destruct i false) {v} {w} h = record {
  pending = λ j. rw (member-erase i j v.pending, member-erase i j w.pending, h.pending j);
  accounts = h.accounts;
  storages = h.storages;
  warm_keys = h.warm_keys;
  transients = h.transients;
}
