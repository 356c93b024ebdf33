-- ===== src/Journal/Replay.antt =====
-- The undo log as its callers use it: every entry holds what the tables show just before the write that
-- it goes with.
use ziskethone.Prelude.{ℕ, ◌≡◌, true, List, [], ◌∷◌, ok}
use ziskethone.Accounts
use ziskethone.Storages
use ziskethone.WarmKeys
use ziskethone.TransientStorage
use ziskethone.Journal
use ziskethone.Journal.{Entry, Journal, World, log, checkpoint, rollback, member, insert}
use ziskethone.Journal.Same.{SameWorld, SameWorld-refl}
use ziskethone.Journal.Undo.{Snap, Frame, Frame-refl, Frame-trans, Frame-entry, rollback-checkpoint}
use ziskethone.Journal.Writes.{
  undo-set_nonce_at, undo-set_balance_at, undo-set_code_hash_at, undo-set_value_at,
  undo-mark_touched_at, undo-touch_slot,
}
use ziskethone.Journal.Keys.{undo-set_account, undo-set_slot, undo-set_transient, undo-insert}

-- The logged writes, one for each kind of entry; `mark` is an inner checkpoint.
pub data Write : Type 0 where
  mark : Write
  set_nonce : (idx value : ℕ) → Write
  set_balance : (idx value : ℕ) → Write
  set_code_hash : (idx value : ℕ) → Write
  set_slot : (idx value : ℕ) → Write
  warm_account : (idx : ℕ) → Write
  warm_slot : (idx : ℕ) → Write
  set_transient : (addr position value : ℕ) → Write
  warm_key_account : (addr : ℕ) → Write
  warm_key_slot : (addr position : ℕ) → Write
  destruct : (idx : ℕ) → Write

-- The entry of a write, from the tables before it.
abbrev entry_of : Write → World → Entry
entry_of mark w = Entry.checkpoint_marker
entry_of (set_nonce i v) w =
    Entry.nonce i (Accounts.nonce_at i w.accounts) (Accounts.last_tx_idx_at i w.accounts)
entry_of (set_balance i v) w =
    Entry.balance i (Accounts.balance_at i w.accounts) (Accounts.last_tx_idx_at i w.accounts)
entry_of (set_code_hash i v) w =
    Entry.code_hash i (Accounts.code_hash_at i w.accounts) (Accounts.last_tx_idx_at i w.accounts)
entry_of (set_slot i v) w =
    Entry.storage i (Storages.value_at i w.storages) (Storages.last_tx_idx_at i w.storages)
entry_of (warm_account i) w = Entry.account_warm i (Accounts.last_tx_idx_at i w.accounts)
entry_of (warm_slot i) w = Entry.storage_warm i (Storages.last_tx_idx_at i w.storages)
entry_of (set_transient a p v) w =
    let prev = (TransientStorage.set a p v w.transients).0 in
    Entry.transient a p prev.was_present prev.value
entry_of (warm_key_account a) w = Entry.warm_key_account a (WarmKeys.account a w.warm_keys)
entry_of (warm_key_slot a p) w = Entry.warm_key_slot a p (WarmKeys.slot a p w.warm_keys)
entry_of (destruct i) w = Entry.pending_destruct i (member i w.pending)

-- The tables after a write in the transaction `tx`.
abbrev written : ℕ → Write → World → World
written tx mark w = w
written tx (set_nonce i v) w = record w { accounts = Accounts.set_nonce_at i v tx w.accounts }
written tx (set_balance i v) w = record w { accounts = Accounts.set_balance_at i v tx w.accounts }
written tx (set_code_hash i v) w = record w {
  accounts = Accounts.set_code_hash_at i v tx w.accounts;
}
written tx (set_slot i v) w = record w { storages = Storages.set_value_at i v tx w.storages }
written tx (warm_account i) w = record w { accounts = Accounts.mark_touched_at i tx w.accounts }
written tx (warm_slot i) w = record w { storages = Storages.mark_touched_at i tx w.storages }
written tx (set_transient a p v) w = record w {
  transients = (TransientStorage.set a p v w.transients).1;
}
written tx (warm_key_account a) w = record w { warm_keys = WarmKeys.set_account a tx w.warm_keys }
written tx (warm_key_slot a p) w = record w { warm_keys = WarmKeys.set_slot a p tx w.warm_keys }
written tx (destruct i) w = record w { pending = insert i w.pending }

-- The log and the tables after a list of writes, the first of it first.
unfoldable pub replay : ℕ → List Write → Snap → Snap
replay tx [] s = s
replay tx (write ∷ writes) s =
    replay tx writes (record {
      journal = log (entry_of write s.world) s.journal;
      world = written tx write s.world;
    })

undo-written :
    (tx : ℕ) (write : Write) (w : World)
    → SameWorld true (Journal.undo (entry_of write w) (written tx write w)) w
undo-written tx mark w = unfold Journal.undo in SameWorld-refl w
undo-written tx (set_nonce i v) w = undo-set_nonce_at i v tx w
undo-written tx (set_balance i v) w = undo-set_balance_at i v tx w
undo-written tx (set_code_hash i v) w = undo-set_code_hash_at i v tx w
undo-written tx (set_slot i v) w = undo-set_value_at i v tx w
undo-written tx (warm_account i) w = undo-mark_touched_at i tx w
undo-written tx (warm_slot i) w = undo-touch_slot i tx w
undo-written tx (set_transient a p v) w = undo-set_transient a p v w
undo-written tx (warm_key_account a) w = undo-set_account a tx w
undo-written tx (warm_key_slot a p) w = undo-set_slot a p tx w
undo-written tx (destruct i) w = undo-insert i w

replay-Frame : (tx : ℕ) (writes : List Write) (s : Snap) → Frame true s (replay tx writes s)
unfolding replay log
replay-Frame tx [] s = Frame-refl s
replay-Frame tx (write ∷ writes) s =
    Frame-trans
      (Frame-entry (entry_of write s.world) s.journal s.world (written tx write s.world)
        (undo-written tx write s.world))
      (replay-Frame tx writes _)

-- After `checkpoint` and any writes of a transaction, each logged with what the tables showed before it,
-- inner checkpoints among them, `rollback` to the position that `checkpoint` returned succeeds with the
-- log from before the checkpoint, and the tables show what they showed then: the balance, nonce, code hash
-- and last touch of every account row, the value and last touch of every slot row, the warm keys, the
-- transient slots and the set of pending destructions.
pub rollback-replay :
    (tx : ℕ) (writes : List Write) (j : Journal) (w : World)
    → (let after = replay tx writes (record { journal = (checkpoint j).1; world = w }) in
        (w' : World) × (rollback (checkpoint j).0 after.journal after.world ≡ ok (j, w'))
        × SameWorld true w' w)
rollback-replay tx writes j w =
    rollback-checkpoint j w _
      (replay-Frame tx writes (record { journal = (checkpoint j).1; world = w }))
