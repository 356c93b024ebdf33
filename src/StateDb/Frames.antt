-- ===== src/StateDb/Frames.antt =====
-- Each host operation as a stretch of a frame: what it logged undoes what it wrote.
use ziskethone.Prelude.{
  ℕ, ◌≡◌, refl, ap, ◌∙◌, false, Option, none, some, List, [], ◌++◌, append_assoc, append-nil, ltb,
  Bool, true,
}
use ziskethone.Accounts
use ziskethone.Accounts.View.{SameAccounts, SameAccounts-touch, SameAccounts-touch_blind}
use ziskethone.Storages
use ziskethone.Storages.View.{SameStorages, SameStorages-touch, SameStorages-touch_blind}
use ziskethone.WarmKeys
use ziskethone.Journal.{Entry, Journal, World, log}
use ziskethone.Journal.Undo.{Snap, Frame, Frame-refl, Frame-trans, Frame-entry, Frame-silent}
use ziskethone.Journal.Writes.{
  SameWorld-accounts, SameWorld-storages, undo-set_nonce_at, undo-set_balance_at,
  undo-set_code_hash_at, undo-set_value_at, undo-mark_touched_at, undo-touch_slot,
}
use ziskethone.Journal.Keys.{undo-set_account, undo-set_slot, undo-set_transient, undo-insert}
use ziskethone.StateDb.Grown.{Grown, Grown-trans, Grown-journal}
use ziskethone.StateDb.{
  State, put_accounts, put_storages, put_warm_keys, log_entry, save_balance, put_balance,
  write_nonce, write_code_hash, write_slot, set_transient_storage, register_destruct, touch,
  touch_slot,
}

abbrev pub snap : State → Snap
snap s = record { journal = s.journal; world = s.world }

abbrev pub extend : List ℕ → Option (List ℕ) → Option (List ℕ)
extend more none = none
extend more (some logs) = some (logs ++ more)

-- From `s` to `t` the frame grew its log of writes and its list of emitted logs, and nothing else
-- that a rollback does not restore, but for the marks of creations and the codes, to which it only adds.
pub record Stretch (exact : Bool) (s t : State) : Type 0 where
  pub frame : Frame exact (snap s) (snap t)
  pub counter : t.tx_counter ≡ s.tx_counter
  pub emitted : List ℕ
  pub logs : t.logs ≡ extend emitted s.logs
  pub system : t.in_system_call ≡ s.in_system_call
  pub cancun : t.cancun ≡ s.cancun
  pub kept : Grown s t

pub extend-nil : (o : Option (List ℕ)) → o ≡ extend [] o
extend-nil none = refl
extend-nil (some l) = rw append-nil

extend-append : (a b : List ℕ) (o : Option (List ℕ)) → extend b (extend a o) ≡ extend (a ++ b) o
extend-append a b none = refl
extend-append a b (some l) = ap some (append_assoc l a b)

pub Stretch-trans :
    {exact : Bool} {s t u : State} → Stretch exact s t → Stretch exact t u → Stretch exact s u
Stretch-trans {s} h k = record {
  frame = Frame-trans h.frame k.frame;
  counter = k.counter ∙ h.counter;
  emitted = h.emitted ++ k.emitted;
  logs = k.logs ∙ ap (extend k.emitted) h.logs ∙ extend-append h.emitted k.emitted s.logs;
  system = k.system ∙ h.system;
  cancun = k.cancun ∙ h.cancun;
  kept = Grown-trans h.kept k.kept;
}

-- A change of the log and of the world alone.
pub Stretch-of_Frame :
    {exact : Bool} (s : State) (j : Journal) (w : World)
    → Frame exact (snap s) (record { journal = j; world = w })
    → Stretch exact s (record s { journal = j; world = w })
Stretch-of_Frame s j w f = record {
  frame = f;
  counter = refl;
  emitted = [];
  logs = extend-nil s.logs;
  system = refl;
  cancun = refl;
  kept = Grown-journal s j w s.logs;
}

pub Stretch-refl : {exact : Bool} (s : State) → Stretch exact s s
Stretch-refl s = Stretch-of_Frame s s.journal s.world (Frame-refl (snap s))

module _ (i v : ℕ) (s : State) where
  pub write_nonce-Stretch : {exact : Bool} → Stretch exact s (write_nonce i v s)
  unfolding write_nonce log
  write_nonce-Stretch =
      Stretch-of_Frame s _ _
        (Frame-entry _ s.journal s.world _ (undo-set_nonce_at i v s.tx_counter s.world))

  pub write_code_hash-Stretch : {exact : Bool} → Stretch exact s (write_code_hash i v s)
  unfolding write_code_hash log
  write_code_hash-Stretch =
      Stretch-of_Frame s _ _
        (Frame-entry _ s.journal s.world _ (undo-set_code_hash_at i v s.tx_counter s.world))

  pub write_slot-Stretch : {exact : Bool} → Stretch exact s (write_slot i v s)
  unfolding write_slot log
  write_slot-Stretch =
      Stretch-of_Frame s _ _
        (Frame-entry _ s.journal s.world _ (undo-set_value_at i v s.tx_counter s.world))

  pub put_balance-Stretch : {exact : Bool} → Stretch exact s (put_balance i v (save_balance i s))
  unfolding put_balance save_balance log
  put_balance-Stretch =
      Stretch-of_Frame s _ _
        (Frame-entry _ s.journal s.world _ (undo-set_balance_at i v s.tx_counter s.world))

pub set_transient_storage-Stretch :
    {exact : Bool} (addr key value : ℕ) (s : State)
    → Stretch exact s (set_transient_storage addr key value s)
unfolding set_transient_storage log
set_transient_storage-Stretch addr key value s =
    Stretch-of_Frame s _ _
      (Frame-entry _ s.journal s.world _ (undo-set_transient addr key value s.world))

pub register_destruct-Stretch :
    {exact : Bool} (i : ℕ) (s : State) → Stretch exact s (register_destruct i s).1
unfolding register_destruct log
register_destruct-Stretch i s =
    Stretch-of_Frame s _ _ (Frame-entry _ s.journal s.world _ (undo-insert i s.world))

touched-SameAccounts :
    (exact : Bool) (i tx : ℕ) (a : Accounts.Accounts)
    → (exact ≡ true → ltb (Accounts.last_tx_idx_at i a) tx ≡ false)
    → SameAccounts exact (Accounts.mark_touched_at i tx a) a
touched-SameAccounts true i tx a fresh = SameAccounts-touch i tx a (fresh refl)
touched-SameAccounts false i tx a fresh = SameAccounts-touch_blind i tx a

touched-SameStorages :
    (exact : Bool) (i tx : ℕ) (t : Storages.Storages)
    → (exact ≡ true → ltb (Storages.last_tx_idx_at i t) tx ≡ false)
    → SameStorages exact (Storages.mark_touched_at i tx t) t
touched-SameStorages true i tx t fresh = SameStorages-touch i tx t (fresh refl)
touched-SameStorages false i tx t fresh = SameStorages-touch_blind i tx t

module _ (s : State) where
  -- A touch of a row that this transaction touched already does not show, and none does where last
  -- touches are not compared.
  pub touch-Stretch :
      {exact : Bool} (i : ℕ)
      → (exact ≡ true → ltb (Accounts.last_tx_idx_at i s.accounts) s.tx_counter ≡ false)
      → Stretch exact s (put_accounts (Accounts.mark_touched_at i s.tx_counter s.accounts) s)
  touch-Stretch i fresh = Stretch-of_Frame s _ _ (
      Frame-silent s.journal s.world _
        (SameWorld-accounts s.world _ (touched-SameAccounts _ i s.tx_counter s.accounts fresh)))

  pub touch_slot-Stretch :
      {exact : Bool} (i : ℕ)
      → (exact ≡ true → ltb (Storages.last_tx_idx_at i s.storages) s.tx_counter ≡ false)
      → Stretch exact s (put_storages (Storages.mark_touched_at i s.tx_counter s.storages) s)
  touch_slot-Stretch i fresh = Stretch-of_Frame s _ _ (
      Frame-silent s.journal s.world _
        (SameWorld-storages s.world _ (touched-SameStorages _ i s.tx_counter s.storages fresh)))

  pub warm_account-Stretch :
      {exact : Bool} (i : ℕ)
      → Stretch exact s
          (touch i (log_entry (Entry.account_warm i (Accounts.last_tx_idx_at i s.accounts)) s))
  unfolding log
  warm_account-Stretch i =
      Stretch-of_Frame s _ _
        (Frame-entry _ s.journal s.world _ (undo-mark_touched_at i s.tx_counter s.world))

  pub warm_slot-Stretch :
      {exact : Bool} (i : ℕ)
      → Stretch exact s
          (touch_slot i (log_entry (Entry.storage_warm i (Storages.last_tx_idx_at i s.storages)) s))
  unfolding log
  warm_slot-Stretch i =
      Stretch-of_Frame s _ _
        (Frame-entry _ s.journal s.world _ (undo-touch_slot i s.tx_counter s.world))

  pub warm_key_account-Stretch :
      {exact : Bool} (addr : ℕ)
      → Stretch exact s (
          put_warm_keys
            (WarmKeys.set_account addr s.tx_counter s.warm_keys)
            (log_entry (Entry.warm_key_account addr (WarmKeys.account addr s.warm_keys)) s))
  unfolding log
  warm_key_account-Stretch addr =
      Stretch-of_Frame s _ _
        (Frame-entry _ s.journal s.world _ (undo-set_account addr s.tx_counter s.world))

  pub warm_key_slot-Stretch :
      {exact : Bool} (addr key : ℕ)
      → Stretch exact s (
          put_warm_keys
            (WarmKeys.set_slot addr key s.tx_counter s.warm_keys)
            (log_entry (Entry.warm_key_slot addr key (WarmKeys.slot addr key s.warm_keys)) s))
  unfolding log
  warm_key_slot-Stretch addr key =
      Stretch-of_Frame s _ _
        (Frame-entry _ s.journal s.world _ (undo-set_slot addr key s.tx_counter s.world))
