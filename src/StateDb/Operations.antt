-- ===== src/StateDb/Operations.antt =====
-- The host operations made of several writes, as stretches of a frame.
use ziskethone.Prelude.{
  ℕ, ◌≡◌, refl, arith, Bool, true, false, ◌&&◌, Option, none, some, List, [], ◌∷◌, ltb, ◌==◌,
  if◌then◌else◌,
}
use ziskethone.Accounts
use ziskethone.Storages
use ziskethone.Storages.View as StoragesView
use ziskethone.Storages.View.{SameStorages, SameStorages-refl}
use ziskethone.WarmKeys
use ziskethone.Journal.{Entry, undo, log}
use ziskethone.Journal.Undo.{Frame-refl, Frame-silent, undo_all}
use ziskethone.Journal.Writes.{SameWorld-accounts, SameWorld-storages}
use ziskethone.StateDb.{
  State, put_storages, save_balance, put_balance, move_value, sweep, destruct_to_self,
  destruct_to_other, emit_log, push_log, AccessStatus, access_account, access_row, access_slot,
  access_storage,
}
use ziskethone.StateDb.Balances.{restore_two-first, restore_two-second}
use ziskethone.StateDb.Grown.{Grown-journal}
use ziskethone.StateDb.Frames.{
  Stretch, Stretch-trans, Stretch-refl, Stretch-of_Frame, snap, extend, put_balance-Stretch,
  register_destruct-Stretch, touch-Stretch, touch_slot-Stretch, warm_account-Stretch,
  warm_slot-Stretch, warm_key_account-Stretch, warm_key_slot-Stretch,
}

pub move_value-Stretch :
    {exact : Bool} (i j v : ℕ) (s : State) → Stretch exact s (move_value i j v s)
unfolding put_balance save_balance log undo undo_all
move_value-Stretch i j v s = Stretch-of_Frame s _ _ (record {
  added =
      Entry.balance j (Accounts.balance_at j s.accounts) (Accounts.last_tx_idx_at j s.accounts)
      ∷ Entry.balance i (Accounts.balance_at i s.accounts) (Accounts.last_tx_idx_at i s.accounts)
      ∷ [];
  grown = refl;
  undone = SameWorld-accounts s.world _ (restore_two-first i j s.accounts _ _ s.tx_counter);
})

pub sweep-Stretch : {exact : Bool} (i j : ℕ) (s : State) → Stretch exact s (sweep i j s)
unfolding put_balance save_balance log undo undo_all
sweep-Stretch i j s = Stretch-of_Frame s _ _ (record {
  added =
      Entry.balance j (Accounts.balance_at j s.accounts) (Accounts.last_tx_idx_at j s.accounts)
      ∷ Entry.balance i (Accounts.balance_at i s.accounts) (Accounts.last_tx_idx_at i s.accounts)
      ∷ [];
  grown = refl;
  undone = SameWorld-accounts s.world _ (restore_two-second i j s.accounts _ _ s.tx_counter);
})

pub destruct_to_self-Stretch :
    {exact : Bool} (b : Bool) (i : ℕ) (s : State) → Stretch exact s (destruct_to_self b i s).1
destruct_to_self-Stretch true i s =
    Stretch-trans (put_balance-Stretch i 0 s)
      (register_destruct-Stretch i (put_balance i 0 (save_balance i s)))
destruct_to_self-Stretch false i s = Stretch-refl s

pub destruct_to_other-Stretch :
    {exact : Bool} (b : Bool) (i j : ℕ) (s : State) → Stretch exact s (destruct_to_other b i j s).1
destruct_to_other-Stretch true i j s =
    Stretch-trans (sweep-Stretch i j s) (register_destruct-Stretch i (sweep i j s))
destruct_to_other-Stretch false i j s = sweep-Stretch i j s

abbrev stored : Option ℕ × Storages.Storages → Storages.Storages
stored r = r.1

find-SameStorages :
    {exact : Bool} (addr key : ℕ) (t : Storages.Storages)
    → SameStorages exact (Storages.find addr key t).1 t
unfolding Storages.find StoragesView.view_at
find-SameStorages addr key t = go (t.last.valid && (t.last.pos == key) && (t.last.addr == addr))
  where
    go :
        {exact : Bool} (b : Bool)
        → SameStorages exact
            (stored (
              if b then (t.last.idx, t) else (
                t.index addr key,
                record t {
                  last = record { valid = true; addr = addr; pos = key; idx = t.index addr key };
                },
              )))
            t
    go true = SameStorages-refl t
    go false = record {
      originals = refl;
      size = refl;
      index = refl;
      capacity = refl;
      addr_slots = refl;
      views = λ j. refl;
    }

-- Remembering the last `find` does not show.
pub find-Stretch :
    {exact : Bool} (addr key : ℕ) (s : State)
    → Stretch exact s (put_storages (Storages.find addr key s.storages).1 s)
find-Stretch addr key s = Stretch-of_Frame s _ _ (
    Frame-silent s.journal s.world _
      (SameWorld-storages s.world _ (find-SameStorages addr key s.storages)))

Stretch-if :
    {exact : Bool} (b : Bool) {s t u : State}
    → (b ≡ true → Stretch exact s t)
    → (b ≡ false → Stretch exact s u)
    → Stretch exact s (if b then t else u)
Stretch-if true h k = h refl
Stretch-if false h k = k refl

push_log-extend : (entry : ℕ) (o : Option (List ℕ)) → push_log entry o ≡ extend (entry ∷ []) o
push_log-extend entry none = refl
push_log-extend entry (some logs) = refl

pushed :
    {exact : Bool} (entry : ℕ) (s : State)
    → Stretch exact s (record s { logs = push_log entry s.logs })
pushed entry s = record {
  frame = Frame-refl (snap s);
  counter = refl;
  emitted = entry ∷ [];
  logs = push_log-extend entry s.logs;
  system = refl;
  cancun = refl;
  kept = Grown-journal s s.journal s.world _;
}

pub emit_log-Stretch : {exact : Bool} (entry : ℕ) (s : State) → Stretch exact s (emit_log entry s)
unfolding emit_log
emit_log-Stretch entry s = Stretch-if s.in_system_call (λ h. Stretch-refl s) (λ h. pushed entry s)

abbrev state_of : AccessStatus × State → State
state_of r = r.1

-- The state of a test that answers with a status.
Stretch-status :
    {exact : Bool} (b : Bool) {s : State} (p q : AccessStatus × State)
    → (b ≡ true → Stretch exact s (state_of p))
    → (b ≡ false → Stretch exact s (state_of q))
    → Stretch exact s (state_of (if b then p else q))
Stretch-status true p q h k = h refl
Stretch-status false p q h k = k refl

warm_account-not_stale :
    (idx : ℕ) (s : State)
    → Accounts.is_warm_at idx s.tx_counter s.accounts ≡ true
    → ltb (Accounts.last_tx_idx_at idx s.accounts) s.tx_counter ≡ false
unfolding Accounts.is_warm_at Accounts.last_tx_idx_at
warm_account-not_stale idx s h = ground arith

warm_slot-not_stale :
    (idx : ℕ) (s : State)
    → Storages.is_warm_at idx s.tx_counter s.storages ≡ true
    → ltb (Storages.last_tx_idx_at idx s.storages) s.tx_counter ≡ false
unfolding Storages.is_warm_at Storages.last_tx_idx_at
warm_slot-not_stale idx s h = ground arith

pub access_row-Stretch :
    {exact : Bool} (o : Option ℕ) (addr : ℕ) (s : State) → Stretch exact s (access_row o addr s).1
access_row-Stretch none addr s =
    Stretch-status (WarmKeys.account addr s.warm_keys == s.tx_counter) _ _ (λ h. Stretch-refl s)
      (λ h. warm_key_account-Stretch s addr)
access_row-Stretch (some idx) addr s =
    Stretch-status (Accounts.is_warm_at idx s.tx_counter s.accounts) _ _
      (λ h. touch-Stretch s idx (λ e. warm_account-not_stale idx s h))
      (λ h. warm_account-Stretch s idx)

pub access_account-Stretch :
    {exact : Bool} (is_precompile : ℕ → Bool) (addr : ℕ) (s : State)
    → Stretch exact s (access_account is_precompile addr s).1
unfolding access_account
access_account-Stretch is_precompile addr s =
    Stretch-status (is_precompile addr) _ _ (λ h. Stretch-refl s)
      (λ h. access_row-Stretch (s.accounts.index addr) addr s)

pub access_slot-Stretch :
    {exact : Bool} (o : Option ℕ) (addr key : ℕ) (s : State)
    → Stretch exact s (access_slot o addr key s).1
access_slot-Stretch none addr key s =
    Stretch-status (WarmKeys.slot addr key s.warm_keys == s.tx_counter) _ _ (λ h. Stretch-refl s)
      (λ h. warm_key_slot-Stretch s addr key)
access_slot-Stretch (some idx) addr key s =
    Stretch-status (Storages.is_warm_at idx s.tx_counter s.storages) _ _
      (λ h. touch_slot-Stretch s idx (λ e. warm_slot-not_stale idx s h))
      (λ h. warm_slot-Stretch s idx)

pub access_storage-Stretch :
    {exact : Bool} (addr key : ℕ) (s : State) → Stretch exact s (access_storage addr key s).1
unfolding access_storage
access_storage-Stretch addr key s = Stretch-trans (find-Stretch addr key s) (
    access_slot-Stretch (Storages.find addr key s.storages).0 addr key
      (put_storages (Storages.find addr key s.storages).1 s))
