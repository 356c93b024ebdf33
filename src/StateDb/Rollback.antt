-- ===== src/StateDb/Rollback.antt =====
-- What `checkpoint` and `rollback` of cpp-guest/src/zisk_state_db.cpp promise of a whole call frame.
use ziskethone.Prelude.{
  ℕ, ◌≡◌, refl, sym, ap, subst, ◌∙◌, Bool, Option, none, some, List, [], take-append, Result, ok,
}
use ziskethone.Journal
use ziskethone.Journal.{Journal, World}
use ziskethone.Journal.Same.{SameWorld, SameWorld-refl}
use ziskethone.Journal.Undo.{Frame-entry, undo_all, rollback-checkpoint}
use ziskethone.StateDb.{
  State, Fault, checkpoint, rollback, restored, truncate, count_logs, write_nonce, write_code_hash,
  put_balance, save_balance, set_transient_storage, transfer_value, selfdestruct, access_account,
  access_storage, get_storage, get_balance, get_nonce, get_code_hash, emit_log,
}
use ziskethone.StateDb.Status.{StorageStatus, set_storage}
use ziskethone.StateDb.Grown.{Grown}
use ziskethone.StateDb.Frames.{
  snap, extend, extend-nil, Stretch, Stretch-trans, Stretch-refl, Stretch-of_Frame,
  write_nonce-Stretch, write_code_hash-Stretch, put_balance-Stretch, set_transient_storage-Stretch,
}
use ziskethone.StateDb.Operations.{access_account-Stretch, access_storage-Stretch, emit_log-Stretch}
use ziskethone.StateDb.Answers.{
  Continued, Answered, AccountIsTouched, SlotIsTouched, transfer_value-Continued,
  selfdestruct-Answered, set_storage-Answered, get_balance-Answered, get_nonce-Answered,
  get_code_hash-Answered, get_storage-Answered,
}

-- What the host does between a checkpoint and its end: the operations of a running frame, the inner
-- frames that succeed (`enter`, and their operations), and those that fail and are rolled back.
mutual
  pub data Step (exact : Bool) : State → State → Type 0 where
    set_nonce : (i v : ℕ) (s : State) → Step exact s (write_nonce i v s)
    set_code_hash : (i v : ℕ) (s : State) → Step exact s (write_code_hash i v s)
    set_balance : (i v : ℕ) (s : State) → Step exact s (put_balance i v (save_balance i s))
    store_transient :
        (addr key value : ℕ) (s : State) → Step exact s (set_transient_storage addr key value s)
    store :
        (addr key value : ℕ) {status : StorageStatus} {s t : State}
        → set_storage addr key value s ≡ ok (status, t)
        → Step exact s t
    transfer :
        (from to value : ℕ) {s t : State} → transfer_value from to value s ≡ ok t → Step exact s t
    destruct :
        (addr beneficiary : ℕ) {new : Bool} {s t : State}
        → selfdestruct addr beneficiary s ≡ ok (new, t)
        → Step exact s t
    warm_account :
        (is_precompile : ℕ → Bool) (addr : ℕ) (s : State)
        → Step exact s (access_account is_precompile addr s).1
    warm_slot : (addr key : ℕ) (s : State) → Step exact s (access_storage addr key s).1
    read_balance :
        (addr : ℕ) {v : ℕ} {s t : State}
        → AccountIsTouched exact addr s
        → get_balance addr s ≡ ok (v, t)
        → Step exact s t
    read_nonce :
        (addr : ℕ) {v : ℕ} {s t : State}
        → AccountIsTouched exact addr s
        → get_nonce addr s ≡ ok (v, t)
        → Step exact s t
    read_code_hash :
        (addr : ℕ) {v : ℕ} {s t : State}
        → AccountIsTouched exact addr s
        → get_code_hash addr s ≡ ok (v, t)
        → Step exact s t
    read_storage :
        (addr key : ℕ) {v : ℕ} {s t : State}
        → SlotIsTouched exact addr key s
        → get_storage addr key s ≡ ok (v, t)
        → Step exact s t
    log : (entry : ℕ) (s : State) → Step exact s (emit_log entry s)
    enter : (s : State) → Step exact s (checkpoint s).1
    revert :
        {s t u : State}
        → Run exact (checkpoint s).1 t
        → rollback (checkpoint s).0 t ≡ ok u
        → Step exact s u

  pub data Run (exact : Bool) : State → State → Type 0 where
    done : (s : State) → Run exact s s
    also : {s t u : State} → Step exact s t → Run exact t u → Run exact s u

-- What `u` shows is what `s` showed: the log, the world, the emitted logs and the counter. To the marks of
-- creations and to the table of codes, which no rollback restores, it may add.
pub record Restored (exact : Bool) (s u : State) : Type 0 where
  pub journal : u.journal ≡ s.journal
  pub world : SameWorld exact u.world s.world
  pub logs : u.logs ≡ s.logs
  pub counter : u.tx_counter ≡ s.tx_counter
  pub system : u.in_system_call ≡ s.in_system_call
  pub cancun : u.cancun ≡ s.cancun
  pub kept : Grown s u

pub enter-Stretch : {exact : Bool} (s : State) → Stretch exact s (checkpoint s).1
unfolding checkpoint Journal.checkpoint Journal.undo
enter-Stretch s =
    Stretch-of_Frame s _ _
      (Frame-entry Journal.checkpoint_marker s.journal s.world s.world (SameWorld-refl s.world))

truncate-extend :
    (emitted : List ℕ) (o : Option (List ℕ)) → truncate (count_logs o) (extend emitted o) ≡ o
truncate-extend emitted none = refl
truncate-extend emitted (some l) = ap some (take-append l emitted)

pub rollback-Stretch :
    {exact : Bool} (s t : State)
    → Stretch exact (checkpoint s).1 t
    → (u : State) × (rollback (checkpoint s).0 t ≡ ok u) × Restored exact s u
unfolding checkpoint rollback
rollback-Stretch s t h =
    let (w, e, same) = rollback-checkpoint s.journal s.world (snap t) h.frame in
    (
      record t { world = w; journal = s.journal; logs = truncate (count_logs s.logs) t.logs },
      ap (restored (count_logs s.logs) t) e,
      record {
        journal = refl;
        world = same;
        logs = ap (truncate (count_logs s.logs)) h.logs ∙ truncate-extend h.emitted s.logs;
        counter = h.counter;
        system = h.system;
        cancun = h.cancun;
        kept = record { created = h.kept.created; codes = h.kept.codes; wiped = h.kept.wiped };
      },
    )

pub Restored-Stretch : {exact : Bool} {s u : State} → Restored exact s u → Stretch exact s u
unfolding undo_all
Restored-Stretch {s} r = record {
  frame = record { added = []; grown = r.journal; undone = r.world };
  counter = r.counter;
  emitted = [];
  logs = r.logs ∙ extend-nil s.logs;
  system = r.system;
  cancun = r.cancun;
  kept = r.kept;
}

abbrev answer : State → Result Fault State
answer s = ok s

ok-injective : {s t : State} → answer s ≡ answer t → s ≡ t
ok-injective e = cc

revert-Stretch :
    {exact : Bool} {s t u : State}
    → Stretch exact (checkpoint s).1 t
    → rollback (checkpoint s).0 t ≡ ok u
    → Stretch exact s u
revert-Stretch {exact} {s} {t} {u} h e =
    let (v, f, r) = rollback-Stretch s t h in
    subst (Stretch exact s) (ok-injective (sym f ∙ e)) (Restored-Stretch r)

mutual
  Step-Stretch : {exact : Bool} {s t : State} → Step exact s t → Stretch exact s t
  Step-Stretch {exact} (set_nonce i v s) = write_nonce-Stretch i v s
  Step-Stretch {exact} (set_code_hash i v s) = write_code_hash-Stretch i v s
  Step-Stretch {exact} (set_balance i v s) = put_balance-Stretch i v s
  Step-Stretch {exact} (store_transient addr key value s) =
      set_transient_storage-Stretch addr key value s
  Step-Stretch {exact} (store addr key value {s = s} e) =
      subst (Answered exact s) e (set_storage-Answered exact addr key value s)
  Step-Stretch {exact} (transfer from to value {s} e) =
      subst (Continued exact s) e (transfer_value-Continued exact from to value s)
  Step-Stretch {exact} (destruct addr beneficiary {s = s} e) =
      subst (Answered exact s) e (selfdestruct-Answered exact addr beneficiary s)
  Step-Stretch {exact} (warm_account is_precompile addr s) =
      access_account-Stretch is_precompile addr s
  Step-Stretch {exact} (warm_slot addr key s) = access_storage-Stretch addr key s
  Step-Stretch {exact} (read_balance addr {s = s} h e) =
      subst (Answered exact s) e (get_balance-Answered exact addr s h)
  Step-Stretch {exact} (read_nonce addr {s = s} h e) =
      subst (Answered exact s) e (get_nonce-Answered exact addr s h)
  Step-Stretch {exact} (read_code_hash addr {s = s} h e) =
      subst (Answered exact s) e (get_code_hash-Answered exact addr s h)
  Step-Stretch {exact} (read_storage addr key {s = s} h e) =
      subst (Answered exact s) e (get_storage-Answered exact addr key s h)
  Step-Stretch {exact} (log entry s) = emit_log-Stretch entry s
  Step-Stretch {exact} (enter s) = enter-Stretch s
  Step-Stretch {exact} (revert run e) = revert-Stretch (Run-Stretch run) e

  Run-Stretch : {exact : Bool} {s t : State} → Run exact s t → Stretch exact s t
  Run-Stretch (done s) = Stretch-refl s
  Run-Stretch (also step run) = Stretch-trans (Step-Stretch step) (Run-Stretch run)

-- After a checkpoint and any run of host operations, inner frames that succeed or are rolled back
-- included, `rollback` to it succeeds, and its state shows what the state before the checkpoint showed:
-- the log of writes, the world's tables, the set of pending destructions, the emitted logs and the
-- transaction counter; the marks of creations and the rows of the table of codes that were there are
-- still there. The last touches of rows are among this with `exact`, where the reads of the run are of
-- rows that the transaction touched before, and are left out without.
pub rollback-Run :
    {exact : Bool} (s t : State)
    → Run exact (checkpoint s).1 t
    → (u : State) × (rollback (checkpoint s).0 t ≡ ok u) × Restored exact s u
rollback-Run s t run = rollback-Stretch s t (Run-Stretch run)
