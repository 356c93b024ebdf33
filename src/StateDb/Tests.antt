-- ===== src/StateDb/Tests.antt =====
-- Runs of the tables, the undo log and the host operations on a small world.
use ziskethone.Prelude.{
  ℕ, ◌≤◌, ◌<◌, ◌≡◌, refl, subst, arith, true, false, ◌||◌, none, some, List, [], ◌∷◌, ◌==◌,
  if◌then◌else◌, length, ok, ◌↔◌,
}
use ziskethone.Accounts
use ziskethone.Storages
use ziskethone.Storages.Find.{IsRemembered, find_lem}
use ziskethone.Storages.Loaded.{look, write, touch, load, use_all, find-loaded}
use ziskethone.WarmKeys
use ziskethone.TransientStorage
use ziskethone.TransientStorage.{restore-set}
use ziskethone.Journal
use ziskethone.Journal.{member, World, Journal}
use ziskethone.Journal.Same.{SameWorld}
use ziskethone.Journal.Undo.{Snap}
use ziskethone.Journal.Replay.{Write, replay, rollback-replay}
use ziskethone.StateDb.{
  State, warm, access_status, empty_code_hash, checkpoint, rollback, write_nonce,
  set_transient_storage, transfer_value, access_account, access_storage,
  clear_account_for_selfdestruct, emit_log,
}
use ziskethone.StateDb.Status.{deleted_restored, compute_storage_status}
use ziskethone.StateDb.Rollback.{Step, Run, Restored, rollback-Run}
use ziskethone.StateDb.Sstore.{HasShape, compute_storage_status_lem}
use ziskethone.StateDb.Transfer.{transferred, transfer_value_lem}
use ziskethone.StateDb.WarmSlots.{RowIsCurrent, slot_is_warm, access_storage_lem}
use ziskethone.StateDb.Destruct.{clear_account_for_selfdestruct_lem}
use ziskethone.StateDb.Warmth.{row_is_warm, access_account_lem}

abbrev account : ℕ → ℕ → Accounts.Original
account address balance = record {
  address = address;
  nonce = 0;
  balance = balance;
  code_hash = empty_code_hash;
}

-- two accounts and one slot, in the first transaction
abbrev accounts : Accounts.Accounts
accounts = record {
  originals = account 0xa 100 ∷ account 0xb 20 ∷ [];
  mods = Accounts.fresh_mods ∷ Accounts.fresh_mods ∷ [];
  index = λ a. if a == 0xa then some 0 else if a == 0xb then some 1 else none;
  capacity = 2;
}

abbrev storages : Storages.Storages
storages = record {
  originals = record { address = 0xa; position = 1; value = 7 } ∷ [];
  mods = Storages.fresh_mods ∷ [];
  index = λ a p. if a == 0xa then (if p == 1 then some 0 else none) else none;
  capacity = 2;
  last = record { valid = true; addr = 0xa; pos = 1; idx = some 0 };
  addr_slots = λ a. if a == 0xa then 0 ∷ [] else [];
}

abbrev world : World
world = record {
  accounts = accounts;
  storages = storages;
  warm_keys = WarmKeys.empty;
  transients = TransientStorage.reset;
  pending = [];
}

abbrev pub start : State
start = record {
  world = world;
  journal = [];
  tx_counter = 1;
  contracts = record { contracts = []; index = λ h. none; staged = [] };
  created = [];
  wiped = [];
  logs = some (3 ∷ []);
  in_system_call = false;
  cancun = true;
}

abbrev entered : State
entered = (checkpoint start).1

-- the outer frame writes a nonce and a log; an inner one writes a transient slot and is rolled back
abbrev outer : State
outer = emit_log 4 (write_nonce 0 5 entered)

abbrev inner : State
inner = set_transient_storage 0xa 2 9 (checkpoint outer).1

abbrev reverted : State
reverted = record outer {
  world = record outer.world {
    transients = TransientStorage.restore 0xa 2 false 0 inner.transients;
  };
}

inner_rolled_back : rollback (checkpoint outer).0 inner ≡ ok reverted
unfolding rollback checkpoint set_transient_storage emit_log write_nonce Journal.rollback
    Journal.pop_to Journal.undo Journal.checkpoint Journal.log Journal.entry_at TransientStorage.set
inner_rolled_back = refl

frame-Run : Run true entered reverted
frame-Run = Run.also (Step.set_nonce 0 5 entered) (
    Run.also (Step.log 4 (write_nonce 0 5 entered)) (
      Run.also
        (Step.revert (Run.also (Step.store_transient 0xa 2 9 (checkpoint outer).1) (Run.done inner))
          inner_rolled_back)
        (Run.done reverted)))

rollback-Run_example :
    (u : State) × (rollback (checkpoint start).0 reverted ≡ ok u) × Restored true start u
rollback-Run_example = rollback-Run start reverted frame-Run

-- Writes to a row that an inner frame and the outer one both change.
abbrev writes : List Write
writes =
    Write.set_nonce 0 5
    ∷ Write.mark
    ∷ Write.set_balance 0 1
    ∷ Write.destruct 0
    ∷ Write.set_slot 0 9
    ∷ Write.set_nonce 0 6
    ∷ []

abbrev replayed : Snap
replayed = replay 1 writes (record { journal = (Journal.checkpoint []).1; world = world })

rollback-replay_example :
    (w : World) × (Journal.rollback (Journal.checkpoint []).0 replayed.journal replayed.world
      ≡ ok ([], w))
    × SameWorld true w world
rollback-replay_example = rollback-replay 1 writes [] world

balances : (Accounts.balance_at 0 accounts ≡ 100) × (Accounts.balance_at 1 accounts ≡ 20)
unfolding Accounts.balance_at
balances = (refl, refl)

transfer_value_lem_example :
    (t : State) × (transfer_value 0xa 0xb 30 start ≡ ok t)
    × ((k : ℕ) → Accounts.balance_at k t.accounts ≡ transferred 0 1 30 k start)
transfer_value_lem_example =
    transfer_value_lem 0xa 0xb 0 1 30 start refl refl (omega arith) (omega arith) (omega arith)
      (omega (arith, balances)) (omega (arith, balances)) (omega (arith, balances))

untouched :
    (i : ℕ)
    → start.accounts.index 0xa ≡ some i
    → (i < length start.accounts.mods)
      × (Accounts.last_tx_idx_at i start.accounts ≤ start.tx_counter)
unfolding Accounts.last_tx_idx_at
untouched i h =
    let first : some 0 ≡ some i = h in
    let e : 0 ≡ i = cc in
    subst (λ k. (k < 2) × (Accounts.last_tx_idx_at k accounts ≤ 1)) e (omega arith, omega arith)

access_account_lem_example :
    ((access_account (λ a. a == 1) 0xa start).0
      ≡ access_status ((0xa == 1) || row_is_warm (some 0) 0xa start))
    × ((access_account (λ a. a == 1) 0xa (access_account (λ a. a == 1) 0xa start).1).0 ≡ warm)
access_account_lem_example = access_account_lem (λ a. a == 1) 0xa start untouched

slot_untouched : RowIsCurrent (some 0) 1 storages
unfolding Storages.last_tx_idx_at
slot_untouched i h =
    let first : some 0 ≡ some i = h in
    let e : 0 ≡ i = cc in
    subst (λ k. (k < 1) × (Storages.last_tx_idx_at k storages ≤ 1)) e (omega arith, omega arith)

access_storage_lem_example :
    ((access_storage 0xa 1 start).0 ≡ access_status (slot_is_warm (some 0) 0xa 1 start))
    × ((access_storage 0xa 1 (access_storage 0xa 1 start).1).0 ≡ warm)
access_storage_lem_example = access_storage_lem 0xa 1 start (λ h. refl) slot_untouched

clear_account_for_selfdestruct_lem_example :
    let t = clear_account_for_selfdestruct 0 start in
    (Accounts.balance_at 0 t.accounts ≡ 0)
    × (Accounts.nonce_at 0 t.accounts ≡ 0)
    × (Accounts.code_hash_at 0 t.accounts ≡ empty_code_hash)
    × (Storages.value_at 0 t.storages ≡ 0)
unfolding Storages.slots_of member
clear_account_for_selfdestruct_lem_example =
    clear_account_for_selfdestruct_lem 0 0 start (omega arith) (omega arith) refl

compute_storage_status_lem_example :
    (compute_storage_status 7 0 7 ≡ deleted_restored) ↔ HasShape deleted_restored 7 0 7
compute_storage_status_lem_example = compute_storage_status_lem deleted_restored 7 0 7

find_lem_example :
    ((Storages.find 0xa 1 storages).0 ≡ some 0)
    × ((Storages.find 0xa 1 storages).1
        ≡ record storages { last = (Storages.find 0xa 1 storages).1.last })
    × IsRemembered (Storages.find 0xa 1 storages).1
find_lem_example = find_lem 0xa 1 storages (λ h. refl)

abbrev row : Storages.Original
row = record { address = 0xb; position = 2; value = 5 }

-- The key of the second row twice, with a lookup of another key and a write in between.
find-loaded_example :
    (t : Storages.Storages) × (load
        (row ∷ record row { position = 3 } ∷ [])
        (Storages.reserve 2 Storages.empty)
      ≡ ok t)
    × ((Storages.find 0xb 3
          (use_all (look 0xb 3 ∷ write 1 8 1 ∷ look 0xb 2 ∷ touch 0 1 ∷ look 0xb 3 ∷ []) t)).0
        ≡ some 1)
find-loaded_example =
    find-loaded (row ∷ record row { position = 3 } ∷ []) 2
      (look 0xb 3 ∷ write 1 8 1 ∷ look 0xb 2 ∷ touch 0 1 ∷ look 0xb 3 ∷ []) 0xb 3 (omega arith)

restore-set_example :
    TransientStorage.restore 0xa 2 false 0
      (TransientStorage.set 0xa 2 9 TransientStorage.reset).1
      0xa
      2
    ≡ none
unfolding TransientStorage.set
restore-set_example = restore-set 0xa 2 9 TransientStorage.reset 0xa 2
