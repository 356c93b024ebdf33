-- ===== src/StateDb/Calls/Tests.antt =====
-- Calls and creations of a small world.
use ziskethone.Prelude.{
  suc, ◌≡◌, ◌≢◌, refl, arith, true, false, none, some, [], ◌∷◌, length, ok, fatal,
}
use ziskethone.Prelude.Rows
use ziskethone.Accounts
use ziskethone.Storages
use ziskethone.Contracts
use ziskethone.Contracts.Lookup.{IsIndexed}
use ziskethone.Journal
use ziskethone.StateDb
use ziskethone.StateDb.{State, checkpoint, rollback, account_row}
use ziskethone.StateDb.Status
use ziskethone.StateDb.Tests.{start}
use ziskethone.StateDb.Rollback.{Restored}
use ziskethone.StateDb.Code
use ziskethone.StateDb.Code.{out_of_fuel, code_and_entry}
use ziskethone.StateDb.Precompiles.{CallKind, Message, Outcome, revert, without_output}
use ziskethone.StateDb.Calls
use ziskethone.StateDb.Calls.{
  Env, Called, Script, finish, ask, ask_set_storage, ask_call, ask_emit_log, call, call_create,
  run_frame, bump_and_warm, register_deployed_code,
}
use ziskethone.StateDb.Calls.Failed.{call-Restored, call_create-Restored, rollback-run_frame}
use ziskethone.StateDb.Calls.Settled.{AsksDeeper}
use ziskethone.StateDb.Calls.Fuel.{Deepens, call-ne-out_of_fuel}
use ziskethone.StateDb.Calls.Deployed.{register_deployed_code-code_and_entry}

-- A call from 0xa to 0xb of 30 wei.
abbrev message : Message
message = record {
  kind = CallKind.call;
  delegated = false;
  depth = 0;
  gas = 1000;
  state_gas = 0;
  recipient = 0xb;
  sender = 0xa;
  code_address = 0xb;
  value = 30;
  input = [];
  code = none;
}

-- Its frame writes a slot of 0xa, logs and reverts.
abbrev leaf_script : Message → Script
leaf_script msg =
    ask (ask_set_storage 0xa 1 5)
      (λ status. ask (ask_emit_log 8) (λ done. finish (without_output revert 10 msg)))

abbrev env : Env
env = record {
  is_london_or_later = true;
  execute = λ msg code. leaf_script msg;
  is_precompile = λ addr. false;
  call_precompile = λ msg. without_output revert 0 msg;
  ecrecover_address = λ hash r s v. none;
  keccak256 = length;
  block_start_storage_empty_at = λ idx. true;
}

abbrev result : Outcome
result = without_output revert 10 message

abbrev state_of : Called Outcome → State
state_of (ok r) = r.1
state_of (fatal e) = start

abbrev after_call : State
after_call = state_of (call env 1 message start)

reverted : call env 1 message start ≡ ok (result, after_call)
unfolding call Code.code_and_entry run_frame StateDb.checkpoint StateDb.rollback Journal.rollback
    Journal.checkpoint Journal.pop_to Journal.log Journal.undo Journal.entry_at
    StateDb.transfer_value StateDb.account_row StateDb.emit_log Status.set_storage Contracts.by_hash
    StateDb.storage_row Storages.find StateDb.put_balance Accounts.set_balance_at
    StateDb.save_balance Accounts.code_hash_at Accounts.mark_touched_at Rows.update
    StateDb.write_slot
reverted = refl

call-Restored_example : Restored false start after_call
call-Restored_example = call-Restored env 1 message start after_call result refl reverted refl

-- A creation at 0xb whose init code is that frame.
abbrev creation : Message
creation = record message { kind = CallKind.create; value = 0; code = some (0x60 ∷ []) }

abbrev after_create : State
after_create = state_of (call_create env (call env 1) creation start)

create_reverted :
    call_create env (call env 1) creation start
    ≡ ok (without_output revert 10 creation, after_create)
unfolding call_create call Code.code_and_entry run_frame StateDb.checkpoint StateDb.rollback
    Journal.rollback Journal.checkpoint Journal.pop_to Journal.log Journal.undo Journal.entry_at
    StateDb.transfer_value StateDb.account_row StateDb.emit_log Status.set_storage Contracts.by_hash
    StateDb.storage_row Storages.find StateDb.put_balance Accounts.set_balance_at
    StateDb.save_balance Accounts.code_hash_at Accounts.mark_touched_at Rows.update
    StateDb.write_slot Calls.address_has_storage Calls.has_block_start_storage Calls.create_account
    Calls.bump_and_warm StateDb.write_nonce Accounts.nonce_at Accounts.is_warm_at
    Accounts.set_nonce_at Storages.slots_of Journal.member
create_reverted = refl

rows : (account_row 0xa start ≡ ok 0) × (account_row 0xb start ≡ ok 1)
unfolding account_row
rows = (refl, refl)

call_create-Restored_example : Restored false (bump_and_warm 0 1 start) after_create
call_create-Restored_example =
    call_create-Restored env 1 creation start after_create 0 1 (without_output revert 10 creation)
      rows.0 rows.1 create_reverted refl

-- A frame that makes that call and ends as it did.
abbrev caller : Script
caller = ask (ask_call message) (λ answer. finish answer)

abbrev after_caller : State
after_caller = state_of (run_frame env (call env 1) caller (checkpoint start).1)

caller_ran : run_frame env (call env 1) caller (checkpoint start).1 ≡ ok (result, after_caller)
unfolding call Code.code_and_entry run_frame StateDb.checkpoint StateDb.rollback Journal.rollback
    Journal.checkpoint Journal.pop_to Journal.log Journal.undo Journal.entry_at
    StateDb.transfer_value StateDb.account_row StateDb.emit_log Status.set_storage Contracts.by_hash
    StateDb.storage_row Storages.find StateDb.put_balance Accounts.set_balance_at
    StateDb.save_balance Accounts.code_hash_at Accounts.mark_touched_at Rows.update
    StateDb.write_slot
caller_ran = refl

rollback-run_frame_example :
    (u : State) × (rollback (checkpoint start).0 after_caller ≡ ok u) × Restored false start u
rollback-run_frame_example = rollback-run_frame env 1 caller start after_caller result caller_ran

-- An interpreter whose frames call themselves one level deeper, without end.
abbrev endless : Env
endless = record env {
  execute =
      λ msg code. ask (ask_call (record msg { depth = suc msg.depth })) (λ answer. finish answer);
}

endless-Deepens : Deepens endless
unfolding AsksDeeper
endless-Deepens msg code = (omega arith, λ answer. tt)

call-ne-out_of_fuel_example : call endless 1026 message start ≢ fatal out_of_fuel
call-ne-out_of_fuel_example =
    call-ne-out_of_fuel endless 1026 message start endless-Deepens (omega arith)

start-IsIndexed : IsIndexed start.contracts
start-IsIndexed = record { in_range = λ h i e. absurd (cc); same_hash = λ h i e. absurd (cc) }

no_entry : Contracts.has 2 start.contracts ≡ false
unfolding Contracts.has
no_entry = refl

register_deployed_code-code_and_entry_example :
    (t u : State) × (register_deployed_code env 0xb (0x60 ∷ 0x00 ∷ []) start ≡ ok t)
    × (code_and_entry 0xb t ≡ ok (0x60 ∷ 0x00 ∷ [], u))
register_deployed_code-code_and_entry_example =
    register_deployed_code-code_and_entry env 0xb 1 (0x60 ∷ 0x00 ∷ []) start refl (omega arith)
      start-IsIndexed (omega arith) refl no_entry
