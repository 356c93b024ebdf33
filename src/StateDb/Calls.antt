-- ===== src/StateDb/Calls.antt =====
-- cpp-guest/src/zisk_state_db.cpp: `call` and `call_create`, over an interpreter that is a parameter.
pub mod Create
pub mod Kept
pub mod Undone
pub mod Failed
pub mod Deployed
pub mod Settled
pub mod Fuel
mod Tests
use ziskethone.Prelude.{
  ℕ, zero, suc, ◌+◌, ◌-◌, ◌*◌, ◌^◌, Bool, true, false, not, ◌&&◌, ◌||◌, Option, none, some, List,
  [], ◌∷◌, ltb, leb, ◌==◌, if◌then◌else◌, length, Result, ok, fatal, ◌>>=◌,
}
use ziskethone.Accounts
use ziskethone.Storages
use ziskethone.Contracts
use ziskethone.Journal.{Entry, member, insert}
use ziskethone.StateDb.{
  State, Checkpoint, AccessStatus, checkpoint, rollback, account_row, account_exists, get_storage,
  get_transient_storage, set_transient_storage, get_balance, get_nonce, get_code_hash, selfdestruct,
  transfer_value, emit_log, access_account, access_storage, write_nonce, write_code_hash, touch,
  log_entry, empty_code_hash,
}
use ziskethone.StateDb.Status.{StorageStatus, set_storage}
use ziskethone.StateDb.Code.{
  CallFault, depth_exceeded, out_of_fuel, lift, code_and_entry, get_code_size, copy_code,
}
use ziskethone.StateDb.Precompiles.{
  StatusCode, success, failure, out_of_gas, contract_validation_failure, is_success, CallKind,
  Message, Outcome, without_output, call_precompile_dispatch,
}

-- What an interpreter asks of its host: the methods of `evmc::Host` that `ZiskStateDB` overrides and
-- that depend on the state it keeps.
pub data Request : Type 0 where
  ask_account_exists ask_balance ask_nonce ask_code_size ask_code_hash ask_access_account :
      (addr : ℕ) → Request
  ask_storage ask_transient_storage ask_access_storage : (addr key : ℕ) → Request
  ask_set_storage ask_set_transient_storage : (addr key value : ℕ) → Request
  ask_copy_code : (addr offset buffer_size : ℕ) → Request
  ask_selfdestruct : (addr beneficiary : ℕ) → Request
  ask_emit_log : (entry : ℕ) → Request
  ask_call : Message → Request

abbrev pub Answer : Request → Type 0
Answer (ask_account_exists addr) = Bool
Answer (ask_balance addr) = ℕ
Answer (ask_nonce addr) = ℕ
Answer (ask_code_size addr) = ℕ
Answer (ask_code_hash addr) = ℕ
Answer (ask_access_account addr) = AccessStatus
Answer (ask_storage addr key) = ℕ
Answer (ask_transient_storage addr key) = ℕ
Answer (ask_access_storage addr key) = AccessStatus
Answer (ask_set_storage addr key value) = StorageStatus
Answer (ask_set_transient_storage addr key value) = Unit
Answer (ask_copy_code addr offset buffer_size) = List ℕ
Answer (ask_selfdestruct addr beneficiary) = Bool
Answer (ask_emit_log entry) = Unit
Answer (ask_call msg) = Outcome

-- What a frame does, as its host sees it: it ends, or makes a request and goes on with the answer.
pub data Script : Type 0 where
  finish : Outcome → Script
  ask : (r : Request) → (Answer r → Script) → Script

-- What the calls take from elsewhere: the revision, the interpreter (`vm2_->execute2` on a message and
-- its code), the precompiles, keccak, and the mark that the walk of the old state root left on a row.
pub record Env : Type 0 where
  pub is_london_or_later : Bool
  pub execute : Message → List ℕ → Script
  pub is_precompile : ℕ → Bool
  pub call_precompile : Message → Outcome
  pub ecrecover_address : List ℕ → List ℕ → List ℕ → ℕ → Option (List ℕ)
  pub keccak256 : List ℕ → ℕ
  pub block_start_storage_empty_at : ℕ → Bool

abbrev pub Called : Type 0 → Type 0
Called A = Result CallFault (A × State)

abbrev pub Caller : Type 0
Caller = Message → State → Called Outcome

-- The host's answer to a request, where `call` answers the inner messages.
abbrev pub perform : Env → Caller → (r : Request) → State → Called (Answer r)
perform env call (ask_account_exists addr) s =
    lift (account_exists addr s) >>= λ exists. ok (exists, s)
perform env call (ask_balance addr) s = lift (get_balance addr s)
perform env call (ask_nonce addr) s = lift (get_nonce addr s)
perform env call (ask_code_size addr) s = get_code_size addr s
perform env call (ask_code_hash addr) s = lift (get_code_hash addr s)
perform env call (ask_access_account addr) s = ok (access_account env.is_precompile addr s)
perform env call (ask_storage addr key) s = lift (get_storage addr key s)
perform env call (ask_transient_storage addr key) s = ok (get_transient_storage addr key s, s)
perform env call (ask_access_storage addr key) s = ok (access_storage addr key s)
perform env call (ask_set_storage addr key value) s = lift (set_storage addr key value s)
perform env call (ask_set_transient_storage addr key value) s =
    ok (tt, set_transient_storage addr key value s)
perform env call (ask_copy_code addr offset buffer_size) s = copy_code addr offset buffer_size s
perform env call (ask_selfdestruct addr beneficiary) s = lift (selfdestruct addr beneficiary s)
perform env call (ask_emit_log entry) s = ok (tt, emit_log entry s)
perform env call (ask_call msg) s = call msg s

-- `run_frame`
unfoldable pub run_frame : Env → Caller → Script → State → Called Outcome
run_frame env call (finish result) s = ok (result, s)
run_frame env call (ask r k) s = perform env call r s >>= λ a. run_frame env call (k a.0) a.1

-- `rollback(cp)`, and then the result.
abbrev rolled_back : Checkpoint → Outcome → State → Called Outcome
rolled_back cp result s = lift (rollback cp s) >>= λ t. ok (result, t)

abbrev undo_failure : Checkpoint → Outcome → State → Called Outcome
undo_failure cp result s =
    if is_success result.status_code then ok (result, s) else rolled_back cp result s

-- A transfer of a value that is not 0.
abbrev pay : ℕ → ℕ → ℕ → State → Result CallFault State
pay from to value s = if value == 0 then ok s else lift (transfer_value from to value s)

abbrev is_plain_call : CallKind → Bool
is_plain_call CallKind.call = true
is_plain_call _ = false

unfoldable pub call_to_precompile : Env → Message → State → Called Outcome
call_to_precompile env msg s =
    let result = call_precompile_dispatch env.ecrecover_address env.call_precompile msg in
    if is_plain_call msg.kind && not (msg.value == 0)
    then (let (pcp, s1) = checkpoint s in
        lift (transfer_value msg.sender msg.recipient msg.value s1) >>= λ s2.
        undo_failure pcp result s2)
    else ok (result, s)

-- The frame of a message that runs the code of an account.
unfoldable pub run_code : Env → Caller → Message → Checkpoint → State → Called Outcome
unfolding run_frame
run_code env call msg cp s = code_and_entry msg.code_address s >>= λ r.
    run_frame env call (env.execute msg r.0) r.1 >>= λ a. undo_failure cp a.0 a.1

-- `charge_code_deposit` before Amsterdam: the gas that is left, or that it does not suffice.
unfoldable pub charge_code_deposit : Outcome → Option Outcome
charge_code_deposit result =
    let size = length result.output in
    if ltb result.gas_left (size * 200)
    then none
    else some (record result { gas_left = result.gas_left - size * 200 })

-- `address_has_storage`, the loop over the account's slots.
unfoldable pub any_nonzero : List ℕ → State → Bool
any_nonzero [] s = false
any_nonzero (i ∷ slots) s =
    let rest = any_nonzero slots s in if Storages.value_at i s.storages == 0 then rest else true

unfoldable pub address_has_storage : ℕ → State → Bool
unfolding any_nonzero
address_has_storage addr s = any_nonzero (Storages.slots_of addr s.storages) s

unfoldable pub has_block_start_storage : Env → ℕ → State → Bool
has_block_start_storage env idx s =
    if member idx s.wiped then false else not (env.block_start_storage_empty_at idx)

-- The collision test of `init_create_account`.
unfoldable pub collides : Env → ℕ → ℕ → State → Bool
unfolding address_has_storage has_block_start_storage
collides env new_addr new_idx s =
    not (Accounts.nonce_at new_idx s.accounts == 0)
    || not (Accounts.code_hash_at new_idx s.accounts == empty_code_hash)
    || address_has_storage new_addr s
    || has_block_start_storage env new_idx s

-- `none` for the answer false, with no state changed.
unfoldable pub init_create_account : Env → ℕ → Message → State → Result CallFault (Option State)
unfolding collides
init_create_account env new_addr msg s = lift (account_row new_addr s) >>= λ new_idx.
    if collides env new_addr new_idx s
    then ok none
    else (pay msg.sender new_addr msg.value (write_nonce new_idx 1 s) >>= λ t. ok (some t))

unfoldable pub register_deployed_code : Env → ℕ → List ℕ → State → Result CallFault State
register_deployed_code env new_addr output s = lift (account_row new_addr s) >>= λ new_idx.
    let deployed_hash = env.keccak256 output in
    let s1 =
      (if leb (length output) 0
        then s
        else record s { contracts = Contracts.insert deployed_hash output new_idx s.contracts }) in
    ok (write_code_hash new_idx deployed_hash s1)

abbrev pub max_code_size : ℕ
max_code_size = 0x6000

abbrev starts_with_ef : List ℕ → Bool
starts_with_ef [] = false
starts_with_ef (b ∷ code) = b == 0xef

abbrev deposit_or_fail : Env → Message → Checkpoint → Option Outcome → State → Called Outcome
deposit_or_fail env msg cp none s = rolled_back cp (without_output out_of_gas 0 msg) s
deposit_or_fail env msg cp (some result) s =
    register_deployed_code env msg.recipient result.output s >>= λ t.
    ok (record result { output = [] }, t)

-- What follows the run of the init code in `call_create`.
unfoldable pub deploy : Env → Message → Checkpoint → Outcome → State → Called Outcome
unfolding charge_code_deposit register_deployed_code
deploy env msg cp result s =
    if not (is_success result.status_code)
    then rolled_back cp result s
    else if ltb max_code_size (length result.output)
    then rolled_back cp (without_output out_of_gas 0 msg) s
    else if env.is_london_or_later && starts_with_ef result.output
    then rolled_back cp (without_output contract_validation_failure 0 msg) s
    else deposit_or_fail env msg cp (charge_code_deposit result) s

abbrev init_code : Message → List ℕ
init_code msg = elim msg.code [ some code ↦ code | none ↦ msg.input ]

-- The nonce of the sender and the warmth of the new address, which a failed creation keeps.
abbrev warmed : ℕ → State → State
warmed na_idx s = touch na_idx (
    if Accounts.is_warm_at na_idx s.tx_counter s.accounts
    then s
    else log_entry (Entry.account_warm na_idx (Accounts.last_tx_idx_at na_idx s.accounts)) s)

unfoldable pub bump_and_warm : ℕ → ℕ → State → State
bump_and_warm sender_idx na_idx s =
    warmed na_idx (write_nonce sender_idx (suc (Accounts.nonce_at sender_idx s.accounts)) s)

abbrev run_init_code :
    Env → Caller → Message → ℕ → Checkpoint → Option State → State → Called Outcome
run_init_code env call msg na_idx cp none s = rolled_back cp (without_output failure 0 msg) s
run_init_code env call msg na_idx cp (some t) s =
    run_frame env call (env.execute (record msg { input = [] }) (init_code msg))
      (record t { created = insert na_idx t.created })
    >>= λ a. deploy env msg cp a.0 a.1

-- `call_create` from its second checkpoint on.
unfoldable pub create_account : Env → Caller → Message → ℕ → State → Called Outcome
unfolding run_frame deploy init_create_account
create_account env call msg na_idx s =
    let (cp, s1) = checkpoint s in
    init_create_account env msg.recipient msg s1 >>= λ o. run_init_code env call msg na_idx cp o s1

abbrev pub u64_max : ℕ
u64_max = 2 ^ 64 - 1

unfoldable pub call_create : Env → Caller → Message → State → Called Outcome
unfolding create_account bump_and_warm
call_create env call msg s = lift (account_row msg.sender s) >>= λ sender_idx.
    if Accounts.nonce_at sender_idx s.accounts == u64_max
    then ok (without_output success msg.gas msg, s)
    else (lift (account_row msg.recipient s) >>= λ na_idx.
        create_account env call msg na_idx (bump_and_warm sender_idx na_idx s))

abbrev pub by_kind : Env → Caller → CallKind → Message → Checkpoint → State → Called Outcome
by_kind env call CallKind.call msg cp s =
    pay msg.sender msg.recipient msg.value s >>= λ t. run_code env call msg cp t
by_kind env call CallKind.callcode msg cp s = run_code env call msg cp s
by_kind env call CallKind.delegatecall msg cp s = run_code env call msg cp s
by_kind env call CallKind.create msg cp s = call_create env call msg s
by_kind env call CallKind.create2 msg cp s = call_create env call msg s

-- `call`, where `inner` answers the messages of the frame.
unfoldable pub call_with : Env → Caller → Message → State → Called Outcome
unfolding call_to_precompile run_code call_create
call_with env inner msg s =
    if ltb 1024 msg.depth
    then fatal depth_exceeded
    else if not msg.delegated && env.is_precompile msg.code_address
    then call_to_precompile env msg s
    else let (cp, s1) = checkpoint s in by_kind env inner msg.kind msg cp s1

-- `call`, on as many levels of inner calls as the fuel.
unfoldable pub call : Env → ℕ → Caller
unfolding call_with
call env zero msg s = fatal out_of_fuel
call env (suc fuel) msg s = call_with env (call env fuel) msg s
