-- ===== src/StateDb.antt =====
-- cpp-guest/src/zisk_state_db.cpp: the host operations that read and write the world state.
-- The model covers the revisions before Amsterdam: `bal_` is null, no transfer log is emitted and a
-- destroyed account's balance is burned. A 256-bit value is the number of its big-endian bytes.
pub mod Status
pub mod Balances
pub mod Grown
pub mod Frames
pub mod Operations
pub mod Answers
pub mod Destruct
pub mod Rollback
pub mod Code
pub mod Precompiles
pub mod Calls
pub mod Accounting
pub mod Settlement
pub mod BlockCredits
mod Tests
pub mod Sstore
pub mod Transfer
pub mod Warmth
pub mod WarmSlots
use ziskethone.Prelude.{
  ℕ, zero, suc, ◌+◌, ◌-◌, ◌%◌, ◌^◌, Bool, true, false, not, ◌&&◌, ◌||◌, Option, none, some, List,
  [], ◌∷◌, ◌++◌, ltb, leb, ◌==◌, if◌then◌else◌, length, take, Result, ok, fatal, ◌>>=◌,
}
use ziskethone.Accounts
use ziskethone.Storages
use ziskethone.WarmKeys
use ziskethone.Contracts.{Contracts}
use ziskethone.TransientStorage
use ziskethone.Journal
use ziskethone.Journal.{Entry, Journal, World, member, insert}

-- `ZiskStateDB`: the tables, the log, the transaction counter, and the sets of rows that a creation or
-- a destruction marked. `logs` are those of the current receipt, `none` where there is none.
pub record State : Type 0 where
  pub world : World
  pub open world use *
  pub journal : Journal
  pub tx_counter : ℕ
  pub contracts : Contracts
  pub created : List ℕ
  pub wiped : List ℕ
  pub logs : Option (List ℕ)
  pub in_system_call : Bool
  pub cancun : Bool

pub data Fault : Type 0 where
  missing_account missing_slot invalid_checkpoint : Fault

pub data AccessStatus : Type 0 where
  warm cold : AccessStatus

abbrev pub access_status : Bool → AccessStatus
access_status b = if b then warm else cold

-- keccak256 of the empty byte string
abbrev pub empty_code_hash : ℕ
empty_code_hash = 0xc5d2460186f7233c927e7db2dcc703c0e500b653ca82273b7bfad8045d85a470

-- The writes to one table of the world, and to the log.
abbrev pub put_accounts : Accounts.Accounts → State → State
put_accounts a s = record s { world = record s.world { accounts = a } }

abbrev pub put_storages : Storages.Storages → State → State
put_storages t s = record s { world = record s.world { storages = t } }

abbrev pub put_warm_keys : WarmKeys.WarmKeys → State → State
put_warm_keys k s = record s { world = record s.world { warm_keys = k } }

abbrev pub put_transients : TransientStorage.Transient → State → State
put_transients m s = record s { world = record s.world { transients = m } }

abbrev pub put_pending : List ℕ → State → State
put_pending rows s = record s { world = record s.world { pending = rows } }

abbrev pub log_entry : Entry → State → State
log_entry e s = record s { journal = Journal.log e s.journal }

-- `journal_.log_balance(i, balance_at(i), last_tx_idx_at(i))` and then `set_balance_at`; so for the
-- other fields.
unfoldable pub save_balance : ℕ → State → State
save_balance i s =
    log_entry
      (Entry.balance i (Accounts.balance_at i s.accounts) (Accounts.last_tx_idx_at i s.accounts)) s

unfoldable pub put_balance : ℕ → ℕ → State → State
put_balance i v s = put_accounts (Accounts.set_balance_at i v s.tx_counter s.accounts) s

unfoldable pub write_nonce : ℕ → ℕ → State → State
write_nonce i v s = put_accounts (Accounts.set_nonce_at i v s.tx_counter s.accounts) (
    log_entry
      (Entry.nonce i (Accounts.nonce_at i s.accounts) (Accounts.last_tx_idx_at i s.accounts)) s)

unfoldable pub write_code_hash : ℕ → ℕ → State → State
write_code_hash i v s = put_accounts (Accounts.set_code_hash_at i v s.tx_counter s.accounts) (
    log_entry
      (Entry.code_hash i (Accounts.code_hash_at i s.accounts)
        (Accounts.last_tx_idx_at i s.accounts))
      s)

unfoldable pub write_slot : ℕ → ℕ → State → State
write_slot i v s = put_storages (Storages.set_value_at i v s.tx_counter s.storages) (
    log_entry
      (Entry.storage i (Storages.value_at i s.storages) (Storages.last_tx_idx_at i s.storages)) s)

abbrev account_found : Option ℕ → Result Fault ℕ
account_found (some i) = ok i
account_found none = fatal missing_account

unfoldable pub account_row : ℕ → State → Result Fault ℕ
account_row addr s = account_found (s.accounts.index addr)

abbrev slot_found : Option ℕ → State → Result Fault (ℕ × State)
slot_found (some i) s = ok (i, s)
slot_found none s = fatal missing_slot

unfoldable pub storage_row : ℕ → ℕ → State → Result Fault (ℕ × State)
storage_row addr key s =
    let (found, storages') = Storages.find addr key s.storages in
    slot_found found (put_storages storages' s)

-- `account_exists`
abbrev pub is_nonempty : ℕ → State → Bool
is_nonempty idx s =
    if not (Accounts.nonce_at idx s.accounts == 0)
    then true
    else if not (Accounts.code_hash_at idx s.accounts == empty_code_hash)
    then true
    else not (Accounts.balance_at idx s.accounts == 0)

unfoldable pub account_exists : ℕ → State → Result Fault Bool
account_exists addr s = do idx ← account_row addr s; ok (is_nonempty idx s)

unfoldable pub get_storage : ℕ → ℕ → State → Result Fault (ℕ × State)
get_storage addr key s = do
  (idx, s1) ← storage_row addr key s
  let s2 = put_storages (Storages.mark_touched_at idx s1.tx_counter s1.storages) s1
  ok (Storages.value_at idx s2.storages, s2)

unfoldable pub get_transient_storage : ℕ → ℕ → State → ℕ
get_transient_storage addr key s = TransientStorage.get addr key s.transients

unfoldable pub set_transient_storage : ℕ → ℕ → ℕ → State → State
set_transient_storage addr key value s =
    let (prev, map) = TransientStorage.set addr key value s.transients in
    log_entry (Entry.transient addr key prev.was_present prev.value) (put_transients map s)

abbrev touch : ℕ → State → State
touch i s = put_accounts (Accounts.mark_touched_at i s.tx_counter s.accounts) s

unfoldable pub get_balance : ℕ → State → Result Fault (ℕ × State)
get_balance addr s = do
  i ← account_row addr s
  ok (Accounts.balance_at i (touch i s).accounts, touch i s)

unfoldable pub get_nonce : ℕ → State → Result Fault (ℕ × State)
get_nonce addr s = do
  i ← account_row addr s
  ok (Accounts.nonce_at i (touch i s).accounts, touch i s)

unfoldable pub get_code_hash : ℕ → State → Result Fault (ℕ × State)
unfolding account_exists
get_code_hash addr s = do
  exists ← account_exists addr s
  i ← account_row addr s
  if exists then ok (Accounts.code_hash_at i (touch i s).accounts, touch i s) else ok (0, s)

abbrev access_row : Option ℕ → ℕ → State → AccessStatus × State
access_row none addr s =
    let last = WarmKeys.account addr s.warm_keys in
    if last == s.tx_counter then (warm, s) else (
      cold,
      put_warm_keys (WarmKeys.set_account addr s.tx_counter s.warm_keys)
          (log_entry (Entry.warm_key_account addr last) s),
    )
access_row (some idx) addr s =
    if Accounts.is_warm_at idx s.tx_counter s.accounts then (warm, touch idx s) else (
      cold,
      touch idx (log_entry (Entry.account_warm idx (Accounts.last_tx_idx_at idx s.accounts)) s),
    )

-- `access_account`. What `evmone::state::is_precompile` answers for the address is an argument.
unfoldable pub access_account : (ℕ → Bool) → ℕ → State → AccessStatus × State
access_account is_precompile addr s =
    if is_precompile addr then (warm, s) else access_row (s.accounts.index addr) addr s

abbrev touch_slot : ℕ → State → State
touch_slot i s = put_storages (Storages.mark_touched_at i s.tx_counter s.storages) s

abbrev access_slot : Option ℕ → ℕ → ℕ → State → AccessStatus × State
access_slot none addr key s =
    let last = WarmKeys.slot addr key s.warm_keys in
    if last == s.tx_counter then (warm, s) else (
      cold,
      put_warm_keys (WarmKeys.set_slot addr key s.tx_counter s.warm_keys)
          (log_entry (Entry.warm_key_slot addr key last) s),
    )
access_slot (some idx) addr key s =
    if Storages.is_warm_at idx s.tx_counter s.storages then (warm, touch_slot idx s) else (
      cold,
      touch_slot idx
          (log_entry (Entry.storage_warm idx (Storages.last_tx_idx_at idx s.storages)) s),
    )

unfoldable pub access_storage : ℕ → ℕ → State → AccessStatus × State
access_storage addr key s =
    let (found, storages') = Storages.find addr key s.storages in
    access_slot found addr key (put_storages storages' s)

abbrev pub u256 : ℕ
u256 = 2 ^ 256

-- `transfer_value`: the two debits and credits wrap as `intx::uint256` does.
abbrev move_value : ℕ → ℕ → ℕ → State → State
move_value from_idx to_idx value s =
    let from_u = Accounts.balance_at from_idx s.accounts in
    let to_u = Accounts.balance_at to_idx s.accounts in
    put_balance to_idx ((to_u + value) % u256) (
      put_balance from_idx ((from_u + u256 - value) % u256)
        (save_balance to_idx (save_balance from_idx s)))

unfoldable pub transfer_value : ℕ → ℕ → ℕ → State → Result Fault State
transfer_value from to value s = do
  from_idx ← account_row from s
  to_idx ← account_row to s
  if from_idx == to_idx then ok s else ok (move_value from_idx to_idx value s)

-- The registration of a row for destruction at the transaction's end; whether it is a new one.
unfoldable pub register_destruct : ℕ → State → Bool × State
register_destruct idx s =
    let present = member idx s.pending in
    (
      not present,
      log_entry (Entry.pending_destruct idx present) (put_pending (insert idx s.pending) s),
    )

abbrev sweep : ℕ → ℕ → State → State
sweep src_idx dst_idx s =
    let src_u = Accounts.balance_at src_idx s.accounts in
    let dst_u = Accounts.balance_at dst_idx s.accounts in
    put_balance src_idx 0
      (put_balance dst_idx ((dst_u + src_u) % u256) (save_balance dst_idx (save_balance src_idx s)))

-- The two ends of `selfdestruct`, once its rows and its tests are known.
abbrev destruct_to_self : Bool → ℕ → State → Bool × State
destruct_to_self should_destroy src_idx s =
    if should_destroy
    then register_destruct src_idx (put_balance src_idx 0 (save_balance src_idx s))
    else (false, s)

abbrev destruct_to_other : Bool → ℕ → ℕ → State → Bool × State
destruct_to_other should_destroy src_idx dst_idx s =
    if should_destroy
    then register_destruct src_idx (sweep src_idx dst_idx s)
    else (false, sweep src_idx dst_idx s)

abbrev pub should_destroy : ℕ → State → Bool
should_destroy src_idx s = if s.cancun then member src_idx s.created else true

unfoldable pub selfdestruct : ℕ → ℕ → State → Result Fault (Bool × State)
selfdestruct addr beneficiary s = account_row addr s >>= λ src_idx.
    if addr == beneficiary
    then ok (destruct_to_self (should_destroy src_idx s) src_idx s)
    else (account_row beneficiary s >>= λ dst_idx.
        ok (destruct_to_other (should_destroy src_idx s) src_idx dst_idx s))

-- The loop of `clear_account_for_selfdestruct` over the account's slots.
unfoldable pub clear_slots : List ℕ → State → State
clear_slots [] s = s
clear_slots (i ∷ slots) s =
    clear_slots slots (if Storages.value_at i s.storages == 0 then s else write_slot i 0 s)

unfoldable pub clear_account_for_selfdestruct : ℕ → State → State
clear_account_for_selfdestruct src_idx s =
    let s1 = put_balance src_idx 0 (save_balance src_idx s) in
    let s2 = write_code_hash src_idx empty_code_hash (write_nonce src_idx 0 s1) in
    let addr = (Accounts.original_at s2.accounts src_idx).address in
    let s3 = clear_slots (Storages.slots_of addr s2.storages) s2 in
    record s3 { wiped = insert src_idx s3.wiped }

-- The loop of `apply_pending_destructs`, then `clear`.
unfoldable pub clear_accounts : List ℕ → State → State
clear_accounts [] s = s
clear_accounts (i ∷ rows) s = clear_accounts rows (clear_account_for_selfdestruct i s)

unfoldable pub apply_pending_destructs : State → State
unfolding clear_accounts
apply_pending_destructs s = put_pending [] (clear_accounts s.pending s)

-- `emit_log`, of one log entry.
abbrev push_log : ℕ → Option (List ℕ) → Option (List ℕ)
push_log entry none = none
push_log entry (some logs) = some (logs ++ (entry ∷ []))

unfoldable pub emit_log : ℕ → State → State
emit_log entry s = if s.in_system_call then s else record s { logs = push_log entry s.logs }

-- `ZiskStateDB::Checkpoint`
pub record Checkpoint : Type 0 where
  pub journal_cp : ℕ
  pub log_count : ℕ

abbrev count_logs : Option (List ℕ) → ℕ
count_logs none = 0
count_logs (some logs) = length logs

unfoldable pub checkpoint : State → Checkpoint × State
checkpoint s =
    let (cp, journal') = Journal.checkpoint s.journal in
    (record { journal_cp = cp; log_count = count_logs s.logs }, record s { journal = journal' })

abbrev truncate : ℕ → Option (List ℕ) → Option (List ℕ)
truncate n none = none
truncate n (some logs) = some (take n logs)

abbrev restored : ℕ → State → Result Journal.Fault (Journal × World) → Result Fault State
restored n s (ok (journal', world')) =
    ok (record s { world = world'; journal = journal'; logs = truncate n s.logs })
restored n s (fatal e) = fatal invalid_checkpoint

unfoldable pub rollback : Checkpoint → State → Result Fault State
rollback cp s = restored cp.log_count s (Journal.rollback cp.journal_cp s.journal s.world)
