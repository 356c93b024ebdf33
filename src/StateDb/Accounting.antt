-- ===== src/StateDb/Accounting.antt =====
-- cpp-guest/src/zisk_state_db.cpp: the checks of a transaction before Amsterdam, its gas price and the
-- accounting before the EVM runs. `tx_context_.blob_hashes` is the transaction's list of hashes. The
-- maximum cost is a 512-bit number in the program, which holds every sum of its three parts.
pub mod Valid
pub mod Checked
pub mod Charged
mod Tests
use ziskethone.Prelude.{
  ℕ, ◌+◌, ◌-◌, ◌*◌, ◌/◌, ◌%◌, ◌^◌, Bool, true, false, not, ◌&&◌, ◌||◌, Option, none, some, List, [],
  ◌∷◌, ◌++◌, ltb, leb, ◌==◌, if◌then◌else◌, length, get_or, Result, ok, fatal, ◌>>=◌, ◌>>◌,
}
use ziskethone.IntrinsicGas
use ziskethone.IntrinsicGas.{
  TxType, legacy, access_list, dynamic_fee, blob, set_code, osaka, Tx, compute_intrinsic_gas,
}
use ziskethone.Accounts
use ziskethone.Contracts
use ziskethone.StateDb.{State, put_accounts, empty_code_hash, u256}

-- What else `check_transaction` reads of `Transactions::View`; `tx` is what the gas depends on.
pub record View : Type 0 where
  pub tx : Tx
  pub nonce : ℕ
  pub gas_limit : ℕ
  pub chain_id : ℕ
  pub v_or_y_parity : ℕ
  pub gas_price : ℕ
  pub max_fee_per_gas : ℕ
  pub max_priority_fee_per_gas : ℕ
  pub max_fee_per_blob_gas : ℕ
  pub blob_hashes : List ℕ

-- What is read of the block: its chain, its forks, its header, and the counters so far.
pub record Block : Type 0 where
  pub chain : ℕ
  pub london : Bool
  pub shanghai : Bool
  pub cancun : Bool
  pub prague : Bool
  pub osaka : Bool
  pub base_fee_per_gas : ℕ
  pub gas_limit : ℕ
  pub max_blob_gas_per_block : ℕ
  pub blob_base_fee : ℕ
  pub cumulative_gas_used : ℕ
  pub blob_gas_used : ℕ

pub data TxFault : Type 0 where
  intrinsic : IntrinsicGas.Fault → TxFault
  type_not_active chain_id_mismatch below_intrinsic_gas gas_limit_exceeds_cap : TxFault
  nonce_at_maximum init_code_too_long exceeds_block_gas priority_above_max : TxFault
  below_base_fee without_blobs too_many_blobs wrong_version block_blob_gas : TxFault
  below_blob_base_fee no_creation no_authorizations nonce_mismatch : TxFault
  below_upfront_cost missing_code sender_has_code : TxFault

abbrev lift {ℓ} : {A : Type ℓ} → Result IntrinsicGas.Fault A → Result TxFault A
lift (ok a) = ok a
lift (fatal e) = fatal (intrinsic e)

-- `if (test) fatal(…)`, one after the other.
abbrev pub checks : List (Bool × TxFault) → Result TxFault (Unit {0})
checks [] = ok tt
checks (c ∷ cs) = if c.0 then fatal c.1 else checks cs

abbrev pub is_blob : TxType → Bool
is_blob blob = true
is_blob _ = false

abbrev pub is_set_code : TxType → Bool
is_set_code set_code = true
is_set_code _ = false

abbrev pub is_legacy : TxType → Bool
is_legacy legacy = true
is_legacy _ = false

-- `legacy_fee`
abbrev pub legacy_fee : TxType → Bool
legacy_fee legacy = true
legacy_fee access_list = true
legacy_fee _ = false

abbrev pub is_inactive : Block → TxType → Bool
is_inactive block legacy = false
is_inactive block access_list = false
is_inactive block dynamic_fee = not block.london
is_inactive block blob = not block.cancun
is_inactive block set_code = not block.prague
is_inactive block osaka = true

abbrev pub creates : View → Bool
creates v = elim v.tx.to [ none ↦ true | some to ↦ false ]

abbrev pub max_tx_gas_limit : ℕ
max_tx_gas_limit = 2 ^ 24

abbrev pub gas_per_blob : ℕ
gas_per_blob = 131072

abbrev pub u64 : ℕ
u64 = 2 ^ 64

abbrev kind_checks : Block → View → List (Bool × TxFault)
kind_checks block v =
    (is_inactive block v.tx.type, type_not_active)
    ∷ (
      not (v.chain_id == block.chain) && not (is_legacy v.tx.type && ltb v.v_or_y_parity 35),
      chain_id_mismatch,
    )
    ∷ []

abbrev maximum : ℕ → ℕ → ℕ
maximum a b = if ltb a b then b else a

-- What the gas limit must reach: `intrinsic_gas`, and its floor from Prague on.
abbrev pub min_gas : Block → ℕ × ℕ → ℕ
min_gas block gas = if block.prague then maximum gas.0 gas.1 else gas.0

abbrev limit_checks : Block → View → ℕ × ℕ → List (Bool × TxFault)
limit_checks block v gas =
    (ltb v.gas_limit (min_gas block gas), below_intrinsic_gas)
    ∷ (block.osaka && ltb max_tx_gas_limit v.gas_limit, gas_limit_exceeds_cap)
    ∷ (v.nonce == u64 - 1, nonce_at_maximum)
    ∷ (creates v && block.shanghai && ltb 0xc000 (length v.tx.calldata), init_code_too_long)
    ∷ (
      ltb ((block.gas_limit + u64 - block.cumulative_gas_used) % u64) v.gas_limit,
      exceeds_block_gas,
    )
    ∷ []

abbrev pub fee_cap : View → ℕ
fee_cap v = if legacy_fee v.tx.type then v.gas_price else v.max_fee_per_gas

abbrev fee_checks : Block → View → List (Bool × TxFault)
fee_checks block v =
    (not (legacy_fee v.tx.type) && ltb (fee_cap v) v.max_priority_fee_per_gas, priority_above_max)
    ∷ (ltb (fee_cap v) block.base_fee_per_gas, below_base_fee)
    ∷ []

-- The loop over the versioned hashes, whose first byte is the version.
unfoldable pub any_wrong_version : List ℕ → Bool
any_wrong_version [] = false
any_wrong_version (h ∷ hashes) = not (h / 2 ^ 248 == 1) || any_wrong_version hashes

abbrev blob_checks : Block → View → List (Bool × TxFault)
blob_checks block v =
    let count = length v.blob_hashes in
    (is_blob v.tx.type && (count == 0), without_blobs)
    ∷ (is_blob v.tx.type && block.osaka && ltb 6 count, too_many_blobs)
    ∷ (is_blob v.tx.type && any_wrong_version v.blob_hashes, wrong_version)
    ∷ (is_blob v.tx.type && ltb block.max_blob_gas_per_block block.blob_gas_used, block_blob_gas)
    ∷ (is_blob v.tx.type && ltb v.max_fee_per_blob_gas block.blob_base_fee, below_blob_base_fee)
    ∷ ((is_blob v.tx.type || is_set_code v.tx.type) && creates v, no_creation)
    ∷ (is_set_code v.tx.type && (v.tx.num_authorizations == 0), no_authorizations)
    ∷ []

-- `max_cost`, the value included.
abbrev pub max_cost : View → ℕ
max_cost v =
    v.gas_limit * fee_cap v
    + (if is_blob v.tx.type
        then length v.blob_hashes * gas_per_blob * v.max_fee_per_blob_gas
        else 0)
    + v.tx.value

abbrev sender_checks : View → ℕ → State → List (Bool × TxFault)
sender_checks v sender_idx s =
    (not (v.nonce == Accounts.nonce_at sender_idx s.accounts), nonce_mismatch)
    ∷ (ltb (Accounts.balance_at sender_idx s.accounts) (max_cost v), below_upfront_cost)
    ∷ []

-- The delegation designator of EIP-7702.
abbrev pub is_delegation : List ℕ → Bool
is_delegation code =
    (length code == 23)
    && (get_or code 0 0 == 0xef)
    && (get_or code 1 0 == 0x01)
    && (get_or code 2 0 == 0x00)

abbrev designated : Block → Result Contracts.Fault Contracts.Contract → Result TxFault (Unit {0})
designated block (ok c) =
    if block.prague && is_delegation c.code then ok tt else fatal sender_has_code
designated block (fatal e) = fatal missing_code

unfoldable pub check_sender_code : Block → ℕ → State → Result TxFault (Unit {0})
check_sender_code block sender_idx s =
    let hash = Accounts.code_hash_at sender_idx s.accounts in
    if hash == empty_code_hash then ok tt else designated block (Contracts.by_hash hash s.contracts)

-- All that follows the computation of the intrinsic gas.
abbrev checks_on : Block → View → ℕ → State → ℕ × ℕ → List (Bool × TxFault)
checks_on block v sender_idx s gas =
    limit_checks block v gas
    ++ (fee_checks block v ++ (blob_checks block v ++ sender_checks v sender_idx s))

abbrev after_gas : Block → View → ℕ → State → ℕ × ℕ → Result TxFault (ℕ × ℕ)
after_gas block v sender_idx s gas =
    checks (checks_on block v sender_idx s gas) >> (check_sender_code block sender_idx s >> ok gas)

-- The intrinsic gas and the calldata floor.
abbrev gas_of : Block → View → Result TxFault (ℕ × ℕ)
gas_of block v =
    lift (compute_intrinsic_gas v.tx (record { shanghai = block.shanghai; amsterdam = false }))

-- `check_transaction`, with the floor, which the program keeps in `tx_floor_gas_`.
unfoldable pub check_transaction : Block → View → ℕ → State → Result TxFault (ℕ × ℕ)
unfolding any_wrong_version check_sender_code
check_transaction block v sender_idx s =
    checks (kind_checks block v) >> (gas_of block v >>= after_gas block v sender_idx s)

-- `tx_gas_price` of `build_per_tx_context`; the sum wraps as `intx::uint256` does.
unfoldable pub tx_gas_price : Block → View → ℕ
tx_gas_price block v =
    if legacy_fee v.tx.type
    then v.gas_price
    else let offered = (block.base_fee_per_gas + v.max_priority_fee_per_gas) % u256 in
      if ltb offered v.max_fee_per_gas then offered else v.max_fee_per_gas

-- `upfront_u`
unfoldable pub upfront : Block → View → ℕ
unfolding tx_gas_price
upfront block v =
    let gas = (v.gas_limit * tx_gas_price block v) % u256 in
    if is_blob v.tx.type
    then (gas + ((length v.blob_hashes * gas_per_blob) % u64 * block.blob_base_fee) % u256) % u256
    else gas

-- The writes of `apply_pre_evm_accounting`, which no rollback undoes.
unfoldable pub charge_sender : Block → View → ℕ → State → State
unfolding upfront
charge_sender block v i s =
    let s1 =
      put_accounts
        (Accounts.set_nonce_at i ((Accounts.nonce_at i s.accounts + 1) % u64) s.tx_counter
          s.accounts)
        s in
    let bal_u = Accounts.balance_at i s1.accounts in
    put_accounts
      (Accounts.set_balance_at i ((bal_u + u256 - upfront block v) % u256) s1.tx_counter
        s1.accounts)
      s1

unfoldable pub apply_pre_evm_accounting : Block → View → ℕ → State → Result TxFault (ℕ × State)
unfolding check_transaction charge_sender
apply_pre_evm_accounting block v sender_idx s =
    check_transaction block v sender_idx s >>= λ gas. ok (gas.0, charge_sender block v sender_idx s)
