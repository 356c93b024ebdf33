-- ===== src/StateDb/Precompiles.antt =====
-- cpp-guest/src/zisk_state_db.cpp: the messages and results of the EVM, and the dispatch of
-- precompiles. The states before Amsterdam keep no state gas but the amount left.
use ziskethone.Prelude.{
  ℕ, ◌-◌, Bool, true, false, not, ◌&&◌, ◌||◌, Option, none, some, List, [], ◌∷◌, ◌++◌, ltb, ◌==◌,
  if◌then◌else◌, length, take, drop, get_or, replicate,
}

-- `evmc_status_code`, the ones that the host names apart.
pub data StatusCode : Type 0 where
  success failure revert out_of_gas contract_validation_failure : StatusCode
  other : ℕ → StatusCode

abbrev pub is_success : StatusCode → Bool
is_success success = true
is_success _ = false

-- `evmc_call_kind`
pub data CallKind : Type 0 where
  call callcode delegatecall create create2 : CallKind

-- `evmc_message`: `delegated` is EVMC_DELEGATED of its flags, and `code` is `none` for a null pointer.
pub record Message : Type 0 where
  pub kind : CallKind
  pub delegated : Bool
  pub depth : ℕ
  pub gas : ℕ
  pub state_gas : ℕ
  pub recipient : ℕ
  pub sender : ℕ
  pub code_address : ℕ
  pub value : ℕ
  pub input : List ℕ
  pub code : Option (List ℕ)

-- `evmc::Result`
pub record Outcome : Type 0 where
  pub status_code : StatusCode
  pub gas_left : ℕ
  pub gas_refund : ℕ
  pub output : List ℕ
  pub state_gas : ℕ

-- `evmc::Result{status, gas_left, 0, nullptr, 0, {.left = msg.state_gas}}`
abbrev pub without_output : StatusCode → ℕ → Message → Outcome
without_output status gas_left msg = record {
  status_code = status;
  gas_left = gas_left;
  gas_refund = 0;
  output = [];
  state_gas = msg.state_gas;
}

abbrev pub ecrecover_gas : ℕ
ecrecover_gas = 3000

-- The input, cut or padded with zeros to 128 bytes.
unfoldable pub padded_input : List ℕ → List ℕ
padded_input input =
    let n = if ltb (length input) 128 then length input else 128 in
    take n input ++ replicate (128 - n) 0

unfoldable pub all_zero : List ℕ → Bool
all_zero [] = true
all_zero (b ∷ bytes) = (b == 0) && all_zero bytes

-- The bytes [from, from + n) of the padded input.
abbrev pub field : ℕ → ℕ → List ℕ → List ℕ
field from n bytes = take n (drop from bytes)

unfoldable pub is_valid_v : List ℕ → Bool
unfolding all_zero
is_valid_v bytes =
    (get_or bytes 63 0 == 27 || get_or bytes 63 0 == 28) && all_zero (field 32 31 bytes)

abbrev recovered : Option (List ℕ) → ℕ → Message → Outcome
recovered none gas_left msg = without_output success gas_left msg
recovered (some signer) gas_left msg = record {
  status_code = success;
  gas_left = gas_left;
  gas_refund = 0;
  output = replicate 12 0 ++ signer;
  state_gas = msg.state_gas;
}

-- `ecrecover_address` of zisk_crypto.hpp, from the hash, r, s and the recovery id, is an argument.
unfoldable pub ecrecover_precompile :
    (List ℕ → List ℕ → List ℕ → ℕ → Option (List ℕ)) → Message → Outcome
unfolding padded_input is_valid_v
ecrecover_precompile ecrecover_address msg =
    if ltb msg.gas ecrecover_gas
    then without_output out_of_gas 0 msg
    else let gas_left = msg.gas - ecrecover_gas in
      let bytes = padded_input msg.input in
      if not (is_valid_v bytes)
      then without_output success gas_left msg
      else recovered
          (ecrecover_address (field 0 32 bytes) (field 64 32 bytes) (field 96 32 bytes)
            (get_or bytes 63 0 - 27))
          gas_left msg

-- `evmone::state::call_precompile` is an argument.
unfoldable pub call_precompile_dispatch :
    (List ℕ → List ℕ → List ℕ → ℕ → Option (List ℕ)) → (Message → Outcome) → Message → Outcome
unfolding ecrecover_precompile
call_precompile_dispatch ecrecover_address call_precompile msg =
    if msg.code_address == 1
    then ecrecover_precompile ecrecover_address msg
    else call_precompile msg
