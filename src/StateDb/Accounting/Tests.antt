-- ===== src/StateDb/Accounting/Tests.antt =====
-- A plain transfer of the first transaction of a block.
use ziskethone.Prelude.{◌+◌, ◌≤◌, ◌≡◌, refl, arith, true, none, some, [], ◌∷◌, ok}
use ziskethone.IntrinsicGas
use ziskethone.IntrinsicGas.{legacy}
use ziskethone.Accounts
use ziskethone.StateDb.{State, put_accounts, empty_code_hash}
use ziskethone.StateDb.Tests.{start}
use ziskethone.StateDb.Accounting.{
  View, Block, check_transaction, apply_pre_evm_accounting, charge_sender,
}
use ziskethone.StateDb.Accounting.Valid.{IsChecked}
use ziskethone.StateDb.Accounting.Checked.{check_transaction-IsChecked}
use ziskethone.StateDb.Accounting.Charged.{proposed_charge, apply_pre_evm_accounting_lem}

abbrev block : Block
block = record {
  chain = 1;
  london = true;
  shanghai = true;
  cancun = true;
  prague = true;
  osaka = true;
  base_fee_per_gas = 7;
  gas_limit = 30000000;
  max_blob_gas_per_block = 786432;
  blob_base_fee = 1;
  cumulative_gas_used = 0;
  blob_gas_used = 0;
}

-- 30 wei to 0xb at 10 wei for a gas, with 21000 gas.
abbrev payment : View
payment = record {
  tx = record {
    type = legacy;
    to = some 0xb;
    sender = 0xa;
    value = 30;
    calldata = [];
    access_list_rlp = [];
    num_authorizations = 0;
  };
  nonce = 0;
  gas_limit = 21000;
  chain_id = 1;
  v_or_y_parity = 37;
  gas_price = 10;
  max_fee_per_gas = 0;
  max_priority_fee_per_gas = 0;
  max_fee_per_blob_gas = 0;
  blob_hashes = [];
}

abbrev payer : Accounts.Original
payer = record { address = 0xa; nonce = 0; balance = 1000000; code_hash = empty_code_hash }

abbrev funded : State
funded =
    put_accounts
      (record {
        originals = payer ∷ [];
        mods = Accounts.fresh_mods ∷ [];
        index = λ a. none;
        capacity = 1;
      })
      start

payment_passes : check_transaction block payment 0 funded ≡ ok (21000, 21000)
unfolding check_transaction IntrinsicGas.compute_intrinsic_gas Accounts.nonce_at Accounts.balance_at
    Accounts.code_hash_at IntrinsicGas.count_access_list IntrinsicGas.count_nonzero_bytes
payment_passes = refl

check_transaction-IsChecked_example :
    IsChecked block payment 0 funded (21000, 21000) × (0 + 21000 ≤ 30000000)
check_transaction-IsChecked_example =
    check_transaction-IsChecked block payment 0 funded (21000, 21000) payment_passes (omega arith)
      (omega arith)

abbrev charged : State
charged = charge_sender block payment 0 funded

payment_accounted : apply_pre_evm_accounting block payment 0 funded ≡ ok (21000, charged)
unfolding apply_pre_evm_accounting
payment_accounted = rw payment_passes refl

balance_before : Accounts.balance_at 0 funded.accounts ≡ 1000000
unfolding Accounts.balance_at
balance_before = refl

nonce_before : Accounts.nonce_at 0 funded.accounts ≡ 0
unfolding Accounts.nonce_at
nonce_before = refl

apply_pre_evm_accounting_lem_example :
    (Accounts.balance_at 0 charged.accounts + proposed_charge block payment
      ≡ Accounts.balance_at 0 funded.accounts)
    × (30 ≤ Accounts.balance_at 0 charged.accounts)
    × (Accounts.nonce_at 0 charged.accounts ≡ 0 + 1)
apply_pre_evm_accounting_lem_example =
    apply_pre_evm_accounting_lem block payment 0 funded charged 21000 (omega arith)
      (omega (arith, balance_before)) (omega (arith, nonce_before)) (omega arith) payment_accounted
