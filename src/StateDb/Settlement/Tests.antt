-- ===== src/StateDb/Settlement/Tests.antt =====
-- A plain transfer that leaves a part of its gas.
use ziskethone.Prelude.{ℕ, ◌+◌, ◌*◌, ◌≤◌, ◌≡◌, refl, arith, true, some, [], ◌∷◌, ok}
use ziskethone.Accounts
use ziskethone.StateDb.{State, put_accounts, empty_code_hash}
use ziskethone.StateDb.Tests.{start}
use ziskethone.StateDb.Accounting.{Block}
use ziskethone.StateDb.Settlement.{Spent, gas_used, settle_tx_gas}
use ziskethone.StateDb.Settlement.Conserved.{settle_tx_gas-burns_base_fee}

abbrev block : Block
block = record {
  chain = 1;
  london = true;
  shanghai = true;
  cancun = true;
  prague = true;
  osaka = true;
  base_fee_per_gas = 7;
  gas_limit = 30000000;
  max_blob_gas_per_block = 786432;
  blob_base_fee = 1;
  cumulative_gas_used = 0;
  blob_gas_used = 0;
}

-- 100000 gas, of which 40000 is left and 4800 refunded.
abbrev spent : Spent
spent = record {
  gas_limit = 100000;
  gas_left = 40000;
  gas_refund = 4800;
  auth_refund = 0;
  floor_gas = 21000;
}

used_lem : gas_used block spent ≡ 55200
unfolding gas_used
used_lem = refl

abbrev account : ℕ → ℕ → Accounts.Original
account address balance = record {
  address = address;
  nonce = 0;
  balance = balance;
  code_hash = empty_code_hash;
}

-- The sender 0xa in the first row and the coinbase 0xc in the second.
abbrev before : State
before =
    put_accounts
      (record {
        originals = account 0xa 500 ∷ account 0xc 20 ∷ [];
        mods = Accounts.fresh_mods ∷ Accounts.fresh_mods ∷ [];
        index = λ a. some 1;
        capacity = 2;
      })
      start

sender_before : Accounts.balance_at 0 before.accounts ≡ 500
unfolding Accounts.balance_at
sender_before = refl

coinbase_before : Accounts.balance_at 1 before.accounts ≡ 20
unfolding Accounts.balance_at
coinbase_before = refl

settle_tx_gas-burns_base_fee_example :
    (t : State) × (settle_tx_gas block spent 10 0 0xc before ≡ ok (gas_used block spent, t))
    × (gas_used block spent ≤ 100000)
    × (Accounts.balance_at 0 t.accounts
          + Accounts.balance_at 1 t.accounts
          + gas_used block spent * 7
        ≡ Accounts.balance_at 0 before.accounts
          + Accounts.balance_at 1 before.accounts
          + 100000 * 10)
settle_tx_gas-burns_base_fee_example =
    settle_tx_gas-burns_base_fee block spent 10 0 0xc 1 before (omega arith) (omega arith)
      (omega arith) refl (omega arith) (omega arith) (omega arith) (omega (arith, sender_before))
      (omega (arith, coinbase_before))
