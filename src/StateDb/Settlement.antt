-- ===== src/StateDb/Settlement.antt =====
-- cpp-guest/src/zisk_state_db.cpp: `settle_tx_gas` before Amsterdam, where no state gas is kept. The
-- amounts of gas are natural numbers here; what is left of the gas is at most the limit.
pub mod Conserved
mod Tests
use ziskethone.Prelude.{
  ℕ, ◌+◌, ◌-◌, ◌*◌, ◌/◌, ◌%◌, Bool, ltb, if◌then◌else◌, Result, ok, fatal, ◌>>=◌,
}
use ziskethone.Accounts
use ziskethone.StateDb.{State, Fault, put_accounts, account_row, u256}
use ziskethone.StateDb.Accounting.{Block}

-- What the settlement reads of the transaction and of the result of its frame.
pub record Spent : Type 0 where
  pub gas_limit : ℕ
  pub gas_left : ℕ
  pub gas_refund : ℕ
  pub auth_refund : ℕ
  pub floor_gas : ℕ

abbrev gas_used_pre : Spent → ℕ
gas_used_pre g = g.gas_limit - g.gas_left

abbrev max_refund : Block → Spent → ℕ
max_refund block g = gas_used_pre g / (if block.london then 5 else 2)

abbrev refund : Block → Spent → ℕ
refund block g =
    let refund_pre_cap = g.gas_refund + g.auth_refund in
    if ltb refund_pre_cap (max_refund block g) then refund_pre_cap else max_refund block g

unfoldable pub gas_used : Block → Spent → ℕ
gas_used block g =
    let used = g.gas_limit - (g.gas_left + refund block g) in
    if block.prague then (if ltb used g.floor_gas then g.floor_gas else used) else used

-- `set_balance_at` of the row's balance and an amount; the sum wraps as `intx::uint256` does.
abbrev pub credit : ℕ → ℕ → State → State
credit i amount s =
    put_accounts
      (Accounts.set_balance_at i ((Accounts.balance_at i s.accounts + amount) % u256) s.tx_counter
        s.accounts)
      s

abbrev priority : Block → ℕ → ℕ
priority block price =
    if ltb block.base_fee_per_gas price then price - block.base_fee_per_gas else 0

-- `settle_tx_gas` at the effective price, for the sender's row and the coinbase's address.
unfoldable pub settle_tx_gas : Block → Spent → ℕ → ℕ → ℕ → State → Result Fault (ℕ × State)
unfolding gas_used
settle_tx_gas block g price sender_idx beneficiary s =
    let used = gas_used block g in
    let s1 = credit sender_idx (((g.gas_limit - used) * price) % u256) s in
    account_row beneficiary s1 >>= λ coinbase_idx.
    ok (used, credit coinbase_idx ((used * priority block price) % u256) s1)
