-- ===== src/StateDb/BlockCredits.antt =====
-- cpp-guest/src/zisk_state_db.cpp: `credit_block_reward` and `credit_withdrawals`, the credits at the end
-- of a block.
pub mod Credited
mod Tests
use ziskethone.Prelude.{ℕ, ◌*◌, ◌%◌, List, [], ◌∷◌, ◌==◌, if◌then◌else◌, Result, ok, ◌>>=◌}
use ziskethone.StateDb.{State, Fault, account_row, u256}
use ziskethone.StateDb.Settlement.{credit}

pub record Withdrawal : Type 0 where
  pub address : ℕ
  pub amount_gwei : ℕ

abbrev pub gwei_to_wei : ℕ
gwei_to_wei = 1000000000

abbrev pub reward : ℕ
reward = 2 * 1000000000000000000

-- The difficulty is the number of its bytes, and is zero from Paris on.
unfoldable pub credit_block_reward : ℕ → ℕ → State → Result Fault State
credit_block_reward difficulty beneficiary s =
    if difficulty == 0
    then ok s
    else (account_row beneficiary s >>= λ i. ok (credit i (reward % u256) s))

unfoldable pub credit_withdrawals : List Withdrawal → State → Result Fault State
credit_withdrawals [] s = ok s
credit_withdrawals (w ∷ ws) s = account_row w.address s >>= λ i.
    credit_withdrawals ws (credit i ((w.amount_gwei * gwei_to_wei) % u256) s)

-- The two credits in the order of `post_execute_block`.
unfoldable pub post_execute_credits : ℕ → ℕ → List Withdrawal → State → Result Fault State
unfolding credit_block_reward credit_withdrawals
post_execute_credits difficulty beneficiary ws s =
    credit_block_reward difficulty beneficiary s >>= credit_withdrawals ws
