-- ===== src/StateDb/BlockCredits/Tests.antt =====
-- Two withdrawals to one address, at the end of a block of proof of work.
use ziskethone.Prelude.{
  ℕ, ◌+◌, ◌≡◌, refl, arith, some, none, Option, List, [], ◌∷◌, ◌==◌, if◌then◌else◌, ok,
}
use ziskethone.Accounts
use ziskethone.StateDb.{State, put_accounts, empty_code_hash}
use ziskethone.StateDb.Tests.{start}
use ziskethone.StateDb.BlockCredits.{Withdrawal, post_execute_credits}
use ziskethone.StateDb.BlockCredits.Credited.{IsRow, owed, rewarded, post_execute_credits_lem}

abbrev validator : Accounts.Original
validator = record { address = 0xa; nonce = 0; balance = 500; code_hash = empty_code_hash }

abbrev index : ℕ → Option ℕ
index a = if a == 0xa then some 0 else none

abbrev ended : State
ended =
    put_accounts
      (record {
        originals = validator ∷ [];
        mods = Accounts.fresh_mods ∷ [];
        index = index;
        capacity = 1;
      })
      start

abbrev withdrawals : List Withdrawal
withdrawals =
    record { address = 0xa; amount_gwei = 3 } ∷ record { address = 0xa; amount_gwei = 4 } ∷ []

validator_balance : Accounts.balance_at 0 ended.accounts ≡ 500
unfolding Accounts.balance_at
validator_balance = refl

own_row : (b : ℕ) → index b ≡ some 0 → b ≡ 0xa
own_row b e = ground arith

validator-IsRow : IsRow 0xa 0 ended
validator-IsRow = record { found = refl; own = own_row; inside = omega arith }

post_execute_credits_lem_example :
    (t : State) × (post_execute_credits 1 0xa withdrawals ended ≡ ok t)
    × (Accounts.balance_at 0 t.accounts
        ≡ Accounts.balance_at 0 ended.accounts + rewarded 0xa 1 0xa + owed 0xa withdrawals)
post_execute_credits_lem_example =
    post_execute_credits_lem 1 0xa 0 withdrawals 0xa 0 ended refl
      (record { row = 0; found = refl }, (record { row = 0; found = refl }, tt)) validator-IsRow
      (omega (arith, validator_balance))
