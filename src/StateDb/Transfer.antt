-- ===== src/StateDb/Transfer.antt =====
-- What a value transfer does to every balance.
use ziskethone.Prelude.{
  ℕ, ◌+◌, ◌-◌, ◌%◌, ◌≤◌, ◌<◌, ◌≡◌, ◌≢◌, refl, ap, ◌∙◌, arith, Bool, true, false, some, ◌==◌,
  if◌then◌else◌, length, ok,
}
use ziskethone.Prelude.Rows.{hits}
use ziskethone.Accounts
use ziskethone.Accounts.View.{RowView, view_at, view_at-set_balance_at}
use ziskethone.StateDb.{
  State, u256, move_value, transfer_value, account_row, put_balance, save_balance,
}
use ziskethone.StateDb.Balances.{size-set_balance_at}

balance_of :
    (b : Bool) (v t : ℕ) (r : RowView)
    → (if b then record r { balance = v; last_tx_idx = t } else r).balance
      ≡ (if b then v else r.balance)
balance_of true v t r = refl
balance_of false v t r = refl

balance_at-set_balance_at :
    (i v t k : ℕ) (a : Accounts.Accounts)
    → Accounts.balance_at k (Accounts.set_balance_at i v t a)
      ≡ (if hits i k a.mods then v else Accounts.balance_at k a)
unfolding view_at Accounts.balance_at
balance_at-set_balance_at i v t k a =
    ap (λ r. r.balance) (view_at-set_balance_at i k t a v)
    ∙ balance_of (hits i k a.mods) v t (view_at k a)

-- The balance that row `k` has after `value` went from row `i` to row `j`.
abbrev pub transferred : ℕ → ℕ → ℕ → ℕ → State → ℕ
transferred i j value k s =
    if k == i
    then Accounts.balance_at i s.accounts - value
    else if k == j
    then Accounts.balance_at j s.accounts + value
    else Accounts.balance_at k s.accounts

no_wrap_down : (b v : ℕ) → v ≤ b → b < u256 → (b + u256 - v) % u256 ≡ b - v
no_wrap_down b v h k = omega arith

no_wrap_up : (b v : ℕ) → b + v < u256 → (b + v) % u256 ≡ b + v
no_wrap_up b v h = omega arith

balance_at-move_value :
    (i j value k : ℕ) (s : State)
    → i ≢ j
    → i < length s.accounts.mods
    → j < length s.accounts.mods
    → value ≤ Accounts.balance_at i s.accounts
    → Accounts.balance_at i s.accounts < u256
    → Accounts.balance_at j s.accounts + value < u256
    → Accounts.balance_at k (move_value i j value s).accounts ≡ transferred i j value k s
unfolding put_balance save_balance
balance_at-move_value i j value k s apart hi hj enough small room =
    let a1 =
      Accounts.set_balance_at i ((Accounts.balance_at i s.accounts + u256 - value) % u256)
        s.tx_counter s.accounts in
    rw
      (
        balance_at-set_balance_at j ((Accounts.balance_at j s.accounts + value) % u256) s.tx_counter
            k a1,
        balance_at-set_balance_at i ((Accounts.balance_at i s.accounts + u256 - value) % u256)
            s.tx_counter k s.accounts,
        size-set_balance_at i ((Accounts.balance_at i s.accounts + u256 - value) % u256)
            s.tx_counter s.accounts,
        no_wrap_down (Accounts.balance_at i s.accounts) value enough small,
        no_wrap_up (Accounts.balance_at j s.accounts) value room,
      )
      (ground arith)

-- Between two different rows of the table, where the sender has the value, a balance is a 256-bit
-- number and the receiver's does not reach 2 ^ 256, `transfer_value` answers; it takes the value from
-- the one, adds it to the other, and changes no other balance.
pub transfer_value_lem :
    (from to i j value : ℕ) (s : State)
    → s.accounts.index from ≡ some i
    → s.accounts.index to ≡ some j
    → i ≢ j
    → i < length s.accounts.mods
    → j < length s.accounts.mods
    → value ≤ Accounts.balance_at i s.accounts
    → Accounts.balance_at i s.accounts < u256
    → Accounts.balance_at j s.accounts + value < u256
    → (t : State) × (transfer_value from to value s ≡ ok t)
      × ((k : ℕ) → Accounts.balance_at k t.accounts ≡ transferred i j value k s)
unfolding transfer_value account_row
transfer_value_lem from to i j value s fi fj apart hi hj enough small room = (
  move_value i j value s,
  rw (fi, fj) (ground arith),
  λ k. balance_at-move_value i j value k s apart hi hj enough small room,
)
