-- ===== src/StateDb/BlockCredits/Credited.antt =====
-- The credits at the end of a block add to each balance what is owed to it.
use ziskethone.Prelude.{
  ℕ, ◌+◌, ◌*◌, ◌%◌, ◌<◌, ◌≡◌, ◌≢◌, refl, sym, ap, ◌∙◌, arith, Bool-cases, inl, inr, some, List, [],
  ◌∷◌, All, ◌==◌, if◌then◌else◌, length, Option, ok, subst,
}
use native.Mathlib.Nat.{mod-eq_of_lt}
use ziskethone.Accounts
use ziskethone.StateDb.{State, account_row, u256}
use ziskethone.StateDb.Settlement.{credit}
use ziskethone.StateDb.Settlement.Conserved.{balance-credit, balance-credit_other, size-credit}
use ziskethone.StateDb.BlockCredits.{
  Withdrawal, gwei_to_wei, reward, credit_block_reward, credit_withdrawals, post_execute_credits,
}

-- What the withdrawals owe an address, in wei.
abbrev pub owed : ℕ → List Withdrawal → ℕ
owed a [] = 0
owed a (w ∷ ws) = (if w.address == a then w.amount_gwei * gwei_to_wei else 0) + owed a ws

-- What the block's reward gives an address: nothing where the difficulty is zero.
abbrev pub rewarded : ℕ → ℕ → ℕ → ℕ
rewarded a difficulty beneficiary =
    if difficulty == 0 then 0 else (if beneficiary == a then reward else 0)

-- An address has a row of the table to itself.
pub record IsRow (a k : ℕ) (s : State) : Type 0 where
  pub found : s.accounts.index a ≡ some k
  pub own : (b : ℕ) → s.accounts.index b ≡ some k → b ≡ a
  pub inside : k < length s.accounts.mods

pub record HasRow (s : State) (w : Withdrawal) : Type 0 where
  pub row : ℕ
  pub found : s.accounts.index w.address ≡ some row

some_injective : {m n : ℕ} → some m ≡ some n → m ≡ n
some_injective e = cc

-- A credit to the row of an address `b` adds to the balance of `a` if the two are the same.
balance-credit_row :
    (a k b i amount : ℕ) (s : State)
    → IsRow a k s
    → s.accounts.index b ≡ some i
    → Accounts.balance_at k s.accounts + (if b == a then amount else 0) < u256
    → Accounts.balance_at k (credit i (amount % u256) s).accounts
      ≡ Accounts.balance_at k s.accounts + (if b == a then amount else 0)
balance-credit_row a k b i amount s w found fits = elim (Bool-cases (b == a)) [
  | inl same ↦
      let equal : b ≡ a = ground arith in
      let row : i ≡ k = some_injective (sym found ∙ ap s.accounts.index equal ∙ w.found) in
      let below : Accounts.balance_at k s.accounts + amount < u256 =
        subst (λ c. Accounts.balance_at k s.accounts + (if c then amount else 0) < u256) same
          fits in
      let whole : amount % u256 ≡ amount = mod-eq_of_lt (omega (arith, below)) in
      rw (row, whole, same) (balance-credit k amount s w.inside below)
  | inr other ↦
      let differs : b ≢ a = ground arith in
      let rows : i ≢ k = λ e. differs (w.own b (found ∙ ap some_of e)) in
      rw other (balance-credit_other i (amount % u256) s k rows ∙ omega arith)
]
  where
    some_of : ℕ → Option ℕ
    some_of n = some n

IsRow-credit : (a k i amount : ℕ) (s : State) → IsRow a k s → IsRow a k (credit i amount s)
unfolding Accounts.set_balance_at
IsRow-credit a k i amount s w = record {
  found = w.found;
  own = w.own;
  inside = subst (λ n. k < n) (sym (size-credit i amount s)) w.inside;
}

HasRow-credit :
    (i amount : ℕ) (s : State) (ws : List Withdrawal)
    → All (HasRow s) ws
    → All (HasRow (credit i amount s)) ws
unfolding Accounts.set_balance_at
HasRow-credit i amount s [] h = h
HasRow-credit i amount s (w ∷ ws) (h, hs) =
    (record { row = h.row; found = h.found }, HasRow-credit i amount s ws hs)

withdrawals_lem :
    (ws : List Withdrawal) (a k : ℕ) (s : State)
    → All (HasRow s) ws
    → IsRow a k s
    → Accounts.balance_at k s.accounts + owed a ws < u256
    → (t : State) × (credit_withdrawals ws s ≡ ok t)
      × (Accounts.balance_at k t.accounts ≡ Accounts.balance_at k s.accounts + owed a ws)
unfolding credit_withdrawals account_row
withdrawals_lem [] a k s h w fits = (s, refl, omega arith)
withdrawals_lem (x ∷ ws) a k s (h, hs) w fits =
    let amount = x.amount_gwei * gwei_to_wei in
    let after = credit h.row (amount % u256) s in
    let first = balance-credit_row a k x.address h.row amount s w h.found (omega (arith, fits)) in
    let (t, runs, rest) =
      withdrawals_lem ws a k after (HasRow-credit h.row (amount % u256) s ws hs)
        (IsRow-credit a k h.row (amount % u256) s w) (omega (arith, first, fits)) in
    (t, rw h.found runs, rest ∙ omega (arith, first))

reward_lem :
    (difficulty beneficiary j a k : ℕ) (s : State)
    → s.accounts.index beneficiary ≡ some j
    → IsRow a k s
    → Accounts.balance_at k s.accounts + rewarded a difficulty beneficiary < u256
    → (t : State) × (credit_block_reward difficulty beneficiary s ≡ ok t)
      × (Accounts.balance_at k t.accounts
          ≡ Accounts.balance_at k s.accounts + rewarded a difficulty beneficiary)
      × IsRow a k t
      × ((ws : List Withdrawal) → All (HasRow s) ws → All (HasRow t) ws)
unfolding credit_block_reward account_row
reward_lem difficulty beneficiary j a k s found w fits = elim (Bool-cases (difficulty == 0)) [
  | inl none_left ↦ (s, rw none_left refl, rw none_left (omega arith), w, λ ws h. h)
  | inr proof_of_work ↦
      let below : Accounts.balance_at k s.accounts + (if beneficiary == a then reward else 0)
          < u256 =
        subst
          (λ c.
            Accounts.balance_at k s.accounts
              + (if c then 0 else (if beneficiary == a then reward else 0))
            < u256)
          proof_of_work fits in
      (
        credit j (reward % u256) s,
        rw (proof_of_work, found) refl,
        rw proof_of_work (balance-credit_row a k beneficiary j reward s w found below),
        IsRow-credit a k j (reward % u256) s w,
        HasRow-credit j (reward % u256) s,
      )
]

-- Where the beneficiary and every recipient of a withdrawal have a row, an address has one to itself, and
-- its balance does not overflow, the credits at the end of the block succeed and add to the balance of the
-- address exactly the block's reward, if it is the beneficiary's and the difficulty is not zero, and the
-- amounts of its withdrawals in wei, however often it occurs among them.
pub post_execute_credits_lem :
    (difficulty beneficiary j : ℕ) (ws : List Withdrawal) (a k : ℕ) (s : State)
    → s.accounts.index beneficiary ≡ some j
    → All (HasRow s) ws
    → IsRow a k s
    → Accounts.balance_at k s.accounts + rewarded a difficulty beneficiary + owed a ws < u256
    → (t : State) × (post_execute_credits difficulty beneficiary ws s ≡ ok t)
      × (Accounts.balance_at k t.accounts
          ≡ Accounts.balance_at k s.accounts + rewarded a difficulty beneficiary + owed a ws)
unfolding post_execute_credits
post_execute_credits_lem difficulty beneficiary j ws a k s found h w fits =
    let (s1, first, balance, w1, rows) =
      reward_lem difficulty beneficiary j a k s found w (omega (arith, fits)) in
    let (t, second, total) =
      withdrawals_lem ws a k s1 (rows ws h) w1 (omega (arith, balance, fits)) in
    (t, rw first second, total ∙ omega (arith, balance))
