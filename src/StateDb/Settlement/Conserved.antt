-- ===== src/StateDb/Settlement/Conserved.antt =====
-- The settlement spends what the sender was charged for the gas, and nothing else.
use ziskethone.Prelude.{
  ℕ, ◌+◌, ◌-◌, ◌*◌, ◌%◌, ◌≤◌, ◌<◌, ◌≡◌, ◌≢◌, refl, sym, ap, ◌∙◌, arith, Bool, true, false, some,
  ltb, if◌then◌else◌, length, ok, subst,
}
use ziskethone.Prelude.Rows.{hits, length-update}
use native.Mathlib.Nat.{mod-eq_of_lt, mul-add, add-mul}
use ziskethone.Accounts
use ziskethone.Accounts.View.{view_at, view_at-readers, view_at-set_balance_at}
use ziskethone.StateDb.{State, account_row, u256}
use ziskethone.StateDb.Accounting.{Block}
use ziskethone.StateDb.Settlement.{Spent, gas_used, refund, credit, priority, settle_tx_gas}

gas_used-le :
    (block : Block) (g : Spent)
    → g.gas_left ≤ g.gas_limit
    → g.floor_gas ≤ g.gas_limit
    → gas_used block g ≤ g.gas_limit
unfolding gas_used
gas_used-le block g h k = go block.prague
  where
    used : ℕ
    used = g.gas_limit - (g.gas_left + refund block g)

    go :
        (b : Bool)
        → (if b then (if ltb used g.floor_gas then g.floor_gas else used) else used) ≤ g.gas_limit
    go true = ground arith
    go false = omega arith

-- What the sender gets back, the coinbase's part and the burned part make up the whole price.
split_product :
    (rest used base tip : ℕ)
    → rest * (base + tip) + used * tip + used * base ≡ (rest + used) * (base + tip)
split_product rest used base tip =
    let whole = add-mul rest used (base + tip) in
    let parts = mul-add used base tip in omega (arith, whole, parts)

module _ (i amount : ℕ) (s : State) where
  credited :
      (j : ℕ)
      → view_at j (credit i amount s).accounts ≡ (
          if hits i j s.accounts.mods
          then record (view_at j s.accounts) {
            balance = (Accounts.balance_at i s.accounts + amount) % u256;
            last_tx_idx = s.tx_counter;
          }
          else view_at j s.accounts)
  credited j = view_at-set_balance_at i j s.tx_counter s.accounts _

  pub balance-credit :
      i < length s.accounts.mods
      → Accounts.balance_at i s.accounts + amount < u256
      → Accounts.balance_at i (credit i amount s).accounts
        ≡ Accounts.balance_at i s.accounts + amount
  balance-credit inside fits =
      let hit : hits i i s.accounts.mods ≡ true = ground arith in
      ap (λ r. r.balance) (sym (view_at-readers i (credit i amount s).accounts) ∙ credited i)
      ∙ rw hit (mod-eq_of_lt fits)

  pub balance-credit_other :
      (j : ℕ)
      → i ≢ j
      → Accounts.balance_at j (credit i amount s).accounts ≡ Accounts.balance_at j s.accounts
  balance-credit_other j differs =
      let miss : hits i j s.accounts.mods ≡ false = ground arith in
      ap (λ r. r.balance) (sym (view_at-readers j (credit i amount s).accounts) ∙ credited j)
      ∙ rw miss (ap (λ r. r.balance) (view_at-readers j s.accounts))

  pub size-credit : length (credit i amount s).accounts.mods ≡ length s.accounts.mods
  unfolding Accounts.set_balance_at
  size-credit = length-update s.accounts.mods i _

  index-credit : (credit i amount s).accounts.index ≡ s.accounts.index
  unfolding Accounts.set_balance_at
  index-credit = refl

-- The two amounts of the settlement, each at most what the sender was charged for the gas.
module _ (limit used base price : ℕ) (spent : used ≤ limit) (covers : base ≤ price) where
  shares : (limit - used) * price + used * (price - base) + used * base ≡ limit * price
  shares =
      let whole : (limit - used) + used ≡ limit = omega arith in
      let paid : base + (price - base) ≡ price = omega arith in
      let split = split_product (limit - used) used base (price - base) in
      subst (λ p. (limit - used) * p + used * (price - base) + used * base ≡ limit * p) paid
        (split ∙ ap (λ l. l * (base + (price - base))) whole)

-- Where the gas left and the floor are at most the limit, the effective price covers the base fee, and
-- the balances of the sender and of the coinbase, two different accounts, would not overflow by the
-- whole price of the limit, the settlement succeeds, uses at most the limit, and adds to the two balances
-- together exactly that price less the base fee of the gas used, which is burned.
pub settle_tx_gas-burns_base_fee :
    (block : Block) (g : Spent) (price i beneficiary j : ℕ) (s : State)
    → g.gas_left ≤ g.gas_limit
    → g.floor_gas ≤ g.gas_limit
    → block.base_fee_per_gas ≤ price
    → s.accounts.index beneficiary ≡ some j
    → i ≢ j
    → i < length s.accounts.mods
    → j < length s.accounts.mods
    → Accounts.balance_at i s.accounts + g.gas_limit * price < u256
    → Accounts.balance_at j s.accounts + g.gas_limit * price < u256
    → (t : State) × (settle_tx_gas block g price i beneficiary s ≡ ok (gas_used block g, t))
      × (gas_used block g ≤ g.gas_limit)
      × (Accounts.balance_at i t.accounts
            + Accounts.balance_at j t.accounts
            + gas_used block g * block.base_fee_per_gas
          ≡ Accounts.balance_at i s.accounts
            + Accounts.balance_at j s.accounts
            + g.gas_limit * price)
unfolding settle_tx_gas account_row
settle_tx_gas-burns_base_fee block g price i beneficiary j s left floor covers found differs
      inside_i inside_j fits_i fits_j =
    (credit j fee s1, runs, spent, rw (sender, coinbase) (omega (arith, all)))
  where
    spent : gas_used block g ≤ g.gas_limit
    spent = gas_used-le block g left floor

    back : ℕ
    back = (g.gas_limit - gas_used block g) * price

    tip : ℕ
    tip = gas_used block g * (price - block.base_fee_per_gas)

    all : back + tip + gas_used block g * block.base_fee_per_gas ≡ g.gas_limit * price
    all = shares g.gas_limit (gas_used block g) block.base_fee_per_gas price spent covers

    fee : ℕ
    fee = (gas_used block g * priority block price) % u256

    s1 : State
    s1 = credit i (back % u256) s

    back_lem : back % u256 ≡ back
    back_lem = mod-eq_of_lt (omega (arith, all, fits_i))

    priority_lem : priority block price ≡ price - block.base_fee_per_gas
    priority_lem = ground arith

    fee_lem : fee ≡ tip
    fee_lem =
        ap (λ p. (gas_used block g * p) % u256) priority_lem
        ∙ mod-eq_of_lt (omega (arith, all, fits_j))

    runs : settle_tx_gas block g price i beneficiary s ≡ ok (gas_used block g, credit j fee s1)
    runs =
        let row : s1.accounts.index beneficiary ≡ some j =
          ap (λ f. f beneficiary) (index-credit i (back % u256) s) ∙ found in
        rw row refl

    sender :
        Accounts.balance_at i (credit j fee s1).accounts ≡ Accounts.balance_at i s.accounts + back
    sender =
        balance-credit_other j fee s1 i (λ e. differs (sym e))
        ∙ balance-credit i (back % u256) s inside_i (
            subst (λ n. Accounts.balance_at i s.accounts + n < u256) (sym back_lem)
              (omega (arith, all, fits_i)))
        ∙ ap (λ n. Accounts.balance_at i s.accounts + n) back_lem

    coinbase :
        Accounts.balance_at j (credit j fee s1).accounts ≡ Accounts.balance_at j s.accounts + tip
    coinbase =
        let before : Accounts.balance_at j s1.accounts ≡ Accounts.balance_at j s.accounts =
          balance-credit_other i (back % u256) s j differs in
        balance-credit j fee s1 (subst (λ n. j < n) (sym (size-credit i (back % u256) s)) inside_j)
          (rw (before, fee_lem) (omega (arith, all, fits_j)))
        ∙ rw (before, fee_lem) refl
