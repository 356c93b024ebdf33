-- ===== src/StateDb/Accounting/Charged.antt =====
-- The charge before the EVM runs neither wraps nor underflows.
use ziskethone.Prelude.{
  ℕ, ◌+◌, ◌-◌, ◌*◌, ◌%◌, ◌≤◌, ◌<◌, ◌≡◌, ◌≢◌, refl, sym, ap, ◌∙◌, arith, Bool, true, false, ltb,
  if◌then◌else◌, length, Result, ok, fatal, ◌>>=◌, inl, inr, ◌⊎◌, subst,
}
use native.Mathlib.Nat.{mul-le-mul, mod-eq_of_lt}
use ziskethone.IntrinsicGas
use ziskethone.IntrinsicGas.{TxType, compute_intrinsic_gas}
use ziskethone.Prelude.Rows.{hits, length-update}
use ziskethone.Accounts
use ziskethone.Accounts.View.{
  view_at, view_at-readers, view_at-set_nonce_at, view_at-set_balance_at,
}
use ziskethone.StateDb.{State, u256}
use ziskethone.StateDb.Accounting.{
  View, Block, TxFault, is_blob, legacy_fee, fee_cap, gas_per_blob, u64, tx_gas_price, upfront,
  charge_sender, check_transaction, apply_pre_evm_accounting,
}
use ziskethone.StateDb.Accounting.Valid.{IsChecked, HasBlobs}
use ziskethone.StateDb.Accounting.Checked.{bind-ok, passed_checks}

abbrev minimum : ℕ → ℕ → ℕ
minimum a b = if ltb a b then a else b

-- The price and the charge of the proposals, on numbers that do not wrap: a price of its own, or the
-- lesser of the maximum fee and of the base fee with the priority fee.
abbrev pub proposed_price : Block → View → ℕ
proposed_price block v =
    if legacy_fee v.tx.type
    then v.gas_price
    else minimum (block.base_fee_per_gas + v.max_priority_fee_per_gas) v.max_fee_per_gas

abbrev pub proposed_charge : Block → View → ℕ
proposed_charge block v =
    v.gas_limit * proposed_price block v
    + (if is_blob v.tx.type then length v.blob_hashes * gas_per_blob * block.blob_base_fee else 0)

-- The fee cap of a funded transaction is at most half of the sender's balance.
cap_half : (g cap rest balance : ℕ) → 2 ≤ g → g * cap + rest ≤ balance → 2 * cap ≤ balance
cap_half g cap rest balance h k = omega (arith, mul-le-mul h (le_refl cap))
  where
    le_refl : (n : ℕ) → n ≤ n
    le_refl n = omega arith

abbrev some_gas : ℕ × ℕ → Result IntrinsicGas.Fault (ℕ × ℕ)
some_gas g = ok g

injective : {g h : ℕ × ℕ} → some_gas g ≡ some_gas h → g ≡ h
injective e = cc

-- Every transaction is charged for at least 21000 gas.
intrinsic-ge :
    (tx : IntrinsicGas.Tx) (shanghai : Bool) (gas : ℕ × ℕ)
    → compute_intrinsic_gas tx (record { shanghai = shanghai; amsterdam = false }) ≡ ok gas
    → 21000 ≤ gas.0
unfolding compute_intrinsic_gas
intrinsic-ge tx shanghai gas e = go (IntrinsicGas.count_access_list tx) e
  where
    rev : IntrinsicGas.Revision
    rev = record { shanghai = shanghai; amsterdam = false }

    enough : (c : ℕ × ℕ) → 21000 ≤ (IntrinsicGas.gas_and_floor tx rev c).0
    enough c = ground arith

    go :
        (m : Result IntrinsicGas.Fault (ℕ × ℕ))
        → (m >>= λ c. ok (IntrinsicGas.gas_and_floor tx rev c)) ≡ ok gas
        → 21000 ≤ gas.0
    go (ok c) f = subst (λ g. 21000 ≤ g.0) (injective f) (enough c)
    go (fatal x) f = absurd (cc)

abbrev blob_part : Bool → ℕ → ℕ → ℕ
blob_part b gas fee = if b then gas * fee else 0

blob_part-le :
    (b : Bool) (gas : ℕ) {m n : ℕ} → (b ≡ false) ⊎ (m ≤ n) → blob_part b gas m ≤ blob_part b gas n
blob_part-le true gas (inl e) = absurd (cc)
blob_part-le true gas (inr h) = mul-le-mul (le_refl gas) h
  where
    le_refl : (n : ℕ) → n ≤ n
    le_refl n = omega arith
blob_part-le false gas h = omega arith

regroup : (a b c n : ℕ) → a + b + c ≤ n → a + (b + c) ≤ n
regroup a b c n h = omega arith

minimum-le : (a b : ℕ) → minimum a b ≤ b
minimum-le a b = ground arith

-- A sum of two amounts, each at most half of what fits, does not wrap.
unwrapped : (a b cap n : ℕ) → a ≤ cap → b ≤ cap → 2 * cap ≤ n → n < u256 → (a + b) % u256 ≡ a + b
unwrapped a b cap n h k l m = mod-eq_of_lt (omega arith)

-- The price of a transaction with a maximum and a priority fee.
market_price :
    (base priority max n : ℕ)
    → base ≤ max
    → priority ≤ max
    → 2 * max ≤ n
    → n < u256
    → (if ltb ((base + priority) % u256) max then (base + priority) % u256 else max)
      ≡ minimum (base + priority) max
market_price base priority max n h k l m = rw (unwrapped base priority max n h k l m) refl

priced :
    (legacy : Bool) (own base priority max n : ℕ)
    → base ≤ (if legacy then own else max)
    → (legacy ≡ true) ⊎ (priority ≤ (if legacy then own else max))
    → 2 * (if legacy then own else max) ≤ n
    → n < u256
    → let paid = (if legacy then own else minimum (base + priority) max) in
      ((if legacy
          then own
          else (let offered = (base + priority) % u256 in if ltb offered max then offered else max))
        ≡ paid)
      × (paid ≤ (if legacy then own else max))
priced true own base priority max n h k l m = (refl, omega arith)
priced false own base priority max n h (inl e) l m = absurd (cc)
priced false own base priority max n h (inr k) l m =
    (market_price base priority max n h k l m, minimum-le (base + priority) max)

-- The charge, where no step of it wraps.
charged :
    (b : Bool) (g price cap gas fee max_fee value n : ℕ)
    → price ≤ cap
    → (b ≡ false) ⊎ (fee ≤ max_fee)
    → g * cap + blob_part b gas max_fee + value ≤ n
    → n < u256
    → gas < u64
    → ((if b then ((g * price) % u256 + ((gas % u64) * fee) % u256) % u256 else (g * price) % u256)
        ≡ g * price + blob_part b gas fee)
      × (g * price + blob_part b gas fee + value ≤ n)
charged b g price cap gas fee max_fee value n h k l m u =
    (exact b part_below refl, omega (arith, gas_below, part_le))
  where
    le_refl : (n : ℕ) → n ≤ n
    le_refl n = omega arith

    gas_below : g * price ≤ g * cap
    gas_below = mul-le-mul (le_refl g) h

    part_le : blob_part b gas fee ≤ blob_part b gas max_fee
    part_le = blob_part-le b gas k

    part_below : g * price + blob_part b gas fee < u256
    part_below = omega (arith, gas_below, part_le)

    exact :
        (c : Bool)
        → g * price + blob_part c gas fee < u256
        → c ≡ b
        → (if c
            then ((g * price) % u256 + ((gas % u64) * fee) % u256) % u256
            else (g * price) % u256)
          ≡ g * price + blob_part c gas fee
    exact true below e =
        let small : gas % u64 ≡ gas = mod-eq_of_lt u in
        let first : (g * price) % u256 ≡ g * price = mod-eq_of_lt (omega arith) in
        let second : (gas * fee) % u256 ≡ gas * fee = mod-eq_of_lt (omega arith) in
        rw (small, first, second) (mod-eq_of_lt below)
    exact false below e =
        let small : (g * price) % u256 ≡ g * price = mod-eq_of_lt (omega arith) in
        small ∙ omega arith

blob_base :
    (block : Block) (v : View)
    → (is_blob v.tx.type ≡ false) ⊎ HasBlobs block v
    → (is_blob v.tx.type ≡ false) ⊎ (block.blob_base_fee ≤ v.max_fee_per_blob_gas)
blob_base block v (inl bare) = inl bare
blob_base block v (inr blobs) = inr blobs.covers_base

module _ (block : Block) (v : View) (i : ℕ) (s : State) (gas : ℕ × ℕ)
    (w : IsChecked block v i s gas) (bounded : Accounts.balance_at i s.accounts < u256) where
  abbrev blob_gas : ℕ
  blob_gas = length v.blob_hashes * gas_per_blob

  enough_gas : 2 ≤ v.gas_limit
  enough_gas = omega (arith, intrinsic-ge v.tx block.shanghai gas w.intrinsic, w.covers_intrinsic)

  half_cap : 2 * fee_cap v ≤ Accounts.balance_at i s.accounts
  half_cap =
      cap_half v.gas_limit (fee_cap v)
        (blob_part (is_blob v.tx.type) blob_gas v.max_fee_per_blob_gas + v.tx.value)
        (Accounts.balance_at i s.accounts) enough_gas
        (regroup (v.gas_limit * fee_cap v) _ v.tx.value _ w.funded)

  price_lem : (tx_gas_price block v ≡ proposed_price block v) × (proposed_price block v ≤ fee_cap v)
  unfolding tx_gas_price
  price_lem =
      priced (legacy_fee v.tx.type) v.gas_price block.base_fee_per_gas v.max_priority_fee_per_gas
        v.max_fee_per_gas (Accounts.balance_at i s.accounts) w.covers_base w.priority half_cap
        bounded

  upfront_lem :
      blob_gas < u64
      → (upfront block v ≡ proposed_charge block v)
        × (proposed_charge block v + v.tx.value ≤ Accounts.balance_at i s.accounts)
  unfolding upfront
  upfront_lem hashes = rw price_lem.0 (
      charged (is_blob v.tx.type) v.gas_limit (proposed_price block v) (fee_cap v) blob_gas
        block.blob_base_fee v.max_fee_per_blob_gas v.tx.value (Accounts.balance_at i s.accounts)
        price_lem.1 (blob_base block v w.blobs) w.funded bounded hashes)

-- The two readers of the sender's row after the charge.
module _ (block : Block) (v : View) (i : ℕ) (s : State) (inside : i < length s.accounts.mods) where
  abbrev bumped : Accounts.Accounts
  bumped =
      Accounts.set_nonce_at i ((Accounts.nonce_at i s.accounts + 1) % u64) s.tx_counter s.accounts

  hit : hits i i s.accounts.mods ≡ true
  hit = ground arith

  view-bumped : view_at i bumped ≡ record (view_at i s.accounts) {
    nonce = (Accounts.nonce_at i s.accounts + 1) % u64;
    last_tx_idx = s.tx_counter;
  }
  view-bumped = view_at-set_nonce_at i i s.tx_counter s.accounts _ ∙ rw hit refl

  balance-bumped : Accounts.balance_at i bumped ≡ Accounts.balance_at i s.accounts
  balance-bumped =
      ap (λ r. r.balance) (sym (view_at-readers i bumped) ∙ view-bumped)
      ∙ ap (λ r. r.balance) (view_at-readers i s.accounts)

  size-bumped : length bumped.mods ≡ length s.accounts.mods
  unfolding Accounts.set_nonce_at
  size-bumped = length-update s.accounts.mods i _

  hit-bumped : hits i i bumped.mods ≡ true
  hit-bumped =
      let still_inside : i < length bumped.mods = subst (λ n. i < n) (sym size-bumped) inside in
      ground arith

  view-charged : view_at i (charge_sender block v i s).accounts ≡ record (view_at i bumped) {
    balance = (Accounts.balance_at i s.accounts + u256 - upfront block v) % u256;
    last_tx_idx = s.tx_counter;
  }
  unfolding charge_sender
  view-charged =
      view_at-set_balance_at i i s.tx_counter bumped _ ∙ rw (hit-bumped, balance-bumped) refl

  balance-charged :
      Accounts.balance_at i (charge_sender block v i s).accounts
      ≡ (Accounts.balance_at i s.accounts + u256 - upfront block v) % u256
  balance-charged =
      ap (λ r. r.balance)
        (sym (view_at-readers i (charge_sender block v i s).accounts) ∙ view-charged)

  nonce-charged :
      Accounts.nonce_at i (charge_sender block v i s).accounts
      ≡ (Accounts.nonce_at i s.accounts + 1) % u64
  nonce-charged =
      ap (λ r. r.nonce)
        (sym (view_at-readers i (charge_sender block v i s).accounts) ∙ view-charged)
      ∙ ap (λ r. r.nonce) view-bumped

difference :
    (n charge value : ℕ)
    → charge + value ≤ n
    → n < u256
    → (((n + u256 - charge) % u256) + charge ≡ n) × (value ≤ (n + u256 - charge) % u256)
difference n charge value h k =
    let less : (n + u256 - charge) % u256 ≡ n - charge = wrapped n charge (omega arith) k in
    (rw less (omega arith), rw less (omega arith))
  where
    wrapped : (n c : ℕ) → c ≤ n → n < u256 → (n + u256 - c) % u256 ≡ n - c
    wrapped n c h k = omega arith

abbrev accounted : ℕ × State → Result TxFault (ℕ × State)
accounted r = ok r

state_injective : {g h : ℕ} {s t : State} → accounted (g, s) ≡ accounted (h, t) → s ≡ t
state_injective e = cc

next_nonce : (n : ℕ) → n < u64 → n ≢ u64 - 1 → (n + 1) % u64 ≡ n + 1
next_nonce n h differs = mod-eq_of_lt (omega arith)

-- A transaction that passes its checks is charged without a wrap: its sender's balance falls by exactly
-- the gas limit at the effective price and the blob gas at its base fee, still covers the value, and its
-- nonce rises by one. The balance and the nonce in the table are of 256 and 64 bits, and the blob gas of
-- the transaction is of 64.
pub apply_pre_evm_accounting_lem :
    (block : Block) (v : View) (i : ℕ) (s t : State) (gas : ℕ)
    → i < length s.accounts.mods
    → Accounts.balance_at i s.accounts < u256
    → Accounts.nonce_at i s.accounts < u64
    → length v.blob_hashes * gas_per_blob < u64
    → apply_pre_evm_accounting block v i s ≡ ok (gas, t)
    → (Accounts.balance_at i t.accounts + proposed_charge block v
        ≡ Accounts.balance_at i s.accounts)
      × (v.tx.value ≤ Accounts.balance_at i t.accounts)
      × (Accounts.nonce_at i t.accounts ≡ v.nonce + 1)
unfolding apply_pre_evm_accounting
apply_pre_evm_accounting_lem block v i s t gas inside balance nonce hashes e =
    let (g, checked, f) =
      bind-ok (check_transaction block v i s) (λ g. ok (g.0, charge_sender block v i s)) (gas, t)
        e in
    let (w, _) = passed_checks block v i s g checked in
    let charge = upfront_lem block v i s g w balance hashes in
    let exact =
      difference (Accounts.balance_at i s.accounts) (proposed_charge block v) v.tx.value charge.1
        balance in
    let after : charge_sender block v i s ≡ t = state_injective f in
    let paid =
      balance-charged block v i s inside
      ∙ ap (λ c. (Accounts.balance_at i s.accounts + u256 - c) % u256) charge.0 in
    let bumped_nonce =
      nonce-charged block v i s inside
      ∙ next_nonce (Accounts.nonce_at i s.accounts) nonce
          (subst (λ n. n ≢ u64 - 1) w.nonce w.below_maximum) in
    subst
      (λ x.
        (Accounts.balance_at i x.accounts + proposed_charge block v
          ≡ Accounts.balance_at i s.accounts)
        × (v.tx.value ≤ Accounts.balance_at i x.accounts)
        × (Accounts.nonce_at i x.accounts ≡ v.nonce + 1))
      after (rw paid exact.0, rw paid exact.1, bumped_nonce ∙ ap (λ n. n + 1) (sym w.nonce))
