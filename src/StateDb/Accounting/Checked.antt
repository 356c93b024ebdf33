-- ===== src/StateDb/Accounting/Checked.antt =====
-- What `check_transaction` has established where it answers.
use ziskethone.Prelude.{
  ℕ, ◌<◌, ◌^◌, length, ◌||◌, ◌+◌, ◌-◌, ◌%◌, ◌≤◌, ◌≡◌, refl, sym, ◌∙◌, arith, Bool, true, false, not,
  List, [], ◌∷◌, ltb, ◌==◌, if◌then◌else◌, Result, ok, fatal, ◌>>=◌, ◌>>◌, All, Bool-cases, inl,
  inr, subst,
}
use ziskethone.IntrinsicGas
use ziskethone.IntrinsicGas.{
  TxType, legacy, access_list, dynamic_fee, blob, set_code, osaka, compute_intrinsic_gas,
}
use ziskethone.Accounts
use ziskethone.StateDb.{State}
use ziskethone.StateDb.Accounting
use ziskethone.StateDb.Accounting.Valid.{
  IsChecked, either, not-false, one_of_three, of_three, of_both, neither, chain_lem, versions_right,
  sender_code_lem, active_at, never_active,
}
use ziskethone.StateDb.Accounting.{
  View, Block, TxFault, any_wrong_version, is_delegation, checks, is_blob, is_set_code, is_legacy,
  legacy_fee, is_inactive, creates, fee_cap, max_cost, min_gas, check_transaction,
  check_sender_code, u64, max_tx_gas_limit,
}

abbrev Passed : Bool × TxFault → Type 0
Passed c = c.0 ≡ false

bad_check :
    (c : Bool × TxFault) (cs : List (Bool × TxFault)) → c.0 ≡ true → checks (c ∷ cs) ≡ fatal c.1
bad_check c cs e = rw e refl

good_check :
    (c : Bool × TxFault) (cs : List (Bool × TxFault)) → c.0 ≡ false → checks (c ∷ cs) ≡ checks cs
good_check c cs e = rw e refl

checks-Passed : (cs : List (Bool × TxFault)) → checks cs ≡ ok tt → All Passed cs
checks-Passed [] e = tt
checks-Passed (c ∷ cs) e = elim (Bool-cases c.0) [
  | inl bad ↦ absurd (let wrong = sym (bad_check c cs bad) ∙ e in cc)
  | inr good ↦ (good, checks-Passed cs (sym (good_check c cs good) ∙ e))
]

pub bind-ok :
    {A B : Type 0} (m : Result TxFault A) (f : A → Result TxFault B) (b : B)
    → (m >>= f) ≡ ok b
    → (a : A) × (m ≡ ok a) × (f a ≡ ok b)
bind-ok (ok a) f b e = (a, refl, e)
bind-ok (fatal x) f b e = absurd (cc)

-- A chain of checks before something that answers.
then-Passed :
    {B : Type 0} (cs : List (Bool × TxFault)) (m : Result TxFault B) (b : B)
    → (checks cs >> m) ≡ ok b
    → All Passed cs × (m ≡ ok b)
then-Passed cs m b e = let (u, f, g) = bind-ok (checks cs) (λ u. m) b e in (checks-Passed cs f, g)

abbrev answered : ℕ × ℕ → Result TxFault (ℕ × ℕ)
answered g = ok g

answered_injective : {g h : ℕ × ℕ} → answered g ≡ answered h → g ≡ h
answered_injective e = cc

lift-ok :
    {A : Type 0} (m : Result IntrinsicGas.Fault A) (a : A) → Accounting.lift m ≡ ok a → m ≡ ok a
lift-ok (ok b) a e = cc
lift-ok (fatal x) a e = absurd (cc)

ltb_le : (a b : ℕ) → ltb a b ≡ false → b ≤ a
ltb_le a b h = ground arith

at_least_left : (a b c : ℕ) → ltb c (Accounting.maximum a b) ≡ false → a ≤ c
at_least_left a b c h = ground arith

at_least_right : (a b c : ℕ) → ltb c (Accounting.maximum a b) ≡ false → b ≤ c
at_least_right a b c h = ground arith

at_least :
    (block : Block) (v : View) (gas : ℕ × ℕ)
    → ltb v.gas_limit (min_gas block gas) ≡ false
    → block.prague ≡ true
    → ltb v.gas_limit (Accounting.maximum gas.0 gas.1) ≡ false
at_least block v gas h on =
    subst (λ b. ltb v.gas_limit (if b then Accounting.maximum gas.0 gas.1 else gas.0) ≡ false) on h

before_prague :
    (block : Block) (v : View) (gas : ℕ × ℕ)
    → ltb v.gas_limit (min_gas block gas) ≡ false
    → block.prague ≡ false
    → ltb v.gas_limit gas.0 ≡ false
before_prague block v gas h off =
    subst (λ b. ltb v.gas_limit (if b then Accounting.maximum gas.0 gas.1 else gas.0) ≡ false) off h

nonzero : (n : ℕ) → (n == 0) ≡ false → 1 ≤ n
nonzero n e = ground arith

checked :
    (block : Block) (v : View) (sender_idx : ℕ) (s : State) (gas : ℕ × ℕ)
    → All Passed (Accounting.kind_checks block v)
    → Accounting.gas_of block v ≡ ok gas
    → All Passed (Accounting.checks_on block v sender_idx s gas)
    → check_sender_code block sender_idx s ≡ ok tt
    → IsChecked block v sender_idx s gas
checked block v sender_idx s gas (active, (chain, k)) priced
      (
        limit,
        (
          top_gas,
          (
            top,
            (
              init,
              (room, (prio, (base, (b1, (b2, (b3, (b4, (b5, (b6, (b7, (nonce, (funds, r)))))))))))),
            ),
          ),
        ),
      )
      coded =
    record {
      dynamic_fee_active = active_at block v.tx.type active dynamic_fee block.london refl;
      blob_active = active_at block v.tx.type active blob block.cancun refl;
      set_code_active = active_at block v.tx.type active set_code block.prague refl;
      not_osaka = never_active block v.tx.type active;
      chain = chain_lem v block.chain chain;
      intrinsic = lift-ok _ gas priced;
      covers_intrinsic = elim (Bool-cases block.prague) [
        | inl on ↦ at_least_left gas.0 gas.1 v.gas_limit (at_least block v gas limit on)
        | inr off ↦ ltb_le v.gas_limit gas.0 (before_prague block v gas limit off)
      ];
      covers_floor = elim (Bool-cases block.prague) [
        | inl on ↦ inr (at_least_right gas.0 gas.1 v.gas_limit (at_least block v gas limit on))
        | inr off ↦ inl off
      ];
      below_cap = elim (either block.osaka _ top_gas) [
        | inl off ↦ inl off
        | inr low ↦ inr (ltb_le (2 ^ 24) v.gas_limit low)
      ];
      init_code = elim (one_of_three (creates v) block.shanghai _ init) [
        | inl call ↦ inl call
        | inr (inl off) ↦ inr (inl off)
        | inr (inr short) ↦ inr (inr (ltb_le 0xc000 (length v.tx.calldata) short))
      ];
      covers_base = ground arith;
      priority = elim (either (not (legacy_fee v.tx.type)) _ prio) [
        | inl l ↦ inl (not-false (legacy_fee v.tx.type) l)
        | inr p ↦ inr (ltb_le (fee_cap v) v.max_priority_fee_per_gas p)
      ];
      blobs = elim (Bool-cases (is_blob v.tx.type)) [
        | inr bare ↦ inl bare
        | inl carries ↦ inr (record {
          present = nonzero (length v.blob_hashes) (of_both (is_blob v.tx.type) _ b1 carries);
          few = elim (of_three (is_blob v.tx.type) block.osaka _ b2 carries) [
            | inl off ↦ inl off
            | inr low ↦ inr (ltb_le 6 (length v.blob_hashes) low)
          ];
          version = versions_right v.blob_hashes (of_both (is_blob v.tx.type) _ b3 carries);
          in_block =
              ltb_le block.max_blob_gas_per_block block.blob_gas_used
                (of_both (is_blob v.tx.type) _ b4 carries);
          covers_base =
              ltb_le v.max_fee_per_blob_gas block.blob_base_fee
                (of_both (is_blob v.tx.type) _ b5 carries);
        })
      ];
      no_creation = elim (either (is_blob v.tx.type || is_set_code v.tx.type) _ b6) [
        | inl none_of ↦ inr (neither (is_blob v.tx.type) (is_set_code v.tx.type) none_of)
        | inr call ↦ inl call
      ];
      authorized = elim (either (is_set_code v.tx.type) _ b7) [
        | inl other ↦ inl other
        | inr some_there ↦ inr (nonzero v.tx.num_authorizations some_there)
      ];
      nonce = ground arith;
      below_maximum = ground arith;
      funded = ltb_le (Accounts.balance_at sender_idx s.accounts) (max_cost v) funds;
      sender_code = sender_code_lem block sender_idx s coded;
    }

-- What is left of the block's gas covers the limit: the difference wraps as a `uint64_t` does.
fits :
    (limit used asked : ℕ)
    → asked ≤ (limit + u64 - used) % u64
    → used ≤ limit
    → limit < u64
    → used + asked ≤ limit
fits limit used asked h le small =
    let exact : (limit + u64 - used) % u64 ≡ limit - used = omega arith in omega (arith, h, exact)

pub passed_checks :
    (block : Block) (v : View) (sender_idx : ℕ) (s : State) (gas : ℕ × ℕ)
    → check_transaction block v sender_idx s ≡ ok gas
    → IsChecked block v sender_idx s gas
      × (v.gas_limit ≤ (block.gas_limit + u64 - block.cumulative_gas_used) % u64)
unfolding check_transaction
passed_checks block v sender_idx s gas e =
    let (kinds, e1) = then-Passed (Accounting.kind_checks block v) _ gas e in
    let (g, priced, e2) =
      bind-ok (Accounting.gas_of block v) (Accounting.after_gas block v sender_idx s) gas e1 in
    let (rest, e3) = then-Passed (Accounting.checks_on block v sender_idx s g) _ gas e2 in
    let (u, coded, e4) = bind-ok (check_sender_code block sender_idx s) (λ u. answered g) gas e3 in
    let same : g ≡ gas = answered_injective e4 in
    (
      checked block v sender_idx s gas kinds
          (subst (λ x. Accounting.gas_of block v ≡ ok x) same priced)
          (subst (λ x. All Passed (Accounting.checks_on block v sender_idx s x)) same rest) coded,
      ltb_le _ v.gas_limit rest.1.1.1.1.0,
    )

-- A transaction that `check_transaction` lets through is of a kind that the fork has; carries the chain's
-- id, or is a legacy transaction with a parity below 35; has a gas limit that covers the intrinsic gas
-- and, from Prague on, the floor, keeps to the cap of Osaka and fits in what the earlier transactions
-- left of the block's gas, where these used no more than there is and that is of 64 bits; has, from
-- Shanghai on, init code within its bound, if it creates a contract; has a fee cap that covers the base
-- fee and, if it is of a kind with one, the priority fee; has, if it is a blob transaction, one blob at
-- least and from Osaka on six at most, all of version 1, in a block whose blob gas is within the maximum,
-- at a fee that covers their base fee; creates no contract if it is a blob or set-code transaction, the
-- latter with one authorization at least; has the sender's nonce, not the greatest; costs at most the
-- sender's balance, the value included; and its sender has no code or, from Prague on, a delegation.
pub check_transaction-IsChecked :
    (block : Block) (v : View) (sender_idx : ℕ) (s : State) (gas : ℕ × ℕ)
    → check_transaction block v sender_idx s ≡ ok gas
    → block.cumulative_gas_used ≤ block.gas_limit
    → block.gas_limit < u64
    → IsChecked block v sender_idx s gas
      × (block.cumulative_gas_used + v.gas_limit ≤ block.gas_limit)
check_transaction-IsChecked block v sender_idx s gas e used small =
    let (w, left) = passed_checks block v sender_idx s gas e in
    (w, fits block.gas_limit block.cumulative_gas_used v.gas_limit left used small)
