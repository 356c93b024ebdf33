-- ===== src/StateDb/Accounting/Valid.antt =====
-- What a transaction has to be to pass `check_transaction`, and what its tests say of this.
use ziskethone.Prelude.{
  ℕ, ◌≢◌, ◌<◌, ◌*◌, ◌/◌, ◌^◌, get_or, length, ◌||◌, ==_iff, ltb→lt, ◌+◌, ◌-◌, ◌≤◌, ◌≡◌, refl, sym,
  ◌∙◌, Bool, true, false, not, ◌&&◌, List, [], ◌∷◌, ltb, ◌==◌, if◌then◌else◌, Result, ok, fatal,
  All, Bool-cases, inl, inr, ◌⊎◌, subst,
}
use ziskethone.IntrinsicGas.{
  TxType, legacy, access_list, dynamic_fee, blob, set_code, osaka, compute_intrinsic_gas,
}
use ziskethone.Accounts
use ziskethone.Contracts
use ziskethone.StateDb.{State, empty_code_hash}
use ziskethone.StateDb.Accounting
use ziskethone.StateDb.Accounting.{
  View, Block, TxFault, any_wrong_version, is_delegation, checks, is_blob, is_set_code, is_legacy,
  legacy_fee, is_inactive, creates, fee_cap, max_cost, min_gas, check_transaction,
  check_sender_code, u64, max_tx_gas_limit,
}

-- A code that delegates to another account: 23 bytes that start with 0xef0100.
pub record Delegates (code : List ℕ) : Type 0 where
  pub size : length code ≡ 23
  pub first : get_or code 0 0 ≡ 0xef
  pub second : get_or code 1 0 ≡ 0x01
  pub third : get_or code 2 0 ≡ 0x00

-- What the blobs of a transaction have to be.
pub record HasBlobs (block : Block) (v : View) : Type 0 where
  pub present : 1 ≤ length v.blob_hashes
  pub few : (block.osaka ≡ false) ⊎ (length v.blob_hashes ≤ 6)
  pub version : All (λ h. h / 2 ^ 248 ≡ 1) v.blob_hashes
  pub in_block : block.blob_gas_used ≤ block.max_blob_gas_per_block
  pub covers_base : block.blob_base_fee ≤ v.max_fee_per_blob_gas

-- What a sender's code has to be: none, or from Prague on a delegation.
abbrev pub IsSender : Block → ℕ → State → Type 0
IsSender block i s =
    (Accounts.code_hash_at i s.accounts ≡ empty_code_hash)
    ⊎ ((block.prague ≡ true)
        × (c : Contracts.Contract) × (Contracts.by_hash (Accounts.code_hash_at i s.accounts)
              s.contracts
            ≡ ok c)
        × Delegates c.code)

-- What a transaction has to be to run in the block, but for the gas that is left in it.
pub record IsChecked (block : Block) (v : View) (sender_idx : ℕ) (s : State) (gas : ℕ × ℕ)
    : Type 0 where
  pub dynamic_fee_active : (v.tx.type ≢ dynamic_fee) ⊎ (block.london ≡ true)
  pub blob_active : (v.tx.type ≢ blob) ⊎ (block.cancun ≡ true)
  pub set_code_active : (v.tx.type ≢ set_code) ⊎ (block.prague ≡ true)
  pub not_osaka : v.tx.type ≢ osaka
  pub chain : (v.chain_id ≡ block.chain) ⊎ ((v.tx.type ≡ legacy) × (v.v_or_y_parity < 35))
  pub intrinsic :
      compute_intrinsic_gas v.tx (record { shanghai = block.shanghai; amsterdam = false }) ≡ ok gas
  pub covers_intrinsic : gas.0 ≤ v.gas_limit
  pub covers_floor : (block.prague ≡ false) ⊎ (gas.1 ≤ v.gas_limit)
  pub below_cap : (block.osaka ≡ false) ⊎ (v.gas_limit ≤ 2 ^ 24)
  pub init_code :
      (creates v ≡ false) ⊎ ((block.shanghai ≡ false) ⊎ (length v.tx.calldata ≤ 2 * 0x6000))
  pub covers_base : block.base_fee_per_gas ≤ fee_cap v
  pub priority : (legacy_fee v.tx.type ≡ true) ⊎ (v.max_priority_fee_per_gas ≤ fee_cap v)
  pub blobs : (is_blob v.tx.type ≡ false) ⊎ HasBlobs block v
  pub no_creation :
      (creates v ≡ false) ⊎ ((is_blob v.tx.type ≡ false) × (is_set_code v.tx.type ≡ false))
  pub authorized : (is_set_code v.tx.type ≡ false) ⊎ (1 ≤ v.tx.num_authorizations)
  pub nonce : v.nonce ≡ Accounts.nonce_at sender_idx s.accounts
  pub below_maximum : v.nonce ≢ 2 ^ 64 - 1
  pub funded :
      v.gas_limit * fee_cap v
        + (if is_blob v.tx.type then length v.blob_hashes * 131072 * v.max_fee_per_blob_gas else 0)
        + v.tx.value
      ≤ Accounts.balance_at sender_idx s.accounts
  pub sender_code : IsSender block sender_idx s

pub either : (a b : Bool) → (a && b) ≡ false → (a ≡ false) ⊎ (b ≡ false)
either true b e = inr e
either false b e = inl refl

pub not-false : (a : Bool) → not a ≡ false → a ≡ true
not-false true e = refl
not-false false e = absurd (cc)

legacy_type : (type : TxType) → is_legacy type ≡ true → type ≡ legacy
legacy_type legacy e = refl
legacy_type access_list e = absurd (cc)
legacy_type dynamic_fee e = absurd (cc)
legacy_type blob e = absurd (cc)
legacy_type set_code e = absurd (cc)
legacy_type osaka e = absurd (cc)

both : (a b : Bool) → (a && b) ≡ true → (a ≡ true) × (b ≡ true)
both true b e = (refl, e)
both false b e = absurd (cc)

pub neither : (a b : Bool) → (a || b) ≡ false → (a ≡ false) × (b ≡ false)
neither true b e = absurd (cc)
neither false b e = (refl, e)

-- The chain test, where the ids differ.
by_legacy : (a b : Bool) → (not a && not b) ≡ false → a ≡ false → b ≡ true
by_legacy true b e f = absurd (cc)
by_legacy false b e f = not-false b e

pub versions_right :
    (hashes : List ℕ) → any_wrong_version hashes ≡ false → All (λ h. h / 2 ^ 248 ≡ 1) hashes
unfolding any_wrong_version
versions_right [] e = tt
versions_right (h ∷ hashes) e =
    let (good, rest) = neither (not (h / 2 ^ 248 == 1)) (any_wrong_version hashes) e in
    ((==_iff (h / 2 ^ 248) 1).0 (not-false (h / 2 ^ 248 == 1) good), versions_right hashes rest)

pub of_both : (a b : Bool) → (a && b) ≡ false → a ≡ true → b ≡ false
of_both true b e f = e
of_both false b e f = absurd (cc)

pub one_of_three :
    (a b c : Bool) → (a && b && c) ≡ false → (a ≡ false) ⊎ ((b ≡ false) ⊎ (c ≡ false))
one_of_three true b c e = inr (either b c e)
one_of_three false b c e = inl refl

pub of_three : (a b c : Bool) → (a && b && c) ≡ false → a ≡ true → (b ≡ false) ⊎ (c ≡ false)
of_three true b c e f = either b c e
of_three false b c e f = absurd (cc)

-- The fork tests of the three kinds that a fork introduced, and of the one that none did.
module _ (block : Block) (type : TxType) (h : is_inactive block type ≡ false) where
  pub active_at :
      (kind : TxType) (on : Bool) → is_inactive block kind ≡ not on → (type ≢ kind) ⊎ (on ≡ true)
  active_at kind true same = inr refl
  active_at kind false same =
      inl (λ e. let off = subst (λ x. is_inactive block x ≡ false) e h in absurd (cc))

  pub never_active : type ≢ osaka
  never_active e = let on = subst (λ x. is_inactive block x ≡ false) e h in absurd (cc)

pub chain_lem :
    (v : View) (chain : ℕ)
    → (not (v.chain_id == chain) && not (is_legacy v.tx.type && ltb v.v_or_y_parity 35)) ≡ false
    → (v.chain_id ≡ chain) ⊎ ((v.tx.type ≡ legacy) × (v.v_or_y_parity < 35))
chain_lem v chain e = elim (Bool-cases (v.chain_id == chain)) [
  | inl hit ↦ inl ((==_iff v.chain_id chain).0 hit)
  | inr miss ↦
      let (kind, old) =
        both (is_legacy v.tx.type) (ltb v.v_or_y_parity 35) (by_legacy _ _ e miss) in
      inr (legacy_type v.tx.type kind, ltb→lt v.v_or_y_parity 35 old)
]

delegation-Delegates : (code : List ℕ) → is_delegation code ≡ true → Delegates code
delegation-Delegates code e =
    let (abc, d) = both _ (get_or code 2 0 == 0x00) e in
    let (ab, c) = both _ (get_or code 1 0 == 0x01) abc in
    let (a, b) = both (length code == 23) (get_or code 0 0 == 0xef) ab in
    record {
      size = (==_iff (length code) 23).0 a;
      first = (==_iff (get_or code 0 0) 0xef).0 b;
      second = (==_iff (get_or code 1 0) 0x01).0 c;
      third = (==_iff (get_or code 2 0) 0x00).0 d;
    }

abbrev passed : Unit {0} → Result TxFault (Unit {0})
passed u = ok u

pub sender_code_lem :
    (block : Block) (i : ℕ) (s : State) → check_sender_code block i s ≡ ok tt → IsSender block i s
unfolding check_sender_code
sender_code_lem block i s e = elim (Bool-cases (hash == empty_code_hash)) [
  | inl none_there ↦ inl ((==_iff hash empty_code_hash).0 none_there)
  | inr there ↦ inr (go (Contracts.by_hash hash s.contracts) refl (sym (rw there refl) ∙ e))
]
  where
    hash : ℕ
    hash = Accounts.code_hash_at i s.accounts

    coded :
        (b : Bool) → (if b then passed tt else fatal TxFault.sender_has_code) ≡ passed tt → b ≡ true
    coded true e = refl
    coded false e = absurd (cc)

    go :
        (m : Result Contracts.Fault Contracts.Contract)
        → m ≡ Contracts.by_hash hash s.contracts
        → Accounting.designated block m ≡ passed tt
        → (block.prague ≡ true)
          × (c : Contracts.Contract) × (Contracts.by_hash hash s.contracts ≡ ok c)
          × Delegates c.code
    go (ok c) f g =
        let (on, delegates) = both block.prague (is_delegation c.code) (coded _ g) in
        (on, c, sym f, delegation-Delegates c.code delegates)
    go (fatal x) f g = absurd (cc)
