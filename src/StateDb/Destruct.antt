-- ===== src/StateDb/Destruct.antt =====
-- What the end of a transaction leaves of a destroyed account.
use ziskethone.Prelude.{
  ℕ, ◌<◌, ◌≡◌, refl, sym, ap, subst, ◌∙◌, arith, Bool, true, false, List, [], ◌∷◌, ◌==◌,
  if◌then◌else◌, length, Bool-cases, inl, inr, ◌⊎◌,
}
use ziskethone.Prelude.Rows.{hits, update, get_or-update, length-update}
use ziskethone.Accounts
use ziskethone.Storages
use ziskethone.Storages.View as StoragesView
use ziskethone.Journal.{member}
use ziskethone.StateDb.{
  State, empty_code_hash, put_balance, save_balance, write_nonce, write_code_hash, write_slot,
  clear_slots, clear_account_for_selfdestruct,
}

value_of :
    (b : Bool) (v t : ℕ) (r : StoragesView.RowView)
    → (if b then record r { value = v; last_tx_idx = t } else r).value ≡ (if b then v else r.value)
value_of true v t r = refl
value_of false v t r = refl

value_at-write_slot :
    (i v j : ℕ) (s : State)
    → Storages.value_at j (write_slot i v s).storages
      ≡ (if hits i j s.storages.mods then v else Storages.value_at j s.storages)
unfolding write_slot Storages.set_value_at Storages.value_at StoragesView.view_at
value_at-write_slot i v j s =
    ap (λ r. r.value)
      (StoragesView.view_at-write_row (Storages.with_value v s.tx_counter)
        (λ r. record r { value = v; last_tx_idx = s.tx_counter }) (λ o m. refl) i j s.storages)
    ∙ value_of (hits i j s.storages.mods) v s.tx_counter (StoragesView.view_at j s.storages)

size-write_slot :
    (i v : ℕ) (s : State) → length (write_slot i v s).storages.mods ≡ length s.storages.mods
unfolding write_slot Storages.set_value_at
size-write_slot i v s = length-update s.storages.mods i (Storages.with_value v s.tx_counter)

accounts-write_slot : (i v : ℕ) (s : State) → (write_slot i v s).accounts ≡ s.accounts
unfolding write_slot
accounts-write_slot i v s = refl

-- One round of the loop.
abbrev cleared : ℕ → State → State
cleared i s = if Storages.value_at i s.storages == 0 then s else write_slot i 0 s

cleared_lem :
    (i j : ℕ) (s : State)
    → ((cleared i s).accounts ≡ s.accounts)
      × (length (cleared i s).storages.mods ≡ length s.storages.mods)
      × (j < length s.storages.mods
          → (i == j) ≡ true
          → Storages.value_at j (cleared i s).storages ≡ 0)
      × (Storages.value_at j s.storages ≡ 0 → Storages.value_at j (cleared i s).storages ≡ 0)
cleared_lem i j s = go (Storages.value_at i s.storages == 0) refl
  where
    go :
        (b : Bool)
        → (Storages.value_at i s.storages == 0) ≡ b
        → let t = (if b then s else write_slot i 0 s) in
          (t.accounts ≡ s.accounts)
          × (length t.storages.mods ≡ length s.storages.mods)
          × (j < length s.storages.mods → (i == j) ≡ true → Storages.value_at j t.storages ≡ 0)
          × (Storages.value_at j s.storages ≡ 0 → Storages.value_at j t.storages ≡ 0)
    go true e =
        (refl, refl, (λ h k. let same : i ≡ j = ground arith in rw (← same) (ground arith)), λ h. h)
    go false e = (
      accounts-write_slot i 0 s,
      size-write_slot i 0 s,
      (λ h k. ground (arith, value_at-write_slot i 0 j s)),
      (λ h. ground (arith, value_at-write_slot i 0 j s)),
    )

clear_slots_lem :
    (slots : List ℕ) (j : ℕ) (s : State)
    → j < length s.storages.mods
    → ((clear_slots slots s).accounts ≡ s.accounts)
      × ((member j slots ≡ true) ⊎ (Storages.value_at j s.storages ≡ 0)
          → Storages.value_at j (clear_slots slots s).storages ≡ 0)
unfolding clear_slots member
clear_slots_lem [] j s h = (refl, λ k. elim k [ inl e ↦ absurd (cc) | inr e ↦ e ])
clear_slots_lem (i ∷ slots) j s h =
    let (same, size, hit, kept) = cleared_lem i j s in
    let (later, zeroed) = clear_slots_lem slots j (cleared i s) (rw size h) in
    (later ∙ same, λ k. zeroed (remains k hit kept))
  where
    remains :
        (member j (i ∷ slots) ≡ true) ⊎ (Storages.value_at j s.storages ≡ 0)
        → (j < length s.storages.mods
            → (i == j) ≡ true
            → Storages.value_at j (cleared i s).storages ≡ 0)
        → (Storages.value_at j s.storages ≡ 0 → Storages.value_at j (cleared i s).storages ≡ 0)
        → (member j slots ≡ true) ⊎ (Storages.value_at j (cleared i s).storages ≡ 0)
    remains (inr e) hit kept = inr (kept e)
    remains (inl e) hit kept = elim (Bool-cases (i == j)) [
      | inl y ↦ inr (hit h y)
      | inr n ↦ inl (ground arith)
    ]

accounts-clear_slots : (slots : List ℕ) (s : State) → (clear_slots slots s).accounts ≡ s.accounts
unfolding clear_slots
accounts-clear_slots [] s = refl
accounts-clear_slots (i ∷ slots) s =
    accounts-clear_slots slots (cleared i s) ∙ (cleared_lem i i s).0

-- The account's fields after the three writes of the clearing.
fields_cleared :
    (i tx : ℕ) (a : Accounts.Accounts)
    → i < length a.mods
    → let b =
        Accounts.set_code_hash_at i empty_code_hash tx
          (Accounts.set_nonce_at i 0 tx (Accounts.set_balance_at i 0 tx a)) in
      (Accounts.balance_at i b ≡ 0)
      × (Accounts.nonce_at i b ≡ 0)
      × (Accounts.code_hash_at i b ≡ empty_code_hash)
unfolding Accounts.set_code_hash_at Accounts.set_nonce_at Accounts.set_balance_at
    Accounts.balance_at Accounts.nonce_at Accounts.code_hash_at
fields_cleared i tx a h =
    let m0 = a.mods in
    let m1 = update m0 i (Accounts.with_balance 0 tx) in
    let m2 = update m1 i (Accounts.with_nonce 0 tx) in
    let s1 : length m1 ≡ length m0 = length-update m0 i (Accounts.with_balance 0 tx) in
    let s2 : length m2 ≡ length m1 = length-update m1 i (Accounts.with_nonce 0 tx) in
    let h0 : hits i i m0 ≡ true = ground arith in
    let h1 : hits i i m1 ≡ true = ground arith in
    let h2 : hits i i m2 ≡ true = ground arith in
    rw
      (
        get_or-update m2 i i (Accounts.with_code_hash empty_code_hash tx) Accounts.fresh_mods,
        h2,
        get_or-update m1 i i (Accounts.with_nonce 0 tx) Accounts.fresh_mods,
        h1,
        get_or-update m0 i i (Accounts.with_balance 0 tx) Accounts.fresh_mods,
        h0,
      )
      (refl, refl, refl)

-- Of a row that the table has, the clearing at the end of the transaction leaves balance and nonce 0,
-- the code hash of no code, and 0 in a slot that the table has and lists for the account's address.
pub clear_account_for_selfdestruct_lem :
    (i j : ℕ) (s : State)
    → i < length s.accounts.mods
    → j < length s.storages.mods
    → member j (Storages.slots_of (Accounts.original_at s.accounts i).address s.storages) ≡ true
    → let t = clear_account_for_selfdestruct i s in
      (Accounts.balance_at i t.accounts ≡ 0)
      × (Accounts.nonce_at i t.accounts ≡ 0)
      × (Accounts.code_hash_at i t.accounts ≡ empty_code_hash)
      × (Storages.value_at j t.storages ≡ 0)
unfolding clear_account_for_selfdestruct write_code_hash write_nonce put_balance save_balance
    Accounts.set_code_hash_at Accounts.set_nonce_at Accounts.set_balance_at
clear_account_for_selfdestruct_lem i j s h hj m =
    let s2 =
      write_code_hash i empty_code_hash (write_nonce i 0 (put_balance i 0 (save_balance i s))) in
    let slots = Storages.slots_of (Accounts.original_at s.accounts i).address s.storages in
    let fields =
      subst
        (λ b.
          (Accounts.balance_at i b ≡ 0)
          × (Accounts.nonce_at i b ≡ 0)
          × (Accounts.code_hash_at i b ≡ empty_code_hash))
        (sym (accounts-clear_slots slots s2)) (fields_cleared i s.tx_counter s.accounts h) in
    (fields.0, fields.1, fields.2, (clear_slots_lem slots j s2 hj).1 (inl m))
