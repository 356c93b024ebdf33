-- ===== src/StateDb/Answers.antt =====
-- The host operations that may end the program, as stretches of a frame where they answer.
use ziskethone.Prelude.{
  ℕ, ◌≡◌, refl, Bool, true, false, Option, none, some, ltb, ◌==◌, if◌then◌else◌, Result, ok, fatal,
  ◌>>=◌,
}
use ziskethone.Accounts
use ziskethone.Storages
use ziskethone.StateDb.{
  State, Fault, put_storages, move_value, transfer_value, should_destroy, selfdestruct, account_row,
  storage_row, account_found, slot_found, get_storage, get_balance, get_nonce, get_code_hash,
  account_exists, touch, is_nonempty, destruct_to_self, destruct_to_other, write_slot,
}
use ziskethone.StateDb.Status.{set_storage, compute_storage_status}
use ziskethone.StateDb.Frames.{
  Stretch, Stretch-trans, Stretch-refl, write_slot-Stretch, touch-Stretch, touch_slot-Stretch,
}
use ziskethone.StateDb.Operations.{
  move_value-Stretch, destruct_to_self-Stretch, destruct_to_other-Stretch, find-Stretch,
}

-- Where the operation answers, its state continues the frame.
abbrev pub Continued : Bool → State → Result Fault State → Type 0
Continued exact s (ok t) = Stretch exact s t
Continued exact s (fatal e) = Unit

abbrev pub Answered : {A : Type 0} → Bool → State → Result Fault (A × State) → Type 0
Answered exact s (ok r) = Stretch exact s r.1
Answered exact s (fatal e) = Unit

pub transfer_value-Continued :
    (exact : Bool) (from to value : ℕ) (s : State)
    → Continued exact s (transfer_value from to value s)
unfolding transfer_value account_row
transfer_value-Continued exact from to value s = go (s.accounts.index from) (s.accounts.index to)
  where
    moved :
        (b : Bool) (i j : ℕ) → Continued exact s (if b then ok s else ok (move_value i j value s))
    moved true i j = Stretch-refl s
    moved false i j = move_value-Stretch i j value s

    go :
        (o p : Option ℕ)
        → Continued exact s (
            account_found o >>= λ i.
            account_found p >>= λ j. if i == j then ok s else ok (move_value i j value s))
    go none p = tt
    go (some i) none = tt
    go (some i) (some j) = moved (i == j) i j

pub selfdestruct-Answered :
    (exact : Bool) (addr beneficiary : ℕ) (s : State)
    → Answered exact s (selfdestruct addr beneficiary s)
unfolding selfdestruct account_row
selfdestruct-Answered exact addr beneficiary s =
    go (addr == beneficiary) (s.accounts.index addr) (s.accounts.index beneficiary)
  where
    go :
        (b : Bool) (o p : Option ℕ)
        → Answered exact s (
            account_found o >>= λ i.
            if b
            then ok (destruct_to_self (should_destroy i s) i s)
            else (account_found p >>= λ j. ok (destruct_to_other (should_destroy i s) i j s)))
    go b none p = tt
    go true (some i) p = destruct_to_self-Stretch (should_destroy i s) i s
    go false (some i) none = tt
    go false (some i) (some j) = destruct_to_other-Stretch (should_destroy i s) i j s

pub set_storage-Answered :
    (exact : Bool) (addr key value : ℕ) (s : State)
    → Answered exact s (set_storage addr key value s)
unfolding set_storage storage_row
set_storage-Answered exact addr key value s = go (Storages.find addr key s.storages).0
  where
    s1 : State
    s1 = put_storages (Storages.find addr key s.storages).1 s

    go :
        (o : Option ℕ)
        → Answered exact s (
            slot_found o s1 >>= λ r. ok (
              compute_storage_status
                  (Storages.tx_original_at r.0 r.1.storages)
                  (Storages.value_at r.0 r.1.storages)
                  value,
              write_slot r.0 value r.1,
            ))
    go none = tt
    go (some i) = Stretch-trans (find-Stretch addr key s) (write_slot-Stretch i value s1)

-- Where last touches are compared, no row of the address is one that this transaction has yet to touch.
abbrev pub AccountIsTouched : Bool → ℕ → State → Type 0
AccountIsTouched exact addr s =
    exact ≡ true
    → (i : ℕ) → s.accounts.index addr ≡ some i
    → ltb (Accounts.last_tx_idx_at i s.accounts) s.tx_counter ≡ false

pub get_balance-Answered :
    (exact : Bool) (addr : ℕ) (s : State)
    → AccountIsTouched exact addr s
    → Answered exact s (get_balance addr s)
unfolding get_balance account_row
get_balance-Answered exact addr s h = go (s.accounts.index addr) refl
  where
    go :
        (o : Option ℕ)
        → s.accounts.index addr ≡ o
        → Answered exact s
            (account_found o >>= λ i. ok (Accounts.balance_at i (touch i s).accounts, touch i s))
    go none e = tt
    go (some i) e = touch-Stretch s i (λ same. h same i e)

pub get_nonce-Answered :
    (exact : Bool) (addr : ℕ) (s : State)
    → AccountIsTouched exact addr s
    → Answered exact s (get_nonce addr s)
unfolding get_nonce account_row
get_nonce-Answered exact addr s h = go (s.accounts.index addr) refl
  where
    go :
        (o : Option ℕ)
        → s.accounts.index addr ≡ o
        → Answered exact s
            (account_found o >>= λ i. ok (Accounts.nonce_at i (touch i s).accounts, touch i s))
    go none e = tt
    go (some i) e = touch-Stretch s i (λ same. h same i e)

pub get_code_hash-Answered :
    (exact : Bool) (addr : ℕ) (s : State)
    → AccountIsTouched exact addr s
    → Answered exact s (get_code_hash addr s)
unfolding get_code_hash account_exists account_row
get_code_hash-Answered exact addr s h = go (s.accounts.index addr) refl
  where
    read :
        (b : Bool) (i : ℕ)
        → s.accounts.index addr ≡ some i
        → Answered exact s
            (if b then ok (Accounts.code_hash_at i (touch i s).accounts, touch i s) else ok (0, s))
    read true i e = touch-Stretch s i (λ same. h same i e)
    read false i e = Stretch-refl s

    go :
        (o : Option ℕ)
        → s.accounts.index addr ≡ o
        → Answered exact s (
            (account_found o >>= λ i. ok (is_nonempty i s)) >>= λ exists. account_found o >>= λ i.
            if exists
            then ok (Accounts.code_hash_at i (touch i s).accounts, touch i s)
            else ok (0, s))
    go none e = tt
    go (some i) e = read (is_nonempty i s) i e

-- Where last touches are compared, the row that `find` answers for the slot is none that this transaction has yet to touch.
abbrev pub SlotIsTouched : Bool → ℕ → ℕ → State → Type 0
SlotIsTouched exact addr key s =
    exact ≡ true
    → (i : ℕ) → (Storages.find addr key s.storages).0 ≡ some i
    → ltb (Storages.last_tx_idx_at i (Storages.find addr key s.storages).1) s.tx_counter ≡ false

pub get_storage-Answered :
    (exact : Bool) (addr key : ℕ) (s : State)
    → SlotIsTouched exact addr key s
    → Answered exact s (get_storage addr key s)
unfolding get_storage storage_row
get_storage-Answered exact addr key s h = go (Storages.find addr key s.storages).0 refl
  where
    s1 : State
    s1 = put_storages (Storages.find addr key s.storages).1 s

    go :
        (o : Option ℕ)
        → (Storages.find addr key s.storages).0 ≡ o
        → Answered exact s (
            slot_found o s1 >>= λ r. ok (
              Storages.value_at r.0 (Storages.mark_touched_at r.0 r.1.tx_counter r.1.storages),
              put_storages (Storages.mark_touched_at r.0 r.1.tx_counter r.1.storages) r.1,
            ))
    go none e = tt
    go (some i) e =
        Stretch-trans (find-Stretch addr key s) (touch_slot-Stretch s1 i (λ same. h same i e))
