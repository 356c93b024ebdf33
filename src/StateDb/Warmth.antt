-- ===== src/StateDb/Warmth.antt =====
-- EIP-2929: the first access of a transaction is cold, and every later one is warm.
use ziskethone.Prelude.{
  ℕ, ◌≤◌, ◌<◌, ◌≡◌, refl, ap, ◌∙◌, arith, Bool, true, false, ◌||◌, Option, some, none, ◌==◌,
  if◌then◌else◌, length,
}
use ziskethone.Prelude.Rows.{get_or-update}
use ziskethone.Accounts
use ziskethone.WarmKeys
use ziskethone.WarmKeys.{account-set_account, slot-set_slot}
use ziskethone.StateDb.{
  State, AccessStatus, warm, cold, access_status, access_account, access_row, touch,
}

-- The row that the index gives for the address is there, and no later transaction touched it.
abbrev pub AccountIsCurrent : ℕ → State → Type 0
AccountIsCurrent addr s =
    (i : ℕ)
    → s.accounts.index addr ≡ some i
    → (i < length s.accounts.mods) × (Accounts.last_tx_idx_at i s.accounts ≤ s.tx_counter)

abbrev pub state_of : AccessStatus × State → State
state_of r = r.1

abbrev pub status_of : AccessStatus × State → AccessStatus
status_of r = r.0

is_warm_at-mark_touched_at :
    (i tx : ℕ) (a : Accounts.Accounts)
    → i < length a.mods
    → Accounts.last_tx_idx_at i a ≤ tx
    → Accounts.is_warm_at i tx (Accounts.mark_touched_at i tx a) ≡ true
unfolding Accounts.is_warm_at Accounts.mark_touched_at Accounts.last_tx_idx_at
is_warm_at-mark_touched_at i tx a h k =
    rw (get_or-update a.mods i i (Accounts.with_touch tx) Accounts.fresh_mods) (ground arith)

-- What holds of the states of both branches of a test holds of the test's state.
pub after_if :
    (P : State → Type 0) (b : Bool) (p q : AccessStatus × State)
    → (b ≡ true → P (state_of p))
    → (b ≡ false → P (state_of q))
    → P (state_of (if b then p else q))
after_if P true p q h k = h refl
after_if P false p q h k = k refl

pub status_if :
    (b : Bool) (s t : State) → status_of (if b then (warm, s) else (cold, t)) ≡ access_status b
status_if true s t = refl
status_if false s t = refl

-- Whether this transaction touched the key before.
abbrev pub row_is_warm : Option ℕ → ℕ → State → Bool
row_is_warm none addr s = WarmKeys.account addr s.warm_keys == s.tx_counter
row_is_warm (some idx) addr s = Accounts.is_warm_at idx s.tx_counter s.accounts

status-access_row :
    (o : Option ℕ) (addr : ℕ) (s : State)
    → status_of (access_row o addr s) ≡ access_status (row_is_warm o addr s)
status-access_row none addr s = status_if (WarmKeys.account addr s.warm_keys == s.tx_counter) _ _
status-access_row (some idx) addr s =
    status_if (Accounts.is_warm_at idx s.tx_counter s.accounts) _ _

touched_again :
    (idx addr : ℕ) (s : State)
    → (idx < length s.accounts.mods) × (Accounts.last_tx_idx_at idx s.accounts ≤ s.tx_counter)
    → Accounts.is_warm_at idx s.tx_counter (touch idx s).accounts ≡ true
touched_again idx addr s (h, k) = is_warm_at-mark_touched_at idx s.tx_counter s.accounts h k

key_touched_again :
    (addr : ℕ) (s : State)
    → (WarmKeys.account addr (WarmKeys.set_account addr s.tx_counter s.warm_keys) == s.tx_counter)
      ≡ true
key_touched_again addr s = ground (arith, account-set_account addr s.tx_counter s.warm_keys addr)

access_row-again :
    (o : Option ℕ) (addr : ℕ) (s : State)
    → ((i : ℕ)
        → o ≡ some i
        → (i < length s.accounts.mods) × (Accounts.last_tx_idx_at i s.accounts ≤ s.tx_counter))
    → row_is_warm o addr (state_of (access_row o addr s)) ≡ true
access_row-again none addr s h =
    after_if (λ t. row_is_warm none addr t ≡ true)
      (WarmKeys.account addr s.warm_keys == s.tx_counter) _ _ (λ e. e)
      (λ e. key_touched_again addr s)
access_row-again (some idx) addr s h =
    after_if (λ t. row_is_warm (some idx) addr t ≡ true)
      (Accounts.is_warm_at idx s.tx_counter s.accounts) _ _
      (λ e. touched_again idx addr s (h idx refl)) (λ e. touched_again idx addr s (h idx refl))

index-access_row :
    (o : Option ℕ) (addr : ℕ) (s : State)
    → (state_of (access_row o addr s)).accounts.index ≡ s.accounts.index
unfolding Accounts.mark_touched_at
index-access_row none addr s =
    after_if (λ t. t.accounts.index ≡ s.accounts.index)
      (WarmKeys.account addr s.warm_keys == s.tx_counter) _ _ (λ e. refl) (λ e. refl)
index-access_row (some idx) addr s =
    after_if (λ t. t.accounts.index ≡ s.accounts.index)
      (Accounts.is_warm_at idx s.tx_counter s.accounts) _ _ (λ e. refl) (λ e. refl)

-- An access answers warm where the address is a precompile's or was touched in this transaction, by
-- its row or, without one, by its key, and cold otherwise; the next access of the address is warm. A
-- row of the address is one that no later transaction touched.
pub access_account_lem :
    (is_precompile : ℕ → Bool) (addr : ℕ) (s : State)
    → AccountIsCurrent addr s
    → ((access_account is_precompile addr s).0
        ≡ access_status (is_precompile addr || row_is_warm (s.accounts.index addr) addr s))
      × ((access_account is_precompile addr (access_account is_precompile addr s).1).0 ≡ warm)
unfolding access_account
access_account_lem is_precompile addr s h = go (is_precompile addr)
  where
    o : Option ℕ
    o = s.accounts.index addr

    s' : State
    s' = state_of (access_row o addr s)

    again : status_of (access_row (s'.accounts.index addr) addr s') ≡ warm
    again =
        ap (λ f. status_of (access_row (f addr) addr s')) (index-access_row o addr s)
        ∙ status-access_row o addr s'
        ∙ ap access_status (access_row-again o addr s h)

    go :
        (b : Bool)
        → (status_of (if b then (warm, s) else access_row o addr s)
            ≡ access_status (b || row_is_warm o addr s))
          × (status_of (
                if b
                then (warm, state_of (if b then (warm, s) else access_row o addr s))
                else access_row
                    ((state_of (if b then (warm, s) else access_row o addr s)).accounts.index addr)
                    addr
                    (state_of (if b then (warm, s) else access_row o addr s)))
              ≡ warm)
    go true = (refl, refl)
    go false = (status-access_row o addr s, again)
