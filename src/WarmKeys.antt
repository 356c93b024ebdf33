-- ===== src/WarmKeys.antt =====
-- cpp-guest/include/zeg/warm_keys.hpp: the warmth of keys that have no row in the tables.
use ziskethone.Prelude.{ℕ, ◌≡◌, refl, arith, ◌&&◌, Option, none, some, ◌==◌, if◌then◌else◌}

-- The two maps, from an address and from a slot's key to a `last_tx_idx`.
pub record WarmKeys : Type 0 where
  pub accounts : ℕ → Option ℕ
  pub slots : ℕ → ℕ → Option ℕ

abbrev pub empty : WarmKeys
empty = record { accounts = λ a. none; slots = λ a p. none }

abbrev pub or_zero : Option ℕ → ℕ
or_zero none = 0
or_zero (some tx_idx) = tx_idx

unfoldable pub account : ℕ → WarmKeys → ℕ
account addr w = or_zero (w.accounts addr)

-- What a setter stores: 0 erases the key.
abbrev pub entry_for : ℕ → Option ℕ
entry_for tx_idx = if tx_idx == 0 then none else some tx_idx

unfoldable pub set_account : ℕ → ℕ → WarmKeys → WarmKeys
set_account addr tx_idx w = record w {
  accounts = λ a. if addr == a then entry_for tx_idx else w.accounts a;
}

unfoldable pub slot : ℕ → ℕ → WarmKeys → ℕ
slot addr key w = or_zero (w.slots addr key)

unfoldable pub set_slot : ℕ → ℕ → ℕ → WarmKeys → WarmKeys
set_slot addr key tx_idx w = record w {
  slots = λ a p. if addr == a && key == p then entry_for tx_idx else w.slots a p;
}

-- Two tables of warm keys that no reader can tell apart.
pub record SameWarmKeys (v w : WarmKeys) : Type 0 where
  pub accounts : (a : ℕ) → account a v ≡ account a w
  pub slots : (a p : ℕ) → slot a p v ≡ slot a p w

pub SameWarmKeys-refl : (w : WarmKeys) → SameWarmKeys w w
SameWarmKeys-refl w = record { accounts = λ a. refl; slots = λ a p. refl }

or_zero-entry_for : (tx_idx : ℕ) → or_zero (entry_for tx_idx) ≡ tx_idx
or_zero-entry_for tx_idx = ground arith

pub account-set_account :
    (addr tx_idx : ℕ) (w : WarmKeys) (a : ℕ)
    → account a (set_account addr tx_idx w) ≡ (if addr == a then tx_idx else account a w)
unfolding account set_account
account-set_account addr tx_idx w a = ground (arith, or_zero-entry_for tx_idx)

pub slot-set_slot :
    (addr key tx_idx : ℕ) (w : WarmKeys) (a p : ℕ)
    → slot a p (set_slot addr key tx_idx w) ≡ (if addr == a && key == p then tx_idx else slot a p w)
unfolding slot set_slot
slot-set_slot addr key tx_idx w a p = ground (arith, or_zero-entry_for tx_idx)

pub slot-set_account :
    (addr tx_idx : ℕ) (w : WarmKeys) (a p : ℕ) → slot a p (set_account addr tx_idx w) ≡ slot a p w
unfolding slot set_account
slot-set_account addr tx_idx w a p = refl

pub account-set_slot :
    (addr key tx_idx : ℕ) (w : WarmKeys) (a : ℕ)
    → account a (set_slot addr key tx_idx w) ≡ account a w
unfolding account set_slot
account-set_slot addr key tx_idx w a = refl
