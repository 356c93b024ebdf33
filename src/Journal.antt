-- ===== src/Journal.antt =====
-- cpp-guest/src/journal.cpp and cpp-guest/include/zeg/journal.hpp: the undo log of the state writes.
pub mod Same
pub mod Undo
pub mod Writes
pub mod Keys
pub mod Replay
use ziskethone.Prelude.{
  ℕ, zero, suc, ◌+◌, ◌-◌, ◌<◌, ◌≡◌, Bool, true, false, Option, none, some, List, [], ◌∷◌, ◌++◌, ltb,
  leb, ◌==◌, if◌then◌else◌, length, get_elem?, Result, ok, fatal, ◌&&◌, ◌||◌,
}
use ziskethone.Accounts
use ziskethone.Accounts.{Accounts}
use ziskethone.Storages
use ziskethone.Storages.{Storages}
use ziskethone.WarmKeys
use ziskethone.WarmKeys.{WarmKeys}
use ziskethone.TransientStorage
use ziskethone.TransientStorage.{Transient}

-- `Journal::Entry`
pub data Entry : Type 0 where
  checkpoint_marker : Entry
  nonce : (idx old_value old_last_tx_idx : ℕ) → Entry
  balance : (idx old_value old_last_tx_idx : ℕ) → Entry
  code_hash : (idx old_value old_last_tx_idx : ℕ) → Entry
  storage : (idx old_value old_last_tx_idx : ℕ) → Entry
  account_warm : (idx old_last_tx_idx : ℕ) → Entry
  storage_warm : (idx old_last_tx_idx : ℕ) → Entry
  transient : (address position : ℕ) (was_present : Bool) (old_value : ℕ) → Entry
  warm_key_account : (address old_last_tx_idx : ℕ) → Entry
  warm_key_slot : (address position old_last_tx_idx : ℕ) → Entry
  pending_destruct : (idx : ℕ) (was_already_present : Bool) → Entry

-- `entries_`, the last one first: `emplace_back` and `pop_back` work at the head.
abbrev pub Journal : Type 0
Journal = List Entry

-- The tables that `rollback` writes to. `pending` is the set of the rows to destruct, in some order.
pub record World : Type 0 where
  pub accounts : Accounts
  pub storages : Storages
  pub warm_keys : WarmKeys
  pub transients : Transient
  pub pending : List ℕ

pub data Fault : Type 0 where
  invalid_checkpoint : Fault

-- The `log_*` methods push the entry of their name; `checkpoint` pushes a marker and returns its
-- position.
unfoldable pub log : Entry → Journal → Journal
log e entries = e ∷ entries

unfoldable pub checkpoint : Journal → ℕ × Journal
checkpoint entries = (length entries, checkpoint_marker ∷ entries)

-- `unordered_set::count`, `insert` and `erase`.
unfoldable pub member : ℕ → List ℕ → Bool
member i [] = false
member i (j ∷ rows) = i == j || member i rows

unfoldable pub insert : ℕ → List ℕ → List ℕ
unfolding member
insert i rows = if member i rows then rows else i ∷ rows

unfoldable pub erase : ℕ → List ℕ → List ℕ
erase i [] = []
erase i (j ∷ rows) = let rest = erase i rows in if i == j then rest else j ∷ rest

-- What `rollback` does for the entry that it visits.
unfoldable pub undo : Entry → World → World
undo checkpoint_marker w = w
undo (nonce idx v last) w = record w { accounts = Accounts.set_nonce_at idx v last w.accounts }
undo (balance idx v last) w = record w { accounts = Accounts.set_balance_at idx v last w.accounts }
undo (code_hash idx v last) w = record w {
  accounts = Accounts.set_code_hash_at idx v last w.accounts;
}
undo (storage idx v last) w = record w { storages = Storages.set_value_at idx v last w.storages }
undo (account_warm idx last) w = record w { accounts = Accounts.set_warm_at idx last w.accounts }
undo (storage_warm idx last) w = record w { storages = Storages.set_warm_at idx last w.storages }
undo (transient addr position was_present v) w = record w {
  transients = TransientStorage.restore addr position was_present v w.transients;
}
undo (warm_key_account addr last) w = record w {
  warm_keys = WarmKeys.set_account addr last w.warm_keys;
}
undo (warm_key_slot addr position last) w = record w {
  warm_keys = WarmKeys.set_slot addr position last w.warm_keys;
}
undo (pending_destruct idx was_already_present) w =
    if was_already_present then w else record w { pending = erase idx w.pending }

-- The entry at a position counted from the first one: `entries_[cp]`.
unfoldable pub entry_at : ℕ → Journal → Option Entry
entry_at cp [] = none
entry_at cp (e ∷ entries) = if cp == length entries then some e else entry_at cp entries

abbrev pub is_marker : Option Entry → Bool
is_marker (some checkpoint_marker) = true
is_marker _ = false

-- The loop of `rollback`: undo and pop while more than `cp` entries are left.
unfoldable pub pop_to : ℕ → Journal → World → Journal × World
unfolding undo
pop_to cp [] w = ([], w)
pop_to cp (e ∷ entries) w =
    if ltb cp (length (e ∷ entries)) then pop_to cp entries (undo e w) else (e ∷ entries, w)

unfoldable pub rollback : ℕ → Journal → World → Result Fault (Journal × World)
unfolding entry_at pop_to
rollback cp entries w =
    if leb (length entries) cp
    then fatal invalid_checkpoint
    else if is_marker (entry_at cp entries)
    then ok (pop_to cp entries w)
    else fatal invalid_checkpoint
