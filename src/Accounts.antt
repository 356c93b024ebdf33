-- ===== src/Accounts.antt =====
-- cpp-guest/src/accounts.cpp and cpp-guest/include/zeg/accounts.hpp: the account table.
-- An address, a code hash and a balance are the numbers that their big-endian bytes stand for.
pub mod View
use ziskethone.Prelude.{
  ℕ, zero, suc, ◌+◌, ◌-◌, Bool, true, false, ◌&&◌, ◌||◌, Option, none, some, List, [], ◌∷◌, ◌++◌,
  ltb, leb, ◌==◌, if◌then◌else◌, length, get_or, Result, ok, fatal, ◌>>=◌,
}
use ziskethone.Prelude.Rows.{update}

-- `Accounts::View`: the block-start record of a row.
pub record Original : Type 0 where
  pub address : ℕ
  pub nonce : ℕ
  pub balance : ℕ
  pub code_hash : ℕ

-- `Accounts::Mods`
pub record Mods : Type 0 where
  pub balance_dirty : Bool
  pub nonce_dirty : Bool
  pub code_hash_dirty : Bool
  pub balance : ℕ
  pub nonce : ℕ
  pub code_hash : ℕ
  pub last_tx_idx : ℕ

abbrev pub fresh_mods : Mods
fresh_mods = record {
  balance_dirty = false;
  nonce_dirty = false;
  code_hash_dirty = false;
  balance = 0;
  nonce = 0;
  code_hash = 0;
  last_tx_idx = 0;
}

-- What a read past the table would show; the program makes none.
abbrev pub no_original : Original
no_original = record { address = 0; nonce = 0; balance = 0; code_hash = 0 }

-- The table: `originals_`, `mods_`, `index_` as a function, and `capacity_`.
pub record Accounts : Type 0 where
  pub originals : List Original
  pub mods : List Mods
  pub index : ℕ → Option ℕ
  pub capacity : ℕ

pub data Fault : Type 0 where
  too_many_rows missing_account : Fault

abbrev pub empty : Accounts
empty = record { originals = []; mods = []; index = λ a. none; capacity = 0 }

-- `reserve` of an empty table.
unfoldable pub reserve : ℕ → Accounts → Accounts
reserve count a = record a { capacity = count }

-- `index_.emplace`: a key that is there keeps its row.
unfoldable pub emplace : ℕ → ℕ → (ℕ → Option ℕ) → ℕ → Option ℕ
emplace address idx index j = elim (index j) [
  | some row ↦ some row
  | none ↦ if address == j then some idx else none
]

unfoldable pub append : Original → Accounts → Result Fault (ℕ × Accounts)
append row a =
    let idx = length a.originals in
    if leb a.capacity idx
    then fatal too_many_rows
    else ok (
      idx,
      record a {
        originals = a.originals ++ (row ∷ []);
        mods = a.mods ++ (fresh_mods ∷ []);
        index = emplace row.address idx a.index;
      },
    )

abbrev pub row_of : Option ℕ → Result Fault ℕ
row_of (some idx) = ok idx
row_of none = fatal missing_account

unfoldable pub index_of : ℕ → Accounts → Result Fault ℕ
index_of addr a = row_of (a.index addr)

abbrev pub is_some : Option ℕ → Bool
is_some (some idx) = true
is_some none = false

unfoldable pub contains : ℕ → Accounts → Bool
contains addr a = is_some (a.index addr)

abbrev pub mods_at : Accounts → ℕ → Mods
mods_at a idx = get_or a.mods idx fresh_mods

abbrev pub original_at : Accounts → ℕ → Original
original_at a idx = get_or a.originals idx no_original

unfoldable pub balance_at : ℕ → Accounts → ℕ
balance_at idx a =
    if (mods_at a idx).balance_dirty then (mods_at a idx).balance else (original_at a idx).balance

unfoldable pub nonce_at : ℕ → Accounts → ℕ
nonce_at idx a =
    if (mods_at a idx).nonce_dirty then (mods_at a idx).nonce else (original_at a idx).nonce

unfoldable pub code_hash_at : ℕ → Accounts → ℕ
code_hash_at idx a =
    if (mods_at a idx).code_hash_dirty
    then (mods_at a idx).code_hash
    else (original_at a idx).code_hash

unfoldable pub last_tx_idx_at : ℕ → Accounts → ℕ
last_tx_idx_at idx a = (mods_at a idx).last_tx_idx

unfoldable pub is_warm_at : ℕ → ℕ → Accounts → Bool
is_warm_at idx tx_idx a = (mods_at a idx).last_tx_idx == tx_idx

-- The row's `Mods` after each of the setters.
abbrev pub with_balance : ℕ → ℕ → Mods → Mods
with_balance v tx_idx m = record m { balance = v; balance_dirty = true; last_tx_idx = tx_idx }

abbrev pub with_nonce : ℕ → ℕ → Mods → Mods
with_nonce v tx_idx m = record m { nonce = v; nonce_dirty = true; last_tx_idx = tx_idx }

abbrev pub with_code_hash : ℕ → ℕ → Mods → Mods
with_code_hash v tx_idx m = record m { code_hash = v; code_hash_dirty = true; last_tx_idx = tx_idx }

abbrev pub with_warm : ℕ → Mods → Mods
with_warm tx_idx m = record m { last_tx_idx = tx_idx }

abbrev pub with_touch : ℕ → Mods → Mods
with_touch tx_idx m = if ltb m.last_tx_idx tx_idx then record m { last_tx_idx = tx_idx } else m

abbrev pub write_row : ℕ → (Mods → Mods) → Accounts → Accounts
write_row idx f a = record a { mods = update a.mods idx f }

unfoldable pub set_balance_at : ℕ → ℕ → ℕ → Accounts → Accounts
set_balance_at idx v tx_idx = write_row idx (with_balance v tx_idx)

unfoldable pub set_nonce_at : ℕ → ℕ → ℕ → Accounts → Accounts
set_nonce_at idx v tx_idx = write_row idx (with_nonce v tx_idx)

unfoldable pub set_code_hash_at : ℕ → ℕ → ℕ → Accounts → Accounts
set_code_hash_at idx v tx_idx = write_row idx (with_code_hash v tx_idx)

unfoldable pub mark_touched_at : ℕ → ℕ → Accounts → Accounts
mark_touched_at idx tx_idx = write_row idx (with_touch tx_idx)

unfoldable pub set_warm_at : ℕ → ℕ → Accounts → Accounts
set_warm_at idx tx_idx = write_row idx (with_warm tx_idx)

-- The readers by address touch the row, then read it.
abbrev pub touch_and_read : (ℕ → Accounts → ℕ) → ℕ → ℕ → Accounts → Result Fault (ℕ × Accounts)
touch_and_read read addr tx_idx a = do
  i ← index_of addr a
  let a' = mark_touched_at i tx_idx a
  ok (read i a', a')

unfoldable pub balance : ℕ → ℕ → Accounts → Result Fault (ℕ × Accounts)
balance = touch_and_read balance_at

unfoldable pub nonce : ℕ → ℕ → Accounts → Result Fault (ℕ × Accounts)
nonce = touch_and_read nonce_at

unfoldable pub code_hash : ℕ → ℕ → Accounts → Result Fault (ℕ × Accounts)
code_hash = touch_and_read code_hash_at
