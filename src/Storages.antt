-- ===== src/Storages.antt =====
-- cpp-guest/src/storages.cpp and cpp-guest/include/zeg/storages.hpp: the storage-slot table.
-- An address, a slot key and a slot value are the numbers that their big-endian bytes stand for.
pub mod View
pub mod Find
pub mod Loaded
use ziskethone.Prelude.{
  ℕ, zero, suc, ◌+◌, ◌-◌, Bool, true, false, ◌&&◌, ◌||◌, Option, none, some, List, [], ◌∷◌, ◌++◌,
  ltb, leb, ◌==◌, if◌then◌else◌, length, get_or, Result, ok, fatal, ◌>>=◌,
}
use ziskethone.Prelude.Rows.{update}

-- `Storages::View`: the block-start record of a row.
pub record Original : Type 0 where
  pub address : ℕ
  pub position : ℕ
  pub value : ℕ

-- `Storages::Mods`, but for the id of the block access list's record.
pub record Mods : Type 0 where
  pub dirty : Bool
  pub value : ℕ
  pub last_tx_idx : ℕ
  pub tx_original : ℕ

abbrev pub fresh_mods : Mods
fresh_mods = record { dirty = false; value = 0; last_tx_idx = 0; tx_original = 0 }

abbrev pub no_original : Original
no_original = record { address = 0; position = 0; value = 0 }

-- The last `find` and its answer, where `none` is `npos`.
pub record LastFind : Type 0 where
  pub valid : Bool
  pub addr : ℕ
  pub pos : ℕ
  pub idx : Option ℕ

pub record Storages : Type 0 where
  pub originals : List Original
  pub mods : List Mods
  pub index : ℕ → ℕ → Option ℕ
  pub capacity : ℕ
  pub last : LastFind
  pub addr_slots : ℕ → List ℕ

pub data Fault : Type 0 where
  too_many_rows missing_slot : Fault

abbrev no_find : LastFind
no_find = record { valid = false; addr = 0; pos = 0; idx = none }

abbrev pub empty : Storages
empty = record {
  originals = [];
  mods = [];
  index = λ a p. none;
  capacity = 0;
  last = no_find;
  addr_slots = λ a. [];
}

abbrev pub forget : LastFind → LastFind
forget l = record l { valid = false }

-- `reserve` of an empty table.
unfoldable pub reserve : ℕ → Storages → Storages
reserve count s = record s { capacity = count; last = forget s.last }

-- `index_.emplace`: a key that is there keeps its row.
unfoldable pub emplace : ℕ → ℕ → ℕ → (ℕ → ℕ → Option ℕ) → ℕ → ℕ → Option ℕ
emplace address position idx index a p = elim (index a p) [
  | some row ↦ some row
  | none ↦ if address == a && position == p then some idx else none
]

unfoldable pub append : Original → Storages → Result Fault (ℕ × Storages)
append row s =
    let idx = length s.originals in
    if leb s.capacity idx
    then fatal too_many_rows
    else ok (
      idx,
      record s {
        originals = s.originals ++ (row ∷ []);
        mods = s.mods ++ (fresh_mods ∷ []);
        index = emplace row.address row.position idx s.index;
        last = forget s.last;
        addr_slots = λ a. if row.address == a then s.addr_slots a ++ (idx ∷ []) else s.addr_slots a;
      },
    )

unfoldable pub slots_of : ℕ → Storages → List ℕ
slots_of addr s = s.addr_slots addr

-- `find` answers a repeated question from `last_idx_`.
unfoldable pub find : ℕ → ℕ → Storages → Option ℕ × Storages
find addr position s =
    let idx = s.index addr position in
    if s.last.valid && (s.last.pos == position) && (s.last.addr == addr)
    then (s.last.idx, s)
    else (idx, record s { last = record { valid = true; addr = addr; pos = position; idx = idx } })

abbrev pub row_of : Option ℕ → Result Fault ℕ
row_of (some idx) = ok idx
row_of none = fatal missing_slot

unfoldable pub index_of : ℕ → ℕ → Storages → Result Fault ℕ
index_of addr position s = row_of (s.index addr position)

abbrev pub is_some : Option ℕ → Bool
is_some (some idx) = true
is_some none = false

unfoldable pub contains : ℕ → ℕ → Storages → Bool
contains addr position s = is_some (s.index addr position)

abbrev pub mods_at : Storages → ℕ → Mods
mods_at s idx = get_or s.mods idx fresh_mods

abbrev pub original_at : Storages → ℕ → Original
original_at s idx = get_or s.originals idx no_original

unfoldable pub value_at : ℕ → Storages → ℕ
value_at idx s = if (mods_at s idx).dirty then (mods_at s idx).value else (original_at s idx).value

unfoldable pub last_tx_idx_at : ℕ → Storages → ℕ
last_tx_idx_at idx s = (mods_at s idx).last_tx_idx

unfoldable pub tx_original_at : ℕ → Storages → ℕ
tx_original_at idx s = (mods_at s idx).tx_original

unfoldable pub is_warm_at : ℕ → ℕ → Storages → Bool
is_warm_at idx tx_idx s = (mods_at s idx).last_tx_idx == tx_idx

abbrev pub with_value : ℕ → ℕ → Mods → Mods
with_value v tx_idx m = record m { value = v; dirty = true; last_tx_idx = tx_idx }

abbrev pub with_warm : ℕ → Mods → Mods
with_warm tx_idx m = record m { last_tx_idx = tx_idx }

-- The first touch in a transaction keeps the value that the slot has then.
abbrev pub with_touch : ℕ → ℕ → Mods → Mods
with_touch current tx_idx m =
    if ltb m.last_tx_idx tx_idx then record m { last_tx_idx = tx_idx; tx_original = current } else m

abbrev pub write_row : ℕ → (Mods → Mods) → Storages → Storages
write_row idx f s = record s { mods = update s.mods idx f }

unfoldable pub set_value_at : ℕ → ℕ → ℕ → Storages → Storages
set_value_at idx v tx_idx = write_row idx (with_value v tx_idx)

unfoldable pub mark_touched_at : ℕ → ℕ → Storages → Storages
mark_touched_at idx tx_idx s = write_row idx (with_touch (value_at idx s) tx_idx) s

unfoldable pub set_warm_at : ℕ → ℕ → Storages → Storages
set_warm_at idx tx_idx = write_row idx (with_warm tx_idx)

-- `value` and `set_value` by key.
unfoldable pub value : ℕ → ℕ → ℕ → Storages → Result Fault (ℕ × Storages)
value addr position tx_idx s = do
  i ← index_of addr position s
  let s' = mark_touched_at i tx_idx s
  ok (value_at i s', s')

unfoldable pub set_value : ℕ → ℕ → ℕ → ℕ → Storages → Result Fault Storages
set_value addr position v tx_idx s = do i ← index_of addr position s; ok (set_value_at i v tx_idx s)
