-- ===== src/Contracts.antt =====
-- cpp-guest/include/zeg/contracts.hpp and src/contracts.cpp: the table of contract codes, found by
-- their hash. A code is the list of its bytes; the analysis handle of a row is not modelled.
pub mod Lookup
pub mod Loops
pub mod Settle
pub mod Tracked
mod Tests
use ziskethone.Prelude.{
  ℕ, Bool, true, false, ◌&&◌, Option, none, some, List, [], ◌∷◌, ◌++◌, ◌==◌, if◌then◌else◌, length,
  get_or, Result, ok, fatal, ◌>>=◌,
}
use ziskethone.Prelude.Rows.{update}

-- `Contracts::Contract`
pub record Contract : Type 0 where
  pub hash : ℕ
  pub code : List ℕ
  pub staged : Bool

-- `Contracts::Staged`
pub record Staged : Type 0 where
  pub contract : ℕ
  pub owner : ℕ

pub record Contracts : Type 0 where
  pub contracts : List Contract
  pub index : ℕ → Option ℕ
  pub staged : List Staged

pub data Fault : Type 0 where
  missing_code : Fault

abbrev no_contract : Contract
no_contract = record { hash = 0; code = []; staged = false }

-- `at`
abbrev pub at : ℕ → Contracts → Contract
at idx c = get_or c.contracts idx no_contract

abbrev found : Option ℕ → Result Fault ℕ
found (some idx) = ok idx
found none = fatal missing_code

unfoldable pub index_of : ℕ → Contracts → Result Fault ℕ
index_of hash c = found (c.index hash)

abbrev is_some : Option ℕ → Bool
is_some (some idx) = true
is_some none = false

unfoldable pub has : ℕ → Contracts → Bool
has hash c = is_some (c.index hash)

unfoldable pub by_hash : ℕ → Contracts → Result Fault Contract
unfolding index_of
by_hash hash c = index_of hash c >>= λ idx. ok (at idx c)

-- `index_.emplace` on a key that has no entry, and `index_.erase`.
abbrev assign : ℕ → Option ℕ → (ℕ → Option ℕ) → ℕ → Option ℕ
assign hash entry index h = if h == hash then entry else index h

abbrev record_owner : ℕ → ℕ → Contracts → Contracts
record_owner idx owner c = record c {
  staged = c.staged ++ (record { contract = idx; owner = owner } ∷ []);
}

-- The two cases of `insert`: the hash has an entry, or gets one.
abbrev insert_at : Option ℕ → ℕ → List ℕ → ℕ → Contracts → Contracts
insert_at (some idx) hash code owner c = if (at idx c).staged then record_owner idx owner c else c
insert_at none hash code owner c = record_owner (length c.contracts) owner (record c {
  contracts = c.contracts ++ (record { hash = hash; code = code; staged = true } ∷ []);
  index = assign hash (some (length c.contracts)) c.index;
})

unfoldable pub insert : ℕ → List ℕ → ℕ → Contracts → Contracts
insert hash code owner c = insert_at (c.index hash) hash code owner c

-- What the first loop of `settle_staged` does for a record: the row is kept where the owner has its
-- hash.
abbrev keep : (ℕ → ℕ) → Staged → Contract → Contract
keep code_hash_at s c =
    if c.staged && (code_hash_at s.owner == c.hash) then record c { staged = false } else c

unfoldable pub keep_all : (ℕ → ℕ) → List Staged → List Contract → List Contract
keep_all code_hash_at [] rows = rows
keep_all code_hash_at (s ∷ staged) rows =
    keep_all code_hash_at staged (update rows s.contract (keep code_hash_at s))

-- The second loop: a row that is still staged leaves the index and loses its code.
abbrev forget : Staged → List Contract → (ℕ → Option ℕ) → List Contract × (ℕ → Option ℕ)
forget s rows index =
    let row = get_or rows s.contract no_contract in
    if row.staged
    then (
      update rows s.contract (λ c. record c { code = []; staged = false }),
      assign row.hash none index,
    )
    else (rows, index)

unfoldable pub forget_all :
    List Staged → List Contract → (ℕ → Option ℕ) → List Contract × (ℕ → Option ℕ)
forget_all [] rows index = (rows, index)
forget_all (s ∷ staged) rows index =
    let (rows', index') = forget s rows index in forget_all staged rows' index'

unfoldable pub settle_staged : (ℕ → ℕ) → Contracts → Contracts
unfolding keep_all forget_all
settle_staged code_hash_at c =
    let kept = keep_all code_hash_at c.staged c.contracts in
    let (rows, index) = forget_all c.staged kept c.index in
    record { contracts = rows; index = index; staged = [] }
