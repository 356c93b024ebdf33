-- ===== src/IntrinsicGas.antt =====
-- cpp-guest/src/intrinsic_gas.cpp: `compute_intrinsic_gas`. The amounts are `int64_t` in the program
-- and natural numbers here; IntrinsicGas.Bounds is about what they fit in.
pub mod Counts
pub mod Total
pub mod Bounds
mod Tests
use ziskethone.Prelude.{
  ℕ, zero, suc, ◌+◌, ◌*◌, ◌/◌, Bool, true, false, not, ◌&&◌, ◌||◌, Option, none, some, List, [],
  ◌∷◌, ◌==◌, if◌then◌else◌, length, Result, ok, fatal, ◌>>=◌,
}
use ziskethone.Rlp.Decode
use ziskethone.Rlp.Decode.{Item, ItemKind, string, list, decode_item, next}

-- `Transactions::Type`
pub data TxType : Type 0 where
  legacy access_list dynamic_fee blob set_code osaka : TxType

-- The fields of `Transactions::View` that the gas depends on; `to` is none for a creation.
pub record Tx : Type 0 where
  pub type : TxType
  pub to : Option ℕ
  pub sender : ℕ
  pub value : ℕ
  pub calldata : List ℕ
  pub access_list_rlp : List ℕ
  pub num_authorizations : ℕ

-- What the comparisons of `rev` with the two forks answer.
pub record Revision : Type 0 where
  pub shanghai : Bool
  pub amsterdam : Bool

pub data Fault : Type 0 where
  rlp : Decode.Fault → Fault
  list_expected entry_expected missing_address missing_keys keys_expected out_of_fuel : Fault

abbrev pub lift {ℓ} : {A : Type ℓ} → Result Decode.Fault A → Result Fault A
lift (ok a) = ok a
lift (fatal e) = fatal (rlp e)

abbrev pub is_list : ItemKind → Bool
is_list list = true
is_list string = false

-- `eip2780_base`
unfoldable pub eip2780_base : Tx → ℕ
eip2780_base tx = elim tx.to [
  | none ↦ 12000 + 12000
  | some to ↦ if to == tx.sender then 12000 else 12000 + 3000 + (if tx.value == 0 then 0 else 6000)
]

-- `count_nonzero_bytes`, byte by byte.
unfoldable pub count_nonzero_bytes : List ℕ → ℕ
count_nonzero_bytes [] = 0
count_nonzero_bytes (b ∷ bytes) = (if b == 0 then 0 else 1) + count_nonzero_bytes bytes

-- The loop over an entry's keys, with fuel; every item takes a byte, so the payload's length is enough.
unfoldable pub count_keys : ℕ → List ℕ → ℕ → Result Fault ℕ
count_keys fuel [] al_keys = ok al_keys
count_keys zero (b ∷ rest) al_keys = fatal out_of_fuel
count_keys (suc fuel) (b ∷ rest) al_keys =
    lift (next (b ∷ rest)) >>= λ r. count_keys fuel r.1 (al_keys + 1)

-- The tests of the keys field, and the loop over it.
abbrev pub keys_field : Item → ℕ → Result Fault ℕ
keys_field keys al_keys =
    if is_list keys.kind
    then count_keys (length keys.payload) keys.payload al_keys
    else fatal keys_expected

abbrev pub after_address : List ℕ → ℕ → Result Fault ℕ
after_address [] al_keys = fatal missing_keys
after_address (b ∷ rest) al_keys = lift (next (b ∷ rest)) >>= λ r. keys_field r.0 al_keys

-- The walk of one entry's payload.
unfoldable pub walk_entry : List ℕ → ℕ → Result Fault ℕ
walk_entry [] al_keys = fatal missing_address
walk_entry (b ∷ rest) al_keys = lift (next (b ∷ rest)) >>= λ r. after_address r.1 al_keys

abbrev pub entry_item : Item → ℕ → Result Fault ℕ
entry_item entry al_keys =
    if is_list entry.kind then walk_entry entry.payload al_keys else fatal entry_expected

-- The loop over the entries, with fuel: the addresses and the keys that it counts.
unfoldable pub count_entries : ℕ → List ℕ → ℕ → ℕ → Result Fault (ℕ × ℕ)
count_entries fuel [] al_addresses al_keys = ok (al_addresses, al_keys)
count_entries zero (b ∷ rest) al_addresses al_keys = fatal out_of_fuel
count_entries (suc fuel) (b ∷ rest) al_addresses al_keys = lift (next (b ∷ rest)) >>= λ r.
    entry_item r.0 al_keys >>= λ al_keys'. count_entries fuel r.1 (al_addresses + 1) al_keys'

abbrev pub outer_item : Item → Result Fault (ℕ × ℕ)
outer_item outer =
    if is_list outer.kind
    then count_entries (length outer.payload) outer.payload 0 0
    else fatal list_expected

abbrev pub is_legacy : TxType → Bool
is_legacy legacy = true
is_legacy _ = false

abbrev pub is_set_code : TxType → Bool
is_set_code set_code = true
is_set_code _ = false

abbrev pub is_creation : Option ℕ → Bool
is_creation none = true
is_creation (some to) = false

-- The access list's addresses and keys.
unfoldable pub count_access_list : Tx → Result Fault (ℕ × ℕ)
count_access_list tx =
    if is_legacy tx.type then ok (0, 0) else (lift (decode_item tx.access_list_rlp) >>= outer_item)

-- The sum, once the access list is counted: the gas, and the calldata floor.
abbrev pub gas_and_floor : Tx → Revision → ℕ × ℕ → ℕ × ℕ
gas_and_floor tx rev (al_addresses, al_keys) =
    let base = (if rev.amsterdam then eip2780_base tx else 21000) in
    let start = (if is_creation tx.to && not rev.amsterdam then base + 32000 else base) in
    let nonzero = count_nonzero_bytes tx.calldata in
    let size = length tx.calldata in
    let words = (if is_creation tx.to && rev.shanghai then (size + 31) / 32 * 2 else 0) in
    let al_address_cost = (if rev.amsterdam then 2900 + 20 * 64 else 2400) in
    let al_key_cost = (if rev.amsterdam then 2000 + 32 * 64 else 1900) in
    let per_auth = (if rev.amsterdam then 101 * 16 + 3000 + 3000 + 2 * 100 else 25000) in
    (
      start
          + (size * 4 + nonzero * 12)
          + words
          + (al_addresses * al_address_cost + al_keys * al_key_cost)
          + (if is_set_code tx.type then per_auth * tx.num_authorizations else 0),
      if rev.amsterdam
          then base + 64 * (size + 20 * al_addresses + 32 * al_keys)
          else base + (size + nonzero * 3) * 10,
    )

unfoldable pub compute_intrinsic_gas : Tx → Revision → Result Fault (ℕ × ℕ)
compute_intrinsic_gas tx rev = count_access_list tx >>= λ counts. ok (gas_and_floor tx rev counts)
