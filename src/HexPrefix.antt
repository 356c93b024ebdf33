-- ===== src/HexPrefix.antt =====
-- cpp-guest/include/zeg/trie_node.hpp (PackedPath) and cpp-guest/src/hex_prefix.cpp: trie paths, packed
-- two nibbles to a byte, and their hex-prefix encoding. Or-ing bits that do not overlap is a sum.
pub mod Paths
pub mod Encoding
pub mod Decode
mod Tests
use ziskethone.Prelude.{
  ℕ, zero, suc, ◌+◌, ◌-◌, ◌*◌, ◌/◌, ◌%◌, Bool, true, false, not, List, [], ◌∷◌, ◌++◌, ltb, leb,
  ◌==◌, if◌then◌else◌, length, get_or, set, take, drop, replicate, Result, ok, fatal, ◌>>=◌,
}

pub data Fault : Type 0 where
  path_too_long prepend_past_capacity : Fault

abbrev pub cap : ℕ
cap = 34

abbrev pub max_nibbles : ℕ
max_nibbles = 64

-- `PackedPath`: the 34 bytes, the first one in use, the half of it that the path starts at, and the
-- number of nibbles.
pub record PackedPath : Type 0 where
  pub buf : List ℕ
  pub start : ℕ
  pub off : ℕ
  pub len : ℕ

-- The nibble at a place counted from the first half of the first byte.
abbrev pub half : ℕ → ℕ → ℕ
half p b = if p % 2 == 1 then b % 16 else b / 16

unfoldable pub at : ℕ → PackedPath → ℕ
at i path = let p = path.off + i in half p (get_or path.buf (path.start + p / 2) 0)

unfoldable pub prepend : ℕ → PackedPath → Result Fault PackedPath
prepend nib path =
    if not (path.off == 0)
    then ok (record path {
      buf = set path.buf path.start ((nib * 16) % 256 + get_or path.buf path.start 0 % 16);
      off = 0;
      len = (path.len + 1) % 256;
    })
    else if path.start == 0
    then fatal prepend_past_capacity
    else ok (record {
      buf = set path.buf (path.start - 1) (nib % 16);
      start = path.start - 1;
      off = 1;
      len = (path.len + 1) % 256;
    })

unfoldable pub drop_front : ℕ → PackedPath → PackedPath
drop_front k path =
    let p = path.off + k in
    record path { start = path.start + p / 2; off = p % 2; len = path.len - k }

-- `memcpy(buf + start, src, n)`
abbrev pub copy_at : ℕ → List ℕ → List ℕ → List ℕ
copy_at start src buf = take start buf ++ (src ++ drop (start + length src) buf)

unfoldable pub assign : List ℕ → ℕ → ℕ → PackedPath → Result Fault PackedPath
assign src first_off n path =
    if ltb max_nibbles n
    then fatal path_too_long
    else let nbytes = (first_off + n + 1) / 2 in
      let start = cap - nbytes in
      ok (record {
        buf = copy_at start (take nbytes src) path.buf;
        start = start;
        off = first_off;
        len = n;
      })

unfoldable pub aligned_for_hp : PackedPath → Bool
aligned_for_hp path = path.off == path.len % 2

abbrev pub leaf_b : Bool → ℕ
leaf_b leaf = if leaf then 0x20 else 0

-- The slow path's loop, on as many pairs as are left.
unfoldable pub shift_pairs : ℕ → ℕ → PackedPath → List ℕ
unfolding at
shift_pairs zero i path = []
shift_pairs (suc pairs) i path =
    ((at i path % 16) * 16 + at (i + 1) path % 16) ∷ shift_pairs pairs (i + 2) path

unfoldable pub hex_prefix_packed : PackedPath → Bool → Result Fault (List ℕ)
unfolding at aligned_for_hp shift_pairs
hex_prefix_packed path leaf =
    let n = path.len in
    if ltb max_nibbles n
    then fatal path_too_long
    else if aligned_for_hp path
    then (if n % 2 == 1
        then ok (
            (leaf_b leaf + 0x10 + at 0 path % 16)
            ∷ take ((n - 1) / 2) (drop (path.start + 1) path.buf))
        else ok (leaf_b leaf ∷ take (n / 2) (drop path.start path.buf)))
    else if n % 2 == 1
    then ok ((leaf_b leaf + 0x10 + at 0 path % 16) ∷ shift_pairs (n / 2) 1 path)
    else ok (leaf_b leaf ∷ shift_pairs (n / 2) 0 path)

-- The other overload: one nibble to a byte. The loop ends on an even number of nibbles.
unfoldable pub pack_pairs : List ℕ → List ℕ
pack_pairs [] = []
pack_pairs (hi ∷ []) = []
pack_pairs (hi ∷ lo ∷ nibbles) = ((hi % 16) * 16 + lo % 16) ∷ pack_pairs nibbles

unfoldable pub hex_prefix : List ℕ → Bool → Result Fault (List ℕ)
unfolding pack_pairs
hex_prefix nibbles leaf =
    if ltb max_nibbles (length nibbles)
    then fatal path_too_long
    else if length nibbles % 2 == 1
    then ok ((leaf_b leaf + 0x10 + get_or nibbles 0 0 % 16) ∷ pack_pairs (drop 1 nibbles))
    else ok (leaf_b leaf ∷ pack_pairs nibbles)
