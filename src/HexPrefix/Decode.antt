-- ===== src/HexPrefix/Decode.antt =====
-- The hex-prefix encoding determines the nibbles and the kind of node, by the format's description in
-- cpp-guest/include/zeg/hex_prefix.hpp.
use ziskethone.Prelude.{
  ℕ, ◌+◌, ◌*◌, ◌/◌, ◌%◌, ◌≤◌, ◌<◌, ◌≡◌, refl, arith, Bool, true, false, List, [], ◌∷◌, ltb, ◌==◌,
  if◌then◌else◌, length, get_or, drop, All, ok, fatal, Bool-cases, inl, inr, ◌↔◌,
}
use ziskethone.HexPrefix.{Fault, hex_prefix, pack_pairs, leaf_b, max_nibbles}

-- Bit 5 of the first byte is the leaf flag, bit 4 says that the number of nibbles is odd, and then its
-- low half is the first nibble.
abbrev pub leaf_flag : List ℕ → Bool
leaf_flag bytes = (get_or bytes 0 0 / 32) % 2 == 1

abbrev pub odd_flag : List ℕ → Bool
odd_flag bytes = (get_or bytes 0 0 / 16) % 2 == 1

unfoldable pub unpack : List ℕ → List ℕ
unpack [] = []
unpack (b ∷ bytes) = b / 16 ∷ b % 16 ∷ unpack bytes

unfoldable pub path_in : List ℕ → List ℕ
unfolding unpack
path_in bytes =
    if odd_flag bytes then get_or bytes 0 0 % 16 ∷ unpack (drop 1 bytes) else unpack (drop 1 bytes)

abbrev pub AreNibbles : List ℕ → Type 0
AreNibbles nibbles = All (λ n. n < 16) nibbles

unpack-pack_pairs :
    (nibbles : List ℕ)
    → AreNibbles nibbles
    → length nibbles % 2 ≡ 0
    → unpack (pack_pairs nibbles) ≡ nibbles
unfolding unpack pack_pairs
unpack-pack_pairs [] h e = refl
unpack-pack_pairs (n ∷ []) h e = absurd (omega arith)
unpack-pack_pairs (hi ∷ lo ∷ nibbles) (a, (b, h)) e =
    let first : ((hi % 16) * 16 + lo % 16) / 16 ≡ hi = omega (arith, a, b) in
    let second : ((hi % 16) * 16 + lo % 16) % 16 ≡ lo = omega (arith, a, b) in
    rw (first, second, unpack-pack_pairs nibbles h (omega arith))

length-pack_pairs : (nibbles : List ℕ) → length (pack_pairs nibbles) ≡ length nibbles / 2
unfolding pack_pairs
length-pack_pairs [] = omega arith
length-pack_pairs (n ∷ []) = omega arith
length-pack_pairs (hi ∷ lo ∷ nibbles) = omega (arith, length-pack_pairs nibbles)

abbrev IsDecoded : List ℕ → Bool → List ℕ → Type 0
IsDecoded nibbles leaf bytes =
    (path_in bytes ≡ nibbles) × (leaf_flag bytes ≡ leaf) × (length bytes ≡ length nibbles / 2 + 1)

even_leaf : (leaf : Bool) → (leaf_b leaf / 32) % 2 == 1 ≡ leaf
even_leaf true = refl
even_leaf false = refl

odd_leaf : (leaf : Bool) (n : ℕ) → ((leaf_b leaf + 0x10 + n % 16) / 32) % 2 == 1 ≡ leaf
odd_leaf true n = ground arith
odd_leaf false n = ground arith

even_byte : (leaf : Bool) → (leaf_b leaf / 16) % 2 == 1 ≡ false
even_byte true = refl
even_byte false = refl

odd_byte : (leaf : Bool) (n : ℕ) → n < 16 → ((leaf_b leaf + 0x10 + n % 16) / 16) % 2 == 1 ≡ true
odd_byte true n h = ground arith
odd_byte false n h = ground arith

odd_low : (leaf : Bool) (n : ℕ) → n < 16 → (leaf_b leaf + 0x10 + n % 16) % 16 ≡ n
odd_low true n h = omega arith
odd_low false n h = omega arith

even_case :
    (nibbles : List ℕ) (leaf : Bool)
    → AreNibbles nibbles
    → length nibbles % 2 ≡ 0
    → IsDecoded nibbles leaf (leaf_b leaf ∷ pack_pairs nibbles)
unfolding path_in
even_case nibbles leaf h e = (
  rw (even_byte leaf) (unpack-pack_pairs nibbles h e),
  even_leaf leaf,
  omega (arith, length-pack_pairs nibbles),
)

odd_case :
    (n : ℕ) (nibbles : List ℕ) (leaf : Bool)
    → n < 16
    → AreNibbles nibbles
    → length nibbles % 2 ≡ 0
    → IsDecoded (n ∷ nibbles) leaf ((leaf_b leaf + 0x10 + n % 16) ∷ pack_pairs nibbles)
unfolding path_in
odd_case n nibbles leaf a h e = (
  rw (odd_byte leaf n a, odd_low leaf n a, unpack-pack_pairs nibbles h e),
  odd_leaf leaf n,
  omega (arith, length-pack_pairs nibbles),
)

odd_any :
    (nibbles : List ℕ) (leaf : Bool)
    → AreNibbles nibbles
    → length nibbles % 2 ≡ 1
    → IsDecoded nibbles leaf
        ((leaf_b leaf + 0x10 + get_or nibbles 0 0 % 16) ∷ pack_pairs (drop 1 nibbles))
odd_any [] leaf h e = absurd (omega arith)
odd_any (n ∷ nibbles) leaf (a, h) e = odd_case n nibbles leaf a h (omega arith)

-- `hex_prefix` of at most 64 nibbles succeeds, with one byte more than half as many bytes as nibbles, and
-- its bytes determine the nibbles and the leaf flag.
pub hex_prefix-decoded :
    (nibbles : List ℕ) (leaf : Bool)
    → AreNibbles nibbles
    → length nibbles ≤ max_nibbles
    → (bytes : List ℕ) × (hex_prefix nibbles leaf ≡ ok bytes)
      × (path_in bytes ≡ nibbles)
      × (leaf_flag bytes ≡ leaf)
      × (length bytes ≡ length nibbles / 2 + 1)
unfolding hex_prefix
hex_prefix-decoded nibbles leaf h short =
    let fits : ltb max_nibbles (length nibbles) ≡ false = ground arith in
    elim (Bool-cases (length nibbles % 2 == 1)) [
      | inl odd ↦
          let d = odd_any nibbles leaf h (ground arith) in (_, rw (fits, odd), d.0, d.1, d.2)
      | inr even ↦
          let d = even_case nibbles leaf h (ground arith) in (_, rw (fits, even), d.0, d.1, d.2)
    ]

-- `hex_prefix` ends the program on more than 64 nibbles, and on no others.
pub hex_prefix-path_too_long :
    (nibbles : List ℕ) (leaf : Bool)
    → (hex_prefix nibbles leaf ≡ fatal Fault.path_too_long) ↔ (max_nibbles < length nibbles)
unfolding hex_prefix
hex_prefix-path_too_long nibbles leaf = elim (Bool-cases (ltb max_nibbles (length nibbles))) [
  | inl long ↦ rw long (ground arith)
  | inr short ↦ rw short (elim (Bool-cases (length nibbles % 2 == 1)) [
    | inl odd ↦ rw odd (λ e. absurd (cc), λ long. absurd (ground arith))
    | inr even ↦ rw even (λ e. absurd (cc), λ long. absurd (ground arith))
  ])
]
