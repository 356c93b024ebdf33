-- ===== src/Rlp/Width.antt =====
-- The widths that the encoders compute for a length, and the bytes that they write for it.
use ziskethone.Prelude.{
  ℕ, zero, suc, ◌+◌, ◌-◌, ◌*◌, ◌/◌, ◌%◌, ◌^◌, ◌≤◌, ◌<◌, ◌≡◌, ◌≢◌, ap, ◌∙◌, arith, List, [], ◌∷◌,
  length, get_or, All,
}
use ziskethone.Prelude.Bytes.{IsByte, be_bytes, big_endian, big_endian-lt, shift_byte, one-le-shift}
use ziskethone.Rlp.{be_length_bytes, count_bytes}
use ziskethone.Rlp.Decode.{read_be}
use native.Mathlib.Decide.{dec_le}
use native.Mathlib.Nat.{pow-le-pow_right, div-lt_iff_lt-mul, div-add-mod, mod-lt}

-- A 64-bit register holds what it read so far, so nothing is lost while at most eight bytes are read.
read_be_from :
    (bs : List ℕ) (k v : ℕ)
    → v < 2 ^ (8 * k)
    → k + length bs ≤ 8
    → All IsByte bs
    → read_be bs v ≡ v * 2 ^ (8 * length bs) + big_endian bs
unfolding read_be big_endian
read_be_from [] k v hv hk h = omega arith
read_be_from (b ∷ bs) k v hv hk (hb, h) = rw (shift_byte (length bs)) (
    ap (λ (a : ℕ). read_be bs (a + b)) whole
    ∙ read_be_from bs (suc k) (v * 256 + b) wider (omega arith) h
    ∙ omega arith)
  where
    room : 2 ^ (8 * k) ≤ 2 ^ 56
    room = pow-le-pow_right {n = 2} (omega arith) {i = 8 * k} {j = 56} (omega arith)

    whole : v * 256 % 2 ^ 64 ≡ v * 256
    whole = omega (arith, room)

    wider : v * 256 + b < 2 ^ (8 * suc k)
    wider = omega (arith, shift_byte k)

pub read_be-eq-big_endian :
    (bs : List ℕ) → length bs ≤ 8 → All IsByte bs → read_be bs 0 ≡ big_endian bs
read_be-eq-big_endian bs hl h = read_be_from bs 0 0 (omega arith) (omega arith) h ∙ omega arith

-- A byte list with a leading byte other than 0 stands for a number of that width.
pub big_endian-ge : (b : ℕ) (bs : List ℕ) → b ≢ 0 → 2 ^ (8 * length bs) ≤ big_endian (b ∷ bs)
unfolding big_endian
big_endian-ge b bs h = grind arith

-- The widths that the encoders compute. A length of the long form takes `n` bytes and not `n - 1`.
pub record IsWidth (len n : ℕ) : Type 0 where
  pub positive : 1 ≤ n
  pub fits : len < 2 ^ (8 * n)
  pub needed : 2 ^ (8 * (n - 1)) ≤ len

be_length_one : (len : ℕ) → len ≤ 0xff → be_length_bytes len ≡ 1
unfolding be_length_bytes
be_length_one len h = ground arith

be_length_two : (len : ℕ) → 0xff < len → len ≤ 0xffff → be_length_bytes len ≡ 2
unfolding be_length_bytes
be_length_two len h k = ground arith

be_length_three : (len : ℕ) → 0xffff < len → len ≤ 0xffffff → be_length_bytes len ≡ 3
unfolding be_length_bytes
be_length_three len h k = ground arith

be_length_four : (len : ℕ) → 0xffffff < len → be_length_bytes len ≡ 4
unfolding be_length_bytes
be_length_four len h = ground arith

pub be_length_bytes-IsWidth :
    (len : ℕ) → 55 < len → len < 2 ^ 32 → IsWidth len (be_length_bytes len)
be_length_bytes-IsWidth len h hl = elim (dec_le len 0xff) [
  | yes p ↦ rw (be_length_one len p) (omega arith)
  | no p ↦ elim (dec_le len 0xffff) [
    | yes q ↦ rw (be_length_two len (omega arith) q) (omega arith)
    | no q ↦ elim (dec_le len 0xffffff) [
      | yes r ↦ rw (be_length_three len (omega arith) r) (omega arith)
      | no r ↦ rw (be_length_four len (omega arith)) (omega arith)
    ]
  ]
]

shift_mono : (n m : ℕ) → n ≤ m → 2 ^ (8 * n) ≤ 2 ^ (8 * m)
shift_mono n m h = pow-le-pow_right {n = 2} (omega arith) {i = 8 * n} {j = 8 * m} (omega arith)

IsWidth-not_lt : {len n m : ℕ} → IsWidth len n → IsWidth len m → ¬ (n < m)
IsWidth-not_lt {len} {n} {m} h k lt =
    omega (arith, shift_mono n (m - 1) (omega arith), h.fits, k.needed)

-- A number has one width.
pub IsWidth-unique : {len n m : ℕ} → IsWidth len n → IsWidth len m → n ≡ m
IsWidth-unique h k = omega (arith, IsWidth-not_lt h k, IsWidth-not_lt k h)

pub IsWidth-le_four : {len n : ℕ} → len < 2 ^ 32 → IsWidth len n → n ≤ 4
IsWidth-le_four {len} {n} hl h = elim (dec_le n 4) [
  | yes p ↦ p
  | no p ↦ absurd (omega (arith, shift_mono 4 (n - 1) (omega arith), h.needed))
]

-- Counting by shifts gives the width that the chain of tests gives.
pub count_bytes-eq-be_length :
    (len : ℕ) → len < 2 ^ 32 → count_bytes 8 (len / 256) 1 ≡ be_length_bytes len
unfolding count_bytes be_length_bytes
count_bytes-eq-be_length len h = ground arith

pub suc_sub_one : (n : ℕ) → suc n - 1 ≡ n
suc_sub_one n = omega arith

pub length_bytes-IsWidth :
    (b : ℕ) (bs : List ℕ)
    → b ≢ 0
    → All IsByte (b ∷ bs)
    → IsWidth (big_endian (b ∷ bs)) (suc (length bs))
length_bytes-IsWidth b bs h all = record {
  positive = omega arith;
  fits = big_endian-lt (b ∷ bs) all;
  needed = rw suc_sub_one (big_endian-ge b bs h);
}

-- The first byte of a width's worth of bytes is not 0.
pub head-be_bytes : (len n : ℕ) → IsWidth len n → get_or (be_bytes n len) 0 0 ≢ 0
unfolding be_bytes
head-be_bytes len zero h zero_top = absurd (omega (arith, h.positive))
head-be_bytes len (suc n) h zero_top =
    omega
      (arith, below, above, div-add-mod len (2 ^ (8 * n)), mod-lt len (one-le-shift n), vanishes)
  where
    top : ℕ
    top = len / 2 ^ (8 * n)

    above : 2 ^ (8 * n) ≤ len
    above = rw suc_sub_one at h.needed

    below : top < 256
    below = (div-lt_iff_lt-mul (one-le-shift n)).1 (rw shift_byte at h.fits)

    vanishes : 2 ^ (8 * n) * top ≡ 0
    vanishes = let none_left : top ≡ 0 = omega (arith, below) in rw none_left (omega arith)
