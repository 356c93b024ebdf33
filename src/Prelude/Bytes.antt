-- ===== src/Prelude/Bytes.antt =====
-- Bytes and their big-endian readings.
use ziskethone.Prelude.Lists.{length, All}
use Prim.Native.Nat.{ℕ, zero, suc, ◌+◌, ◌*◌, ◌/◌, ◌%◌, ◌≤◌, ◌<◌, ◌^◌}
use mathlib.Core.Path.{◌≡◌, refl, ap, ap₂, ◌∙◌}
use mathlib.Core.List.{List, [], ◌∷◌}
use native.Mathlib.Omega.{arith}
use native.Mathlib.Nat.{
  div-add-mod, mod-lt, mod-eq_of_lt, mul-add-mod_self_left, mul-add-div, div-eq_of_lt,
}
use native.Mathlib.Numerals.{towards_suc}

abbrev pub IsByte : ℕ → Type 0
IsByte b = b < 256

abbrev pub IsU64 : ℕ → Type 0
IsU64 v = v < 2 ^ 64

-- The number that big-endian bytes stand for, the most significant byte first.
unfoldable pub big_endian : List ℕ → ℕ
big_endian [] = 0
big_endian (b ∷ bs) = b * 2 ^ (8 * length bs) + big_endian bs

-- `n` bytes of `v`, the most significant first: `v >> (8 * i)` cut to a byte, for i = n - 1, …, 0.
unfoldable pub be_bytes : ℕ → ℕ → List ℕ
be_bytes zero v = []
be_bytes (suc i) v = (v / 2 ^ (8 * i) % 256) ∷ be_bytes i v

pub length-be_bytes : (n v : ℕ) → length (be_bytes n v) ≡ n
unfolding be_bytes
length-be_bytes zero v = refl
length-be_bytes (suc n) v = ap suc (length-be_bytes n v)

pub be_bytes-IsByte : (n v : ℕ) → All IsByte (be_bytes n v)
unfolding be_bytes
be_bytes-IsByte zero v = tt
be_bytes-IsByte (suc n) v = (omega arith, be_bytes-IsByte n v)

pub shift_byte : (n : ℕ) → 2 ^ (8 * suc n) ≡ 256 * 2 ^ (8 * n)
shift_byte n = ap (λ (e : ℕ). 2 ^ e) width ∙ simp towards_suc (omega arith)
  where
    width : 8 * suc n ≡ 8 * n + 8
    width = omega arith

pub one-le-shift : (n : ℕ) → 1 ≤ 2 ^ (8 * n)
one-le-shift zero = omega arith
one-le-shift (suc n) = omega (arith, shift_byte n, one-le-shift n)

-- A number is its top part times the unit, and the rest.
split_mod : (v p : ℕ) → 1 ≤ p → v % (256 * p) ≡ v / p % 256 * p + v % p
split_mod v p h =
    ap (λ (x : ℕ). x % (256 * p)) parts
    ∙ mul-add-mod_self_left (256 * p) (v / p / 256) (v / p % 256 * p + v % p)
    ∙ mod-eq_of_lt small
  where
    parts : v ≡ 256 * p * (v / p / 256) + (v / p % 256 * p + v % p)
    parts = omega (arith, div-add-mod v p, ap (λ (x : ℕ). p * x) (div-add-mod (v / p) 256))

    small : v / p % 256 * p + v % p < 256 * p
    small = grind (arith, mod-lt v h, mod-lt (v / p) {m = 256} (omega arith))

pub big_endian-be_bytes : (n v : ℕ) → big_endian (be_bytes n v) ≡ v % 2 ^ (8 * n)
unfolding big_endian be_bytes
big_endian-be_bytes zero v = omega arith
big_endian-be_bytes (suc n) v =
    rw (length-be_bytes n v, shift_byte n, big_endian-be_bytes n v)
      (omega (arith, split_mod v (2 ^ (8 * n)) (one-le-shift n)))

pub big_endian-lt : (bs : List ℕ) → All IsByte bs → big_endian bs < 2 ^ (8 * length bs)
unfolding big_endian
big_endian-lt [] h = omega arith
big_endian-lt (b ∷ bs) (hb, h) = rw (shift_byte (length bs)) (grind (arith, big_endian-lt bs h))

-- What stands above the lowest `n` bytes does not show in them.
be_bytes_above : (n q v : ℕ) → be_bytes n (2 ^ (8 * n) * q + v) ≡ be_bytes n v
unfolding be_bytes
be_bytes_above zero q v = refl
be_bytes_above (suc n) q v = ap₂ ◌∷◌ top (rw split (be_bytes_above n (256 * q) v))
  where
    unit : ℕ
    unit = 2 ^ (8 * n)

    split : 2 ^ (8 * suc n) * q + v ≡ unit * (256 * q) + v
    split = rw (shift_byte n) (omega arith)

    top : (2 ^ (8 * suc n) * q + v) / unit % 256 ≡ v / unit % 256
    top = rw (split, mul-add-div {m = unit} (one-le-shift n) (256 * q) v) (omega arith)

-- The bytes of a number are determined by it.
pub be_bytes-big_endian : (bs : List ℕ) → All IsByte bs → be_bytes (length bs) (big_endian bs) ≡ bs
unfolding be_bytes big_endian
be_bytes-big_endian [] h = refl
be_bytes-big_endian (b ∷ bs) (hb, h) =
    ap₂ ◌∷◌ top (rw swap (be_bytes_above (length bs) b (big_endian bs) ∙ be_bytes-big_endian bs h))
  where
    unit : ℕ
    unit = 2 ^ (8 * length bs)

    swap : b * unit + big_endian bs ≡ unit * b + big_endian bs
    swap = omega arith

    top : (b * unit + big_endian bs) / unit % 256 ≡ b
    top =
        rw (swap, mul-add-div {m = unit} (one-le-shift (length bs)) b (big_endian bs))
          (rw (div-eq_of_lt (big_endian-lt bs h)) (omega arith))
