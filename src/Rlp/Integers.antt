-- ===== src/Rlp/Integers.antt =====
-- The integer encoders and the typed decoders `as_u64` and `as_u256`.
use ziskethone.Prelude.{
  ℕ, zero, suc, ◌+◌, ◌-◌, ◌*◌, ◌/◌, ◌%◌, ◌^◌, ◌≤◌, ◌<◌, ◌≡◌, ◌≢◌, refl, sym, ap, ap₂, subst, ◌∙◌,
  arith, List, [], ◌∷◌, ◌++◌, length, length-drop, drop, replicate, get_or, All, ltb, ◌==◌,
  if◌then◌else◌, ok, ◌>>=◌, All-left, All-right, Bool-cases, inl, inr, ◌&&◌,
}
use ziskethone.Prelude.Bytes.{
  IsByte, IsU64, be_bytes, big_endian, big_endian-lt, big_endian-be_bytes, length-be_bytes,
  be_bytes-IsByte, be_bytes-big_endian,
}
use ziskethone.Rlp.{
  header, encode, encode_u64, encode_u256, write_u64, write_u256, leading_zeros, significant_start,
}
use ziskethone.Rlp.Decode.{string, Item, item, decode_item, scalar, as_u64, as_u256, read_be}
use ziskethone.Rlp.RoundTrip.{decode_item-encode, encode_bare, encode_headed}
use ziskethone.Rlp.Trim.{
  trim, big_endian-trim, length-trim-le, trim-IsByte, head-trim, pad-trim, drop-leading_zeros,
  drop-significant_start, trim-suc, trim-zero,
}
use ziskethone.Rlp.Width.{read_be-eq-big_endian}
use ziskethone.Rlp.Writers.{write_string-eq-encode}
use ziskethone.Rlp.Canonical.{IsCanonical, wrap, decode_item-IsCanonical}
use native.Mathlib.Decide.{ℕ_discrete}
use native.Mathlib.Nat.{mod-eq_of_lt, div-eq_of_lt, le_trans, pow-le-pow_right, zero-add}

-- The start that both integer encoders of a `uint64_t` compute.
start_of : ℕ → ℕ
start_of v = if v == 0 then 8 else leading_zeros 64 v / 8

value_be_bytes : (v : ℕ) → IsU64 v → big_endian (be_bytes 8 v) ≡ v
value_be_bytes v h = big_endian-be_bytes 8 v ∙ mod-eq_of_lt h

drop-start_of : (v : ℕ) → IsU64 v → drop (start_of v) (be_bytes 8 v) ≡ trim (be_bytes 8 v)
unfolding start_of
drop-start_of v h = elim (ℕ_discrete v 0) [
  | yes p ↦ rw p (unfold be_bytes trim in refl)
  | no p ↦
      let kept : (if v == 0 then 8 else leading_zeros 64 v / 8) ≡ leading_zeros 64 v / 8 =
        ground arith in
      rw kept (
        rw (value_be_bytes v h, length-be_bytes 8 v) at
          (drop-leading_zeros (be_bytes 8 v) (be_bytes-IsByte 8 v)
            (λ e. p (sym (value_be_bytes v h) ∙ e))))
]

pub encode_u64-trim : (v : ℕ) → IsU64 v → encode_u64 v ≡ encode (trim (be_bytes 8 v))
unfolding encode_u64 start_of
encode_u64-trim v h = ap encode (drop-start_of v h)

pub encode_u256-trim :
    (bytes : List ℕ)
    → length bytes ≡ 32
    → All IsByte bytes
    → encode_u256 bytes ≡ encode (trim bytes)
unfolding encode_u256
encode_u256-trim bytes size h = ap encode (drop-significant_start 4 bytes size h)

-- `scalar` accepts trimmed bytes that fit the width.
scalar-trim :
    (width : ℕ) (raw bs : List ℕ)
    → length bs ≤ width
    → scalar width (item string raw (trim bs)) ≡ ok (trim bs)
unfolding scalar
scalar-trim width raw bs h = ground (arith, length-trim-le bs, head-trim bs)

scalar-inverse :
    (width : ℕ) (it : Item) (payload : List ℕ)
    → scalar width it ≡ ok payload
    → (it.payload ≡ payload)
      × (it.kind ≡ string)
      × (length payload ≤ width)
      × (0 < length payload → get_or payload 0 0 ≢ 0)
unfolding scalar
scalar-inverse width it payload h = (ground arith, ground arith, ground arith, λ p e. ground arith)

-- Decoding what `encode_u64` wrote for a 64-bit value returns the value.
pub as_u64-encode_u64 :
    (v : ℕ) (rest : List ℕ)
    → IsU64 v
    → (do it ← decode_item (encode_u64 v ++ rest); as_u64 it) ≡ ok v
unfolding as_u64
as_u64-encode_u64 v rest h =
    let bs = be_bytes 8 v in
    let few : length (trim bs) ≤ 8 = rw (length-be_bytes 8 v) at (length-trim-le bs) in
    rw (encode_u64-trim v h, decode_item-encode (trim bs) rest (omega arith))
      (rw (scalar-trim 8 (encode (trim bs)) bs (rw (length-be_bytes 8 v) (omega arith))) (
        ap ok (
          read_be-eq-big_endian (trim bs) few (trim-IsByte bs (be_bytes-IsByte 8 v))
          ∙ big_endian-trim bs
          ∙ value_be_bytes v h)))

-- Decoding what `encode_u256` wrote for the 32 bytes of a value returns the 32 bytes.
pub as_u256-encode_u256 :
    (bytes rest : List ℕ)
    → length bytes ≡ 32
    → All IsByte bytes
    → (do it ← decode_item (encode_u256 bytes ++ rest); as_u256 it) ≡ ok bytes
unfolding as_u256
as_u256-encode_u256 bytes rest size h =
    let few : length (trim bytes) ≤ 32 = rw size at (length-trim-le bytes) in
    rw (encode_u256-trim bytes size h, decode_item-encode (trim bytes) rest (omega arith))
      (rw (scalar-trim 32 (encode (trim bytes)) bytes (omega arith))
        (ap ok (rw size at (pad-trim bytes))))

-- For a 64-bit value, and for the 32 bytes of a value, `write_u64` and `write_u256` write what
-- `encode_u64` and `encode_u256` return.
pub write_integers-eq-encode :
    (v : ℕ) (bytes : List ℕ)
    → IsU64 v
    → length bytes ≡ 32
    → All IsByte bytes
    → (write_u64 v ≡ encode_u64 v) × (write_u256 bytes ≡ encode_u256 bytes)
unfolding write_u64 write_u256 encode_u64 encode_u256 start_of
write_integers-eq-encode v bytes hv size h = (
  write_string-eq-encode (drop (start_of v) (be_bytes 8 v))
      (omega (arith, length-drop (start_of v) (be_bytes 8 v), length-be_bytes 8 v)),
  write_string-eq-encode (drop (significant_start 4 bytes) bytes)
      (omega (arith, length-drop (significant_start 4 bytes) bytes)),
)

be_bytes-suc : (n v : ℕ) → be_bytes (suc n) v ≡ (v / 2 ^ (8 * n) % 256) ∷ be_bytes n v
unfolding be_bytes
be_bytes-suc n v = refl

padded : (k n v : ℕ) → v < 2 ^ (8 * n) → be_bytes (k + n) v ≡ replicate k 0 ++ be_bytes n v
padded zero n v h = ap (λ m. be_bytes m v) (zero-add n)
padded (suc k) n v h =
    let more : suc k + n ≡ suc (k + n) = omega arith in
    rw (more, be_bytes-suc (k + n) v) (ap₂ ◌∷◌ top (padded k n v h))
  where
    top : v / 2 ^ (8 * (k + n)) % 256 ≡ 0
    top =
        rw
          (div-eq_of_lt {n = v} {m = 2 ^ (8 * (k + n))}
            (le_trans h (pow-le-pow_right {n = 2} (omega arith) {i = 8 * n} (omega arith))))
          refl

trim-pad : (k : ℕ) (bs : List ℕ) → trim (replicate k 0 ++ bs) ≡ trim bs
trim-pad zero bs = refl
trim-pad (suc k) bs = trim-zero (replicate k 0 ++ bs) ∙ trim-pad k bs

trim_self : (bs : List ℕ) → (0 < length bs → get_or bs 0 0 ≢ 0) → trim bs ≡ bs
trim_self [] h = unfold trim in refl
trim_self (zero ∷ bs) h = absurd (h (omega arith) refl)
trim_self (suc b ∷ bs) h = trim-suc b bs

trim-be_bytes :
    (bs : List ℕ)
    → All IsByte bs
    → length bs ≤ 8
    → (0 < length bs → get_or bs 0 0 ≢ 0)
    → trim (be_bytes 8 (big_endian bs)) ≡ bs
trim-be_bytes bs h size head =
    let n = length bs in
    let width : 8 ≡ (8 - n) + n = omega arith in
    ap (λ w. trim (be_bytes w (big_endian bs))) width
    ∙ ap trim (padded (8 - n) n (big_endian bs) (big_endian-lt bs h))
    ∙ trim-pad (8 - n) (be_bytes n (big_endian bs))
    ∙ ap trim (be_bytes-big_endian bs h)
    ∙ trim_self bs head

as_u64-inverse :
    (it : Item) (v : ℕ)
    → as_u64 it ≡ ok v
    → (scalar 8 it ≡ ok it.payload) × (v ≡ read_be it.payload 0)
unfolding as_u64 scalar
as_u64-inverse it v h = (ground arith, ground arith)

payload-IsByte : (s : List ℕ) → All IsByte (encode s) → All IsByte s
payload-IsByte s h = elim (Bool-cases (length s == 1 && ltb (get_or s 0 0) 0x80)) [
  | inl bare ↦ rw (encode_bare s bare) at h
  | inr headed ↦
      All-right IsByte (header 0x80 0xb7 (length s)) s
        (subst (All IsByte) (encode_headed s headed) h)
]

-- A 64-bit integer has one accepted encoding: where `decode_item` accepts an item from an input of
-- fewer than 2 ^ 32 bytes and `as_u64` reads it as `v`, the item is what `encode_u64` writes for `v`,
-- and `v` fits 64 bits.
pub as_u64-canonical :
    (input : List ℕ) (it : Item) (v : ℕ)
    → All IsByte input
    → length input < 2 ^ 32
    → decode_item input ≡ ok it
    → as_u64 it ≡ ok v
    → (it.raw ≡ encode_u64 v) × IsU64 v
as_u64-canonical input it v bytes size accepted read =
    let c : IsCanonical input it = decode_item-IsCanonical input it bytes size accepted in
    let (tested, value) = as_u64-inverse it v read in
    let (_, kind, few, head) = scalar-inverse 8 it it.payload tested in
    let encoded : it.raw ≡ encode it.payload = c.canonical ∙ ap (λ k. wrap k it.payload) kind in
    let raw_bytes : All IsByte it.raw =
      All-left IsByte it.raw (drop (length it.raw) input)
        (subst (All IsByte) (sym c.front) bytes) in
    let p_bytes : All IsByte it.payload =
      payload-IsByte it.payload (subst (All IsByte) encoded raw_bytes) in
    let is_value : v ≡ big_endian it.payload =
      value ∙ read_be-eq-big_endian it.payload few p_bytes in
    let fits : IsU64 v = rw is_value (
      le_trans (big_endian-lt it.payload p_bytes) (
        pow-le-pow_right {n = 2} (omega arith) {i = 8 * length it.payload} {j = 64}
          (omega arith))) in
    (
      encoded
          ∙ ap encode (sym (trim-be_bytes it.payload p_bytes few head))
          ∙ ap (λ x. encode (trim (be_bytes 8 x))) (sym is_value)
          ∙ sym (encode_u64-trim v fits),
      fits,
    )
