-- ===== src/Rlp/RoundTrip.antt =====
-- What the encoders write, the decoder reads back, whatever follows it.
use ziskethone.Prelude.{
  ℕ, suc, ◌+◌, ◌%◌, ◌^◌, ◌≤◌, ◌<◌, ◌≡◌, ◌≢◌, refl, sym, ap, ◌∙◌, arith, List, [], ◌∷◌, ◌++◌,
  append_assoc, length, length-append, take, drop, take-append, drop-append, get_or, ok, inl, inr,
  true, false, ltb, ◌==◌, Bool-cases, ◌&&◌,
}
use ziskethone.Prelude.Bytes.{be_bytes, length-be_bytes, be_bytes-IsByte, big_endian-be_bytes}
use ziskethone.Rlp.{header, encode, encode_list_payload, be_length_bytes}
use ziskethone.Rlp.Decode.{
  ItemKind, string, list, read_be, decode_short_string, decode_short_list, decode_long, decode_item,
  item,
}
use ziskethone.Rlp.Width.{
  IsWidth, be_length_bytes-IsWidth, IsWidth-le_four, head-be_bytes, read_be-eq-big_endian,
}
use native.Mathlib.Nat.{mod-eq_of_lt, zero-add, add_assoc}
use native.Mathlib.Decide.{dec_le}

abbrev pub MaxLen : ℕ → Type 0
MaxLen n = n < 2 ^ 32

-- A header is one byte, or one byte and the bytes of the length.
pub header_short : (s l n : ℕ) → n ≤ 55 → header s l n ≡ ((s + n) % 256) ∷ []
unfolding header
header_short s l n h = ground arith

pub header_long :
    (s l n : ℕ)
    → 55 < n
    → header s l n ≡ ((l + be_length_bytes n) % 256) ∷ be_bytes (be_length_bytes n) n
unfolding header
header_long s l n h = ground arith

pub take_suc : (n : ℕ) (b : ℕ) (xs : List ℕ) → take (1 + n) (b ∷ xs) ≡ b ∷ take n xs
take_suc n b xs = ap (λ k. take k (b ∷ xs)) one_more
  where
    one_more : 1 + n ≡ suc n
    one_more = omega arith

pub drop_suc : (n : ℕ) (b : ℕ) (xs : List ℕ) → drop (1 + n) (b ∷ xs) ≡ drop n xs
drop_suc n b xs = ap (λ k. drop k (b ∷ xs)) one_more
  where
    one_more : 1 + n ≡ suc n
    one_more = omega arith

-- The decoder's branches on an input that starts with a byte `b`, then what the header says.
module _ (b : ℕ) (s rest : List ℕ) where
  short_raw : take (1 + length s) (b ∷ (s ++ rest)) ≡ b ∷ s
  short_raw = take_suc (length s) b (s ++ rest) ∙ ap (λ t. b ∷ t) (take-append s rest)

  decode_short_list_at :
      decode_short_list (length s) (b ∷ (s ++ rest))
      ≡ ok (record { kind = list; raw = b ∷ s; payload = s })
  unfolding decode_short_list
  decode_short_list_at = ground (arith, length-append s rest, short_raw, take-append s rest)

-- The branch for short strings refuses a bare byte behind a header.
decode_short_string_at :
    (b : ℕ) (s rest : List ℕ)
    → (length s == 1 && ltb (get_or s 0 0) 0x80) ≡ false
    → decode_short_string (length s) (b ∷ (s ++ rest))
      ≡ ok (record { kind = string; raw = b ∷ s; payload = s })
unfolding decode_short_string
decode_short_string_at b [] rest h = ground (arith, short_raw b [] rest)
decode_short_string_at b (x ∷ s) rest h =
    ground (arith, length-append s rest, short_raw b (x ∷ s) rest, take-append s rest)

take-append_more : (l s : List ℕ) (n : ℕ) → take (length l + n) (l ++ s) ≡ l ++ take n s
take-append_more [] s n = ap (λ k. take k s) (zero-add n)
take-append_more (x ∷ l) s n =
    ap (λ k. take k (x ∷ (l ++ s))) suc_out ∙ ap (λ t. x ∷ t) (take-append_more l s n)
  where
    suc_out : suc (length l) + n ≡ suc (length l + n)
    suc_out = omega arith

module _ (kind : ItemKind) (b : ℕ) (l s rest : List ℕ) where
  long_raw : take (1 + length l + length s) (b ∷ (l ++ (s ++ rest))) ≡ b ∷ (l ++ s)
  long_raw =
      ap (λ k. take k (b ∷ (l ++ (s ++ rest)))) (add_assoc 1 (length l) (length s))
      ∙ take_suc (length l + length s) b (l ++ (s ++ rest))
      ∙ ap (λ t. b ∷ t) (take-append_more l (s ++ rest) (length s))
      ∙ ap (λ t. b ∷ (l ++ t)) (take-append s rest)

  long_payload : take (length s) (drop (1 + length l) (b ∷ (l ++ (s ++ rest)))) ≡ s
  long_payload =
      rw (drop_suc (length l) b (l ++ (s ++ rest)), drop-append l (s ++ rest)) (take-append s rest)

  long_size : length (l ++ (s ++ rest)) ≡ length l + (length s + length rest)
  long_size = rw (length-append l (s ++ rest), length-append s rest) refl

get_or-append_zero : (l t : List ℕ) → 0 < length l → get_or (l ++ t) 0 0 ≡ get_or l 0 0
get_or-append_zero [] t h = absurd (omega arith)
get_or-append_zero (x ∷ l) t h = refl

decode_long_at :
    (kind : ItemKind) (b : ℕ) (l s rest : List ℕ)
    → 0 < length l
    → get_or l 0 0 ≢ 0
    → read_be l 0 ≡ length s
    → 55 < length s
    → decode_long kind (length l) (b ∷ (l ++ (s ++ rest)))
      ≡ ok (record { kind = kind; raw = b ∷ (l ++ s); payload = s })
unfolding decode_long
decode_long_at kind b l s rest h first len long =
    rw (take-append l (s ++ rest), len)
      (ground (
        arith,
        long_raw kind b l s rest,
        long_payload kind b l s rest,
        long_size kind b l s rest,
        get_or-append_zero l (s ++ rest) h,
      ))

-- `decode_item` takes the branch of the first byte.
module _ (n : ℕ) (t : List ℕ) where
  dispatch_short_string :
      n ≤ 55 → decode_item ((0x80 + n) ∷ t) ≡ decode_short_string n ((0x80 + n) ∷ t)
  unfolding decode_item
  dispatch_short_string h = ground arith

  dispatch_short_list : n ≤ 55 → decode_item ((0xc0 + n) ∷ t) ≡ decode_short_list n ((0xc0 + n) ∷ t)
  unfolding decode_item
  dispatch_short_list h = ground arith

  dispatch_long_string :
      0 < n → n ≤ 8 → decode_item ((0xb7 + n) ∷ t) ≡ decode_long string n ((0xb7 + n) ∷ t)
  unfolding decode_item
  dispatch_long_string h k = ground arith

  dispatch_long_list :
      0 < n → n ≤ 8 → decode_item ((0xf7 + n) ∷ t) ≡ decode_long list n ((0xf7 + n) ∷ t)
  unfolding decode_item
  dispatch_long_list h k = ground arith

pub byte_sum : (base n : ℕ) → base + n < 256 → (base + n) % 256 ≡ base + n
byte_sum base n h = omega arith

-- The long form of either kind, at the width `w` of the length.
decode_long_written :
    (kind : ItemKind) (b w : ℕ) (s rest : List ℕ)
    → IsWidth (length s) w
    → w ≤ 4
    → 55 < length s
    → decode_long kind w (b ∷ ((be_bytes w (length s) ++ s) ++ rest))
      ≡ ok (item kind (b ∷ (be_bytes w (length s) ++ s)) s)
decode_long_written kind b w s rest width small long =
    let l = be_bytes w (length s) in
    let size : length l ≡ w = length-be_bytes w (length s) in
    let value : read_be l 0 ≡ length s =
      read_be-eq-big_endian l (rw size (omega arith)) (be_bytes-IsByte w (length s))
      ∙ big_endian-be_bytes w (length s)
      ∙ mod-eq_of_lt width.fits in
    rw (append_assoc l s rest) (
      ap (λ k. decode_long kind k (b ∷ (l ++ (s ++ rest)))) (sym size)
      ∙ decode_long_at kind b l s rest (rw size width.positive) (head-be_bytes (length s) w width)
          value long)

pub encode_bare : (s : List ℕ) → (length s == 1 && ltb (get_or s 0 0) 0x80) ≡ true → encode s ≡ s
unfolding encode
encode_bare [] h = cc
encode_bare (x ∷ []) h = ground arith
encode_bare (x ∷ y ∷ s) h = ground arith

pub encode_headed :
    (s : List ℕ)
    → (length s == 1 && ltb (get_or s 0 0) 0x80) ≡ false
    → encode s ≡ header 0x80 0xb7 (length s) ++ s
unfolding encode
encode_headed s h = rw h

decode_bare :
    (s rest : List ℕ)
    → (length s == 1 && ltb (get_or s 0 0) 0x80) ≡ true
    → decode_item (s ++ rest) ≡ ok (item string s s)
unfolding decode_item
decode_bare [] rest h = cc
decode_bare (x ∷ []) rest h = ground arith
decode_bare (x ∷ y ∷ s) rest h = ground arith

decode_header_string :
    (s rest : List ℕ)
    → MaxLen (length s)
    → (length s == 1 && ltb (get_or s 0 0) 0x80) ≡ false
    → decode_item ((header 0x80 0xb7 (length s) ++ s) ++ rest)
      ≡ ok (item string (header 0x80 0xb7 (length s) ++ s) s)
decode_header_string s rest len h = elim (dec_le (length s) 55) [
  | yes p ↦
      rw (header_short 0x80 0xb7 (length s) p, byte_sum 0x80 (length s) (omega arith))
        (dispatch_short_string (length s) (s ++ rest) p ∙ decode_short_string_at _ s rest h)
  | no p ↦
      let n = length s in
      let w = be_length_bytes n in
      let width : IsWidth n w = be_length_bytes-IsWidth n (omega arith) len in
      let small : w ≤ 4 = IsWidth-le_four len width in
      rw (header_long 0x80 0xb7 n (omega arith), byte_sum 0xb7 w (omega arith))
        (dispatch_long_string w _ width.positive (omega arith)
          ∙ decode_long_written string _ w s rest width small (omega arith))
]

-- Decoding what `encode` wrote for a byte string of less than 2 ^ 32 bytes returns the string, and
-- does not look at the bytes behind it.
pub decode_item-encode :
    (s rest : List ℕ)
    → MaxLen (length s)
    → decode_item (encode s ++ rest) ≡ ok (item string (encode s) s)
decode_item-encode s rest len = elim (Bool-cases (length s == 1 && ltb (get_or s 0 0) 0x80)) [
  | inl bare ↦ rw (encode_bare s bare) (decode_bare s rest bare)
  | inr headed ↦ rw (encode_headed s headed) (decode_header_string s rest len headed)
]

-- Decoding what `encode_list_payload` wrote for a payload of less than 2 ^ 32 bytes returns a list
-- item with that payload, and does not look at the bytes behind it.
pub decode_item-encode_list_payload :
    (payload rest : List ℕ)
    → MaxLen (length payload)
    → decode_item (encode_list_payload payload ++ rest)
      ≡ ok (item list (encode_list_payload payload) payload)
unfolding encode_list_payload
decode_item-encode_list_payload s rest len = elim (dec_le (length s) 55) [
  | yes p ↦
      rw (header_short 0xc0 0xf7 (length s) p, byte_sum 0xc0 (length s) (omega arith))
        (dispatch_short_list (length s) (s ++ rest) p ∙ decode_short_list_at _ s rest)
  | no p ↦
      let n = length s in
      let w = be_length_bytes n in
      let width : IsWidth n w = be_length_bytes-IsWidth n (omega arith) len in
      let small : w ≤ 4 = IsWidth-le_four len width in
      rw (header_long 0xc0 0xf7 n (omega arith), byte_sum 0xf7 w (omega arith))
        (dispatch_long_list w _ width.positive (omega arith)
          ∙ decode_long_written list _ w s rest width small (omega arith))
]
