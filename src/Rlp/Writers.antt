-- ===== src/Rlp/Writers.antt =====
-- The encoders of rlp.hpp that write into the caller's buffer, against those of rlp.cpp.
use ziskethone.Prelude.{
  ℕ, ◌≡◌, refl, sym, arith, List, [], ◌∷◌, ◌++◌, length, length-append, get_or, inl, inr, false,
  ltb, leb, ◌==◌, Bool-cases, ◌&&◌,
}
use ziskethone.Rlp.{
  header, encode, encode_list, encode_list_payload, total_size, concat, make_header, write_string,
  prepend, prepend_list, prepend_string, item_size,
}
use ziskethone.Rlp.Width.{count_bytes-eq-be_length}
use ziskethone.Rlp.RoundTrip.{MaxLen, encode_bare, encode_headed, header_short}

pub make_header-eq-header : (s l n : ℕ) → MaxLen n → make_header s l n ≡ header s l n
unfolding make_header header
make_header-eq-header s l n h = rw (count_bytes-eq-be_length n h)

prepend-eq : (s l : ℕ) (p : List ℕ) → MaxLen (length p) → prepend s l p ≡ header s l (length p) ++ p
unfolding prepend
prepend-eq s l p h = elim (Bool-cases (leb (length p) 55)) [
  | inl small ↦ rw (small, header_short s l (length p) (ground arith))
  | inr large ↦ rw (large, make_header-eq-header s l (length p) h)
]

-- `write_string` writes what `encode` returns.
pub write_string-eq-encode : (s : List ℕ) → MaxLen (length s) → write_string s ≡ encode s
unfolding write_string encode
write_string-eq-encode s h = elim (Bool-cases (length s == 1 && ltb (get_or s 0 0) 0x80)) [
  | inl bare ↦ rw bare
  | inr headed ↦ rw headed (elim (Bool-cases (leb (length s) 55)) [
    | inl small ↦ rw (small, header_short 0x80 0xb7 (length s) (ground arith))
    | inr large ↦ rw (large, make_header-eq-header 0x80 0xb7 (length s) h)
  ])
]

length-concat : (items : List (List ℕ)) → total_size items ≡ length (concat items)
unfolding total_size concat
length-concat [] = refl
length-concat (it ∷ items) = omega (arith, length-append it (concat items), length-concat items)

encode_list-eq : (items : List (List ℕ)) → encode_list items ≡ encode_list_payload (concat items)
unfolding encode_list encode_list_payload
encode_list-eq items = rw (length-concat items)

prepend_string-eq : (s : List ℕ) → MaxLen (length s) → prepend_string s ≡ encode s
unfolding prepend_string
prepend_string-eq s h = elim (Bool-cases (length s == 1 && ltb (get_or s 0 0) 0x80)) [
  | inl bare ↦ rw (bare, encode_bare s bare)
  | inr headed ↦ rw (headed, encode_headed s headed) (prepend-eq 0x80 0xb7 s h)
]

prepend_list-eq : (s : List ℕ) → MaxLen (length s) → prepend_list s ≡ encode_list_payload s
unfolding prepend_list encode_list_payload
prepend_list-eq s h = prepend-eq 0xc0 0xf7 s h

-- The encoders of the state-root walk agree with the allocating ones on every payload of fewer than
-- 2 ^ 32 bytes: `write_string` and `prepend_string` with `encode`, `prepend_list` with
-- `encode_list_payload`, and that with `encode_list` on items whose bytes are the payload.
pub writers-eq-encoders :
    (items : List (List ℕ))
    → MaxLen (length (concat items))
    → (write_string (concat items) ≡ encode (concat items))
      × (prepend_string (concat items) ≡ encode (concat items))
      × (prepend_list (concat items) ≡ encode_list_payload (concat items))
      × (encode_list items ≡ encode_list_payload (concat items))
writers-eq-encoders items h = (
  write_string-eq-encode (concat items) h,
  prepend_string-eq (concat items) h,
  prepend_list-eq (concat items) h,
  encode_list-eq items,
)

-- `item_size` is the length of what `encode` returns for a byte string of fewer than 2 ^ 32 bytes, but
-- for a bare byte, whose encoding has no header.
pub item_size-eq-length :
    (s : List ℕ)
    → MaxLen (length s)
    → (length s == 1 && ltb (get_or s 0 0) 0x80) ≡ false
    → item_size (length s) ≡ length (encode s)
unfolding item_size
item_size-eq-length s h headed =
    rw (encode_headed s headed, make_header-eq-header 0x80 0xb7 (length s) h)
      (sym (length-append (header 0x80 0xb7 (length s)) s))
