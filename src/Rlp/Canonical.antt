-- ===== src/Rlp/Canonical.antt =====
-- Every item that the decoder accepts is the canonical encoding of its payload.
use ziskethone.Prelude.{
  ℕ, ◌+◌, ◌-◌, ◌^◌, ◌≤◌, ◌<◌, ◌≡◌, refl, sym, ap, subst, ◌∙◌, arith, List, [], ◌∷◌, ◌++◌, length,
  take, drop, get_or, All, ok, false, ltb, ◌==◌, ◌&&◌, length-take, length-drop, take-append-drop,
}
use ziskethone.Prelude.Bytes.{IsByte}
use ziskethone.Rlp.{header, encode, encode_list_payload}
use ziskethone.Rlp.Decode.{ItemKind, string, list, Item, read_be, decode_long, decode_item, item}
use ziskethone.Rlp.RoundTrip.{
  header_short, encode_headed, encode_bare, take_suc, drop_suc, byte_sum,
}
use native.Mathlib.Nat.{add_assoc}
use native.Mathlib.Decide.{dec_le, dec_lt}
use ziskethone.Rlp.Accepted.{
  LongFound, ShortFound, accepted_header, branch_bare, branch_long_list, branch_long_string,
  branch_short_list, branch_short_string, decode_long-LongFound, decode_short_list-ShortFound,
  decode_short_string-ShortFound, get_or-take_zero, take_split,
}

-- The encoder of an item's kind.
abbrev pub wrap : ItemKind → List ℕ → List ℕ
wrap string payload = encode payload
wrap list payload = encode_list_payload payload

-- An accepted item: its encoding is the one that the encoder of its kind writes for its payload, and
-- it is a non-empty front of the input.
pub record IsCanonical (input : List ℕ) (it : Item) : Type 0 where
  pub canonical : it.raw ≡ wrap it.kind it.payload
  pub front : it.raw ++ drop (length it.raw) input ≡ input
  pub progress : 0 < length it.raw

take_front :
    (k : ℕ) (input : List ℕ)
    → k ≤ length input
    → take k input ++ drop (length (take k input)) input ≡ input
take_front k input h = rw (length-take k input h) (take-append-drop k input)

front_of_take :
    (kind : ItemKind) (k : ℕ) (payload input : List ℕ)
    → 0 < k
    → k ≤ length input
    → take k input ≡ wrap kind payload
    → IsCanonical input (item kind (take k input) payload)
front_of_take kind k payload input pos h e = record {
  canonical = e;
  front = take_front k input h;
  progress = rw (length-take k input h) pos;
}

headed_take :
    (n : ℕ) (rest : List ℕ)
    → n ≤ length rest
    → (n == 1 && ltb (get_or rest 0 0) 0x80) ≡ false
    → (length (take n rest) == 1 && ltb (get_or (take n rest) 0 0) 0x80) ≡ false
headed_take n rest h headed = rw (length-take n rest h) (ground (arith, get_or-take_zero n rest))

module _ (n b : ℕ) (rest : List ℕ) (h : n ≤ length rest) where
  short_string_canonical :
      n ≤ 55
      → b ≡ 0x80 + n
      → (n == 1 && ltb (get_or rest 0 0) 0x80) ≡ false
      → take (1 + n) (b ∷ rest) ≡ encode (take n rest)
  short_string_canonical small at_b headed =
      take_suc n b rest
      ∙ sym (
          encode_headed (take n rest) (headed_take n rest h headed)
          ∙ rw (length-take n rest h, header_short 0x80 0xb7 n small, byte_sum 0x80 n (omega arith))
              (ap (λ k. k ∷ take n rest) (sym at_b)))

  short_list_canonical :
      n ≤ 55 → b ≡ 0xc0 + n → take (1 + n) (b ∷ rest) ≡ encode_list_payload (take n rest)
  unfolding encode_list_payload
  short_list_canonical small at_b =
      take_suc n b rest
      ∙ sym (
          rw (length-take n rest h, header_short 0xc0 0xf7 n small, byte_sum 0xc0 n (omega arith))
            (ap (λ k. k ∷ take n rest) (sym at_b)))

long_headed : (s : List ℕ) → 55 < length s → (length s == 1 && ltb (get_or s 0 0) 0x80) ≡ false
long_headed s h = ground arith

abbrev wrap_long : (kind : ItemKind) → ℕ × ℕ
wrap_long string = (0x80, 0xb7)
wrap_long list = (0xc0, 0xf7)

wrap-header :
    (kind : ItemKind) (s : List ℕ)
    → 55 < length s
    → wrap kind s ≡ header (wrap_long kind).0 (wrap_long kind).1 (length s) ++ s
wrap-header string s h = encode_headed s (long_headed s h)
wrap-header list s h = unfold encode_list_payload in refl

-- An accepted long form.
long-IsCanonical :
    (kind : ItemKind) (n b : ℕ) (rest : List ℕ) (it : Item)
    → All IsByte (b ∷ rest)
    → length (b ∷ rest) < 2 ^ 32
    → 0 < n
    → n ≤ 8
    → b ≡ (wrap_long kind).1 + n
    → decode_long kind n (b ∷ rest) ≡ ok it
    → IsCanonical (b ∷ rest) it
long-IsCanonical kind n b rest it (hb, bytes) size pos small at_b h =
    let f : LongFound kind n b rest it = decode_long-LongFound kind n b rest it h in
    let p = read_be (take n rest) 0 in
    let s = take p (drop n rest) in
    let len : length s ≡ p = length-take p (drop n rest) (rw (length-drop n rest) f.fits) in
    let head : header (wrap_long kind).0 (wrap_long kind).1 p ≡ b ∷ take n rest =
      accepted_header (wrap_long kind).0 (wrap_long kind).1 n b p rest bytes pos small f.enough
        f.first f.long (omega (arith, f.fits)) refl at_b hb in
    let raw : take (1 + n + p) (b ∷ rest) ≡ wrap kind s =
      ap (λ k. take k (b ∷ rest)) (add_assoc 1 n p)
      ∙ take_suc (n + p) b rest
      ∙ ap (λ t. b ∷ t) (take_split n p rest)
      ∙ sym (wrap-header kind s (rw len f.long) ∙ rw (len, head) refl) in
    subst (IsCanonical (b ∷ rest))
      (sym (
        f.found ∙ ap (λ t. item kind (take (1 + n + p) (b ∷ rest)) (take p t)) (drop_suc n b rest)))
      (front_of_take kind (1 + n + p) s (b ∷ rest) (omega arith) (omega (arith, f.fits, f.enough))
        raw)

bare-IsCanonical :
    (b : ℕ) (rest : List ℕ) → b < 0x80 → IsCanonical (b ∷ rest) (item string (b ∷ []) (b ∷ []))
bare-IsCanonical b rest h = record {
  canonical = sym (encode_bare (b ∷ []) (ground arith));
  front = refl;
  progress = omega arith;
}

short-IsCanonical :
    (kind : ItemKind) (n b : ℕ) (rest : List ℕ) (it : Item)
    → ShortFound kind n b rest it
    → take (1 + n) (b ∷ rest) ≡ wrap kind (take n rest)
    → IsCanonical (b ∷ rest) it
short-IsCanonical kind n b rest it f e =
    subst (IsCanonical (b ∷ rest)) (sym f.found) (
      front_of_take kind (1 + n) (take n rest) (b ∷ rest) (omega arith) (omega (arith, f.enough)) e)

-- An item that `decode_item` accepts from an input of fewer than 2 ^ 32 bytes is the encoding that
-- `encode`, or `encode_list_payload` for a list, writes for its payload, so no payload has a second
-- accepted encoding; the item is a front of the input, and it has a byte at least.
pub decode_item-IsCanonical :
    (input : List ℕ) (it : Item)
    → All IsByte input
    → length input < 2 ^ 32
    → decode_item input ≡ ok it
    → IsCanonical input it
decode_item-IsCanonical [] it bytes size h = unfold decode_item in cc
decode_item-IsCanonical (b ∷ rest) it (hb, bytes) size h = elim (dec_lt b 0x80) [
  | yes p ↦
      subst (λ r. (i : Item) → r ≡ ok i → IsCanonical (b ∷ rest) i) (sym (branch_bare b rest p))
        (λ i e. subst (IsCanonical (b ∷ rest)) (ground arith) (bare-IsCanonical b rest p)) it h
  | no p ↦ elim (dec_le b 0xb7) [
    | yes q ↦
        let (found, headed) =
          decode_short_string-ShortFound (b - 0x80) b rest it
            (sym (branch_short_string b rest (omega arith) q) ∙ h) in
        short-IsCanonical string (b - 0x80) b rest it found
          (short_string_canonical (b - 0x80) b rest found.enough (omega arith) (omega arith) headed)
    | no q ↦ elim (dec_le b 0xbf) [
      | yes r ↦
          long-IsCanonical string (b - 0xb7) b rest it (hb, bytes) size (omega arith) (omega arith)
            (omega arith) (sym (branch_long_string b rest (omega arith) r) ∙ h)
      | no r ↦ elim (dec_le b 0xf7) [
        | yes t ↦
            let found : ShortFound list (b - 0xc0) b rest it =
              decode_short_list-ShortFound (b - 0xc0) b rest it
                (sym (branch_short_list b rest (omega arith) t) ∙ h) in
            short-IsCanonical list (b - 0xc0) b rest it found
              (short_list_canonical (b - 0xc0) b rest found.enough (omega arith) (omega arith))
        | no t ↦
            long-IsCanonical list (b - 0xf7) b rest it (hb, bytes) size (omega arith) (omega arith)
              (omega arith) (sym (branch_long_list b rest (omega arith)) ∙ h)
      ]
    ]
  ]
]
