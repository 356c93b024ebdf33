-- ===== src/Rlp/Accepted.antt =====
-- What each branch of `decode_item` found when it accepted an item.
use ziskethone.Prelude.{
  ℕ, zero, suc, ◌+◌, ◌-◌, ◌^◌, ◌≤◌, ◌<◌, ◌≡◌, ◌≢◌, refl, sym, ap, ap₂, subst, ◌∙◌, arith, List, [],
  ◌∷◌, ◌++◌, length, take, drop, get_or, All, ok, false, ltb, ◌==◌, ◌&&◌, length-take, All-take,
}
use ziskethone.Prelude.Bytes.{IsByte, be_bytes, big_endian, be_bytes-big_endian}
use ziskethone.Rlp.{header, be_length_bytes}
use ziskethone.Rlp.Decode.{
  ItemKind, string, list, Item, read_be, decode_short_string, decode_short_list, decode_long,
  decode_item, item,
}
use ziskethone.Rlp.Width.{
  IsWidth, IsWidth-unique, be_length_bytes-IsWidth, length_bytes-IsWidth, read_be-eq-big_endian,
}
use ziskethone.Rlp.RoundTrip.{header_long, byte_sum}
use native.Mathlib.Nat.{zero-add}

-- What the long branch found when it accepted.
pub record LongFound (kind : ItemKind) (n b : ℕ) (rest : List ℕ) (it : Item) : Type 0 where
  pub enough : n ≤ length rest
  pub first : get_or rest 0 0 ≢ 0
  pub long : 55 < read_be (take n rest) 0
  pub fits : read_be (take n rest) 0 ≤ length rest - n
  pub found :
      it
      ≡ item kind
          (take (1 + n + read_be (take n rest) 0) (b ∷ rest))
          (take (read_be (take n rest) 0) (drop (1 + n) (b ∷ rest)))

pub decode_long-LongFound :
    (kind : ItemKind) (n b : ℕ) (rest : List ℕ) (it : Item)
    → decode_long kind n (b ∷ rest) ≡ ok it
    → LongFound kind n b rest it
unfolding decode_long
decode_long-LongFound kind n b rest it h = record {
  enough = ground arith;
  first = ground arith;
  long = ground arith;
  fits = ground arith;
  found = ground arith;
}

pub record ShortFound (kind : ItemKind) (n b : ℕ) (rest : List ℕ) (it : Item) : Type 0 where
  pub enough : n ≤ length rest
  pub found : it ≡ item kind (take (1 + n) (b ∷ rest)) (take n rest)

pub decode_short_list-ShortFound :
    (n b : ℕ) (rest : List ℕ) (it : Item)
    → decode_short_list n (b ∷ rest) ≡ ok it
    → ShortFound list n b rest it
unfolding decode_short_list
decode_short_list-ShortFound n b rest it h = record { enough = ground arith; found = ground arith }

pub decode_short_string-ShortFound :
    (n b : ℕ) (rest : List ℕ) (it : Item)
    → decode_short_string n (b ∷ rest) ≡ ok it
    → ShortFound string n b rest it × ((n == 1 && ltb (get_or rest 0 0) 0x80) ≡ false)
unfolding decode_short_string
decode_short_string-ShortFound n b rest it h =
    (record { enough = ground arith; found = ground arith }, ground arith)

pub get_or-take_zero : (n : ℕ) (rest : List ℕ) → 0 < n → get_or (take n rest) 0 0 ≡ get_or rest 0 0
get_or-take_zero zero rest h = absurd (omega arith)
get_or-take_zero (suc n) [] h = refl
get_or-take_zero (suc n) (x ∷ rest) h = refl

pub take-nil : (n : ℕ) → take {A = ℕ} n [] ≡ []
take-nil zero = refl
take-nil (suc n) = refl

pub take_split : (n p : ℕ) (rest : List ℕ) → take (n + p) rest ≡ take n rest ++ take p (drop n rest)
take_split zero p rest = ap (λ k. take k rest) (zero-add p)
take_split (suc n) p [] = take-nil (suc n + p) ∙ sym (take-nil p)
take_split (suc n) p (x ∷ rest) =
    ap (λ k. take k (x ∷ rest)) suc_out ∙ ap (λ t. x ∷ t) (take_split n p rest)
  where
    suc_out : suc n + p ≡ suc (n + p)
    suc_out = omega arith

-- The length bytes that the long branch accepts are the ones that the encoders write.
pub accepted-IsWidth :
    (n : ℕ) (rest : List ℕ)
    → All IsByte rest
    → 0 < n
    → n ≤ length rest
    → get_or rest 0 0 ≢ 0
    → IsWidth (big_endian (take n rest)) n
accepted-IsWidth zero rest bytes pos enough first = absurd (omega arith)
accepted-IsWidth (suc n) [] bytes pos enough first = absurd (omega arith)
accepted-IsWidth (suc n) (x ∷ rest) (hx, bytes) pos enough first =
    subst (λ k. IsWidth (big_endian (x ∷ take n rest)) (suc k)) (length-take n rest (omega arith))
      (length_bytes-IsWidth x (take n rest) first (hx, All-take IsByte n rest bytes))

pub accepted_value :
    (n : ℕ) (rest : List ℕ)
    → All IsByte rest
    → n ≤ 8
    → n ≤ length rest
    → read_be (take n rest) 0 ≡ big_endian (take n rest)
accepted_value n rest bytes small enough =
    read_be-eq-big_endian (take n rest) (rw (length-take n rest enough) small)
      (All-take IsByte n rest bytes)

-- The header that the encoders write for an accepted length.
pub accepted_header :
    (s l n b p : ℕ) (rest : List ℕ)
    → All IsByte rest
    → 0 < n
    → n ≤ 8
    → n ≤ length rest
    → get_or rest 0 0 ≢ 0
    → 55 < p
    → p < 2 ^ 32
    → read_be (take n rest) 0 ≡ p
    → b ≡ l + n
    → b < 256
    → header s l p ≡ b ∷ take n rest
accepted_header s l n b p rest bytes pos small enough first long fits value at_b hb =
    let l_bytes = take n rest in
    let as_be : big_endian l_bytes ≡ p = sym (accepted_value n rest bytes small enough) ∙ value in
    let width : IsWidth p n =
      subst (λ k. IsWidth k n) as_be (accepted-IsWidth n rest bytes pos enough first) in
    let same : be_length_bytes p ≡ n = IsWidth-unique (be_length_bytes-IsWidth p long fits) width in
    let written : be_bytes n p ≡ l_bytes =
      ap₂ be_bytes (sym (length-take n rest enough)) (sym as_be)
      ∙ be_bytes-big_endian l_bytes (All-take IsByte n rest bytes) in
    header_long s l p long
    ∙ rw (same, written, byte_sum l n (rw (← at_b) hb)) (ap (λ k. k ∷ l_bytes) (sym at_b))

-- The branch that `decode_item` takes on a first byte.
module _ (b : ℕ) (rest : List ℕ) where
  pub branch_bare : b < 0x80 → decode_item (b ∷ rest) ≡ ok (item string (b ∷ []) (b ∷ []))
  unfolding decode_item
  branch_bare h = ground arith

  pub branch_short_string :
      0x80 ≤ b → b ≤ 0xb7 → decode_item (b ∷ rest) ≡ decode_short_string (b - 0x80) (b ∷ rest)
  unfolding decode_item
  branch_short_string h k = ground arith

  pub branch_long_string :
      0xb7 < b → b ≤ 0xbf → decode_item (b ∷ rest) ≡ decode_long string (b - 0xb7) (b ∷ rest)
  unfolding decode_item
  branch_long_string h k = ground arith

  pub branch_short_list :
      0xbf < b → b ≤ 0xf7 → decode_item (b ∷ rest) ≡ decode_short_list (b - 0xc0) (b ∷ rest)
  unfolding decode_item
  branch_short_list h k = ground arith

  pub branch_long_list : 0xf7 < b → decode_item (b ∷ rest) ≡ decode_long list (b - 0xf7) (b ∷ rest)
  unfolding decode_item
  branch_long_list h = ground arith
