-- ===== src/Rlp/Tests.antt =====
-- Runs of the encoders and of the decoder of cpp-guest/src/rlp.cpp.
use ziskethone.Prelude.{
  ℕ, ◌≡◌, ◌≢◌, ◌≤◌, refl, arith, List, [], ◌∷◌, ◌++◌, length, ok, fatal, ◌>>=◌, replicate,
}
use ziskethone.Prelude.Bytes.{IsU64, be_bytes}
use ziskethone.Rlp
use ziskethone.Rlp.Decode
use ziskethone.Rlp.{
  encode, encode_list, encode_list_payload, encode_u64, encode_u256, write_u64, write_u256,
  write_string, prepend_list, prepend_string, item_size, concat,
}
use ziskethone.Rlp.Decode.{
  Item, ItemKind, item, string, list, decode_item, decode_short_string, decode_long, next, collect,
  as_u64, as_u256, out_of_fuel,
}
use ziskethone.Rlp.RoundTrip.{decode_item-encode, decode_item-encode_list_payload}
use ziskethone.Rlp.Canonical.{IsCanonical, decode_item-IsCanonical}
use ziskethone.Rlp.Writers.{writers-eq-encoders, item_size-eq-length}
use ziskethone.Rlp.Integers.{
  as_u64-encode_u64, as_u256-encode_u256, write_integers-eq-encode, as_u64-canonical,
}
use ziskethone.Rlp.Iterate.{
  collect-ne-out_of_fuel, collect_partition, collect-encodings, raws, AllCanonical,
}

abbrev dog : List ℕ
dog = 0x64 ∷ 0x6f ∷ 0x67 ∷ []

-- the encoding of the string, and of the list of the string and the integer 1024
abbrev dog_item : List ℕ
dog_item = 0x83 ∷ 0x64 ∷ 0x6f ∷ 0x67 ∷ []

abbrev number_item : List ℕ
number_item = 0x82 ∷ 0x04 ∷ 0x00 ∷ []

encode-dog : encode dog ≡ dog_item
unfolding encode Rlp.header
encode-dog = refl

encode_u64-number : encode_u64 1024 ≡ number_item
unfolding encode_u64 encode Rlp.header Rlp.leading_zeros be_bytes
encode_u64-number = refl

decoded : decode_item (dog_item ++ 7 ∷ []) ≡ ok (item string dog_item dog)
unfolding decode_item decode_short_string
decoded = refl

number_decoded : decode_item number_item ≡ ok (item string number_item (4 ∷ 0 ∷ []))
unfolding decode_item decode_short_string
number_decoded = refl

number_read : as_u64 (item string number_item (4 ∷ 0 ∷ [])) ≡ ok 1024
unfolding as_u64
number_read = refl

collected : collect 4 dog_item ≡ ok (item string dog_item dog ∷ [])
unfolding collect next decode_item decode_short_string
collected = refl

twice : length (concat (encode dog ∷ encode dog ∷ [])) ≤ 8
unfolding concat encode Rlp.header
twice = omega arith

-- A length in two bytes of which the first is zero is refused.
leading_zero_refused : decode_item (0xb9 ∷ 0x00 ∷ 0x40 ∷ []) ≡ fatal (Decode.leading_zero string)
unfolding decode_item decode_long
leading_zero_refused = refl

decode_item-encode_example : decode_item (encode dog ++ 7 ∷ []) ≡ ok (item string (encode dog) dog)
decode_item-encode_example = decode_item-encode dog (7 ∷ []) (omega arith)

decode_item-encode_list_payload_example :
    decode_item (encode_list_payload dog_item ++ 7 ∷ [])
    ≡ ok (item list (encode_list_payload dog_item) dog_item)
decode_item-encode_list_payload_example =
    decode_item-encode_list_payload dog_item (7 ∷ []) (omega arith)

decode_item-IsCanonical_example : IsCanonical (dog_item ++ 7 ∷ []) (item string dog_item dog)
decode_item-IsCanonical_example =
    decode_item-IsCanonical (dog_item ++ 7 ∷ []) (item string dog_item dog) (ground arith)
      (omega arith) decoded

writers-eq-encoders_example :
    (write_string (concat (dog ∷ dog ∷ [])) ≡ encode (concat (dog ∷ dog ∷ [])))
    × (prepend_string (concat (dog ∷ dog ∷ [])) ≡ encode (concat (dog ∷ dog ∷ [])))
    × (prepend_list (concat (dog ∷ dog ∷ [])) ≡ encode_list_payload (concat (dog ∷ dog ∷ [])))
    × (encode_list (dog ∷ dog ∷ []) ≡ encode_list_payload (concat (dog ∷ dog ∷ [])))
writers-eq-encoders_example = writers-eq-encoders (dog ∷ dog ∷ []) (unfold concat in omega arith)

item_size-eq-length_example : item_size 3 ≡ length (encode dog)
item_size-eq-length_example = item_size-eq-length dog (omega arith) refl

as_u64-encode_u64_example : (do it ← decode_item (encode_u64 1024 ++ dog); as_u64 it) ≡ ok 1024
as_u64-encode_u64_example = as_u64-encode_u64 1024 dog (omega arith)

abbrev word : List ℕ
word = replicate 30 0 ++ 4 ∷ 0 ∷ []

as_u256-encode_u256_example : (do it ← decode_item (encode_u256 word ++ dog); as_u256 it) ≡ ok word
as_u256-encode_u256_example = as_u256-encode_u256 word dog refl (ground arith)

write_integers-eq-encode_example :
    (write_u64 1024 ≡ encode_u64 1024) × (write_u256 word ≡ encode_u256 word)
write_integers-eq-encode_example =
    write_integers-eq-encode 1024 word (omega arith) refl (ground arith)

as_u64-canonical_example : (number_item ≡ encode_u64 1024) × IsU64 1024
as_u64-canonical_example =
    as_u64-canonical number_item (item string number_item (4 ∷ 0 ∷ [])) 1024 (ground arith)
      (omega arith) number_decoded number_read

collect_partition_example :
    (concat (raws (item string dog_item dog ∷ [])) ≡ dog_item)
    × AllCanonical (item string dog_item dog ∷ [])
collect_partition_example =
    collect_partition 4 dog_item (item string dog_item dog ∷ []) (ground arith) (omega arith)
      collected

collect-ne-out_of_fuel_example : collect 4 dog_item ≢ fatal out_of_fuel
collect-ne-out_of_fuel_example =
    collect-ne-out_of_fuel 4 dog_item (ground arith) (omega arith) (omega arith)

collect-encodings_example :
    collect 8 (concat (encode dog ∷ encode dog ∷ []))
    ≡ ok (item string (encode dog) dog ∷ item string (encode dog) dog ∷ [])
collect-encodings_example =
    collect-encodings 8 (dog ∷ dog ∷ []) (omega arith, (omega arith, tt)) twice
