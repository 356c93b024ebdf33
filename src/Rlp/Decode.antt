-- ===== src/Rlp/Decode.antt =====
-- The decoder of cpp-guest/src/rlp.cpp: `decode_item`, `ListIter::next`, `as_u256` and `as_u64`.
use ziskethone.Prelude.{
  ℕ, zero, suc, ◌+◌, ◌-◌, ◌*◌, ◌%◌, ◌^◌, ◌&&◌, List, [], ◌∷◌, ◌++◌, ltb, leb, ◌==◌, if◌then◌else◌,
  length, get_or, take, drop, Result, ok, fatal, ◌>>=◌, replicate,
}

pub data ItemKind : Type 0 where
  string list : ItemKind

-- `Item`: the views are the bytes that they show.
pub record Item : Type 0 where
  pub kind : ItemKind
  pub raw : List ℕ
  pub payload : List ℕ

abbrev pub item : ItemKind → List ℕ → List ℕ → Item
item kind raw payload = record { kind = kind; raw = raw; payload = payload }

-- One constructor for each message that the decoder hands to `fatal`.
pub data Fault : Type 0 where
  empty_input non_canonical_byte exhausted : Fault
  short_truncated length_truncated leading_zero fits_short body_truncated : ItemKind → Fault
  not_string too_wide integer_leading_zero out_of_fuel : Fault

-- `read_be`: `v << 8` drops what leaves the 64 bits.
unfoldable pub read_be : List ℕ → ℕ → ℕ
read_be [] v = v
read_be (b ∷ bs) v = read_be bs (v * 256 % 2 ^ 64 + b)

-- The branch of `decode_item` for a string of at most 55 bytes.
unfoldable pub decode_short_string : ℕ → List ℕ → Result Fault Item
decode_short_string payload_len input =
    if ltb (length input) (1 + payload_len)
    then fatal (short_truncated string)
    else if payload_len == 1 && ltb (get_or input 1 0) 0x80
    then fatal non_canonical_byte
    else ok (record {
      kind = string;
      raw = take (1 + payload_len) input;
      payload = take payload_len (drop 1 input);
    })

-- The branch for a list of at most 55 bytes.
unfoldable pub decode_short_list : ℕ → List ℕ → Result Fault Item
decode_short_list payload_len input =
    if ltb (length input) (1 + payload_len)
    then fatal (short_truncated list)
    else ok (record {
      kind = list;
      raw = take (1 + payload_len) input;
      payload = take payload_len (drop 1 input);
    })

-- The two branches for a longer payload, whose length takes `len_of_len` bytes. Both run the same
-- tests; the messages and the kind of the item differ.
unfoldable pub decode_long : ItemKind → ℕ → List ℕ → Result Fault Item
unfolding read_be
decode_long kind len_of_len input =
    let payload_len = read_be (take len_of_len (drop 1 input)) 0 in
    let head = 1 + len_of_len in
    if ltb (length input) head
    then fatal (length_truncated kind)
    else if get_or input 1 0 == 0
    then fatal (leading_zero kind)
    else if leb payload_len 55
    then fatal (fits_short kind)
    else if ltb (length input - head) payload_len
    then fatal (body_truncated kind)
    else ok (record {
      kind = kind;
      raw = take (head + payload_len) input;
      payload = take payload_len (drop head input);
    })

unfoldable pub decode_item : List ℕ → Result Fault Item
decode_item [] = fatal empty_input
decode_item (b ∷ rest) =
    let input = b ∷ rest in
    if ltb b 0x80
    then ok (record { kind = string; raw = b ∷ []; payload = b ∷ [] })
    else if leb b 0xb7
    then decode_short_string (b - 0x80) input
    else if leb b 0xbf
    then decode_long string (b - 0xb7) input
    else if leb b 0xf7
    then decode_short_list (b - 0xc0) input
    else decode_long list (b - 0xf7) input

-- `ListIter::next`: the item, and what remains behind it.
unfoldable pub next : List ℕ → Result Fault (Item × List ℕ)
next [] = fatal exhausted
next (b ∷ rest) = do it ← decode_item (b ∷ rest); ok (it, drop (length it.raw) (b ∷ rest))

-- A loop `while (it.has_next()) … it.next()` over a list's payload, with fuel. Each item takes a byte
-- at least, so the payload's length is enough; `out_of_fuel` is no fault of the program.
unfoldable pub collect : ℕ → List ℕ → Result Fault (List Item)
collect fuel [] = ok []
collect zero (b ∷ rest) = fatal out_of_fuel
collect (suc fuel) (b ∷ rest) = do
  (it, remaining) ← next (b ∷ rest)
  items ← collect fuel remaining
  ok (it ∷ items)

-- The tests that `as_u256` and `as_u64` share, at the width of the integer in bytes.
unfoldable pub scalar : ℕ → Item → Result Fault (List ℕ)
scalar width it = elim it.kind [
  | list ↦ fatal not_string
  | string ↦
      if ltb width (length it.payload)
      then fatal too_wide
      else if ltb 0 (length it.payload) && (get_or it.payload 0 0 == 0)
      then fatal integer_leading_zero
      else ok it.payload
]

-- The 32 bytes of the value, with zeros before the payload.
unfoldable pub as_u256 : Item → Result Fault (List ℕ)
unfolding scalar
as_u256 it = do payload ← scalar 32 it; ok (replicate (32 - length payload) 0 ++ payload)

unfoldable pub as_u64 : Item → Result Fault ℕ
unfolding scalar read_be
as_u64 it = do payload ← scalar 8 it; ok (read_be payload 0)
