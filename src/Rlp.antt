-- ===== src/Rlp.antt =====
-- cpp-guest/src/rlp.cpp and cpp-guest/include/zeg/rlp.hpp: the RLP encoders and the decoder.
-- A byte buffer or view is the list of its bytes; a `size_t` is a number below 2 ^ 64.
pub mod Width
pub mod Decode
pub mod RoundTrip
pub mod Accepted
pub mod Canonical
pub mod Writers
pub mod Trim
pub mod Integers
pub mod Iterate
mod Tests
use ziskethone.Prelude.{
  ℕ, zero, suc, ◌+◌, ◌-◌, ◌*◌, ◌/◌, ◌%◌, ◌^◌, Bool, ◌&&◌, List, [], ◌∷◌, ◌++◌, ltb, leb, ◌==◌,
  if◌then◌else◌, length, get_or, take, drop, Result, ok, fatal,
}
use ziskethone.Prelude.Bytes.{be_bytes, big_endian}

-- `be_length_bytes`
unfoldable pub be_length_bytes : ℕ → ℕ
be_length_bytes len =
    if leb len 0xff then 1 else if leb len 0xffff then 2 else if leb len 0xffffff then 3 else 4

-- `append_header<ShortBase, LongBase>`: what it appends; `be_bytes` is the loop of `append_be`.
unfoldable pub header : ℕ → ℕ → ℕ → List ℕ
unfolding be_length_bytes
header short_base long_base payload_len =
    let n = be_length_bytes payload_len in
    if leb payload_len 55
    then ((short_base + payload_len) % 256) ∷ []
    else ((long_base + n) % 256) ∷ be_bytes n payload_len

unfoldable pub encode : List ℕ → List ℕ
encode s =
    if length s == 1 && ltb (get_or s 0 0) 0x80
    then get_or s 0 0 ∷ []
    else header 0x80 0xb7 (length s) ++ s

-- `encode_list_payload`
unfoldable pub encode_list_payload : List ℕ → List ℕ
encode_list_payload payload = header 0xc0 0xf7 (length payload) ++ payload

-- The loops of `encode_list` over its items.
unfoldable pub total_size : List (List ℕ) → ℕ
total_size [] = 0
total_size (it ∷ items) = length it + total_size items

unfoldable pub concat : List (List ℕ) → List ℕ
concat [] = []
concat (it ∷ items) = it ++ concat items

unfoldable pub encode_list : List (List ℕ) → List ℕ
encode_list items = header 0xc0 0xf7 (total_size items) ++ concat items

-- `__builtin_clzll` at `v` of `w` bits: the zero bits above the highest one.
unfoldable pub leading_zeros : ℕ → ℕ → ℕ
leading_zeros zero v = 0
leading_zeros (suc w) v = if ltb v (2 ^ w) then suc (leading_zeros w v) else 0

unfoldable pub encode_u64 : ℕ → List ℕ
encode_u64 v =
    let start = (if v == 0 then 8 else leading_zeros 64 v / 8) in encode (drop start (be_bytes 8 v))

-- `u256_significant_start`, one round for each of the words of eight bytes.
unfoldable pub significant_start : ℕ → List ℕ → ℕ
significant_start zero bytes = 0
significant_start (suc words) bytes =
    let w = big_endian (take 8 bytes) in
    if w == 0 then 8 + significant_start words (drop 8 bytes) else leading_zeros 64 w / 8

-- `encode_u256`, of the 32 bytes of the value.
unfoldable pub encode_u256 : List ℕ → List ℕ
encode_u256 bytes = encode (drop (significant_start 4 bytes) bytes)

-- The loop of `make_header` that counts the bytes of the length; a `size_t` shifted right eight
-- times is zero, so eight rounds are enough.
unfoldable pub count_bytes : ℕ → ℕ → ℕ → ℕ
count_bytes zero v n = n
count_bytes (suc rounds) v n = if v == 0 then n else count_bytes rounds (v / 256) (n + 1)

-- `make_header<ShortBase, LongBase>`: the bytes of `hdr` up to the length that it returns.
unfoldable pub make_header : ℕ → ℕ → ℕ → List ℕ
unfolding count_bytes
make_header short_base long_base payload_len =
    let n = count_bytes 8 (payload_len / 256) 1 in
    if leb payload_len 55
    then ((short_base + payload_len) % 256) ∷ []
    else ((long_base + n) % 256) ∷ be_bytes n payload_len

-- `item_size`
unfoldable pub item_size : ℕ → ℕ
item_size payload_len = length (make_header 0x80 0xb7 payload_len) + payload_len

-- `write_string`: the bytes that it writes at `dst`; it returns their number.
unfoldable pub write_string : List ℕ → List ℕ
write_string src =
    let len = length src in
    if len == 1 && ltb (get_or src 0 0) 0x80
    then get_or src 0 0 ∷ []
    else if leb len 55
    then ((0x80 + len) % 256) ∷ src
    else make_header 0x80 0xb7 len ++ src

-- `write_u64` and `write_u256`
unfoldable pub write_u64 : ℕ → List ℕ
write_u64 v =
    let start = (if v == 0 then 8 else leading_zeros 64 v / 8) in
    write_string (drop start (be_bytes 8 v))

unfoldable pub write_u256 : List ℕ → List ℕ
write_u256 bytes = write_string (drop (significant_start 4 bytes) bytes)

-- `prepend<ShortBase, LongBase>` over `buf[start, end)`: the bytes from the offset that it returns
-- up to `end`.
unfoldable pub prepend : ℕ → ℕ → List ℕ → List ℕ
prepend short_base long_base payload =
    let len = length payload in
    if leb len 55
    then ((short_base + len) % 256) ∷ payload
    else make_header short_base long_base len ++ payload

unfoldable pub prepend_list : List ℕ → List ℕ
prepend_list = prepend 0xc0 0xf7

unfoldable pub prepend_string : List ℕ → List ℕ
prepend_string payload =
    if length payload == 1 && ltb (get_or payload 0 0) 0x80
    then payload
    else prepend 0x80 0xb7 payload
