-- ===== src/IntrinsicGas/Total.antt =====
-- The intrinsic gas of a transaction before Amsterdam, against the sum that the proposals state.
use ziskethone.Prelude.{
  ℕ, ◌+◌, ◌*◌, ◌/◌, ◌≡◌, ap, subst, arith, false, ◌&&◌, List, [], ◌∷◌, append-nil, length, All, ok,
  ◌==◌, if◌then◌else◌,
}
use ziskethone.Rlp.{encode_list_payload, concat}
use ziskethone.Rlp.Decode.{list, item, decode_item}
use ziskethone.Rlp.RoundTrip.{MaxLen, decode_item-encode_list_payload}
use ziskethone.IntrinsicGas.{
  Tx, Revision, is_legacy, is_set_code, is_creation, count_access_list, count_nonzero_bytes,
  gas_and_floor, compute_intrinsic_gas,
}
use ziskethone.IntrinsicGas.Counts.{
  AccessEntry, IsSmall, entry_encodings, key_total, outer_item-encoded,
}

-- EIP-2028, byte by byte: 4 for a zero byte, 16 for another.
abbrev pub calldata_cost : List ℕ → ℕ
calldata_cost [] = 0
calldata_cost (b ∷ bytes) = (if b == 0 then 4 else 16) + calldata_cost bytes

-- EIP-7623, byte by byte: a token for a zero byte, 4 for another.
abbrev pub tokens : List ℕ → ℕ
tokens [] = 0
tokens (b ∷ bytes) = (if b == 0 then 1 else 4) + tokens bytes

calldata_cost-count :
    (bytes : List ℕ) → length bytes * 4 + count_nonzero_bytes bytes * 12 ≡ calldata_cost bytes
unfolding count_nonzero_bytes
calldata_cost-count [] = omega arith
calldata_cost-count (b ∷ bytes) = ground (arith, calldata_cost-count bytes)

tokens-count : (bytes : List ℕ) → length bytes + count_nonzero_bytes bytes * 3 ≡ tokens bytes
unfolding count_nonzero_bytes
tokens-count [] = omega arith
tokens-count (b ∷ bytes) = ground (arith, tokens-count bytes)

-- The gas that the proposals sum: the base and a creation's (EIP-2), the calldata's (EIP-2028), a
-- creation's code words (EIP-3860), the access list's (EIP-2930) and the authorizations' (EIP-7702).
abbrev pub proposed_gas : Tx → Revision → List AccessEntry → ℕ
proposed_gas tx rev entries =
    21000
    + (if is_creation tx.to then 32000 else 0)
    + calldata_cost tx.calldata
    + (if is_creation tx.to && rev.shanghai then 2 * ((length tx.calldata + 31) / 32) else 0)
    + (2400 * length entries + 1900 * key_total entries)
    + (if is_set_code tx.type then 25000 * tx.num_authorizations else 0)

sum-eq :
    (tx : Tx) (rev : Revision) (entries : List AccessEntry)
    → rev.amsterdam ≡ false
    → gas_and_floor tx rev (length entries, key_total entries)
      ≡ (proposed_gas tx rev entries, 21000 + 10 * tokens tx.calldata)
sum-eq tx rev entries h =
    rw h (ground (arith, calldata_cost-count tx.calldata, tokens-count tx.calldata))

walked :
    (tx : Tx) (entries : List AccessEntry)
    → is_legacy tx.type ≡ false
    → All IsSmall entries
    → MaxLen (length (concat (entry_encodings entries)))
    → tx.access_list_rlp ≡ encode_list_payload (concat (entry_encodings entries))
    → count_access_list tx ≡ ok (length entries, key_total entries)
unfolding count_access_list
walked tx entries typed small size written =
    let p = concat (entry_encodings entries) in
    let decoded : decode_item (encode_list_payload p) ≡ ok (item list (encode_list_payload p) p) =
      subst (λ bytes. decode_item bytes ≡ ok (item list (encode_list_payload p) p))
        (append-nil (encode_list_payload p)) (decode_item-encode_list_payload p [] size) in
    rw (typed, written, decoded) (outer_item-encoded entries (encode_list_payload p) small)

-- Before Amsterdam, for a typed transaction whose access list is the encoding of entries of fewer than
-- 2 ^ 32 bytes, `compute_intrinsic_gas` answers; its gas is the sum of the proposals' costs over the
-- bytes, the entries and their keys, and its calldata floor is 21000 and 10 for each token.
pub compute_intrinsic_gas_lem :
    (tx : Tx) (rev : Revision) (entries : List AccessEntry)
    → rev.amsterdam ≡ false
    → is_legacy tx.type ≡ false
    → All IsSmall entries
    → MaxLen (length (concat (entry_encodings entries)))
    → tx.access_list_rlp ≡ encode_list_payload (concat (entry_encodings entries))
    → compute_intrinsic_gas tx rev
      ≡ ok (proposed_gas tx rev entries, 21000 + 10 * tokens tx.calldata)
unfolding compute_intrinsic_gas
compute_intrinsic_gas_lem tx rev entries before typed small size written =
    rw (walked tx entries typed small size written) (ap ok (sum-eq tx rev entries before))
