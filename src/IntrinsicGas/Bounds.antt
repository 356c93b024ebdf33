-- ===== src/IntrinsicGas/Bounds.antt =====
-- The amounts of `compute_intrinsic_gas` fit the `int64_t` that the program computes them in.
use ziskethone.Prelude.{
  ℕ, ◌+◌, ◌*◌, ◌/◌, ◌^◌, ◌≤◌, ◌<◌, ◌≡◌, sym, subst, ◌∙◌, arith, Bool, true, false, ◌&&◌, List, [],
  ◌∷◌, length, length-append, All, Result, ok, if◌then◌else◌,
}
use ziskethone.Rlp
use ziskethone.Rlp.{encode, encode_list_payload, concat}
use ziskethone.Rlp.RoundTrip.{MaxLen}
use ziskethone.IntrinsicGas.{
  Tx, Revision, Fault, is_legacy, is_creation, is_set_code, compute_intrinsic_gas,
}
use ziskethone.IntrinsicGas.Counts.{
  AccessEntry, IsSmall, entry_encodings, entry_payload, keys_payload, key_total, length-keys-le,
  length-entries-le,
}
use ziskethone.IntrinsicGas.Total.{calldata_cost, tokens, proposed_gas, compute_intrinsic_gas_lem}

length-encode_list_payload-le : (p : List ℕ) → length p ≤ length (encode_list_payload p)
unfolding encode_list_payload
length-encode_list_payload-le p = omega (arith, length-append (Rlp.header 0xc0 0xf7 (length p)) p)

length-entry-le :
    (e : AccessEntry) → IsSmall e → length e.keys ≤ length (encode_list_payload (entry_payload e))
length-entry-le e (ha, hk, hp, hw) = omega (
  arith,
  length-keys-le e.keys hk,
  length-encode_list_payload-le (keys_payload e),
  length-append (encode e.address) (encode_list_payload (keys_payload e)),
  length-encode_list_payload-le (entry_payload e),
)

key_total-le :
    (entries : List AccessEntry)
    → All IsSmall entries
    → key_total entries ≤ length (concat (entry_encodings entries))
unfolding concat
key_total-le [] h = omega arith
key_total-le (e ∷ entries) (he, h) = omega (
  arith,
  length-append (encode_list_payload (entry_payload e)) (concat (entry_encodings entries)),
  length-entry-le e he,
  key_total-le entries h,
)

calldata_cost-le : (bytes : List ℕ) → calldata_cost bytes ≤ 16 * length bytes
calldata_cost-le [] = omega arith
calldata_cost-le (b ∷ bytes) = ground (arith, calldata_cost-le bytes)

tokens-le : (bytes : List ℕ) → tokens bytes ≤ 4 * length bytes
tokens-le [] = omega arith
tokens-le (b ∷ bytes) = ground (arith, tokens-le bytes)

if-le : (b : Bool) (n : ℕ) → (if b then n else 0) ≤ n
if-le true n = omega arith
if-le false n = omega arith

proposed_gas-lt :
    (tx : Tx) (rev : Revision) (entries : List AccessEntry)
    → All IsSmall entries
    → MaxLen (length (concat (entry_encodings entries)))
    → MaxLen (length tx.calldata)
    → MaxLen tx.num_authorizations
    → (proposed_gas tx rev entries < 2 ^ 63) × (21000 + 10 * tokens tx.calldata < 2 ^ 63)
proposed_gas-lt tx rev entries small size few auths = (
  omega (
    arith,
    length-entries-le entries small,
    key_total-le entries small,
    calldata_cost-le tx.calldata,
    if-le (is_creation tx.to) 32000,
    if-le (is_creation tx.to && rev.shanghai) (2 * ((length tx.calldata + 31) / 32)),
    if-le (is_set_code tx.type) (25000 * tx.num_authorizations),
  ),
  omega (arith, tokens-le tx.calldata),
)

abbrev answer : ℕ × ℕ → Result Fault (ℕ × ℕ)
answer r = ok r

answer-injective : {p q : ℕ × ℕ} → answer p ≡ answer q → p ≡ q
answer-injective e = cc

-- Before Amsterdam, for a typed transaction whose access list is the encoding of entries, where the
-- list, each part of it and the calldata have fewer than 2 ^ 32 bytes and there are fewer than 2 ^ 32
-- authorizations, the gas and the floor that `compute_intrinsic_gas` answers are less than 2 ^ 63.
pub compute_intrinsic_gas-lt :
    (tx : Tx) (rev : Revision) (entries : List AccessEntry) (gas floor : ℕ)
    → rev.amsterdam ≡ false
    → is_legacy tx.type ≡ false
    → All IsSmall entries
    → MaxLen (length (concat (entry_encodings entries)))
    → tx.access_list_rlp ≡ encode_list_payload (concat (entry_encodings entries))
    → MaxLen (length tx.calldata)
    → MaxLen tx.num_authorizations
    → compute_intrinsic_gas tx rev ≡ ok (gas, floor)
    → (gas < 2 ^ 63) × (floor < 2 ^ 63)
compute_intrinsic_gas-lt tx rev entries gas floor before typed small size written few auths e =
    subst (λ r. (r.0 < 2 ^ 63) × (r.1 < 2 ^ 63))
      (answer-injective
        (sym (compute_intrinsic_gas_lem tx rev entries before typed small size written) ∙ e))
      (proposed_gas-lt tx rev entries small size few auths)
