-- ===== src/IntrinsicGas/Tests.antt =====
-- A run of `compute_intrinsic_gas`.
use ziskethone.Prelude.{◌+◌, ◌*◌, ◌^◌, ◌<◌, ◌≡◌, refl, arith, true, false, some, [], ◌∷◌, ok}
use ziskethone.Rlp
use ziskethone.Rlp.{encode, encode_list_payload, concat}
use ziskethone.IntrinsicGas.{Tx, Revision, compute_intrinsic_gas, set_code}
use ziskethone.IntrinsicGas.Counts.{AccessEntry, entry_encodings}
use ziskethone.IntrinsicGas.Bounds.{compute_intrinsic_gas-lt}
use ziskethone.IntrinsicGas.Total.{proposed_gas, tokens, compute_intrinsic_gas_lem}

-- an address, and two keys of it
abbrev entry : AccessEntry
entry = record { address = 0xa ∷ 0xb ∷ []; keys = (1 ∷ []) ∷ (2 ∷ []) ∷ [] }

-- a call with two bytes of data, an access list of the entry, and one authorization
abbrev transaction : Tx
transaction = record {
  type = set_code;
  to = some 0xb;
  sender = 0xa;
  value = 0;
  calldata = 0 ∷ 7 ∷ [];
  access_list_rlp = encode_list_payload (concat (entry_encodings (entry ∷ [])));
  num_authorizations = 1;
}

abbrev prague : Revision
prague = record { shanghai = true; amsterdam = false }

gas_value : proposed_gas transaction prague (entry ∷ []) ≡ 21000 + 20 + 2400 + 2 * 1900 + 25000
gas_value = refl

compute_intrinsic_gas_lem_example :
    compute_intrinsic_gas transaction prague
    ≡ ok (proposed_gas transaction prague (entry ∷ []), 21000 + 10 * tokens (0 ∷ 7 ∷ []))
unfolding concat encode encode_list_payload Rlp.header
compute_intrinsic_gas_lem_example =
    compute_intrinsic_gas_lem transaction prague (entry ∷ []) refl refl (ground arith) (omega arith)
      refl

compute_intrinsic_gas-lt_example : (52220 < 2 ^ 63) × (21050 < 2 ^ 63)
unfolding concat encode encode_list_payload Rlp.header
compute_intrinsic_gas-lt_example =
    compute_intrinsic_gas-lt transaction prague (entry ∷ []) 52220 21050 refl refl (ground arith)
      (omega arith) refl (omega arith) (omega arith) compute_intrinsic_gas_lem_example
