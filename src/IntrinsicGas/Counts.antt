-- ===== src/IntrinsicGas/Counts.antt =====
-- The walk over an access list that an encoder wrote counts its addresses and its keys.
use ziskethone.Prelude.{
  ℕ, suc, ◌+◌, ◌-◌, ◌≤◌, ◌<◌, ◌≡◌, refl, ap, subst, ◌∙◌, arith, List, [], ◌∷◌, ◌++◌, append-nil,
  length, length-append, drop, drop-append, All, ok,
}
use ziskethone.Rlp.{encode, encode_list_payload, concat}
use ziskethone.Rlp.Decode.{Item, string, list, item, decode_item, next}
use ziskethone.Rlp.RoundTrip.{MaxLen, decode_item-encode, decode_item-encode_list_payload}
use ziskethone.Rlp.Iterate.{encode_nonempty, encodings}
use ziskethone.IntrinsicGas.{
  count_keys, keys_field, after_address, walk_entry, entry_item, count_entries, outer_item,
}

-- What `next` answers where the front of the payload decodes.
next-accepted :
    (front rest : List ℕ) (it : Item)
    → decode_item (front ++ rest) ≡ ok it
    → it.raw ≡ front
    → next (front ++ rest) ≡ ok (it, rest)
next-accepted front rest it h raw = go (front ++ rest) h ∙ ap (λ n. ok (it, n)) left
  where
    go :
        (bytes : List ℕ)
        → decode_item bytes ≡ ok it
        → next bytes ≡ ok (it, drop (length it.raw) bytes)
    go [] e = unfold decode_item in absurd (cc)
    go (b ∷ bytes) e = unfold next in rw e refl

    left : drop (length it.raw) (front ++ rest) ≡ rest
    left = rw (raw, drop-append front rest) refl

next-encode :
    (s rest : List ℕ)
    → MaxLen (length s)
    → next (encode s ++ rest) ≡ ok (item string (encode s) s, rest)
next-encode s rest h =
    next-accepted (encode s) rest (item string (encode s) s) (decode_item-encode s rest h) refl

next-encode_list_payload :
    (p rest : List ℕ)
    → MaxLen (length p)
    → next (encode_list_payload p ++ rest) ≡ ok (item list (encode_list_payload p) p, rest)
next-encode_list_payload p rest h =
    next-accepted (encode_list_payload p) rest (item list (encode_list_payload p) p)
      (decode_item-encode_list_payload p rest h) refl

more_fuel : (a b : ℕ) → suc a + b ≡ suc (a + b)
more_fuel a b = omega arith

-- One round of the loop over the keys.
count_keys-step :
    (fuel : ℕ) (bytes : List ℕ) (it : Item) (rest : List ℕ) (n : ℕ)
    → next bytes ≡ ok (it, rest)
    → count_keys (suc fuel) bytes n ≡ count_keys fuel rest (n + 1)
unfolding count_keys
count_keys-step fuel [] it rest n h = unfold next in absurd (cc)
count_keys-step fuel (b ∷ bytes) it rest n h = rw h refl

count_keys-encodings :
    (keys : List (List ℕ)) (spare n : ℕ)
    → All (λ key. MaxLen (length key)) keys
    → count_keys (length keys + spare) (concat (encodings keys)) n ≡ ok (n + length keys)
count_keys-encodings [] spare n h = unfold concat count_keys in ap ok (omega arith)
count_keys-encodings (key ∷ keys) spare n (hk, h) =
    let rest = concat (encodings keys) in
    let joined : concat (encodings (key ∷ keys)) ≡ encode key ++ rest = unfold concat in refl in
    rw (joined, more_fuel (length keys) spare)
      (count_keys-step (length keys + spare) (encode key ++ rest) (item string (encode key) key)
          rest n (next-encode key rest hk)
        ∙ count_keys-encodings keys spare (n + 1) h
        ∙ ap ok (omega arith))

pub length-keys-le :
    (keys : List (List ℕ))
    → All (λ key. MaxLen (length key)) keys
    → length keys ≤ length (concat (encodings keys))
unfolding concat
length-keys-le [] h = omega arith
length-keys-le (key ∷ keys) (hk, h) = omega (
  arith,
  length-append (encode key) (concat (encodings keys)),
  encode_nonempty key hk,
  length-keys-le keys h,
)

at_most : {a b : ℕ} → a ≤ b → a + (b - a) ≡ b
at_most h = omega arith

-- The fuel that the walk gives the loop, the payload's length, is enough.
count_keys-enough :
    (keys : List (List ℕ)) (n : ℕ)
    → All (λ key. MaxLen (length key)) keys
    → count_keys (length (concat (encodings keys))) (concat (encodings keys)) n
      ≡ ok (n + length keys)
count_keys-enough keys n h =
    let p = concat (encodings keys) in
    subst (λ fuel. count_keys fuel p n ≡ ok (n + length keys)) (at_most (length-keys-le keys h))
      (count_keys-encodings keys (length p - length keys) n h)

-- An entry of an access list: an address, and the slots' keys.
pub record AccessEntry : Type 0 where
  pub address : List ℕ
  pub keys : List (List ℕ)

abbrev pub keys_payload : AccessEntry → List ℕ
keys_payload e = concat (encodings e.keys)

abbrev pub entry_payload : AccessEntry → List ℕ
entry_payload e = encode e.address ++ encode_list_payload (keys_payload e)

-- Each byte string and each payload of the entry has fewer than 2 ^ 32 bytes.
abbrev pub IsSmall : AccessEntry → Type 0
IsSmall e =
    MaxLen (length e.address)
    × All (λ key. MaxLen (length key)) e.keys
    × MaxLen (length (keys_payload e))
    × MaxLen (length (entry_payload e))

walk_entry-step :
    (bytes : List ℕ) (it : Item) (rest : List ℕ) (n : ℕ)
    → next bytes ≡ ok (it, rest)
    → walk_entry bytes n ≡ after_address rest n
unfolding walk_entry
walk_entry-step [] it rest n h = unfold next in absurd (cc)
walk_entry-step (b ∷ bytes) it rest n h = rw h refl

after_address-step :
    (bytes : List ℕ) (it : Item) (rest : List ℕ) (n : ℕ)
    → next bytes ≡ ok (it, rest)
    → after_address bytes n ≡ keys_field it n
after_address-step [] it rest n h = unfold next in absurd (cc)
after_address-step (b ∷ bytes) it rest n h = rw h refl

walk_entry-encoded :
    (e : AccessEntry) (n : ℕ) → IsSmall e → walk_entry (entry_payload e) n ≡ ok (n + length e.keys)
walk_entry-encoded e n (ha, hk, hp, hw) =
    let keys_list = encode_list_payload (keys_payload e) in
    walk_entry-step (entry_payload e) (item string (encode e.address) e.address) keys_list n
      (next-encode e.address keys_list ha)
    ∙ after_address-step keys_list (item list keys_list (keys_payload e)) [] n (
        subst (λ bytes. next bytes ≡ ok (item list keys_list (keys_payload e), []))
          (append-nil keys_list) (next-encode_list_payload (keys_payload e) [] hp))
    ∙ count_keys-enough e.keys n hk

abbrev pub entry_encodings : List AccessEntry → List (List ℕ)
entry_encodings [] = []
entry_encodings (e ∷ entries) = encode_list_payload (entry_payload e) ∷ entry_encodings entries

abbrev pub key_total : List AccessEntry → ℕ
key_total [] = 0
key_total (e ∷ entries) = length e.keys + key_total entries

count_entries-step :
    (fuel : ℕ) (bytes : List ℕ) (it : Item) (rest : List ℕ) (a k k' : ℕ)
    → next bytes ≡ ok (it, rest)
    → entry_item it k ≡ ok k'
    → count_entries (suc fuel) bytes a k ≡ count_entries fuel rest (a + 1) k'
unfolding count_entries
count_entries-step fuel [] it rest a k k' h e = unfold next in absurd (cc)
count_entries-step fuel (b ∷ bytes) it rest a k k' h e = rw (h, e) refl

count_entries-encoded :
    (entries : List AccessEntry) (spare a k : ℕ)
    → All IsSmall entries
    → count_entries (length entries + spare) (concat (entry_encodings entries)) a k
      ≡ ok (a + length entries, k + key_total entries)
count_entries-encoded [] spare a k h = unfold concat count_entries in ap ok (ground arith)
count_entries-encoded (e ∷ entries) spare a k (he, h) =
    let rest = concat (entry_encodings entries) in
    let front = encode_list_payload (entry_payload e) in
    let joined : concat (entry_encodings (e ∷ entries)) ≡ front ++ rest = unfold concat in refl in
    let (_, _, _, hw) = he in
    rw (joined, more_fuel (length entries) spare)
      (count_entries-step (length entries + spare) (front ++ rest)
          (item list front (entry_payload e)) rest a k (k + length e.keys)
          (next-encode_list_payload (entry_payload e) rest hw) (walk_entry-encoded e k he)
        ∙ count_entries-encoded entries spare (a + 1) (k + length e.keys) h
        ∙ ap ok (ground arith))

list_nonempty : (p : List ℕ) → MaxLen (length p) → 0 < length (encode_list_payload p)
list_nonempty p h = go (encode_list_payload p) (decode_item-encode_list_payload p [] h)
  where
    go : (bytes : List ℕ) {it : Item} → decode_item (bytes ++ []) ≡ ok it → 0 < length bytes
    go [] e = unfold decode_item in absurd (cc)
    go (b ∷ bytes) e = omega arith

pub length-entries-le :
    (entries : List AccessEntry)
    → All IsSmall entries
    → length entries ≤ length (concat (entry_encodings entries))
unfolding concat
length-entries-le [] h = omega arith
length-entries-le (e ∷ entries) ((ha, hk, hp, hw), h) = omega (
  arith,
  length-append (encode_list_payload (entry_payload e)) (concat (entry_encodings entries)),
  list_nonempty (entry_payload e) hw,
  length-entries-le entries h,
)

-- Over a list item whose payload is the encodings of entries the walk counts the entries and the keys.
pub outer_item-encoded :
    (entries : List AccessEntry) (raw : List ℕ)
    → All IsSmall entries
    → outer_item (item list raw (concat (entry_encodings entries)))
      ≡ ok (length entries, key_total entries)
outer_item-encoded entries raw h =
    let p = concat (entry_encodings entries) in
    subst (λ fuel. count_entries fuel p 0 0 ≡ ok (length entries, key_total entries))
      (at_most (length-entries-le entries h))
      (count_entries-encoded entries (length p - length entries) 0 0 h ∙ ap ok (ground arith))
