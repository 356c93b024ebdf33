-- ===== src/Rlp/Iterate.antt =====
-- A loop of `ListIter::next` over the payload of a list.
use ziskethone.Prelude.{
  ℕ, zero, suc, ◌^◌, ◌≤◌, ◌<◌, ◌≡◌, ◌≢◌, refl, sym, ap, subst, ◌∙◌, arith, List, [], ◌∷◌, ◌++◌,
  length, length-append, drop, drop-append, All, All-right, Result, ok, fatal, ◌>>=◌, ◌⊎◌, inl, inr,
}
use ziskethone.Prelude.Bytes.{IsByte}
use ziskethone.Rlp.{encode, concat}
use ziskethone.Rlp.Decode.{
  string, Item, item, Fault, out_of_fuel, decode_item, decode_short_string, decode_short_list,
  decode_long, next, collect,
}
use ziskethone.Rlp.RoundTrip.{MaxLen, decode_item-encode}
use ziskethone.Rlp.Canonical.{IsCanonical, wrap, decode_item-IsCanonical}

Result-cases :
    {A : Type 0} (r : Result Fault A) → ((a : A) × (r ≡ ok a)) ⊎ ((e : Fault) × (r ≡ fatal e))
Result-cases (ok a) = inl (a, refl)
Result-cases (fatal e) = inr (e, refl)

decode_item-ne-out_of_fuel : (input : List ℕ) → decode_item input ≢ fatal out_of_fuel
unfolding decode_item decode_short_string decode_short_list decode_long
decode_item-ne-out_of_fuel [] h = cc
decode_item-ne-out_of_fuel (b ∷ rest) h = ground arith

-- One step of the loop.
collect-step :
    (fuel b : ℕ) (rest : List ℕ) (it : Item)
    → decode_item (b ∷ rest) ≡ ok it
    → collect (suc fuel) (b ∷ rest)
      ≡ (do items ← collect fuel (drop (length it.raw) (b ∷ rest)); ok (it ∷ items))
unfolding collect next
collect-step fuel b rest it h = rw h

collect-fault :
    (fuel b : ℕ) (rest : List ℕ) (e : Fault)
    → decode_item (b ∷ rest) ≡ fatal e
    → collect (suc fuel) (b ∷ rest) ≡ fatal e
unfolding collect next
collect-fault fuel b rest e h = rw h

abbrev pub raws : List Item → List (List ℕ)
raws [] = []
raws (it ∷ items) = it.raw ∷ raws items

abbrev pub AllCanonical : List Item → Type 0
AllCanonical = All (λ it. it.raw ≡ wrap it.kind it.payload)

-- What an accepted item leaves behind is a shorter input of bytes.
remaining :
    (input : List ℕ) (it : Item)
    → IsCanonical input it
    → All IsByte input
    → All IsByte (drop (length it.raw) input) × (length (drop (length it.raw) input) < length input)
remaining input it c bytes = (
  All-right IsByte it.raw (drop (length it.raw) input) (subst (All IsByte) (sym c.front) bytes),
  omega (arith, ap length c.front, length-append it.raw (drop (length it.raw) input), c.progress),
)

-- The same fault at another result type.
fatal_at :
    {e f : Fault}
    → ◌≡◌ {A = Result Fault (List Item)} (fatal e) (fatal f)
    → ◌≡◌ {A = Result Fault Item} (fatal e) (fatal f)
fatal_at h = ground arith

bind-ne-out_of_fuel :
    (it : Item) (r : Result Fault (List Item))
    → r ≢ fatal out_of_fuel
    → (do items ← r; ok (it ∷ items)) ≢ fatal out_of_fuel
bind-ne-out_of_fuel it (ok items) h e = cc
bind-ne-out_of_fuel it (fatal x) h e = h e

-- Over any payload of fewer than 2 ^ 32 bytes the loop ends: as much fuel as the payload has bytes
-- does not run out.
pub collect-ne-out_of_fuel :
    (fuel : ℕ) (payload : List ℕ)
    → All IsByte payload
    → length payload < 2 ^ 32
    → length payload ≤ fuel
    → collect fuel payload ≢ fatal out_of_fuel
collect-ne-out_of_fuel fuel [] bytes size h = unfold collect in λ e. cc
collect-ne-out_of_fuel zero (b ∷ rest) bytes size h = absurd (omega arith)
collect-ne-out_of_fuel (suc fuel) (b ∷ rest) bytes size h =
    elim (Result-cases (decode_item (b ∷ rest))) [
      | inl (it, accepted) ↦
          let c : IsCanonical (b ∷ rest) it =
            decode_item-IsCanonical (b ∷ rest) it bytes size accepted in
          let (left, shorter) = remaining (b ∷ rest) it c bytes in
          rw (collect-step fuel b rest it accepted) (
            bind-ne-out_of_fuel it (collect fuel (drop (length it.raw) (b ∷ rest))) (
              collect-ne-out_of_fuel fuel (drop (length it.raw) (b ∷ rest)) left (omega arith)
                (omega arith)))
      | inr (e, refused) ↦
          rw (collect-fault fuel b rest e refused)
            (λ q. decode_item-ne-out_of_fuel (b ∷ rest) (refused ∙ fatal_at q))
    ]

concat-cons :
    (it : Item) (more : List Item) → concat (raws (it ∷ more)) ≡ it.raw ++ concat (raws more)
unfolding concat
concat-cons it more = refl

collect-ok :
    (fuel b : ℕ) (rest : List ℕ) (items : List Item)
    → collect (suc fuel) (b ∷ rest) ≡ ok items
    → (it : Item) × (decode_item (b ∷ rest) ≡ ok it)
      × (more : List Item) × (collect fuel (drop (length it.raw) (b ∷ rest)) ≡ ok more)
      × (items ≡ it ∷ more)
collect-ok fuel b rest items h = elim (Result-cases (decode_item (b ∷ rest))) [
  | inl (it, accepted) ↦
      let after = collect fuel (drop (length it.raw) (b ∷ rest)) in
      elim (Result-cases after) [
        | inl (more, found) ↦
            (it, accepted, more, found, cc (collect-step fuel b rest it accepted, found, h))
        | inr (e, refused) ↦ absurd (cc (collect-step fuel b rest it accepted, refused, h))
      ]
  | inr (e, refused) ↦ absurd (cc (collect-fault fuel b rest e refused, h))
]

-- Where the loop accepts a payload of fewer than 2 ^ 32 bytes, the items lie side by side in it with
-- nothing left over, and each is the encoding that the encoder of its kind writes for its payload.
pub collect_partition :
    (fuel : ℕ) (payload : List ℕ) (items : List Item)
    → All IsByte payload
    → length payload < 2 ^ 32
    → collect fuel payload ≡ ok items
    → (concat (raws items) ≡ payload) × AllCanonical items
collect_partition fuel [] [] bytes size h = (unfold concat in refl, tt)
collect_partition fuel [] (it ∷ items) bytes size h = unfold collect in absurd (cc)
collect_partition zero (b ∷ rest) items bytes size h = unfold collect in cc
collect_partition (suc fuel) (b ∷ rest) items bytes size h =
    let (it, accepted, more, found, split) = collect-ok fuel b rest items h in
    let c : IsCanonical (b ∷ rest) it = decode_item-IsCanonical (b ∷ rest) it bytes size accepted in
    let (left, shorter) = remaining (b ∷ rest) it c bytes in
    let (joined, canonical) =
      collect_partition fuel (drop (length it.raw) (b ∷ rest)) more left (omega arith) found in
    rw split (rw (concat-cons it more, joined) c.front, (c.canonical, canonical))

abbrev pub encodings : List (List ℕ) → List (List ℕ)
encodings [] = []
encodings (s ∷ ss) = encode s ∷ encodings ss

abbrev string_items : List (List ℕ) → List Item
string_items [] = []
string_items (s ∷ ss) = item string (encode s) s ∷ string_items ss

collect-accepted :
    (fuel : ℕ) (payload : List ℕ) (it : Item)
    → decode_item payload ≡ ok it
    → length payload ≤ fuel
    → (f : ℕ) × (fuel ≡ suc f)
      × (collect fuel payload
          ≡ (do items ← collect f (drop (length it.raw) payload); ok (it ∷ items)))
collect-accepted fuel [] it accepted h = unfold decode_item in absurd (cc)
collect-accepted zero (b ∷ rest) it accepted h = absurd (omega arith)
collect-accepted (suc f) (b ∷ rest) it accepted h = (f, refl, collect-step f b rest it accepted)

nonempty : (xs : List ℕ) (it : Item) → decode_item (xs ++ []) ≡ ok it → 0 < length xs
nonempty [] it h = unfold decode_item in absurd (cc)
nonempty (x ∷ xs) it h = omega arith

pub encode_nonempty : (s : List ℕ) → MaxLen (length s) → 0 < length (encode s)
encode_nonempty s h = nonempty (encode s) (item string (encode s) s) (decode_item-encode s [] h)

fuel_left : {fuel f a b : ℕ} → fuel ≡ suc f → a < b → b ≤ fuel → a ≤ f
fuel_left e lt le = omega arith

-- Over the encodings, side by side, of byte strings of fewer than 2 ^ 32 bytes, with as much fuel as
-- they have bytes, the loop returns the strings.
pub collect-encodings :
    (fuel : ℕ) (ss : List (List ℕ))
    → All (λ s. MaxLen (length s)) ss
    → length (concat (encodings ss)) ≤ fuel
    → collect fuel (concat (encodings ss)) ≡ ok (string_items ss)
collect-encodings fuel [] sizes h = unfold collect concat in refl
collect-encodings fuel (s ∷ ss) (hs, sizes) h =
    let rest = concat (encodings ss) in
    let accepted : decode_item (encode s ++ rest) ≡ ok (item string (encode s) s) =
      decode_item-encode s rest hs in
    let joined : concat (encodings (s ∷ ss)) ≡ encode s ++ rest = unfold concat in refl in
    let (f, more, step) =
      collect-accepted fuel (encode s ++ rest) (item string (encode s) s) accepted
        (rw (← joined) h) in
    let shorter : length rest < length (encode s ++ rest) =
      omega (arith, length-append (encode s) rest, encode_nonempty s hs) in
    let bound : length (encode s ++ rest) ≤ fuel = rw (← joined) h in
    rw (joined, step, drop-append (encode s) rest)
      (rw (collect-encodings f ss sizes (fuel_left more shorter bound)) refl)
