-- ===== src/HexPrefix/Encoding.antt =====
-- The encoding of a packed path is that of the nibbles which it stands for.
use ziskethone.Prelude.{
  ℕ, zero, suc, ◌+◌, ◌-◌, ◌*◌, ◌/◌, ◌%◌, ◌≤◌, ◌<◌, ◌≡◌, refl, sym, ap, ◌∙◌, arith, Bool, false,
  List, [], ◌∷◌, ltb, ◌==◌, length, get_or, take, drop, Bool-cases, inl, inr,
}
use ziskethone.HexPrefix.{
  PackedPath, at, aligned_for_hp, shift_pairs, pack_pairs, hex_prefix_packed, hex_prefix, leaf_b,
  max_nibbles,
}
use ziskethone.HexPrefix.Paths.{
  IsPath, drop-nibbles_from, nibble_at, nibbles_from, nibbles_of, at-nibble_at, length-nibbles_from,
}

-- Every byte of the buffer is one.
abbrev pub AreBytes : List ℕ → Type 0
AreBytes buf = (i : ℕ) → get_or buf i 0 < 256

-- The slow path's loop packs the nibbles that are left.
shift_pairs-pack_pairs :
    (pairs i : ℕ) (path : PackedPath)
    → shift_pairs pairs i path
      ≡ pack_pairs (nibbles_from (2 * path.start + path.off + i) (2 * pairs) path.buf)
unfolding shift_pairs pack_pairs nibbles_from
shift_pairs-pack_pairs zero i path = refl
shift_pairs-pack_pairs (suc pairs) i path =
    let twice : 2 * suc pairs ≡ suc (suc (2 * pairs)) = omega arith in
    let next : 2 * path.start + path.off + (i + 1) ≡ suc (2 * path.start + path.off + i) =
      omega arith in
    let rest : 2 * path.start + path.off + (i + 2) ≡ suc (suc (2 * path.start + path.off + i)) =
      omega arith in
    rw (
      twice,
      at-nibble_at i path,
      at-nibble_at (i + 1) path,
      next,
      shift_pairs-pack_pairs pairs (i + 2) path,
      rest,
    )

drop-next : (s : ℕ) (buf : List ℕ) → s < length buf → drop s buf ≡ get_or buf s 0 ∷ drop (suc s) buf
drop-next s [] h = absurd (omega arith)
drop-next zero (b ∷ buf) h = refl
drop-next (suc s) (b ∷ buf) h = drop-next s buf (omega arith)

whole_byte :
    (s : ℕ) (buf : List ℕ)
    → AreBytes buf
    → (nibble_at (2 * s) buf % 16) * 16 + nibble_at (suc (2 * s)) buf % 16 ≡ get_or buf s 0
whole_byte s buf bytes =
    let hi : (2 * s) / 2 ≡ s = omega arith in
    let hi_half : (2 * s) % 2 ≡ 0 = omega arith in
    let lo : suc (2 * s) / 2 ≡ s = omega arith in
    let lo_half : suc (2 * s) % 2 ≡ 1 = omega arith in
    rw (hi, hi_half, lo, lo_half) (omega (arith, bytes s))

-- Whole bytes are the pairs of their nibbles.
take-pack_pairs :
    (n s : ℕ) (buf : List ℕ)
    → AreBytes buf
    → s + n ≤ length buf
    → take n (drop s buf) ≡ pack_pairs (nibbles_from (2 * s) (2 * n) buf)
unfolding pack_pairs nibbles_from
take-pack_pairs zero s buf bytes h = refl
take-pack_pairs (suc n) s buf bytes h =
    let twice : 2 * suc n ≡ suc (suc (2 * n)) = omega arith in
    let next : suc (suc (2 * s)) ≡ 2 * suc s = omega arith in
    rw (
      drop-next s buf (omega arith),
      twice,
      whole_byte s buf bytes,
      next,
      take-pack_pairs n (suc s) buf bytes (omega arith),
    )

first_nibble :
    (q n : ℕ) (buf : List ℕ) → 0 < n → nibble_at q buf ≡ get_or (nibbles_from q n buf) 0 0
unfolding nibbles_from
first_nibble q zero buf h = absurd (omega arith)
first_nibble q (suc n) buf h = refl

abbrev odd_head : PackedPath → Bool → ℕ
odd_head path leaf = leaf_b leaf + 0x10 + get_or (nibbles_of path) 0 0 % 16

module _ (path : PackedPath) (leaf : Bool) (w : IsPath path) (bytes : AreBytes path.buf) where
  abbrev rest_after : ℕ → List ℕ
  rest_after k = pack_pairs (drop k (nibbles_of path))

  at_0 : 0 < path.len → at 0 path ≡ get_or (nibbles_of path) 0 0
  at_0 h =
      let place : 2 * path.start + path.off + 0 ≡ 2 * path.start + path.off = omega arith in
      at-nibble_at 0 path
      ∙ ap (λ q. nibble_at q path.buf) place
      ∙ first_nibble (2 * path.start + path.off) path.len path.buf h

  rest_from :
      (k n q : ℕ)
      → k ≤ path.len
      → path.len - k ≡ n
      → 2 * path.start + path.off + k ≡ q
      → pack_pairs (nibbles_from q n path.buf) ≡ rest_after k
  rest_from k n q h e f =
      rw (sym e, sym f, drop-nibbles_from k (2 * path.start + path.off) path.len path.buf h)

  copied_odd :
      path.len % 2 ≡ 1
      → path.off ≡ 1
      → take ((path.len - 1) / 2) (drop (path.start + 1) path.buf) ≡ rest_after 1
  copied_odd odd off =
      take-pack_pairs ((path.len - 1) / 2) (path.start + 1) path.buf bytes
        (omega (arith, w.size, w.anchored))
      ∙ rest_from 1 (2 * ((path.len - 1) / 2)) (2 * (path.start + 1)) (omega arith) (omega arith)
          (omega arith)

  copied_even :
      path.len % 2 ≡ 0
      → path.off ≡ 0
      → take (path.len / 2) (drop path.start path.buf) ≡ rest_after 0
  copied_even even off =
      take-pack_pairs (path.len / 2) path.start path.buf bytes (omega (arith, w.size, w.anchored))
      ∙ rest_from 0 (2 * (path.len / 2)) (2 * path.start) (omega arith) (omega arith) (omega arith)

  shifted_odd : path.len % 2 ≡ 1 → shift_pairs (path.len / 2) 1 path ≡ rest_after 1
  shifted_odd odd =
      shift_pairs-pack_pairs (path.len / 2) 1 path
      ∙ rest_from 1 (2 * (path.len / 2)) (2 * path.start + path.off + 1) (omega arith) (omega arith)
          refl

  shifted_even : path.len % 2 ≡ 0 → shift_pairs (path.len / 2) 0 path ≡ rest_after 0
  shifted_even even =
      shift_pairs-pack_pairs (path.len / 2) 0 path
      ∙ rest_from 0 (2 * (path.len / 2)) (2 * path.start + path.off + 0) (omega arith) (omega arith)
          refl

  -- The encoding of a packed path in a buffer of bytes, by its copy of whole bytes or by its shifts, is
  -- the encoding of the nibbles that the path stands for.
  pub hex_prefix_packed-eq-hex_prefix :
      hex_prefix_packed path leaf ≡ hex_prefix (nibbles_of path) leaf
  unfolding hex_prefix_packed hex_prefix aligned_for_hp
  hex_prefix_packed-eq-hex_prefix =
      let fits : ltb max_nibbles path.len ≡ false = ground (arith, w.short) in
      rw (length-nibbles_from (2 * path.start + path.off) path.len path.buf, fits)
        (elim (Bool-cases (path.len % 2 == 1)) [
          | inl odd ↦ rw odd (elim (Bool-cases (path.off == path.len % 2)) [
            | inl aligned ↦
                rw (aligned, at_0 (ground arith), copied_odd (ground arith) (ground arith))
            | inr shifted ↦ rw (shifted, at_0 (ground arith), shifted_odd (ground arith))
          ])
          | inr even ↦ rw even (elim (Bool-cases (path.off == path.len % 2)) [
            | inl aligned ↦ rw (aligned, copied_even (ground arith) (ground arith))
            | inr shifted ↦ rw (shifted, shifted_even (ground arith))
          ])
        ])
