-- ===== src/Rlp/Trim.antt =====
-- The encoders' count of leading zero bytes, against the plain function that drops them.
use ziskethone.Prelude.{
  ℕ, zero, suc, ◌+◌, ◌-◌, ◌*◌, ◌/◌, ◌^◌, ◌≤◌, ◌<◌, ◌≡◌, ◌≢◌, refl, sym, ap, ◌∙◌, arith, List, [],
  ◌∷◌, ◌++◌, length, take, drop, replicate, get_or, All, ◌==◌, lt→ltb, le→ltb_false, All-take,
  All-drop, length-take, length-drop, take-append-drop, if◌then◌else◌,
}
use ziskethone.Prelude.Bytes.{IsByte, big_endian, big_endian-lt, one-le-shift}
use ziskethone.Rlp.Width.{big_endian-ge}
use ziskethone.Rlp.{leading_zeros, significant_start}
use native.Mathlib.Decide.{dec_lt, ℕ_discrete}
use native.Mathlib.Nat.{pow-le-pow_right, zero-add}

-- The bytes without the zeros before the first other one.
unfoldable pub trim : List ℕ → List ℕ
trim [] = []
trim (b ∷ bs) = if b == 0 then trim bs else b ∷ bs

pub big_endian-trim : (bs : List ℕ) → big_endian (trim bs) ≡ big_endian bs
unfolding trim big_endian
big_endian-trim [] = refl
big_endian-trim (b ∷ bs) = ground (arith, big_endian-trim bs)

pub length-trim-le : (bs : List ℕ) → length (trim bs) ≤ length bs
unfolding trim
length-trim-le [] = omega arith
length-trim-le (b ∷ bs) = ground (arith, length-trim-le bs)

pub trim-IsByte : (bs : List ℕ) → All IsByte bs → All IsByte (trim bs)
unfolding trim
trim-IsByte [] h = tt
trim-IsByte (b ∷ bs) (hb, h) = ground (arith, trim-IsByte bs h)

pub head-trim : (bs : List ℕ) → 0 < length (trim bs) → get_or (trim bs) 0 0 ≢ 0
unfolding trim
head-trim [] h = absurd (omega arith)
head-trim (b ∷ bs) h = ground (arith, head-trim bs)

pub trim-zero : (bs : List ℕ) → trim (0 ∷ bs) ≡ trim bs
unfolding trim
trim-zero bs = refl

pub trim-suc : (b : ℕ) (bs : List ℕ) → trim (suc b ∷ bs) ≡ suc b ∷ bs
unfolding trim
trim-suc b bs = ground arith

lt_not_le : {a b : ℕ} → a < b → ¬ (b ≤ a)
lt_not_le h = omega arith

big_endian-zero : (bs : List ℕ) → big_endian (0 ∷ bs) ≡ big_endian bs
unfolding big_endian
big_endian-zero bs = omega arith

-- Zeros put back before the trimmed bytes give the bytes.
pub pad-trim : (bs : List ℕ) → replicate (length bs - length (trim bs)) 0 ++ trim bs ≡ bs
pad-trim [] = unfold trim in refl
pad-trim (zero ∷ bs) =
    let more : suc (length bs) - length (trim bs) ≡ suc (length bs - length (trim bs)) =
      omega (arith, length-trim-le bs) in
    rw (trim-zero bs, more) (ap (λ t. 0 ∷ t) (pad-trim bs))
pad-trim (suc b ∷ bs) =
    let none : suc (length bs) - suc (length bs) ≡ 0 = omega arith in rw (trim-suc b bs, none)

pow_mono : (n m : ℕ) → n ≤ m → 2 ^ n ≤ 2 ^ m
pow_mono n m h = pow-le-pow_right {n = 2} (omega arith) h

suc_add : (k m : ℕ) → suc k + m ≡ suc (k + m)
suc_add k m = omega arith

leading_zeros-suc_lt : (w v : ℕ) → v < 2 ^ w → leading_zeros (suc w) v ≡ suc (leading_zeros w v)
unfolding leading_zeros
leading_zeros-suc_lt w v h = rw (lt→ltb v (2 ^ w) h)

leading_zeros-suc_ge : (w v : ℕ) → 2 ^ w ≤ v → leading_zeros (suc w) v ≡ 0
unfolding leading_zeros
leading_zeros-suc_ge w v h = rw (le→ltb_false v (2 ^ w) h)

-- Bits above a number that fits `m` of them are zero, and the highest of the `m` stops the count.
leading_zeros_skip : (k m v : ℕ) → v < 2 ^ m → leading_zeros (k + m) v ≡ k + leading_zeros m v
leading_zeros_skip zero m v h = rw (zero-add m, zero-add (leading_zeros m v))
leading_zeros_skip (suc k) m v h =
    rw (suc_add k m, suc_add k (leading_zeros m v))
      (leading_zeros-suc_lt (k + m) v (omega (arith, pow_mono m (k + m) (omega arith)))
        ∙ ap suc (leading_zeros_skip k m v h))

leading_zeros_stop : (k m v : ℕ) → 2 ^ m ≤ v → v < 2 ^ (k + m) → leading_zeros (k + m) v < k
leading_zeros_stop zero m v h l = absurd (lt_not_le (rw zero-add at l) h)
leading_zeros_stop (suc k) m v h l = rw (suc_add k m) (elim (dec_lt v (2 ^ (k + m))) [
  | yes p ↦ rw (leading_zeros-suc_lt (k + m) v p) (omega (arith, leading_zeros_stop k m v h p))
  | no p ↦ rw (leading_zeros-suc_ge (k + m) v (omega arith)) (omega arith)
])

eight_more : (n : ℕ) → 8 * suc n ≡ 8 + 8 * n
eight_more n = omega arith

-- For a value other than 0, an eighth of the leading zeros is the number of bytes that `trim` drops.
pub drop-leading_zeros :
    (bs : List ℕ)
    → All IsByte bs
    → big_endian bs ≢ 0
    → drop (leading_zeros (8 * length bs) (big_endian bs) / 8) bs ≡ trim bs
drop-leading_zeros [] h nz = absurd (nz (unfold big_endian in refl))
drop-leading_zeros (zero ∷ bs) (hb, h) nz =
    let z = leading_zeros (8 * length bs) (big_endian bs) in
    let byte : (8 + z) / 8 ≡ suc (z / 8) = omega arith in
    rw
      (
        eight_more (length bs),
        big_endian-zero bs,
        trim-zero bs,
        leading_zeros_skip 8 (8 * length bs) (big_endian bs) (big_endian-lt bs h),
        byte,
      )
      (drop-leading_zeros bs h (λ e. nz (big_endian-zero bs ∙ e)))
drop-leading_zeros (suc b ∷ bs) (hb, h) nz =
    let v = big_endian (suc b ∷ bs) in
    let below : v < 2 ^ (8 + 8 * length bs) =
      rw eight_more at (big_endian-lt (suc b ∷ bs) (hb, h)) in
    let stop : leading_zeros (8 + 8 * length bs) v < 8 =
      leading_zeros_stop 8 (8 * length bs) v (big_endian-ge (suc b) bs (λ e. omega arith)) below in
    let none : leading_zeros (8 + 8 * length bs) v / 8 ≡ 0 = omega (arith, stop) in
    rw (trim-suc b bs, eight_more (length bs), none) refl

leading_zeros-le : (w v : ℕ) → leading_zeros w v ≤ w
unfolding leading_zeros
leading_zeros-le zero v = omega arith
leading_zeros-le (suc w) v = ground (arith, leading_zeros-le w v)

trim-append_zero : (xs ys : List ℕ) → big_endian xs ≡ 0 → trim (xs ++ ys) ≡ trim ys
trim-append_zero [] ys h = refl
trim-append_zero (zero ∷ xs) ys h =
    trim-zero (xs ++ ys) ∙ trim-append_zero xs ys (sym (big_endian-zero xs) ∙ h)
trim-append_zero (suc b ∷ xs) ys h =
    absurd (omega (arith, big_endian-ge (suc b) xs (λ e. omega arith), one-le-shift (length xs)))

trim-append_ne : (xs ys : List ℕ) → big_endian xs ≢ 0 → trim (xs ++ ys) ≡ trim xs ++ ys
trim-append_ne [] ys h = absurd (h (unfold big_endian in refl))
trim-append_ne (zero ∷ xs) ys h =
    rw (trim-zero xs, trim-zero (xs ++ ys)) (trim-append_ne xs ys (λ e. h (big_endian-zero xs ∙ e)))
trim-append_ne (suc b ∷ xs) ys h = rw (trim-suc b xs, trim-suc b (xs ++ ys))

drop-append_le : (q : ℕ) (xs ys : List ℕ) → q ≤ length xs → drop q (xs ++ ys) ≡ drop q xs ++ ys
drop-append_le zero xs ys h = refl
drop-append_le (suc q) [] ys h = absurd (omega arith)
drop-append_le (suc q) (x ∷ xs) ys h = drop-append_le q xs ys (omega arith)

significant_start-zero :
    (words : ℕ) (bytes : List ℕ)
    → big_endian (take 8 bytes) ≡ 0
    → significant_start (suc words) bytes ≡ 8 + significant_start words (drop 8 bytes)
unfolding significant_start
significant_start-zero words bytes h = rw h

significant_start-word :
    (words : ℕ) (bytes : List ℕ)
    → big_endian (take 8 bytes) ≢ 0
    → significant_start (suc words) bytes ≡ leading_zeros 64 (big_endian (take 8 bytes)) / 8
unfolding significant_start
significant_start-word words bytes h = ground arith

drop-nil : (n : ℕ) → drop {A = ℕ} n [] ≡ []
drop-nil zero = refl
drop-nil (suc n) = refl

drop_add : (a b : ℕ) (xs : List ℕ) → drop (a + b) xs ≡ drop b (drop a xs)
drop_add zero b xs = ap (λ k. drop k xs) (zero-add b)
drop_add (suc a) b [] = rw (suc_add a b, drop-nil b)
drop_add (suc a) b (x ∷ xs) = rw (suc_add a b) (drop_add a b xs)

-- The count by words drops what `trim` drops.
pub drop-significant_start :
    (words : ℕ) (bytes : List ℕ)
    → length bytes ≡ 8 * words
    → All IsByte bytes
    → drop (significant_start words bytes) bytes ≡ trim bytes
drop-significant_start zero [] size h = unfold trim significant_start in refl
drop-significant_start zero (b ∷ bytes) size h = absurd (omega arith)
drop-significant_start (suc words) bytes size h =
    let xs = take 8 bytes in
    let ys = drop 8 bytes in
    let x_size : length xs ≡ 8 = length-take 8 bytes (omega arith) in
    let y_size : length ys ≡ 8 * words = length-drop 8 bytes ∙ omega arith in
    elim (ℕ_discrete (big_endian xs) 0) [
      | yes p ↦
          rw (significant_start-zero words bytes p, drop_add 8 (significant_start words ys) bytes)
            (drop-significant_start words ys y_size (All-drop IsByte 8 bytes h)
              ∙ sym (trim-append_zero xs ys p)
              ∙ ap trim (take-append-drop 8 bytes))
      | no p ↦
          let q = leading_zeros 64 (big_endian xs) / 8 in
          let few : q ≤ length xs =
            rw x_size (omega (arith, leading_zeros-le 64 (big_endian xs))) in
          rw (significant_start-word words bytes p) (
            ap (drop q) (sym (take-append-drop 8 bytes))
            ∙ drop-append_le q xs ys few
            ∙ ap (λ t. t ++ ys) (rw x_size at (drop-leading_zeros xs (All-take IsByte 8 bytes h) p))
            ∙ sym (trim-append_ne xs ys p)
            ∙ ap trim (take-append-drop 8 bytes))
    ]
