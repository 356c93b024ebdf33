-- ===== src/HexPrefix/Paths.antt =====
-- A packed path stands for a list of nibbles.
use ziskethone.Prelude.{
  ℕ, zero, suc, ◌+◌, ◌-◌, ◌*◌, ◌/◌, ◌%◌, ◌≤◌, ◌<◌, ◌≡◌, ◌≢◌, refl, ap, ◌∙◌, arith, true, false,
  List, [], ◌∷◌, ◌++◌, ltb, ◌==◌, length, get_or, set, take, drop, ok, length-set, length-append,
  length-take, length-drop, get_or-append_left, get_or-append_right, get_or-take, subst,
  get_or-set_self, get_or-set_ne, Bool-cases, inl, inr,
}
use ziskethone.HexPrefix.{
  PackedPath, half, at, prepend, drop_front, assign, copy_at, cap, max_nibbles,
}

-- The nibble at a place counted from the first half of the first byte of a buffer, and the `n` nibbles
-- from it on.
abbrev pub nibble_at : ℕ → List ℕ → ℕ
nibble_at q buf = half q (get_or buf (q / 2) 0)

unfoldable pub nibbles_from : ℕ → ℕ → List ℕ → List ℕ
nibbles_from q zero buf = []
nibbles_from q (suc n) buf = nibble_at q buf ∷ nibbles_from (suc q) n buf

-- What a packed path stands for.
abbrev pub nibbles_of : PackedPath → List ℕ
nibbles_of path = nibbles_from (2 * path.start + path.off) path.len path.buf

-- The path ends in the last byte of its buffer.
pub record IsPath (path : PackedPath) : Type 0 where
  pub size : length path.buf ≡ cap
  pub half_byte : path.off < 2
  pub anchored : path.start + (path.off + path.len + 1) / 2 ≡ cap
  pub short : path.len ≤ max_nibbles

pub at-nibble_at :
    (i : ℕ) (path : PackedPath) → at i path ≡ nibble_at (2 * path.start + path.off + i) path.buf
unfolding at
at-nibble_at i path =
    let place : (2 * path.start + path.off + i) / 2 ≡ path.start + (path.off + i) / 2 =
      omega arith in
    let parity : (2 * path.start + path.off + i) % 2 ≡ (path.off + i) % 2 = omega arith in
    rw (place, parity)

pub nibbles_from-other :
    (q n : ℕ) (buf : List ℕ) (i v : ℕ)
    → 2 * i + 2 ≤ q
    → nibbles_from q n (set buf i v) ≡ nibbles_from q n buf
unfolding nibbles_from
nibbles_from-other q zero buf i v h = refl
nibbles_from-other q (suc n) buf i v h = rw (
  get_or-set_ne buf i (q / 2) v 0 (λ e. absurd (omega arith)),
  nibbles_from-other (suc q) n buf i v (omega arith),
)

pub length-nibbles_from : (q n : ℕ) (buf : List ℕ) → length (nibbles_from q n buf) ≡ n
unfolding nibbles_from
length-nibbles_from q zero buf = refl
length-nibbles_from q (suc n) buf = ap suc (length-nibbles_from (suc q) n buf)

pub drop-nibbles_from :
    (k q n : ℕ) (buf : List ℕ)
    → k ≤ n
    → nibbles_from (q + k) (n - k) buf ≡ drop k (nibbles_from q n buf)
unfolding nibbles_from
drop-nibbles_from zero q n buf h =
    let at_q : q + 0 ≡ q = omega arith in let all : n - 0 ≡ n = omega arith in rw (at_q, all)
drop-nibbles_from (suc k) q zero buf h = absurd (omega arith)
drop-nibbles_from (suc k) q (suc n) buf h =
    let at_q : q + suc k ≡ suc q + k = omega arith in
    let rest : suc n - suc k ≡ n - k = omega arith in
    rw (at_q, rest) (drop-nibbles_from k (suc q) n buf (omega arith))

-- `drop_front` of at most the path's nibbles drops them, and the path stays at its buffer's end.
pub drop_front-nibbles :
    (k : ℕ) (path : PackedPath)
    → IsPath path
    → k ≤ path.len
    → (nibbles_of (drop_front k path) ≡ drop k (nibbles_of path)) × IsPath (drop_front k path)
unfolding drop_front
drop_front-nibbles k path w h =
    let place : 2 * (path.start + (path.off + k) / 2) + (path.off + k) % 2
        ≡ 2 * path.start + path.off + k =
      omega arith in
    (
      rw place (drop-nibbles_from k (2 * path.start + path.off) path.len path.buf h),
      record {
        size = w.size;
        half_byte = omega arith;
        anchored = omega (arith, w.anchored, w.half_byte);
        short = omega (arith, w.short);
      },
    )

-- The half of a written byte, and the other half.
written_low :
    (buf : List ℕ) (i nib : ℕ)
    → i < length buf
    → nibble_at (2 * i + 1) (set buf i (nib % 16)) ≡ nib % 16
written_low buf i nib h =
    let place : (2 * i + 1) / 2 ≡ i = omega arith in
    let parity : (2 * i + 1) % 2 ≡ 1 = omega arith in
    rw (place, parity, get_or-set_self buf i (nib % 16) 0 h) (omega arith)

written_high :
    (buf : List ℕ) (i nib b : ℕ)
    → i < length buf
    → nib < 16
    → nibble_at (2 * i) (set buf i ((nib * 16) % 256 + b % 16)) ≡ nib
written_high buf i nib b h n =
    let place : (2 * i) / 2 ≡ i = omega arith in
    let parity : (2 * i) % 2 ≡ 0 = omega arith in
    rw (place, parity, get_or-set_self buf i ((nib * 16) % 256 + b % 16) 0 h) (omega arith)

kept_low :
    (buf : List ℕ) (i nib : ℕ)
    → i < length buf
    → nibble_at (2 * i + 1) (set buf i ((nib * 16) % 256 + get_or buf i 0 % 16))
      ≡ nibble_at (2 * i + 1) buf
kept_low buf i nib h =
    let place : (2 * i + 1) / 2 ≡ i = omega arith in
    let parity : (2 * i + 1) % 2 ≡ 1 = omega arith in
    rw (place, parity, get_or-set_self buf i ((nib * 16) % 256 + get_or buf i 0 % 16) 0 h)
      (omega arith)

after_half :
    (buf : List ℕ) (i nib n : ℕ)
    → i < length buf
    → nibbles_from (2 * i + 1) n (set buf i ((nib * 16) % 256 + get_or buf i 0 % 16))
      ≡ nibbles_from (2 * i + 1) n buf
unfolding nibbles_from
after_half buf i nib zero h = refl
after_half buf i nib (suc n) h =
    rw (kept_low buf i nib h, nibbles_from-other (suc (2 * i + 1)) n buf i _ (omega arith))

-- The two cases of `prepend`: into the free half of the first byte, and into one more byte.
into_half :
    (nib : ℕ) (path : PackedPath)
    → IsPath path
    → nib < 16
    → path.len < max_nibbles
    → path.off ≡ 1
    → (p : PackedPath) × (prepend nib path ≡ ok p)
      × (nibbles_of p ≡ nib ∷ nibbles_of path)
      × IsPath p
unfolding prepend nibbles_from
into_half nib path w n h odd =
    let inside : path.start < length path.buf = omega (arith, w.size, w.anchored) in
    let off_test : (path.off == 0) ≡ false = ground arith in
    let byte = (nib * 16) % 256 + get_or path.buf path.start 0 % 16 in
    let grown : (path.len + 1) % 256 ≡ suc path.len = omega arith in
    let place : 2 * path.start + 0 ≡ 2 * path.start = omega arith in
    let next : suc (2 * path.start) ≡ 2 * path.start + 1 = omega arith in
    (
      record path { buf = set path.buf path.start byte; off = 0; len = (path.len + 1) % 256 },
      rw off_test,
      rw (grown, odd, place, next, written_high path.buf path.start nib _ inside n)
          (ap (λ ns. nib ∷ ns) (after_half path.buf path.start nib path.len inside)),
      record {
        size = length-set path.buf path.start byte ∙ w.size;
        half_byte = omega arith;
        anchored = omega (arith, w.anchored);
        short = omega (arith, w.short);
      },
    )

into_byte :
    (nib : ℕ) (path : PackedPath)
    → IsPath path
    → nib < 16
    → path.len < max_nibbles
    → path.off ≡ 0
    → (p : PackedPath) × (prepend nib path ≡ ok p)
      × (nibbles_of p ≡ nib ∷ nibbles_of path)
      × IsPath p
unfolding prepend nibbles_from
into_byte nib path w n h even =
    let first = path.start - 1 in
    let some_left : 0 < path.start = omega (arith, w.anchored) in
    let inside : first < length path.buf = omega (arith, w.size, w.anchored) in
    let off_test : (path.off == 0) ≡ true = ground arith in
    let start_test : (path.start == 0) ≡ false = ground arith in
    let grown : (path.len + 1) % 256 ≡ suc path.len = omega arith in
    let next : suc (2 * first + 1) ≡ 2 * path.start + path.off = omega arith in
    let same : nib % 16 ≡ nib = omega arith in
    (
      record {
        buf = set path.buf first (nib % 16);
        start = first;
        off = 1;
        len = (path.len + 1) % 256;
      },
      rw (off_test, start_test),
      rw (
        grown,
        written_low path.buf first nib inside,
        next,
        nibbles_from-other (2 * path.start + path.off) path.len path.buf first (nib % 16)
            (omega arith),
        same,
      ),
      record {
        size = length-set path.buf first (nib % 16) ∙ w.size;
        half_byte = omega arith;
        anchored = omega (arith, w.anchored);
        short = omega (arith, w.short);
      },
    )

-- `prepend` of a nibble to a path of fewer than 64 succeeds, puts it in front of the path's nibbles, and
-- leaves a path at its buffer's end: growing to the front never passes the buffer.
pub prepend-nibbles :
    (nib : ℕ) (path : PackedPath)
    → IsPath path
    → nib < 16
    → path.len < max_nibbles
    → (p : PackedPath) × (prepend nib path ≡ ok p)
      × (nibbles_of p ≡ nib ∷ nibbles_of path)
      × IsPath p
prepend-nibbles nib path w n h = elim (Bool-cases (path.off == 0)) [
  | inl even ↦ into_byte nib path w n h (ground arith)
  | inr odd ↦ into_half nib path w n h (omega (arith, w.half_byte, off_ne odd))
]
  where
    off_ne : (path.off == 0) ≡ false → path.off ≢ 0
    off_ne e f = absurd (ground arith)

-- Two buffers that agree from a byte on hold the same nibbles there.
pub nibbles_from-agree :
    (s bound q n : ℕ) (a b : List ℕ)
    → ((j : ℕ) → j < bound → get_or a (s + j) 0 ≡ get_or b j 0)
    → q + n ≤ 2 * bound
    → nibbles_from (2 * s + q) n a ≡ nibbles_from q n b
unfolding nibbles_from
nibbles_from-agree s bound q zero a b same h = refl
nibbles_from-agree s bound q (suc n) a b same h =
    let place : (2 * s + q) / 2 ≡ s + q / 2 = omega arith in
    let parity : (2 * s + q) % 2 ≡ q % 2 = omega arith in
    let next : suc (2 * s + q) ≡ 2 * s + suc q = omega arith in
    rw (place, parity, next, same (q / 2) (omega arith))
      (ap (λ ns. nibble_at q b ∷ ns) (nibbles_from-agree s bound (suc q) n a b same (omega arith)))

length-copy_at :
    (start : ℕ) (src buf : List ℕ)
    → start + length src ≤ length buf
    → length (copy_at start src buf) ≡ length buf
length-copy_at start src buf h =
    length-append (take start buf) (src ++ drop (start + length src) buf)
    ∙ omega (
      arith,
      length-append src (drop (start + length src) buf),
      length-take start buf (omega arith),
      length-drop (start + length src) buf,
    )

-- `assign` of at most 64 nibbles, from a source that holds them, makes a path at its buffer's end that
-- stands for those nibbles.
pub assign-nibbles :
    (src : List ℕ) (first_off n : ℕ) (path : PackedPath)
    → length path.buf ≡ cap
    → first_off < 2
    → n ≤ max_nibbles
    → (first_off + n + 1) / 2 ≤ length src
    → (p : PackedPath) × (assign src first_off n path ≡ ok p)
      × (nibbles_of p ≡ nibbles_from first_off n src)
      × IsPath p
unfolding assign
assign-nibbles src first_off n path size half_byte short enough =
    let fits : ltb max_nibbles n ≡ false = ground arith in
    (
      record { buf = buf; start = start; off = first_off; len = n },
      rw fits,
      nibbles_from-agree start nbytes first_off n buf src copied (omega arith),
      record { size = buf_size; half_byte = half_byte; anchored = omega arith; short = short },
    )
  where
    nbytes : ℕ
    nbytes = (first_off + n + 1) / 2

    start : ℕ
    start = cap - nbytes

    front : List ℕ
    front = take start path.buf

    body : List ℕ
    body = take nbytes src

    back : List ℕ
    back = drop (start + length body) path.buf

    buf : List ℕ
    buf = front ++ (body ++ back)

    front_size : length front ≡ start
    front_size = length-take start path.buf (omega arith)

    body_size : length body ≡ nbytes
    body_size = length-take nbytes src enough

    buf_size : length buf ≡ cap
    buf_size = length-copy_at start body path.buf (omega (arith, size, body_size)) ∙ size

    copied : (j : ℕ) → j < nbytes → get_or buf (start + j) 0 ≡ get_or src j 0
    copied j h =
        subst (λ k. get_or buf (k + j) 0 ≡ get_or src j 0) front_size
          (get_or-append_right front (body ++ back) j 0
            ∙ get_or-append_left body back j 0 (omega (arith, body_size))
            ∙ get_or-take nbytes src j 0 h)
