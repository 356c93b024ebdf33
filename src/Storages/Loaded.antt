-- ===== src/Storages/Loaded.antt =====
-- A storage table in use: its rows are appended once, in order, and then it is only searched and written.
use ziskethone.Prelude.{
  ℕ, suc, ◌+◌, ◌≤◌, ◌≡◌, refl, ap, ◌∙◌, arith, false, ◌&&◌, Option, none, some, List, [], ◌∷◌, ◌++◌,
  ◌==◌, if◌then◌else◌, length, length-append, leb, Result, ok, ◌>>=◌, Bool-cases, inl, inr,
}
use ziskethone.Storages.{
  Storages, Original, Fault, empty, find, append, emplace, reserve, forget, fresh_mods,
  set_value_at, mark_touched_at, set_warm_at,
}
use ziskethone.Storages.Find.{IsRemembered, find_lem}

-- The rows appended one by one.
unfoldable pub load : List Original → Storages → Result Fault Storages
load [] s = ok s
load (row ∷ rows) s = append row s >>= λ r. load rows r.1

-- What is done to the table after that.
pub data Use : Type 0 where
  look : (addr position : ℕ) → Use
  write : (idx value tx_idx : ℕ) → Use
  touch : (idx tx_idx : ℕ) → Use
  warm : (idx tx_idx : ℕ) → Use

abbrev pub use_once : Use → Storages → Storages
use_once (look addr position) s = (find addr position s).1
use_once (write idx value tx_idx) s = set_value_at idx value tx_idx s
use_once (touch idx tx_idx) s = mark_touched_at idx tx_idx s
use_once (warm idx tx_idx) s = set_warm_at idx tx_idx s

unfoldable pub use_all : List Use → Storages → Storages
use_all [] s = s
use_all (u ∷ uses) s = use_all uses (use_once u s)

-- The first row with a key, where the rows are counted from `n`.
abbrev pub first_row : ℕ → ℕ → ℕ → List Original → Option ℕ
first_row addr position n [] = none
first_row addr position n (row ∷ rows) =
    if row.address == addr && row.position == position
    then some n
    else first_row addr position (suc n) rows

-- The first of two answers.
abbrev or_else : Option ℕ → Option ℕ → Option ℕ
or_else (some i) o = some i
or_else none o = o

use_once-IsRemembered :
    (u : Use) (s : Storages)
    → IsRemembered s
    → IsRemembered (use_once u s) × ((use_once u s).index ≡ s.index)
unfolding set_value_at mark_touched_at set_warm_at
use_once-IsRemembered (look addr position) s h =
    let (found, same, remembered) = find_lem addr position s h in
    (remembered, ap (λ t. t.index) same)
use_once-IsRemembered (write idx value tx_idx) s h = (h, refl)
use_once-IsRemembered (touch idx tx_idx) s h = (h, refl)
use_once-IsRemembered (warm idx tx_idx) s h = (h, refl)

use_all-IsRemembered :
    (uses : List Use) (s : Storages)
    → IsRemembered s
    → IsRemembered (use_all uses s) × ((use_all uses s).index ≡ s.index)
unfolding use_all
use_all-IsRemembered [] s h = (h, refl)
use_all-IsRemembered (u ∷ uses) s h =
    let (once, same) = use_once-IsRemembered u s h in
    let (all, still) = use_all-IsRemembered uses (use_once u s) once in (all, still ∙ same)

emplaced :
    (address position n : ℕ) (index : ℕ → ℕ → Option ℕ) (a p : ℕ) (rest : Option ℕ)
    → or_else (emplace address position n index a p) rest
      ≡ or_else (index a p) (if address == a && position == p then some n else rest)
unfolding emplace
emplaced address position n index a p rest = go (index a p)
  where
    go :
        (o : Option ℕ)
        → or_else
            (elim o [
              | some row ↦ some row
              | none ↦ if address == a && position == p then some n else none
            ])
            rest
          ≡ or_else o (if address == a && position == p then some n else rest)
    go (some row) = refl
    go none = elim (Bool-cases (address == a && position == p)) [
      | inl same ↦ rw same refl
      | inr other ↦ rw other refl
    ]

-- The table that `append` leaves where it has room.
abbrev with_row : Original → Storages → Storages
with_row row s =
    let idx = length s.originals in
    record s {
      originals = s.originals ++ (row ∷ []);
      mods = s.mods ++ (fresh_mods ∷ []);
      index = emplace row.address row.position idx s.index;
      last = forget s.last;
      addr_slots = λ a. if row.address == a then s.addr_slots a ++ (idx ∷ []) else s.addr_slots a;
    }

append-room :
    (row : Original) (s : Storages)
    → leb s.capacity (length s.originals) ≡ false
    → append row s ≡ ok (length s.originals, with_row row s)
unfolding append
append-room row s e = rw e refl

load_lem :
    (rows : List Original) (s : Storages) (n : ℕ)
    → length s.originals ≡ n
    → n + length rows ≤ s.capacity
    → s.last.valid ≡ false
    → (t : Storages) × (load rows s ≡ ok t)
      × (t.last.valid ≡ false)
      × ((a p : ℕ) → t.index a p ≡ or_else (s.index a p) (first_row a p n rows))
unfolding load
load_lem [] s n e room fresh = (s, refl, fresh, λ a p. ended (s.index a p))
  where
    ended : (o : Option ℕ) → o ≡ or_else o none
    ended (some i) = refl
    ended none = refl
load_lem (row ∷ rows) s n e room fresh =
    let space : leb s.capacity (length s.originals) ≡ false = ground arith in
    let more : length (with_row row s).originals ≡ suc n =
      length-append s.originals (row ∷ []) ∙ omega arith in
    let (t, loaded, off, answers) =
      load_lem rows (with_row row s) (suc n) more (omega arith) refl in
    (
      t,
      rw (append-room row s space) loaded,
      off,
      λ a p.
          answers a p
          ∙ emplaced row.address row.position (length s.originals) s.index a p
              (first_row a p (suc n) rows)
          ∙ rw e refl,
    )

-- A table with room for the given rows takes them all, and from then on `find` answers, after any run of
-- lookups, writes, touches and warmings, the first of these rows with the key, and nothing where no row
-- has it. Its memory of the last lookup never shows.
pub find-loaded :
    (rows : List Original) (count : ℕ) (uses : List Use) (addr position : ℕ)
    → length rows ≤ count
    → (t : Storages) × (load rows (reserve count empty) ≡ ok t)
      × ((find addr position (use_all uses t)).0 ≡ first_row addr position 0 rows)
unfolding reserve
find-loaded rows count uses addr position room =
    let (t, loaded, off, answers) = load_lem rows (reserve count empty) 0 refl (omega arith) refl in
    let (remembered, same) = use_all-IsRemembered uses t (λ on. absurd (cc)) in
    (
      t,
      loaded,
      (find_lem addr position (use_all uses t) remembered).0
          ∙ ap (λ index. index addr position) same
          ∙ answers addr position,
    )
