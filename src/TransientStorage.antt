-- ===== src/TransientStorage.antt =====
-- cpp-guest/src/transient_storage.cpp and cpp-guest/include/zeg/transient_storage.hpp.
use ziskethone.Prelude.{
  ℕ, ◌≡◌, refl, arith, Bool, true, false, ◌&&◌, Option, none, some, ◌==◌, if◌then◌else◌,
}

-- `map_`, from an address and a position to a value.
abbrev pub Transient : Type 0
Transient = ℕ → ℕ → Option ℕ

abbrev pub reset : Transient
reset a p = none

abbrev pub value_or_zero : Option ℕ → ℕ
value_or_zero none = 0
value_or_zero (some v) = v

unfoldable pub get : ℕ → ℕ → Transient → ℕ
get addr position map = value_or_zero (map addr position)

abbrev pub with_slot : ℕ → ℕ → Option ℕ → Transient → Transient
with_slot addr position v map a p = if addr == a && position == p then v else map a p

-- `PreviousState`
pub record PreviousState : Type 0 where
  pub was_present : Bool
  pub value : ℕ

abbrev pub previous : Option ℕ → PreviousState
previous none = record { was_present = false; value = 0 }
previous (some old) = record { was_present = true; value = old }

-- `set`: on both branches of the lookup the slot then holds `value`.
unfoldable pub set : ℕ → ℕ → ℕ → Transient → PreviousState × Transient
set addr position value map =
    (previous (map addr position), with_slot addr position (some value) map)

unfoldable pub restore : ℕ → ℕ → Bool → ℕ → Transient → Transient
restore addr position was_present old_value =
    with_slot addr position (if was_present then some old_value else none)

previous_back :
    (o : Option ℕ) → (if (previous o).was_present then some (previous o).value else none) ≡ o
previous_back none = refl
previous_back (some v) = refl

-- Restoring the state that `set` returned gives back each slot, present or not.
pub restore-set :
    (addr position value : ℕ) (map : Transient) (a p : ℕ)
    → (let (prev, map') = set addr position value map in
        restore addr position prev.was_present prev.value map' a p)
      ≡ map a p
unfolding restore set
restore-set addr position value map a p =
    ground (arith, previous_back (map a p), previous_back (map addr position))
