-- ===== src/Storages/Find.antt =====
-- `Storages::find` remembers its last answer. The memory is an optimisation: it never shows.
use ziskethone.Prelude.{ℕ, ◌≡◌, refl, arith, Bool, true, ◌&&◌, ◌==◌, Bool-cases, inl, inr}
use ziskethone.Storages.{Storages, find}

-- What the table remembers is what the index says.
abbrev pub IsRemembered : Storages → Type 0
IsRemembered s = s.last.valid ≡ true → s.last.idx ≡ s.index s.last.addr s.last.pos

abbrev asked : ℕ → ℕ → Storages → Bool
asked addr position s = s.last.valid && (s.last.pos == position) && (s.last.addr == addr)

-- On a table that remembers rightly `find` answers what the index says of the key, changes nothing
-- but the memory, and leaves a table that remembers rightly.
pub find_lem :
    (addr position : ℕ) (s : Storages)
    → IsRemembered s
    → ((find addr position s).0 ≡ s.index addr position)
      × ((find addr position s).1 ≡ record s { last = (find addr position s).1.last })
      × IsRemembered (find addr position s).1
unfolding find
find_lem addr position s h = elim (Bool-cases (asked addr position s)) [
  | inl again ↦ rw again (ground (arith, h (ground arith)), refl, h)
  | inr new ↦ rw new (refl, refl, λ _. refl)
]
