-- ===== src/Journal/Undo.antt =====
-- What was written since a point of the log, undone from the last entry back, gives the world of
-- that point.
use ziskethone.Prelude.{
  ℕ, ◌<◌, ◌≡◌, refl, sym, ap, subst, ◌∙◌, arith, false, some, List, [], ◌∷◌, ◌++◌, append_assoc,
  length, length-append, ok, fatal, Bool,
}
use ziskethone.Journal.{
  Entry, Journal, World, undo, pop_to, entry_at, rollback, checkpoint, invalid_checkpoint,
  checkpoint_marker, is_marker,
}
use ziskethone.Journal.Same.{SameWorld, SameWorld-refl, SameWorld-trans, undo-SameWorld}

-- The undoing of a list of entries, the first of it first.
unfoldable pub undo_all : List Entry → World → World
undo_all [] w = w
undo_all (e ∷ es) w = undo_all es (undo e w)

undo_all-append :
    (es fs : List Entry) (w : World) → undo_all (es ++ fs) w ≡ undo_all fs (undo_all es w)
unfolding undo_all
undo_all-append [] fs w = refl
undo_all-append (e ∷ es) fs w = undo_all-append es fs (undo e w)

undo_all-SameWorld :
    {exact : Bool} (es : List Entry) {v w : World}
    → SameWorld exact v w
    → SameWorld exact (undo_all es v) (undo_all es w)
unfolding undo_all
undo_all-SameWorld [] h = h
undo_all-SameWorld (e ∷ es) h = undo_all-SameWorld es (undo-SameWorld e h)

-- The log and the world of one moment.
pub record Snap : Type 0 where
  pub journal : Journal
  pub world : World

-- From `s` to `t` the log only grew, and undoing what was added gives what the world of `s` showed.
pub record Frame (exact : Bool) (s t : Snap) : Type 0 where
  pub added : List Entry
  pub grown : t.journal ≡ added ++ s.journal
  pub undone : SameWorld exact (undo_all added t.world) s.world

pub Frame-refl : {exact : Bool} (s : Snap) → Frame exact s s
unfolding undo_all
Frame-refl s = record { added = []; grown = refl; undone = SameWorld-refl s.world }

pub Frame-trans :
    {exact : Bool} {s t u : Snap} → Frame exact s t → Frame exact t u → Frame exact s u
Frame-trans {exact} {s} {t} {u} h k = record {
  added = k.added ++ h.added;
  grown = k.grown ∙ ap (λ j. k.added ++ j) h.grown ∙ sym (append_assoc k.added h.added s.journal);
  undone =
      subst (λ w. SameWorld exact w s.world) (sym (undo_all-append k.added h.added u.world))
        (SameWorld-trans (undo_all-SameWorld h.added k.undone) h.undone);
}

-- A write that logs one entry, whose undoing brings back what the world showed.
pub Frame-entry :
    {exact : Bool} (e : Entry) (j : Journal) (v w : World)
    → SameWorld exact (undo e w) v
    → Frame exact (record { journal = j; world = v }) (record { journal = e ∷ j; world = w })
unfolding undo_all
Frame-entry e j v w h = record { added = e ∷ []; grown = refl; undone = h }

-- A change that does not show.
pub Frame-silent :
    {exact : Bool} (j : Journal) (v w : World)
    → SameWorld exact w v
    → Frame exact (record { journal = j; world = v }) (record { journal = j; world = w })
unfolding undo_all
Frame-silent j v w h = record { added = []; grown = refl; undone = h }

entry_at-append :
    (added : List Entry) (e : Entry) (j : Journal) → entry_at (length j) (added ++ e ∷ j) ≡ some e
unfolding entry_at
entry_at-append [] e j = ground arith
entry_at-append (a ∷ added) e j =
    ground (arith, length-append added (e ∷ j), entry_at-append added e j)

pop_to-append :
    (added : List Entry) (j : Journal) (w : World)
    → pop_to (length j) (added ++ j) w ≡ (j, undo_all added w)
unfolding pop_to undo_all
pop_to-append [] [] w = refl
pop_to-append [] (e ∷ j) w = ground arith
pop_to-append (a ∷ added) j w =
    ground (arith, length-append added j, pop_to-append added j (undo a w))

rollback-at-marker :
    (cp : ℕ) (j : Journal) (w : World)
    → cp < length j
    → entry_at cp j ≡ some checkpoint_marker
    → rollback cp j w ≡ ok (pop_to cp j w)
unfolding rollback
rollback-at-marker cp j w h e = rw e (ground arith)

rollback-marked :
    (added : List Entry) (j : Journal) (w : World)
    → rollback (length j) (added ++ checkpoint_marker ∷ j) w
      ≡ ok (j, undo_all (added ++ checkpoint_marker ∷ []) w)
rollback-marked added j w =
    rollback-at-marker (length j) (added ++ checkpoint_marker ∷ j) w
      (omega (arith, length-append added (checkpoint_marker ∷ j)))
      (entry_at-append added checkpoint_marker j)
    ∙ ap (λ es. ok (pop_to (length j) es w)) (sym (append_assoc added (checkpoint_marker ∷ []) j))
    ∙ ap ok (pop_to-append (added ++ checkpoint_marker ∷ []) j w)

-- From the log that `checkpoint` left, and after any writes that were logged since, `rollback` to the
-- position that it returned gives the log from before it and a world that shows what it showed then:
-- all of it with `exact`, all but the last touches of rows without.
pub rollback-checkpoint :
    {exact : Bool} (j : Journal) (w : World) (t : Snap)
    → Frame exact (record { journal = (checkpoint j).1; world = w }) t
    → (w' : World) × (rollback (checkpoint j).0 t.journal t.world ≡ ok (j, w'))
      × SameWorld exact w' w
unfolding checkpoint
rollback-checkpoint {exact} j w t f = (
  undo_all (f.added ++ checkpoint_marker ∷ []) t.world,
  rw f.grown (rollback-marked f.added j t.world),
  subst (λ u. SameWorld exact u w) (sym (undo_all-append f.added (checkpoint_marker ∷ []) t.world))
      (unfold undo_all undo in f.undone),
)

-- `rollback` ends the program on a position that holds no marker.
pub rollback_invalid :
    (cp : ℕ) (j : Journal) (w : World)
    → is_marker (entry_at cp j) ≡ false
    → rollback cp j w ≡ fatal invalid_checkpoint
unfolding rollback
rollback_invalid cp j w h = ground arith
