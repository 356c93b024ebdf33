-- ===== src/Storages/View.antt =====
-- What the storage table shows of a row, and how each setter changes it.
use ziskethone.Prelude.{
  ℕ, ◌≡◌, refl, sym, subst, ◌∙◌, arith, false, ltb, if◌then◌else◌, length, Bool-cases, inl, inr,
  Bool, true, ap,
}
use ziskethone.Prelude.Rows.{update, hits, get_or-update, length-update}
use ziskethone.Storages.{
  Storages, Mods, Original, mods_at, original_at, value_at, last_tx_idx_at, write_row, with_touch,
  mark_touched_at, fresh_mods,
}

-- A row as `value_at` and the warmth readers show it.
pub record RowView : Type 0 where
  pub value : ℕ
  pub last_tx_idx : ℕ

abbrev pub shown : Original → Mods → RowView
shown o m = record { value = if m.dirty then m.value else o.value; last_tx_idx = m.last_tx_idx }

unfoldable pub view_at : ℕ → Storages → RowView
view_at idx s = shown (original_at s idx) (mods_at s idx)

pub view_at-readers :
    (idx : ℕ) (s : Storages)
    → view_at idx s ≡ record { value = value_at idx s; last_tx_idx = last_tx_idx_at idx s }
unfolding view_at value_at last_tx_idx_at
view_at-readers idx s = refl

-- A setter that acts on the view by `g` acts so on the row that it hits, and on no other.
pub view_at-write_row :
    (f : Mods → Mods) (g : RowView → RowView)
    → ((o : Original) (m : Mods) → shown o (f m) ≡ g (shown o m))
    → (i j : ℕ) (s : Storages)
    → view_at j (write_row i f s) ≡ (if hits i j s.mods then g (view_at j s) else view_at j s)
unfolding view_at
view_at-write_row f g acts i j s =
    rw (get_or-update s.mods i j f fresh_mods) (elim (Bool-cases (hits i j s.mods)) [
      | inl hit ↦ rw hit (acts (original_at s j) (mods_at s j))
      | inr miss ↦ rw miss
    ])

-- What of a row is compared: all of it, or all but its last touch.
abbrev pub seen : Bool → RowView → RowView
seen true r = r
seen false r = record r { last_tx_idx = 0 }

-- A change of rows that acts alike on rows with other last touches respects both comparisons.
seen_acts :
    (exact : Bool) (g : RowView → RowView)
    → ((r : RowView) → seen false (g r) ≡ seen false (g (seen false r)))
    → (r q : RowView) → seen exact r ≡ seen exact q
    → seen exact (g r) ≡ seen exact (g q)
seen_acts true g blind r q e = ap g e
seen_acts false g blind r q e = blind r ∙ ap (λ x. seen false (g x)) e ∙ sym (blind q)

-- Two tables that no reader of what is compared can tell apart, but for the memory of the last `find`.
pub record SameStorages (exact : Bool) (s t : Storages) : Type 0 where
  pub originals : s.originals ≡ t.originals
  pub size : length s.mods ≡ length t.mods
  pub index : s.index ≡ t.index
  pub capacity : s.capacity ≡ t.capacity
  pub addr_slots : s.addr_slots ≡ t.addr_slots
  pub views : (j : ℕ) → seen exact (view_at j s) ≡ seen exact (view_at j t)

pub SameStorages-refl : {exact : Bool} (s : Storages) → SameStorages exact s s
SameStorages-refl s = record {
  originals = refl;
  size = refl;
  index = refl;
  capacity = refl;
  addr_slots = refl;
  views = λ j. refl;
}

pub SameStorages-trans :
    {exact : Bool} {s t u : Storages}
    → SameStorages exact s t
    → SameStorages exact t u
    → SameStorages exact s u
SameStorages-trans h k = record {
  originals = h.originals ∙ k.originals;
  size = h.size ∙ k.size;
  index = h.index ∙ k.index;
  capacity = h.capacity ∙ k.capacity;
  addr_slots = h.addr_slots ∙ k.addr_slots;
  views = λ j. h.views j ∙ k.views j;
}

-- The same write on two such tables leaves two such tables.
pub SameStorages-write_row :
    {exact : Bool} (f : Mods → Mods) (g : RowView → RowView)
    → ((o : Original) (m : Mods) → shown o (f m) ≡ g (shown o m))
    → ((r : RowView) → seen false (g r) ≡ seen false (g (seen false r)))
    → (i : ℕ) {s t : Storages} → SameStorages exact s t
    → SameStorages exact (write_row i f s) (write_row i f t)
SameStorages-write_row {exact} f g acts blind i {s} {t} h = record {
  originals = h.originals;
  size = length-update s.mods i f ∙ h.size ∙ sym (length-update t.mods i f);
  index = h.index;
  capacity = h.capacity;
  addr_slots = h.addr_slots;
  views = λ j.
      ap (seen exact) (view_at-write_row f g acts i j s)
      ∙ same_write j
      ∙ sym (ap (seen exact) (view_at-write_row f g acts i j t));
}
  where
    same_write :
        (j : ℕ)
        → seen exact (if hits i j s.mods then g (view_at j s) else view_at j s)
          ≡ seen exact (if hits i j t.mods then g (view_at j t) else view_at j t)
    same_write j = rw h.size (elim (Bool-cases (hits i j t.mods)) [
      | inl hit ↦ rw hit (seen_acts exact g blind (view_at j s) (view_at j t) (h.views j))
      | inr miss ↦ rw miss (h.views j)
    ])

-- A write to a row and then a write that brings its view back leave what the table showed before.
pub SameStorages-restore :
    {exact : Bool} (f r : Mods → Mods) (g u : RowView → RowView)
    → ((o : Original) (m : Mods) → shown o (f m) ≡ g (shown o m))
    → ((o : Original) (m : Mods) → shown o (r m) ≡ u (shown o m))
    → (i : ℕ) (s : Storages) → u (g (view_at i s)) ≡ view_at i s
    → SameStorages exact (write_row i r (write_row i f s)) s
SameStorages-restore {exact} f r g u f_acts r_acts i s back = record {
  originals = refl;
  size = length-update (update s.mods i f) i r ∙ length-update s.mods i f;
  index = refl;
  capacity = refl;
  addr_slots = refl;
  views = λ j. ap (seen exact) (restored j);
}
  where
    brought_back :
        (j : ℕ)
        → (if hits i j s.mods
            then u (if hits i j s.mods then g (view_at j s) else view_at j s)
            else (if hits i j s.mods then g (view_at j s) else view_at j s))
          ≡ view_at j s
    brought_back j = elim (Bool-cases (hits i j s.mods)) [
      | inl hit ↦
          let same : i ≡ j = ground arith in
          rw hit (subst (λ k. u (g (view_at k s)) ≡ view_at k s) same back)
      | inr miss ↦ rw miss
    ]

    restored : (j : ℕ) → view_at j (write_row i r (write_row i f s)) ≡ view_at j s
    restored j =
        view_at-write_row r u r_acts i j (write_row i f s)
        ∙ rw (view_at-write_row f g f_acts i j s, length-update s.mods i f) (brought_back j)

-- A touch of a row that this transaction touched already does not show.
pub SameStorages-touch :
    {exact : Bool} (i tx : ℕ) (s : Storages)
    → ltb (last_tx_idx_at i s) tx ≡ false
    → SameStorages exact (mark_touched_at i tx s) s
unfolding mark_touched_at last_tx_idx_at view_at
SameStorages-touch {exact} i tx s fresh = record {
  originals = refl;
  size = length-update s.mods i (with_touch (value_at i s) tx);
  index = refl;
  capacity = refl;
  addr_slots = refl;
  views = λ j. ap (seen exact) (
      view_at-write_row (with_touch (value_at i s) tx)
        (λ r. if ltb r.last_tx_idx tx then record r { last_tx_idx = tx } else r)
        (λ o m. ground arith) i j s
      ∙ unchanged j);
}
  where
    unchanged :
        (j : ℕ)
        → (if hits i j s.mods
            then (if ltb (view_at j s).last_tx_idx tx
                then record (view_at j s) { last_tx_idx = tx }
                else view_at j s)
            else view_at j s)
          ≡ view_at j s
    unchanged j = elim (Bool-cases (hits i j s.mods)) [
      | inl hit ↦
          let same : i ≡ j = ground arith in
          rw (hit, subst (λ k. ltb (last_tx_idx_at k s) tx ≡ false) same fresh) refl
      | inr miss ↦ rw miss
    ]

-- Where the last touch is not compared no touch shows.
pub SameStorages-touch_blind :
    (i tx : ℕ) (s : Storages) → SameStorages false (mark_touched_at i tx s) s
unfolding mark_touched_at
SameStorages-touch_blind i tx s = record {
  originals = refl;
  size = length-update s.mods i (with_touch (value_at i s) tx);
  index = refl;
  capacity = refl;
  addr_slots = refl;
  views = λ j. ap (seen false) (acted j) ∙ unseen (hits i j s.mods) (view_at j s);
}
  where
    acted :
        (j : ℕ)
        → view_at j (write_row i (with_touch (value_at i s) tx) s) ≡ (
            if hits i j s.mods
            then (if ltb (view_at j s).last_tx_idx tx
                then record (view_at j s) { last_tx_idx = tx }
                else view_at j s)
            else view_at j s)
    acted j =
        view_at-write_row (with_touch (value_at i s) tx)
          (λ r. if ltb r.last_tx_idx tx then record r { last_tx_idx = tx } else r)
          (λ o m. ground arith) i j s

    unseen :
        (b : Bool) (r : RowView)
        → seen false
            (if b then (if ltb r.last_tx_idx tx then record r { last_tx_idx = tx } else r) else r)
          ≡ seen false r
    unseen b r = ground arith
