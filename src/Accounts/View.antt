-- ===== src/Accounts/View.antt =====
-- What the account table shows of a row, and how each setter changes it.
use ziskethone.Prelude.{
  ℕ, ◌≡◌, refl, sym, subst, ◌∙◌, arith, false, ltb, if◌then◌else◌, length, Bool-cases, inl, inr,
  Bool, true, ap,
}
use ziskethone.Prelude.Rows.{update, hits, get_or-update, length-update}
use ziskethone.Accounts.{
  Accounts, Mods, Original, mods_at, original_at, balance_at, nonce_at, code_hash_at,
  last_tx_idx_at, write_row, with_balance, with_nonce, with_code_hash, with_warm, with_touch,
  set_balance_at, set_nonce_at, set_code_hash_at, mark_touched_at, set_warm_at, fresh_mods,
}

-- A row as the readers show it: the current fields and the last touch. Whether a field is dirty does
-- not show.
pub record RowView : Type 0 where
  pub balance : ℕ
  pub nonce : ℕ
  pub code_hash : ℕ
  pub last_tx_idx : ℕ

abbrev pub shown : Original → Mods → RowView
shown o m = record {
  balance = if m.balance_dirty then m.balance else o.balance;
  nonce = if m.nonce_dirty then m.nonce else o.nonce;
  code_hash = if m.code_hash_dirty then m.code_hash else o.code_hash;
  last_tx_idx = m.last_tx_idx;
}

unfoldable pub view_at : ℕ → Accounts → RowView
view_at idx a = shown (original_at a idx) (mods_at a idx)

pub view_at-readers :
    (idx : ℕ) (a : Accounts)
    → view_at idx a ≡ record {
      balance = balance_at idx a;
      nonce = nonce_at idx a;
      code_hash = code_hash_at idx a;
      last_tx_idx = last_tx_idx_at idx a;
    }
unfolding view_at balance_at nonce_at code_hash_at last_tx_idx_at
view_at-readers idx a = refl

-- A setter that acts on the view by `g` acts so on the row that it hits, and on no other.
pub view_at-write_row :
    (f : Mods → Mods) (g : RowView → RowView)
    → ((o : Original) (m : Mods) → shown o (f m) ≡ g (shown o m))
    → (i j : ℕ) (a : Accounts)
    → view_at j (write_row i f a) ≡ (if hits i j a.mods then g (view_at j a) else view_at j a)
unfolding view_at
view_at-write_row f g acts i j a =
    rw (get_or-update a.mods i j f fresh_mods) (elim (Bool-cases (hits i j a.mods)) [
      | inl hit ↦ rw hit (acts (original_at a j) (mods_at a j))
      | inr miss ↦ rw miss
    ])

module _ (i j tx : ℕ) (a : Accounts) where
  pub view_at-set_balance_at :
      (v : ℕ)
      → view_at j (set_balance_at i v tx a) ≡ (
          if hits i j a.mods
          then record (view_at j a) { balance = v; last_tx_idx = tx }
          else view_at j a)
  unfolding set_balance_at
  view_at-set_balance_at v =
      view_at-write_row (with_balance v tx) (λ r. record r { balance = v; last_tx_idx = tx })
        (λ o m. refl) i j a

  pub view_at-set_nonce_at :
      (v : ℕ)
      → view_at j (set_nonce_at i v tx a) ≡ (
          if hits i j a.mods
          then record (view_at j a) { nonce = v; last_tx_idx = tx }
          else view_at j a)
  unfolding set_nonce_at
  view_at-set_nonce_at v =
      view_at-write_row (with_nonce v tx) (λ r. record r { nonce = v; last_tx_idx = tx })
        (λ o m. refl) i j a

  pub view_at-set_code_hash_at :
      (v : ℕ)
      → view_at j (set_code_hash_at i v tx a) ≡ (
          if hits i j a.mods
          then record (view_at j a) { code_hash = v; last_tx_idx = tx }
          else view_at j a)
  unfolding set_code_hash_at
  view_at-set_code_hash_at v =
      view_at-write_row (with_code_hash v tx) (λ r. record r { code_hash = v; last_tx_idx = tx })
        (λ o m. refl) i j a

  pub view_at-set_warm_at :
      view_at j (set_warm_at i tx a)
      ≡ (if hits i j a.mods then record (view_at j a) { last_tx_idx = tx } else view_at j a)
  unfolding set_warm_at
  view_at-set_warm_at =
      view_at-write_row (with_warm tx) (λ r. record r { last_tx_idx = tx }) (λ o m. refl) i j a

  pub view_at-mark_touched_at : view_at j (mark_touched_at i tx a) ≡ (
      if hits i j a.mods
      then (if ltb (view_at j a).last_tx_idx tx
          then record (view_at j a) { last_tx_idx = tx }
          else view_at j a)
      else view_at j a)
  unfolding mark_touched_at
  view_at-mark_touched_at =
      view_at-write_row (with_touch tx)
        (λ r. if ltb r.last_tx_idx tx then record r { last_tx_idx = tx } else r)
        (λ o m. ground arith) i j a

-- What of a row is compared: all of it, or all but its last touch.
abbrev pub seen : Bool → RowView → RowView
seen true r = r
seen false r = record r { last_tx_idx = 0 }

-- A change of rows that acts alike on rows with other last touches respects both comparisons.
seen_acts :
    (exact : Bool) (g : RowView → RowView)
    → ((r : RowView) → seen false (g r) ≡ seen false (g (seen false r)))
    → (r q : RowView) → seen exact r ≡ seen exact q
    → seen exact (g r) ≡ seen exact (g q)
seen_acts true g blind r q e = ap g e
seen_acts false g blind r q e = blind r ∙ ap (λ x. seen false (g x)) e ∙ sym (blind q)

-- Two tables that no reader of what is compared can tell apart.
pub record SameAccounts (exact : Bool) (a b : Accounts) : Type 0 where
  pub originals : a.originals ≡ b.originals
  pub size : length a.mods ≡ length b.mods
  pub index : a.index ≡ b.index
  pub capacity : a.capacity ≡ b.capacity
  pub views : (j : ℕ) → seen exact (view_at j a) ≡ seen exact (view_at j b)

pub SameAccounts-refl : {exact : Bool} (a : Accounts) → SameAccounts exact a a
SameAccounts-refl a = record {
  originals = refl;
  size = refl;
  index = refl;
  capacity = refl;
  views = λ j. refl;
}

pub SameAccounts-trans :
    {exact : Bool} {a b c : Accounts}
    → SameAccounts exact a b
    → SameAccounts exact b c
    → SameAccounts exact a c
SameAccounts-trans h k = record {
  originals = h.originals ∙ k.originals;
  size = h.size ∙ k.size;
  index = h.index ∙ k.index;
  capacity = h.capacity ∙ k.capacity;
  views = λ j. h.views j ∙ k.views j;
}

-- The same write on two such tables leaves two such tables.
pub SameAccounts-write_row :
    {exact : Bool} (f : Mods → Mods) (g : RowView → RowView)
    → ((o : Original) (m : Mods) → shown o (f m) ≡ g (shown o m))
    → ((r : RowView) → seen false (g r) ≡ seen false (g (seen false r)))
    → (i : ℕ) {a b : Accounts} → SameAccounts exact a b
    → SameAccounts exact (write_row i f a) (write_row i f b)
SameAccounts-write_row {exact} f g acts blind i {a} {b} h = record {
  originals = h.originals;
  size = length-update a.mods i f ∙ h.size ∙ sym (length-update b.mods i f);
  index = h.index;
  capacity = h.capacity;
  views = λ j.
      ap (seen exact) (view_at-write_row f g acts i j a)
      ∙ same_write j
      ∙ sym (ap (seen exact) (view_at-write_row f g acts i j b));
}
  where
    same_write :
        (j : ℕ)
        → seen exact (if hits i j a.mods then g (view_at j a) else view_at j a)
          ≡ seen exact (if hits i j b.mods then g (view_at j b) else view_at j b)
    same_write j = rw h.size (elim (Bool-cases (hits i j b.mods)) [
      | inl hit ↦ rw hit (seen_acts exact g blind (view_at j a) (view_at j b) (h.views j))
      | inr miss ↦ rw miss (h.views j)
    ])

-- A write to a row and then a write that brings its view back leave what the table showed before.
pub SameAccounts-restore :
    {exact : Bool} (f r : Mods → Mods) (g u : RowView → RowView)
    → ((o : Original) (m : Mods) → shown o (f m) ≡ g (shown o m))
    → ((o : Original) (m : Mods) → shown o (r m) ≡ u (shown o m))
    → (i : ℕ) (a : Accounts) → u (g (view_at i a)) ≡ view_at i a
    → SameAccounts exact (write_row i r (write_row i f a)) a
SameAccounts-restore {exact} f r g u f_acts r_acts i a back = record {
  originals = refl;
  size = length-update (update a.mods i f) i r ∙ length-update a.mods i f;
  index = refl;
  capacity = refl;
  views = λ j. ap (seen exact) (restored j);
}
  where
    brought_back :
        (j : ℕ)
        → (if hits i j a.mods
            then u (if hits i j a.mods then g (view_at j a) else view_at j a)
            else (if hits i j a.mods then g (view_at j a) else view_at j a))
          ≡ view_at j a
    brought_back j = elim (Bool-cases (hits i j a.mods)) [
      | inl hit ↦
          let same : i ≡ j = ground arith in
          rw hit (subst (λ k. u (g (view_at k a)) ≡ view_at k a) same back)
      | inr miss ↦ rw miss
    ]

    restored : (j : ℕ) → view_at j (write_row i r (write_row i f a)) ≡ view_at j a
    restored j =
        view_at-write_row r u r_acts i j (write_row i f a)
        ∙ rw (view_at-write_row f g f_acts i j a, length-update a.mods i f) (brought_back j)

-- A touch of a row that this transaction touched already does not show.
pub SameAccounts-touch :
    {exact : Bool} (i tx : ℕ) (a : Accounts)
    → ltb (last_tx_idx_at i a) tx ≡ false
    → SameAccounts exact (mark_touched_at i tx a) a
unfolding mark_touched_at last_tx_idx_at view_at
SameAccounts-touch {exact} i tx a fresh = record {
  originals = refl;
  size = length-update a.mods i (with_touch tx);
  index = refl;
  capacity = refl;
  views = λ j. ap (seen exact) (view_at-mark_touched_at i j tx a ∙ unchanged j);
}
  where
    unchanged :
        (j : ℕ)
        → (if hits i j a.mods
            then (if ltb (view_at j a).last_tx_idx tx
                then record (view_at j a) { last_tx_idx = tx }
                else view_at j a)
            else view_at j a)
          ≡ view_at j a
    unchanged j = elim (Bool-cases (hits i j a.mods)) [
      | inl hit ↦
          let same : i ≡ j = ground arith in
          rw (hit, subst (λ k. ltb (last_tx_idx_at k a) tx ≡ false) same fresh) refl
      | inr miss ↦ rw miss
    ]

-- Where the last touch is not compared no touch shows.
pub SameAccounts-touch_blind :
    (i tx : ℕ) (a : Accounts) → SameAccounts false (mark_touched_at i tx a) a
unfolding mark_touched_at
SameAccounts-touch_blind i tx a = record {
  originals = refl;
  size = length-update a.mods i (with_touch tx);
  index = refl;
  capacity = refl;
  views = λ j. ap (seen false) (acted j) ∙ unseen (hits i j a.mods) (view_at j a);
}
  where
    acted :
        (j : ℕ)
        → view_at j (write_row i (with_touch tx) a) ≡ (
            if hits i j a.mods
            then (if ltb (view_at j a).last_tx_idx tx
                then record (view_at j a) { last_tx_idx = tx }
                else view_at j a)
            else view_at j a)
    acted j =
        view_at-write_row (with_touch tx)
          (λ r. if ltb r.last_tx_idx tx then record r { last_tx_idx = tx } else r)
          (λ o m. ground arith) i j a

    unseen :
        (b : Bool) (r : RowView)
        → seen false
            (if b then (if ltb r.last_tx_idx tx then record r { last_tx_idx = tx } else r) else r)
          ≡ seen false r
    unseen b r = ground arith
