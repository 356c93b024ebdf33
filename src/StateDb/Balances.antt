-- ===== src/StateDb/Balances.antt =====
-- Two logged balance writes made one after the other, as in a transfer and in the sweep of a
-- destruction: undoing both entries brings both rows back.
use ziskethone.Prelude.{ℕ, ◌≡◌, refl, ◌∙◌, arith, Bool, true, false, if◌then◌else◌, length, ap}
use ziskethone.Prelude.Rows.{hits, length-update}
use ziskethone.Accounts
use ziskethone.Accounts.View.{RowView, SameAccounts, seen, view_at, view_at-set_balance_at}

abbrev rewritten : ℕ → ℕ → RowView → RowView
rewritten v t r = record r { balance = v; last_tx_idx = t }

abbrev at_row : Bool → ℕ → ℕ → RowView → RowView
at_row hit v t r = if hit then rewritten v t r else r

-- On one row: whichever of the two writes hit it, the two restores give its view back.
restored_row :
    (p q : Bool) (r : RowView) (vp lp vq lq x y t : ℕ)
    → (p ≡ true → (vp ≡ r.balance) × (lp ≡ r.last_tx_idx))
    → (q ≡ true → (vq ≡ r.balance) × (lq ≡ r.last_tx_idx))
    → (at_row p vp lp (at_row q vq lq (at_row q x t (at_row p y t r))) ≡ r)
      × (at_row p vp lp (at_row q vq lq (at_row p x t (at_row q y t r))) ≡ r)
restored_row true true r vp lp vq lq x y t hp hq =
    (ground (arith, hp refl), ground (arith, hp refl))
restored_row true false r vp lp vq lq x y t hp hq =
    (ground (arith, hp refl), ground (arith, hp refl))
restored_row false true r vp lp vq lq x y t hp hq =
    (ground (arith, hq refl), ground (arith, hq refl))
restored_row false false r vp lp vq lq x y t hp hq = (refl, refl)

pub size-set_balance_at :
    (i v t : ℕ) (a : Accounts.Accounts)
    → length (Accounts.set_balance_at i v t a).mods ≡ length a.mods
unfolding Accounts.set_balance_at
size-set_balance_at i v t a = length-update a.mods i (Accounts.with_balance v t)

others-set_balance_at :
    (i v t : ℕ) (a : Accounts.Accounts)
    → ((Accounts.set_balance_at i v t a).originals ≡ a.originals)
      × ((Accounts.set_balance_at i v t a).index ≡ a.index)
      × ((Accounts.set_balance_at i v t a).capacity ≡ a.capacity)
unfolding Accounts.set_balance_at
others-set_balance_at i v t a = (refl, refl, refl)

module _ (p q : ℕ) (a : Accounts.Accounts) where
  abbrev old : ℕ → ℕ
  old i = Accounts.balance_at i a

  abbrev last : ℕ → ℕ
  last i = Accounts.last_tx_idx_at i a

  abbrev pub restore_two : Accounts.Accounts → Accounts.Accounts
  restore_two b =
      Accounts.set_balance_at p (old p) (last p) (Accounts.set_balance_at q (old q) (last q) b)

  old_at :
      (i j : ℕ)
      → hits i j a.mods ≡ true
      → (old i ≡ (view_at j a).balance) × (last i ≡ (view_at j a).last_tx_idx)
  unfolding view_at Accounts.balance_at Accounts.last_tx_idx_at
  old_at i j h = let same : i ≡ j = ground arith in rw same (refl, refl)

  view_at-restore_two :
      (i k x y t j : ℕ)
      → view_at j (restore_two (Accounts.set_balance_at k x t (Accounts.set_balance_at i y t a)))
        ≡ at_row (hits p j a.mods) (old p) (last p) (
            at_row
              (hits q j a.mods)
              (old q)
              (last q)
              (at_row (hits k j a.mods) x t (at_row (hits i j a.mods) y t (view_at j a))))
  view_at-restore_two i k x y t j =
      let b1 = Accounts.set_balance_at i y t a in
      let b2 = Accounts.set_balance_at k x t b1 in
      let b3 = Accounts.set_balance_at q (old q) (last q) b2 in
      rw (
        view_at-set_balance_at p j (last p) b3 (old p),
        view_at-set_balance_at q j (last q) b2 (old q),
        view_at-set_balance_at k j t b1 x,
        view_at-set_balance_at i j t a y,
        size-set_balance_at q (old q) (last q) b2,
        size-set_balance_at k x t b1,
        size-set_balance_at i y t a,
      )

  same_as_restored :
      {exact : Bool} (b : Accounts.Accounts)
      → (b.originals ≡ a.originals)
        × (length b.mods ≡ length a.mods)
        × (b.index ≡ a.index)
        × (b.capacity ≡ a.capacity)
      → ((j : ℕ) → view_at j (restore_two b) ≡ view_at j a)
      → SameAccounts exact (restore_two b) a
  unfolding Accounts.set_balance_at
  same_as_restored {exact} b same views = record {
    originals = same.0;
    size =
        size-set_balance_at p (old p) (last p) (Accounts.set_balance_at q (old q) (last q) b)
        ∙ size-set_balance_at q (old q) (last q) b
        ∙ same.1;
    index = same.2;
    capacity = same.3;
    views = λ j. ap (seen exact) (views j);
  }

  others-two :
      (i k x y t : ℕ)
      → let b = Accounts.set_balance_at k x t (Accounts.set_balance_at i y t a) in
        (b.originals ≡ a.originals)
        × (length b.mods ≡ length a.mods)
        × (b.index ≡ a.index)
        × (b.capacity ≡ a.capacity)
  unfolding Accounts.set_balance_at
  others-two i k x y t = (
    refl,
    size-set_balance_at k x t (Accounts.set_balance_at i y t a) ∙ size-set_balance_at i y t a,
    refl,
    refl,
  )

  pub restore_two-first :
      {exact : Bool} (x y t : ℕ)
      → SameAccounts exact
          (restore_two (Accounts.set_balance_at q x t (Accounts.set_balance_at p y t a)))
          a
  restore_two-first x y t = same_as_restored _ (others-two p q x y t) (λ j.
      view_at-restore_two p q x y t j
      ∙ (restored_row (hits p j a.mods) (hits q j a.mods) (view_at j a) (old p) (last p) (old q)
          (last q) x y t (old_at p j) (old_at q j)).0)

  pub restore_two-second :
      {exact : Bool} (x y t : ℕ)
      → SameAccounts exact
          (restore_two (Accounts.set_balance_at p x t (Accounts.set_balance_at q y t a)))
          a
  restore_two-second x y t = same_as_restored _ (others-two q p x y t) (λ j.
      view_at-restore_two q p x y t j
      ∙ (restored_row (hits p j a.mods) (hits q j a.mods) (view_at j a) (old p) (last p) (old q)
          (last q) x y t (old_at p j) (old_at q j)).1)
