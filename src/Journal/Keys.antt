-- ===== src/Journal/Keys.antt =====
-- The logged writes to the tables without rows: warm keys, transient storage, pending destructions.
use ziskethone.Prelude.{
  ℕ, ◌≡◌, refl, sym, ◌∙◌, arith, Bool, true, false, ◌||◌, List, ◌∷◌, ◌==◌, if◌then◌else◌,
  Bool-cases, inl, inr,
}
use ziskethone.Accounts.View.{SameAccounts-refl}
use ziskethone.Storages.View.{SameStorages-refl}
use ziskethone.WarmKeys
use ziskethone.WarmKeys.{
  SameWarmKeys, SameWarmKeys-refl, account-set_account, slot-set_slot, slot-set_account,
  account-set_slot,
}
use ziskethone.TransientStorage
use ziskethone.TransientStorage.{restore-set}
use ziskethone.Journal.{
  World, undo, member, insert, erase, transient, warm_key_account, warm_key_slot, pending_destruct,
}
use ziskethone.Journal.Same.{SameWorld, member-erase}

set_account-back :
    (addr tx : ℕ) (w : WarmKeys.WarmKeys)
    → SameWarmKeys
        (WarmKeys.set_account addr (WarmKeys.account addr w) (WarmKeys.set_account addr tx w))
        w
set_account-back addr tx w = record {
  accounts = λ a.
      rw
        (
          account-set_account addr (WarmKeys.account addr w) (WarmKeys.set_account addr tx w) a,
          account-set_account addr tx w a,
        )
        (ground arith);
  slots = λ a p.
      slot-set_account addr (WarmKeys.account addr w) (WarmKeys.set_account addr tx w) a p
      ∙ slot-set_account addr tx w a p;
}

set_slot-back :
    (addr key tx : ℕ) (w : WarmKeys.WarmKeys)
    → SameWarmKeys
        (WarmKeys.set_slot addr key (WarmKeys.slot addr key w) (WarmKeys.set_slot addr key tx w))
        w
set_slot-back addr key tx w = record {
  accounts = λ a.
      account-set_slot addr key (WarmKeys.slot addr key w) (WarmKeys.set_slot addr key tx w) a
      ∙ account-set_slot addr key tx w a;
  slots = λ a p.
      rw
        (
          slot-set_slot addr key (WarmKeys.slot addr key w) (WarmKeys.set_slot addr key tx w) a p,
          slot-set_slot addr key tx w a p,
        )
        (ground arith);
}

pub undo-set_account :
    {exact : Bool} (addr tx : ℕ) (w : World)
    → SameWorld exact
        (undo
          (warm_key_account addr (WarmKeys.account addr w.warm_keys))
          (record w { warm_keys = WarmKeys.set_account addr tx w.warm_keys }))
        w
unfolding undo
undo-set_account addr tx w = record {
  accounts = SameAccounts-refl w.accounts;
  storages = SameStorages-refl w.storages;
  warm_keys = set_account-back addr tx w.warm_keys;
  transients = λ a p. refl;
  pending = λ i. refl;
}

pub undo-set_slot :
    {exact : Bool} (addr key tx : ℕ) (w : World)
    → SameWorld exact
        (undo
          (warm_key_slot addr key (WarmKeys.slot addr key w.warm_keys))
          (record w { warm_keys = WarmKeys.set_slot addr key tx w.warm_keys }))
        w
unfolding undo
undo-set_slot addr key tx w = record {
  accounts = SameAccounts-refl w.accounts;
  storages = SameStorages-refl w.storages;
  warm_keys = set_slot-back addr key tx w.warm_keys;
  transients = λ a p. refl;
  pending = λ i. refl;
}

pub undo-set_transient :
    {exact : Bool} (addr position value : ℕ) (w : World)
    → (let (prev, map) = TransientStorage.set addr position value w.transients in
        SameWorld exact
          (undo
            (transient addr position prev.was_present prev.value)
            (record w { transients = map }))
          w)
unfolding undo
undo-set_transient addr position value w = record {
  accounts = SameAccounts-refl w.accounts;
  storages = SameStorages-refl w.storages;
  warm_keys = SameWarmKeys-refl w.warm_keys;
  transients = λ a p. restore-set addr position value w.transients a p;
  pending = λ i. refl;
}

insert-new : (i : ℕ) (rows : List ℕ) → member i rows ≡ false → insert i rows ≡ i ∷ rows
unfolding insert
insert-new i rows h = rw h

insert-old : (i : ℕ) (rows : List ℕ) → member i rows ≡ true → insert i rows ≡ rows
unfolding insert
insert-old i rows h = rw h

member-cons : (i j : ℕ) (rows : List ℕ) → member j (i ∷ rows) ≡ (j == i || member j rows)
unfolding member
member-cons i j rows = refl

member_at : (i j : ℕ) (rows : List ℕ) → (i == j) ≡ true → member i rows ≡ member j rows
member_at i j rows h = let same : i ≡ j = ground arith in rw same

member-erase-insert :
    (i j : ℕ) (rows : List ℕ)
    → member i rows ≡ false
    → member j (erase i (insert i rows)) ≡ member j rows
member-erase-insert i j rows h =
    rw (insert-new i rows h, member-erase i j (i ∷ rows), member-cons i j rows)
      (elim (Bool-cases (i == j)) [
        | inl hit ↦ rw hit (sym (sym (member_at i j rows hit) ∙ h))
        | inr miss ↦ rw miss (ground arith)
      ])

insert_undone :
    (i : ℕ) (rows : List ℕ) (b : Bool) (j : ℕ)
    → member i rows ≡ b
    → member j (if b then insert i rows else erase i (insert i rows)) ≡ member j rows
insert_undone i rows true j h = rw (insert-old i rows h)
insert_undone i rows false j h = member-erase-insert i j rows h

pending_only :
    {exact : Bool} (w : World) (rows : List ℕ)
    → ((j : ℕ) → member j rows ≡ member j w.pending)
    → SameWorld exact (record w { pending = rows }) w
pending_only w rows h = record {
  accounts = SameAccounts-refl w.accounts;
  storages = SameStorages-refl w.storages;
  warm_keys = SameWarmKeys-refl w.warm_keys;
  transients = λ a p. refl;
  pending = h;
}

undo_insert_at :
    {exact : Bool} (i : ℕ) (w : World) (b : Bool)
    → member i w.pending ≡ b
    → SameWorld exact (undo (pending_destruct i b) (record w { pending = insert i w.pending })) w
unfolding undo
undo_insert_at i w true h = pending_only w _ (λ j. insert_undone i w.pending true j h)
undo_insert_at i w false h = pending_only w _ (λ j. insert_undone i w.pending false j h)

pub undo-insert :
    {exact : Bool} (i : ℕ) (w : World)
    → SameWorld exact
        (undo (pending_destruct i (member i w.pending)) (record w { pending = insert i w.pending }))
        w
undo-insert i w = undo_insert_at i w (member i w.pending) refl
