-- ===== src/StateDb/WarmSlots.antt =====
-- EIP-2929 for slots: the first access of a transaction is cold, and every later one is warm.
use ziskethone.Prelude.{
  ℕ, ◌≤◌, ◌<◌, ◌≡◌, refl, sym, ap, subst, ◌∙◌, arith, Bool, true, Option, some, none, ◌==◌, length,
}
use ziskethone.Prelude.Rows.{get_or-update}
use ziskethone.Storages
use ziskethone.Storages.Find.{IsRemembered, find_lem}
use ziskethone.WarmKeys
use ziskethone.WarmKeys.{slot-set_slot}
use ziskethone.StateDb.{
  State, warm, access_status, access_storage, access_slot, put_storages, touch_slot,
}
use ziskethone.StateDb.Warmth.{state_of, status_of, after_if, status_if}

is_warm_at-touched :
    (i tx : ℕ) (t : Storages.Storages)
    → i < length t.mods
    → Storages.last_tx_idx_at i t ≤ tx
    → Storages.is_warm_at i tx (Storages.mark_touched_at i tx t) ≡ true
unfolding Storages.is_warm_at Storages.mark_touched_at Storages.last_tx_idx_at
is_warm_at-touched i tx t h k =
    rw
      (get_or-update t.mods i i (Storages.with_touch (Storages.value_at i t) tx)
        Storages.fresh_mods)
      (ground arith)

-- Whether this transaction touched the slot before.
abbrev pub slot_is_warm : Option ℕ → ℕ → ℕ → State → Bool
slot_is_warm none addr key s = WarmKeys.slot addr key s.warm_keys == s.tx_counter
slot_is_warm (some idx) addr key s = Storages.is_warm_at idx s.tx_counter s.storages

status-access_slot :
    (o : Option ℕ) (addr key : ℕ) (s : State)
    → status_of (access_slot o addr key s) ≡ access_status (slot_is_warm o addr key s)
status-access_slot none addr key s =
    status_if (WarmKeys.slot addr key s.warm_keys == s.tx_counter) _ _
status-access_slot (some idx) addr key s =
    status_if (Storages.is_warm_at idx s.tx_counter s.storages) _ _

-- Of a row: it is there, and no later transaction touched it.
abbrev pub RowIsCurrent : Option ℕ → ℕ → Storages.Storages → Type 0
RowIsCurrent o tx t =
    (i : ℕ) → o ≡ some i → (i < length t.mods) × (Storages.last_tx_idx_at i t ≤ tx)

-- What an access leaves: a table that remembers rightly, with the same index, and a warm slot.
abbrev Touched : Option ℕ → ℕ → ℕ → (ℕ → ℕ → Option ℕ) → State → Type 0
Touched o addr key index t =
    IsRemembered t.storages × (t.storages.index ≡ index) × (slot_is_warm o addr key t ≡ true)

key_touched :
    (addr key : ℕ) (s : State)
    → (WarmKeys.slot addr key (WarmKeys.set_slot addr key s.tx_counter s.warm_keys) == s.tx_counter)
      ≡ true
key_touched addr key s = ground (arith, slot-set_slot addr key s.tx_counter s.warm_keys addr key)

row-Touched :
    (idx addr key : ℕ) (s : State)
    → IsRemembered s.storages
    → (idx < length s.storages.mods) × (Storages.last_tx_idx_at idx s.storages ≤ s.tx_counter)
    → Touched (some idx) addr key s.storages.index (touch_slot idx s)
row-Touched idx addr key s r (h, k) = (
  unfold Storages.mark_touched_at in r,
  unfold Storages.mark_touched_at in refl,
  is_warm_at-touched idx s.tx_counter s.storages h k,
)

access_slot-Touched :
    (o : Option ℕ) (addr key : ℕ) (s : State)
    → IsRemembered s.storages
    → RowIsCurrent o s.tx_counter s.storages
    → Touched o addr key s.storages.index (state_of (access_slot o addr key s))
access_slot-Touched none addr key s r h =
    after_if (Touched none addr key s.storages.index)
      (WarmKeys.slot addr key s.warm_keys == s.tx_counter) _ _ (λ e. (r, refl, e))
      (λ e. (r, refl, key_touched addr key s))
access_slot-Touched (some idx) addr key s r h =
    after_if (Touched (some idx) addr key s.storages.index)
      (Storages.is_warm_at idx s.tx_counter s.storages) _ _
      (λ e. row-Touched idx addr key s r (h idx refl))
      (λ e. row-Touched idx addr key s r (h idx refl))

same_rows :
    (o : Option ℕ) (addr key : ℕ) (last : Storages.LastFind) (s : State)
    → slot_is_warm o addr key (put_storages (record s.storages { last = last }) s)
      ≡ slot_is_warm o addr key s
unfolding Storages.is_warm_at
same_rows none addr key last s = refl
same_rows (some idx) addr key last s = refl

status-access_storage :
    (addr key : ℕ) (s : State)
    → IsRemembered s.storages
    → status_of (access_storage addr key s)
      ≡ access_status (slot_is_warm (s.storages.index addr key) addr key s)
unfolding access_storage
status-access_storage addr key s r =
    let (found, table, _) = find_lem addr key s.storages r in
    let s1 = put_storages (Storages.find addr key s.storages).1 s in
    status-access_slot (Storages.find addr key s.storages).0 addr key s1
    ∙ ap (λ o. access_status (slot_is_warm o addr key s1)) found
    ∙ ap access_status (
        ap (λ t. slot_is_warm (s.storages.index addr key) addr key (put_storages t s)) table
        ∙ same_rows (s.storages.index addr key) addr key (Storages.find addr key s.storages).1.last
            s)

-- What the access of a slot leaves of the index's row.
access_storage-Touched :
    (addr key : ℕ) (s : State)
    → IsRemembered s.storages
    → RowIsCurrent (s.storages.index addr key) s.tx_counter s.storages
    → Touched
        (s.storages.index addr key)
        addr
        key
        s.storages.index
        (state_of (access_storage addr key s))
unfolding access_storage Storages.last_tx_idx_at
access_storage-Touched addr key s r h =
    let (found, table, remembered) = find_lem addr key s.storages r in
    let s1 = put_storages (Storages.find addr key s.storages).1 s in
    let o = s.storages.index addr key in
    let current : RowIsCurrent o s.tx_counter s1.storages =
      subst (RowIsCurrent o s.tx_counter) (sym table) h in
    let index : s1.storages.index ≡ s.storages.index = ap (λ t. t.index) table in
    subst
      (λ f.
        Touched o addr key f
          (state_of (access_slot (Storages.find addr key s.storages).0 addr key s1)))
      index
      (subst (λ p. Touched o addr key s1.storages.index (state_of (access_slot p addr key s1)))
        (sym found) (access_slot-Touched o addr key s1 remembered current))

-- On a table that remembers its last `find` rightly, an access of a slot answers warm where the slot
-- was touched in this transaction, by its row or, without one, by its key, and cold otherwise; the
-- next access of the slot is warm. A row of the slot is one that no later transaction touched.
pub access_storage_lem :
    (addr key : ℕ) (s : State)
    → IsRemembered s.storages
    → RowIsCurrent (s.storages.index addr key) s.tx_counter s.storages
    → ((access_storage addr key s).0
        ≡ access_status (slot_is_warm (s.storages.index addr key) addr key s))
      × ((access_storage addr key (access_storage addr key s).1).0 ≡ warm)
access_storage_lem addr key s r h =
    let s2 = state_of (access_storage addr key s) in
    let (remembered, index, touched) = access_storage-Touched addr key s r h in
    (
      status-access_storage addr key s r,
      status-access_storage addr key s2 remembered
          ∙ ap (λ f. access_status (slot_is_warm (f addr key) addr key s2)) index
          ∙ ap access_status touched,
    )
