-- ===== src/StateDb/Calls/Failed.antt =====
-- What `call` leaves behind, whatever the interpreter: the calls that fail are undone.
use ziskethone.Prelude.{
  ℕ, zero, suc, ◌≡◌, refl, sym, subst, ◌∙◌, Bool, true, false, not, ◌&&◌, ltb, ◌==◌, if◌then◌else◌,
  Bool-cases, inl, inr, ok, fatal,
}
use ziskethone.Accounts
use ziskethone.StateDb.{State, checkpoint, rollback, account_row}
use ziskethone.StateDb.Code.{lift}
use ziskethone.StateDb.Precompiles.{Message, Outcome, CallKind, is_success, without_output, success}
use ziskethone.StateDb.Frames.{Stretch, Stretch-refl}
use ziskethone.StateDb.Rollback.{Restored, enter-Stretch, rollback-Stretch}
use ziskethone.StateDb.Calls.{
  Env, Caller, Called, Script, run_frame, pay, call_to_precompile, by_kind, call_with, call,
  call_create, create_account, bump_and_warm, u64_max,
}
use ziskethone.StateDb.Calls.Kept.{OnOk, after, Kept, widen, run_frame-Kept}
use ziskethone.StateDb.Calls.Undone.{Ended, pay-Continued, call_to_precompile-Ended, run_code-Ended}
use ziskethone.StateDb.Calls.Create.{create_account-Ended, bump_and_warm-Stretch, anything}

abbrev pub is_creation : CallKind → Bool
is_creation CallKind.create = true
is_creation CallKind.create2 = true
is_creation _ = false

Kept-of_Ended : (s : State) (m : Called Outcome) → OnOk (Ended s) m → OnOk (Kept s) m
Kept-of_Ended s (ok r) h = h.stretch
Kept-of_Ended s (fatal e) h = tt

module _ (env : Env) (inner : Caller)
    (inner-Kept : (m : Message) (t : State) → OnOk (Kept t) (inner m t)) where
  call_create-Kept : (msg : Message) (s : State) → OnOk (Kept s) (call_create env inner msg s)
  unfolding call_create
  call_create-Kept msg s =
      after (λ i. Unit) (Kept s) (lift (account_row msg.sender s)) _
        (anything (lift (account_row msg.sender s)))
        (λ i u. elim (Bool-cases (Accounts.nonce_at i s.accounts == u64_max)) [
          | inl full ↦ rw full (Stretch-refl s)
          | inr room ↦ rw room (
              after (λ j. Unit) (Kept s) (lift (account_row msg.recipient s)) _
                (anything (lift (account_row msg.recipient s)))
                (λ j v.
                  widen (create_account env inner msg j (bump_and_warm i j s))
                    (bump_and_warm-Stretch i j s)
                    (Kept-of_Ended (bump_and_warm i j s) _
                      (create_account-Ended env inner inner-Kept msg j (bump_and_warm i j s)))))
        ])

  by_kind-Ended :
      (kind : CallKind) (msg : Message) (s : State)
      → is_creation kind ≡ false
      → OnOk (Ended s) (by_kind env inner kind msg (checkpoint s).0 (checkpoint s).1)
  by_kind-Ended CallKind.call msg s e =
      after (Stretch false (checkpoint s).1) (Ended s)
        (pay msg.sender msg.recipient msg.value (checkpoint s).1) _
        (pay-Continued msg.sender msg.recipient msg.value (checkpoint s).1)
        (λ t h. run_code-Ended env inner inner-Kept msg s t h)
  by_kind-Ended CallKind.callcode msg s e =
      run_code-Ended env inner inner-Kept msg s (checkpoint s).1 (Stretch-refl _)
  by_kind-Ended CallKind.delegatecall msg s e =
      run_code-Ended env inner inner-Kept msg s (checkpoint s).1 (Stretch-refl _)
  by_kind-Ended CallKind.create msg s e = absurd (cc)
  by_kind-Ended CallKind.create2 msg s e = absurd (cc)

  created-Kept :
      (msg : Message) (s : State) → OnOk (Kept s) (call_create env inner msg (checkpoint s).1)
  created-Kept msg s =
      widen (call_create env inner msg (checkpoint s).1) (enter-Stretch s)
        (call_create-Kept msg (checkpoint s).1)

  by_kind-Kept :
      (kind : CallKind) (msg : Message) (s : State)
      → OnOk (Kept s) (by_kind env inner kind msg (checkpoint s).0 (checkpoint s).1)
  by_kind-Kept CallKind.call msg s = Kept-of_Ended s _ (by_kind-Ended CallKind.call msg s refl)
  by_kind-Kept CallKind.callcode msg s =
      Kept-of_Ended s _ (by_kind-Ended CallKind.callcode msg s refl)
  by_kind-Kept CallKind.delegatecall msg s =
      Kept-of_Ended s _ (by_kind-Ended CallKind.delegatecall msg s refl)
  by_kind-Kept CallKind.create msg s = created-Kept msg s
  by_kind-Kept CallKind.create2 msg s = created-Kept msg s

  -- A predicate of a call's result that holds of a precompile's and of a kind's.
  by_branch :
      (Q : Outcome × State → Type 0) (msg : Message) (s : State)
      → OnOk Q (call_to_precompile env msg s)
      → OnOk Q (by_kind env inner msg.kind msg (checkpoint s).0 (checkpoint s).1)
      → OnOk Q (call_with env inner msg s)
  unfolding call_with
  by_branch Q msg s h k = elim (Bool-cases (ltb 1024 msg.depth)) [
    | inl deep ↦ rw deep tt
    | inr shallow ↦
        rw shallow (elim (Bool-cases (not msg.delegated && env.is_precompile msg.code_address)) [
          | inl direct ↦ rw direct h
          | inr by_code ↦ rw by_code k
        ])
  ]

pub call-Kept :
    (env : Env) (fuel : ℕ) (msg : Message) (s : State) → OnOk (Kept s) (call env fuel msg s)
unfolding call
call-Kept env zero msg s = tt
call-Kept env (suc fuel) msg s =
    by_branch env (call env fuel) (call-Kept env fuel) (Kept s) msg s
      (Kept-of_Ended s _ (call_to_precompile-Ended env msg s))
      (by_kind-Kept env (call env fuel) (call-Kept env fuel) msg.kind msg s)

call-Ended :
    (env : Env) (fuel : ℕ) (msg : Message) (s : State)
    → is_creation msg.kind ≡ false
    → OnOk (Ended s) (call env fuel msg s)
unfolding call
call-Ended env zero msg s e = tt
call-Ended env (suc fuel) msg s e =
    by_branch env (call env fuel) (call-Kept env fuel) (Ended s) msg s
      (call_to_precompile-Ended env msg s)
      (by_kind-Ended env (call env fuel) (call-Kept env fuel) msg.kind msg s e)

-- Where both rows are in the table, a creation by an account whose nonce is at the end of 64 bits is
-- refused with the gas unspent and no state changed; any other goes on from the bumped nonce.
call_create-rows :
    (env : Env) (inner : Caller) (msg : Message) (s : State) (i j : ℕ)
    → account_row msg.sender s ≡ ok i
    → account_row msg.recipient s ≡ ok j
    → call_create env inner msg s ≡ (
        if Accounts.nonce_at i s.accounts == u64_max
        then ok (without_output success msg.gas msg, s)
        else create_account env inner msg j (bump_and_warm i j s))
unfolding call_create
call_create-rows env inner msg s i j e f = rw (e, f)

-- Where a result is no success, what it leaves shows what `s` showed.
abbrev UndoneTo : State → Outcome × State → Type 0
UndoneTo s r = is_success r.0.status_code ≡ false → Restored false s r.1

UndoneTo-of_Ended : (s : State) (m : Called Outcome) → OnOk (Ended s) m → OnOk (UndoneTo s) m
UndoneTo-of_Ended s (ok r) h = h.undone
UndoneTo-of_Ended s (fatal e) h = tt

-- A call that is no creation and that answers without success, of a precompile or of code, with
-- whatever inner calls its frame made, leaves the state showing what it showed before: the log of
-- writes, the tables of accounts, slots, warm keys and transient slots but for the last touches of
-- rows and the slots' values at the start of the transaction, the set of pending destructions, the
-- emitted logs, the transaction counter and the rows whose storage was wiped. The marks of
-- creations and the table of codes are not undone: inner creations of the frame may have added to
-- them, but every mark, row and index entry from before is still there.
pub call-Restored :
    (env : Env) (fuel : ℕ) (msg : Message) (s t : State) (result : Outcome)
    → is_creation msg.kind ≡ false
    → call env fuel msg s ≡ ok (result, t)
    → is_success result.status_code ≡ false
    → Restored false s t
call-Restored env fuel msg s t result e f g =
    subst (OnOk (UndoneTo s)) f (UndoneTo-of_Ended s _ (call-Ended env fuel msg s e)) g

create-UndoneTo :
    (full : Bool) (env : Env) (fuel : ℕ) (msg : Message) (s s1 : State) (j : ℕ)
    → OnOk (UndoneTo s1) (
        if full
        then ok (without_output success msg.gas msg, s)
        else create_account env (call env fuel) msg j s1)
create-UndoneTo true env fuel msg s s1 j = λ e. absurd (cc)
create-UndoneTo false env fuel msg s s1 j =
    UndoneTo-of_Ended s1 _ (create_account-Ended env (call env fuel) (call-Kept env fuel) msg j s1)

-- A creation that answers without success, because of a collision, of its init code or of the
-- deployed code's size, first byte or deposit, leaves the state showing what it showed once the
-- creator's nonce was bumped and the new address warmed, but for the last touches of rows, the
-- slots' values at the start of the transaction, the marks of creations and the table of codes. To
-- the last two it may have added, its own mark and those and the codes of inner creations, and
-- every mark, row and index entry from before is still there.
pub call_create-Restored :
    (env : Env) (fuel : ℕ) (msg : Message) (s t : State) (i j : ℕ) (result : Outcome)
    → account_row msg.sender s ≡ ok i
    → account_row msg.recipient s ≡ ok j
    → call_create env (call env fuel) msg s ≡ ok (result, t)
    → is_success result.status_code ≡ false
    → Restored false (bump_and_warm i j s) t
call_create-Restored env fuel msg s t i j result e f g h =
    subst (OnOk (UndoneTo (bump_and_warm i j s)))
      (sym (call_create-rows env (call env fuel) msg s i j e f) ∙ g)
      (create-UndoneTo (Accounts.nonce_at i s.accounts == u64_max) env fuel msg s
        (bump_and_warm i j s) j)
      h

-- After a checkpoint and any frame that answers, with whatever requests and inner calls and
-- creations it made, `rollback` to the checkpoint succeeds, and its state shows what the state
-- before the checkpoint showed, but for the last touches of rows, the slots' values at the start of
-- the transaction, the marks of creations and the table of codes. To the last two the inner
-- creations may have added, and every mark, row and index entry from before is still there.
pub rollback-run_frame :
    (env : Env) (fuel : ℕ) (script : Script) (s t : State) (result : Outcome)
    → run_frame env (call env fuel) script (checkpoint s).1 ≡ ok (result, t)
    → (u : State) × (rollback (checkpoint s).0 t ≡ ok u) × Restored false s u
rollback-run_frame env fuel script s t result e = rollback-Stretch s t (
    subst (OnOk (Kept (checkpoint s).1)) e
      (run_frame-Kept env (call env fuel) (call-Kept env fuel) script (checkpoint s).1))
