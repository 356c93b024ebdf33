-- ===== src/StateDb/Calls/Undone.antt =====
-- The undoing of failed calls: what a call leaves of the state where its result is no success.
use ziskethone.Prelude.{ℕ, ◌≡◌, refl, false, not, ◌&&◌, ◌==◌, Bool-cases, inl, inr, Result}
use ziskethone.Journal.Same.{SameWorld-refl}
use ziskethone.StateDb
use ziskethone.StateDb.{State, checkpoint, rollback, transfer_value}
use ziskethone.StateDb.Code.{lift, code_and_entry}
use ziskethone.StateDb.Precompiles.{Message, Outcome, is_success, call_precompile_dispatch}
use ziskethone.StateDb.Grown.{Grown-refl}
use ziskethone.StateDb.Frames.{Stretch, Stretch-refl, Stretch-trans}
use ziskethone.StateDb.Answers.{transfer_value-Continued}
use ziskethone.StateDb.Rollback.{Restored, enter-Stretch, rollback-Stretch, Restored-Stretch}
use ziskethone.StateDb.Calls.{
  Env, Caller, run_frame, rolled_back, undo_failure, pay, call_to_precompile, run_code,
  is_plain_call,
}
use ziskethone.StateDb.Calls.Kept.{OnOk, after, Kept, lift-Continued, from_code, run_frame-Kept}

-- The result of a frame that started in `s`: where it is no success, nothing of the frame is left.
pub record Ended (s : State) (r : Outcome × State) : Type 0 where
  pub stretch : Stretch false s r.1
  pub undone : is_success r.0.status_code ≡ false → Restored false s r.1

pub Ended-refl : (s : State) (o : Outcome) → Ended s (o, s)
Ended-refl s o = record {
  stretch = Stretch-refl s;
  undone = λ e. record {
    journal = refl;
    world = SameWorld-refl s.world;
    logs = refl;
    counter = refl;
    system = refl;
    cancun = refl;
    kept = Grown-refl s;
  };
}

-- A frame that is rolled back, whatever its result.
pub rolled_back-Ended :
    (s t : State) (o : Outcome)
    → Stretch false (checkpoint s).1 t
    → OnOk (Ended s) (rolled_back (checkpoint s).0 o t)
rolled_back-Ended s t o h =
    let (u, e, r) = rollback-Stretch s t h in
    rw e (record { stretch = Restored-Stretch r; undone = λ f. r })

pub undo_failure-Ended :
    (s t : State) (o : Outcome)
    → Stretch false (checkpoint s).1 t
    → OnOk (Ended s) (undo_failure (checkpoint s).0 o t)
undo_failure-Ended s t o h = elim (Bool-cases (is_success o.status_code)) [
  | inl won ↦
      rw won (record { stretch = Stretch-trans (enter-Stretch s) h; undone = λ f. absurd (cc) })
  | inr lost ↦ rw lost (rolled_back-Ended s t o h)
]

pub pay-Continued : (from to value : ℕ) (s : State) → OnOk (Stretch false s) (pay from to value s)
pay-Continued from to value s = elim (Bool-cases (value == 0)) [
  | inl zero_value ↦ rw zero_value (Stretch-refl s)
  | inr some_value ↦
      rw some_value (lift-Continued s _ (transfer_value-Continued false from to value s))
]

pub call_to_precompile-Ended :
    (env : Env) (msg : Message) (s : State) → OnOk (Ended s) (call_to_precompile env msg s)
unfolding call_to_precompile
call_to_precompile-Ended env msg s =
    elim (Bool-cases (is_plain_call msg.kind && not (msg.value == 0))) [
      | inl paid ↦ rw paid (
          after (Stretch false (checkpoint s).1) (Ended s) (lift moved) _
            (lift-Continued (checkpoint s).1 moved
              (transfer_value-Continued false msg.sender msg.recipient msg.value (checkpoint s).1))
            (λ t h. undo_failure-Ended s t result h))
      | inr unpaid ↦ rw unpaid (Ended-refl s result)
    ]
  where
    result : Outcome
    result = call_precompile_dispatch env.ecrecover_address env.call_precompile msg

    moved : Result StateDb.Fault State
    moved = transfer_value msg.sender msg.recipient msg.value (checkpoint s).1

module _ (env : Env) (inner : Caller)
    (inner-Kept : (m : Message) (t : State) → OnOk (Kept t) (inner m t)) where
  pub run_code-Ended :
      (msg : Message) (s t : State)
      → Stretch false (checkpoint s).1 t
      → OnOk (Ended s) (run_code env inner msg (checkpoint s).0 t)
  unfolding run_code code_and_entry
  run_code-Ended msg s t h =
      after (Kept t) (Ended s) (code_and_entry msg.code_address t) _
        (from_code msg.code_address t (λ code. code))
        (λ r k.
          after (Kept r.1) (Ended s) (run_frame env inner (env.execute msg r.0) r.1) _
            (run_frame-Kept env inner inner-Kept (env.execute msg r.0) r.1)
            (λ a l. undo_failure-Ended s a.1 a.0 (Stretch-trans h (Stretch-trans k l))))
