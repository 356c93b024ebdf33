-- ===== src/StateDb/Calls/Fuel.antt =====
-- The levels of calls: 1026 of them are enough, since a message deeper than 1024 ends the program.
use ziskethone.Prelude.{
  ℕ, zero, suc, ◌+◌, ◌≤◌, ◌<◌, ◌≡◌, ◌≢◌, refl, arith, ap, true, not, ◌&&◌, Option, none, some, List,
  [], ltb, ◌==◌, length, Bool-cases, inl, inr, Result, ok, fatal,
}
use ziskethone.Accounts
use ziskethone.StateDb
use ziskethone.StateDb.{State, Checkpoint, checkpoint, account_row, transfer_value}
use ziskethone.StateDb.Code.{out_of_fuel, lift, code_and_entry}
use ziskethone.StateDb.Precompiles.{
  Message, Outcome, CallKind, is_success, call_precompile_dispatch,
}
use ziskethone.StateDb.Calls.{
  Env, Caller, run_frame, pay, call_to_precompile, undo_failure, run_code, by_kind, call_with, call,
  call_create, create_account, run_init_code, init_code, deploy, deposit_or_fail,
  register_deployed_code, charge_code_deposit, init_create_account, collides, u64_max,
  is_plain_call, max_code_size, starts_with_ef,
}
use ziskethone.StateDb.Calls.Settled.{
  AsksDeeper, ran_out, Settled, plain, AnswersBelow, lift-Settled, bind-Settled, if-Settled,
  from_code-Settled, run_frame-Settled, rolled_back-Settled, undo_failure-Settled, pay-Settled,
}

call_to_precompile-Settled :
    (env : Env) (msg : Message) (s : State) → Settled (call_to_precompile env msg s)
unfolding call_to_precompile
call_to_precompile-Settled env msg s =
    if-Settled (is_plain_call msg.kind && not (msg.value == 0)) _ (ok (result, s))
      (bind-Settled (lift moved) (undo_failure (checkpoint s).0 result) (lift-Settled moved)
        (λ t. undo_failure-Settled (checkpoint s).0 result t))
      (plain refl)
  where
    result : Outcome
    result = call_precompile_dispatch env.ecrecover_address env.call_precompile msg

    moved : Result StateDb.Fault State
    moved = transfer_value msg.sender msg.recipient msg.value (checkpoint s).1

register-Settled :
    (env : Env) (addr : ℕ) (output : List ℕ) (s : State)
    → Settled (register_deployed_code env addr output s)
unfolding register_deployed_code
register-Settled env addr output s =
    bind-Settled (lift (account_row addr s)) _ (lift-Settled (account_row addr s))
      (λ i. (plain refl))

deposit_or_fail-Settled :
    (env : Env) (msg : Message) (cp : Checkpoint) (o : Option Outcome) (s : State)
    → Settled (deposit_or_fail env msg cp o s)
deposit_or_fail-Settled env msg cp none s = rolled_back-Settled cp _ s
deposit_or_fail-Settled env msg cp (some result) s =
    bind-Settled (register_deployed_code env msg.recipient result.output s) _
      (register-Settled env msg.recipient result.output s) (λ t. (plain refl))

deploy-Settled :
    (env : Env) (msg : Message) (cp : Checkpoint) (result : Outcome) (s : State)
    → Settled (deploy env msg cp result s)
unfolding deploy
deploy-Settled env msg cp result s =
    if-Settled (not (is_success result.status_code)) _ _ (rolled_back-Settled cp result s) (
      if-Settled (ltb max_code_size (length result.output)) _ _ (rolled_back-Settled cp _ s) (
        if-Settled (env.is_london_or_later && starts_with_ef result.output) _ _
          (rolled_back-Settled cp _ s)
          (deposit_or_fail-Settled env msg cp (charge_code_deposit result) s)))

init_create_account-Settled :
    (env : Env) (addr : ℕ) (msg : Message) (s : State)
    → Settled (init_create_account env addr msg s)
unfolding init_create_account
init_create_account-Settled env addr msg s =
    bind-Settled (lift (account_row addr s)) _ (lift-Settled (account_row addr s)) (λ i.
      if-Settled (collides env addr i s) _ _ (plain refl) (
        bind-Settled (pay msg.sender addr msg.value _) _ (pay-Settled msg.sender addr msg.value _)
          (λ t. (plain refl))))

-- An interpreter's frame makes no call at its own depth or above.
abbrev pub Deepens : Env → Type 0
Deepens env = (msg : Message) (code : List ℕ) → AsksDeeper msg.depth (env.execute msg code)

module _ (env : Env) (inner : Caller) (msg : Message) (deepens : Deepens env)
    (below : AnswersBelow msg.depth inner) where
  run_code-Settled : (cp : Checkpoint) (s : State) → Settled (run_code env inner msg cp s)
  unfolding run_code code_and_entry
  run_code-Settled cp s =
      bind-Settled (code_and_entry msg.code_address s) _
        (from_code-Settled msg.code_address s (λ code. code))
        (λ r.
          bind-Settled (run_frame env inner (env.execute msg r.0) r.1) _
            (run_frame-Settled env inner msg.depth below (env.execute msg r.0) r.1
              (deepens msg r.0))
            (λ a. undo_failure-Settled cp a.0 a.1))

  run_init_code-Settled :
      (i : ℕ) (cp : Checkpoint) (o : Option State) (s : State)
      → Settled (run_init_code env inner msg i cp o s)
  run_init_code-Settled i cp none s = rolled_back-Settled cp _ s
  run_init_code-Settled i cp (some t) s =
      bind-Settled (run_frame env inner _ _) _
        (run_frame-Settled env inner msg.depth below _ _
          (deepens (record msg { input = [] }) (init_code msg)))
        (λ a. deploy-Settled env msg cp a.0 a.1)

  call_create-Settled : (s : State) → Settled (call_create env inner msg s)
  unfolding call_create create_account
  call_create-Settled s =
      bind-Settled (lift (account_row msg.sender s)) _ (lift-Settled (account_row msg.sender s))
        (λ i. if-Settled (Accounts.nonce_at i s.accounts == u64_max) _ _ (plain refl) (
          bind-Settled (lift (account_row msg.recipient s)) _
            (lift-Settled (account_row msg.recipient s))
            (λ j.
              bind-Settled (init_create_account env msg.recipient msg _) _
                (init_create_account-Settled env msg.recipient msg _)
                (λ o. run_init_code-Settled j _ o _))))

  by_kind-Settled :
      (kind : CallKind) (cp : Checkpoint) (s : State) → Settled (by_kind env inner kind msg cp s)
  by_kind-Settled CallKind.call cp s =
      bind-Settled (pay msg.sender msg.recipient msg.value s) _
        (pay-Settled msg.sender msg.recipient msg.value s) (λ t. run_code-Settled cp t)
  by_kind-Settled CallKind.callcode cp s = run_code-Settled cp s
  by_kind-Settled CallKind.delegatecall cp s = run_code-Settled cp s
  by_kind-Settled CallKind.create cp s = call_create-Settled s
  by_kind-Settled CallKind.create2 cp s = call_create-Settled s

too_deep-Settled :
    (env : Env) (inner : Caller) (msg : Message) (s : State)
    → 1024 < msg.depth
    → Settled (call_with env inner msg s)
unfolding call_with
too_deep-Settled env inner msg s h =
    let deep : ltb 1024 msg.depth ≡ true = ground arith in rw deep (plain refl)

call_with-Settled :
    (env : Env) (inner : Caller) (msg : Message) (s : State)
    → Deepens env
    → AnswersBelow msg.depth inner
    → Settled (call_with env inner msg s)
unfolding call_with
call_with-Settled env inner msg s deepens below = if-Settled (ltb 1024 msg.depth) _ _ (plain refl) (
    if-Settled (not msg.delegated && env.is_precompile msg.code_address) _ _
      (call_to_precompile-Settled env msg s)
      (by_kind-Settled env inner msg deepens below msg.kind (checkpoint s).0 (checkpoint s).1))

call-Settled :
    (env : Env) (fuel : ℕ) (msg : Message) (s : State)
    → Deepens env
    → 0 < fuel
    → 1026 ≤ fuel + msg.depth
    → Settled (call env fuel msg s)
unfolding call
call-Settled env zero msg s deepens h k = absurd (omega arith)
call-Settled env (suc fuel) msg s deepens h k = elim (Bool-cases (ltb 1024 msg.depth)) [
  | inl deep ↦ too_deep-Settled env (call env fuel) msg s (ground arith)
  | inr shallow ↦
      let at_most : msg.depth ≤ 1024 = ground arith in
      call_with-Settled env (call env fuel) msg s deepens
        (λ m t below. call-Settled env fuel m t deepens (omega arith) (omega arith))
]

-- With an interpreter whose frames call only at greater depths, 1026 levels of calls are enough: `call`
-- never runs out of them, whatever the message, since a message deeper than 1024 ends the program.
pub call-ne-out_of_fuel :
    (env : Env) (fuel : ℕ) (msg : Message) (s : State)
    → Deepens env
    → 1026 ≤ fuel
    → call env fuel msg s ≢ fatal out_of_fuel
call-ne-out_of_fuel env fuel msg s deepens h e =
    let settled = (call-Settled env fuel msg s deepens (omega arith) (omega arith)).settled in
    let ran : ran_out (call env fuel msg s) ≡ true = ap ran_out e in absurd (cc)
