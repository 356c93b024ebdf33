-- ===== src/StateDb/Calls/Create.antt =====
-- Creations: a failed one leaves the nonce of the creator and the warmth of the new address alone.
use ziskethone.Prelude.{
  ℕ, ◌*◌, ◌≡◌, refl, ◌∙◌, true, false, ◌&&◌, Option, none, some, List, ltb, leb, length, Bool-cases,
  inl, inr, Result, ok, fatal,
}
use ziskethone.Accounts
use ziskethone.Contracts
use ziskethone.Journal.{insert}
use ziskethone.Journal.Undo.{Frame, Frame-refl}
use ziskethone.StateDb.Grown.{Grown, Grown-mark, Grown-codes}
use ziskethone.StateDb.{State, checkpoint, account_row, write_nonce}
use ziskethone.StateDb.Code.{CallFault, lift}
use ziskethone.StateDb.Precompiles.{Message, Outcome, is_success, without_output, failure}
use ziskethone.StateDb.Frames.{
  Stretch, Stretch-refl, Stretch-trans, extend-nil, snap, touch-Stretch, write_nonce-Stretch,
  write_code_hash-Stretch, warm_account-Stretch,
}
use ziskethone.StateDb.Rollback.{enter-Stretch}
use ziskethone.StateDb.Calls.{
  Env, Caller, run_frame, pay, collides, init_create_account, register_deployed_code,
  charge_code_deposit, deposit_or_fail, deploy, max_code_size, starts_with_ef, bump_and_warm,
  warmed, run_init_code, init_code, create_account,
}
use ziskethone.StateDb.Calls.Kept.{OnOk, after, Kept, run_frame-Kept}
use ziskethone.StateDb.Calls.Undone.{Ended, rolled_back-Ended, pay-Continued}

-- A change of nothing that a rollback restores.
unlogged-Stretch :
    (s t : State)
    → Frame false (snap s) (snap t)
    → t.tx_counter ≡ s.tx_counter
    → t.logs ≡ s.logs
    → t.in_system_call ≡ s.in_system_call
    → t.cancun ≡ s.cancun
    → Grown s t
    → Stretch false s t
unlogged-Stretch s t f n l m c k = record {
  frame = f;
  counter = n;
  emitted = List.[];
  logs = l ∙ extend-nil s.logs;
  system = m;
  cancun = c;
  kept = k;
}

mark-Stretch : (i : ℕ) (s : State) → Stretch false s (record s { created = insert i s.created })
mark-Stretch i s = unlogged-Stretch s _ (Frame-refl (snap s)) refl refl refl refl (Grown-mark i s)

codes-Stretch :
    (hash : ℕ) (code : List ℕ) (owner : ℕ) (s : State)
    → Stretch false s (record s { contracts = Contracts.insert hash code owner s.contracts })
codes-Stretch hash code owner s =
    unlogged-Stretch s _ (Frame-refl (snap s)) refl refl refl refl (Grown-codes hash code owner s)

pub anything : {A : Type 0} (m : Result CallFault A) → OnOk (λ a. Unit {0}) m
anything (ok a) = tt
anything (fatal e) = tt

register-Stretch :
    (env : Env) (addr : ℕ) (output : List ℕ) (s : State)
    → OnOk (Stretch false s) (register_deployed_code env addr output s)
unfolding register_deployed_code
register-Stretch env addr output s =
    after (λ i. Unit) (Stretch false s) (lift (account_row addr s)) _
      (anything (lift (account_row addr s)))
      (λ i u. elim (Bool-cases (leb (length output) 0)) [
        | inl no_code ↦ rw no_code (write_code_hash-Stretch i _ s)
        | inr has_code ↦
            rw has_code (Stretch-trans (codes-Stretch _ output i s) (write_code_hash-Stretch i _ _))
      ])

-- `none`, or the state that the answer true leaves.
abbrev Started : State → Option State → Type 0
Started s none = Unit
Started s (some t) = Stretch false s t

init_create_account-Started :
    (env : Env) (addr : ℕ) (msg : Message) (s : State)
    → OnOk (Started s) (init_create_account env addr msg s)
unfolding init_create_account
init_create_account-Started env addr msg s =
    after (λ i. Unit) (Started s) (lift (account_row addr s)) _
      (anything (lift (account_row addr s)))
      (λ i u. elim (Bool-cases (collides env addr i s)) [
        | inl collision ↦ rw collision tt
        | inr free ↦ rw free (
            after (Stretch false (write_nonce i 1 s)) (Started s)
              (pay msg.sender addr msg.value (write_nonce i 1 s)) _
              (pay-Continued msg.sender addr msg.value (write_nonce i 1 s))
              (λ t h. Stretch-trans (write_nonce-Stretch i 1 s) h))
      ])

deposit_or_fail-Ended :
    (env : Env) (msg : Message) (s t : State) (result : Outcome)
    → Stretch false (checkpoint s).1 t
    → is_success result.status_code ≡ true
    → OnOk (Ended s) (deposit_or_fail env msg (checkpoint s).0 (charge_code_deposit result) t)
unfolding charge_code_deposit
deposit_or_fail-Ended env msg s t result h won =
    elim (Bool-cases (ltb result.gas_left (length result.output * 200))) [
      | inl dear ↦ rw dear (rolled_back-Ended s t _ h)
      | inr paid ↦ rw paid (
          after (Stretch false t) (Ended s)
            (register_deployed_code env msg.recipient result.output t) _
            (register-Stretch env msg.recipient result.output t)
            (λ u k. record {
              stretch = Stretch-trans (enter-Stretch s) (Stretch-trans h k);
              undone = λ e. absurd (cc);
            }))
    ]

deploy-Ended :
    (env : Env) (msg : Message) (s t : State) (result : Outcome)
    → Stretch false (checkpoint s).1 t
    → OnOk (Ended s) (deploy env msg (checkpoint s).0 result t)
unfolding deploy
deploy-Ended env msg s t result h = elim (Bool-cases (is_success result.status_code)) [
  | inr lost ↦ rw lost (rolled_back-Ended s t result h)
  | inl won ↦ rw won (elim (Bool-cases (ltb max_code_size (length result.output))) [
    | inl long ↦ rw long (rolled_back-Ended s t _ h)
    | inr short ↦
        rw short (elim (Bool-cases (env.is_london_or_later && starts_with_ef result.output)) [
          | inl banned ↦ rw banned (rolled_back-Ended s t _ h)
          | inr allowed ↦ rw allowed (deposit_or_fail-Ended env msg s t result h won)
        ])
  ])
]

module _ (env : Env) (inner : Caller)
    (inner-Kept : (m : Message) (t : State) → OnOk (Kept t) (inner m t)) where
  run_init_code-Ended :
      (msg : Message) (i : ℕ) (s : State) (o : Option State)
      → Started (checkpoint s).1 o
      → OnOk (Ended s) (run_init_code env inner msg i (checkpoint s).0 o (checkpoint s).1)
  run_init_code-Ended msg i s none h =
      rolled_back-Ended s (checkpoint s).1 (without_output failure 0 msg) (Stretch-refl _)
  run_init_code-Ended msg i s (some t) h =
      let t' : State = record t { created = insert i t.created } in
      let script = env.execute (record msg { input = List.[] }) (init_code msg) in
      after (Kept t') (Ended s) (run_frame env inner script t') _
        (run_frame-Kept env inner inner-Kept script t')
        (λ a k.
          deploy-Ended env msg s a.1 a.0 (Stretch-trans h (Stretch-trans (mark-Stretch i t) k)))

  pub create_account-Ended :
      (msg : Message) (i : ℕ) (s : State) → OnOk (Ended s) (create_account env inner msg i s)
  unfolding create_account
  create_account-Ended msg i s =
      after (Started (checkpoint s).1) (Ended s)
        (init_create_account env msg.recipient msg (checkpoint s).1) _
        (init_create_account-Started env msg.recipient msg (checkpoint s).1)
        (λ o h. run_init_code-Ended msg i s o h)

pub bump_and_warm-Stretch : (i j : ℕ) (s : State) → Stretch false s (bump_and_warm i j s)
unfolding bump_and_warm
bump_and_warm-Stretch i j s = Stretch-trans (write_nonce-Stretch i _ s) (warmed-Stretch _)
  where
    warmed-Stretch : (t : State) → Stretch false t (warmed j t)
    warmed-Stretch t = elim (Bool-cases (Accounts.is_warm_at j t.tx_counter t.accounts)) [
      | inl is_warm ↦ rw is_warm (touch-Stretch t j (λ e. absurd (cc)))
      | inr is_cold ↦ rw is_cold (warm_account-Stretch t j)
    ]
