-- ===== src/StateDb/Calls/Settled.antt =====
-- The parts of a call end without the model running out of fuel, where the inner calls do.
use ziskethone.Prelude.{
  ℕ, ◌<◌, ◌≡◌, refl, Bool, true, false, List, [], ◌==◌, if◌then◌else◌, length, Result, ok, fatal,
  ◌>>=◌,
}
use ziskethone.Contracts
use ziskethone.StateDb
use ziskethone.StateDb.{
  State, Checkpoint, checkpoint, rollback, account_row, transfer_value, account_exists,
}
use ziskethone.StateDb.Code
use ziskethone.StateDb.Code.{
  CallFault, host, missing_code, depth_exceeded, out_of_fuel, lift, code_of, read_code_hash,
  code_and_entry, get_code_size, copy_code,
}
use ziskethone.StateDb.Precompiles.{Message, Outcome, is_success}
use ziskethone.StateDb.Calls.{
  Env, Caller, Request, Answer, Script, finish, ask, ask_account_exists, ask_balance, ask_nonce,
  ask_code_size, ask_code_hash, ask_access_account, ask_storage, ask_transient_storage,
  ask_access_storage, ask_set_storage, ask_set_transient_storage, ask_copy_code, ask_selfdestruct,
  ask_emit_log, ask_call, perform, run_frame, rolled_back, undo_failure, pay,
}

-- The messages of a frame at depth `d` are deeper than it.
abbrev pub Deeper : ℕ → Request → Type 0
Deeper d (ask_call msg) = d < msg.depth
Deeper d _ = Unit

unfoldable pub AsksDeeper : ℕ → Script → Type 0
AsksDeeper d (finish result) = Unit
AsksDeeper d (ask r k) = Deeper d r × ((a : Answer r) → AsksDeeper d (k a))

abbrev pub ran_out : {A : Type 0} → Result CallFault A → Bool
ran_out (fatal out_of_fuel) = true
ran_out _ = false

pub record Settled {A : Type 0} (m : Result CallFault A) : Type 0 where
  pub settled : ran_out m ≡ false

abbrev pub plain : {A : Type 0} {m : Result CallFault A} → ran_out m ≡ false → Settled m
plain e = record { settled = e }

ran_dry : {A : Type 0} → Settled {A = A} (fatal out_of_fuel) → true ≡ false
ran_dry h = h.settled

pub lift-Settled : {A : Type 0} (m : Result StateDb.Fault A) → Settled (lift m)
lift-Settled (ok a) = (plain refl)
lift-Settled (fatal e) = (plain refl)

pub bind-Settled :
    {A B : Type 0} (m : Result CallFault A) (f : A → Result CallFault B)
    → Settled m
    → ((a : A) → Settled (f a))
    → Settled (m >>= f)
bind-Settled (ok a) f h k = k a
bind-Settled (fatal (host e)) f h k = (plain refl)
bind-Settled (fatal missing_code) f h k = (plain refl)
bind-Settled (fatal depth_exceeded) f h k = (plain refl)
bind-Settled (fatal out_of_fuel) f h k = let dry = ran_dry h in absurd (cc)

pub if-Settled :
    {A : Type 0} (b : Bool) (m n : Result CallFault A)
    → Settled m
    → Settled n
    → Settled (if b then m else n)
if-Settled true m n h k = h
if-Settled false m n h k = k

code_of-Settled : (hash : ℕ) (s : State) → Settled (code_of hash s)
unfolding code_of
code_of-Settled hash s =
    if-Settled (hash == StateDb.empty_code_hash) (ok []) _ (plain refl)
      (found (Contracts.by_hash hash s.contracts))
  where
    found : (r : Result Contracts.Fault Contracts.Contract) → Settled (Code.code_found r)
    found (ok c) = (plain refl)
    found (fatal e) = (plain refl)

pub from_code-Settled :
    {A : Type 0} (addr : ℕ) (s : State) (g : List ℕ → A)
    → Settled {A = A × State}
        (read_code_hash addr s >>= λ r. code_of r.0 r.1 >>= λ code. ok (g code, r.1))
unfolding read_code_hash
from_code-Settled addr s g =
    bind-Settled (read_code_hash addr s) _
      (bind-Settled (lift (account_row addr s)) _ (lift-Settled (account_row addr s))
        (λ i. (plain refl)))
      (λ r. bind-Settled (code_of r.0 r.1) _ (code_of-Settled r.0 r.1) (λ code. (plain refl)))

-- A caller that answers the messages deeper than `d`.
abbrev pub AnswersBelow : ℕ → Caller → Type 0
AnswersBelow d inner = (m : Message) (s : State) → d < m.depth → Settled (inner m s)

perform-Settled :
    (env : Env) (inner : Caller) (d : ℕ)
    → AnswersBelow d inner
    → (r : Request) (s : State) → Deeper d r
    → Settled (perform env inner r s)
unfolding get_code_size copy_code
perform-Settled env inner d h (ask_account_exists addr) s deep =
    bind-Settled (lift (account_exists addr s)) _ (lift-Settled (account_exists addr s))
      (λ b. (plain refl))
perform-Settled env inner d h (ask_balance addr) s deep = lift-Settled (StateDb.get_balance addr s)
perform-Settled env inner d h (ask_nonce addr) s deep = lift-Settled (StateDb.get_nonce addr s)
perform-Settled env inner d h (ask_code_size addr) s deep = from_code-Settled addr s length
perform-Settled env inner d h (ask_code_hash addr) s deep =
    lift-Settled (StateDb.get_code_hash addr s)
perform-Settled env inner d h (ask_access_account addr) s deep = (plain refl)
perform-Settled env inner d h (ask_storage addr key) s deep =
    lift-Settled (StateDb.get_storage addr key s)
perform-Settled env inner d h (ask_transient_storage addr key) s deep = (plain refl)
perform-Settled env inner d h (ask_access_storage addr key) s deep = (plain refl)
perform-Settled env inner d h (ask_set_storage addr key value) s deep = lift-Settled _
perform-Settled env inner d h (ask_set_transient_storage addr key value) s deep = (plain refl)
perform-Settled env inner d h (ask_copy_code addr offset buffer_size) s deep =
    from_code-Settled addr s (Code.slice offset buffer_size)
perform-Settled env inner d h (ask_selfdestruct addr beneficiary) s deep = lift-Settled _
perform-Settled env inner d h (ask_emit_log entry) s deep = (plain refl)
perform-Settled env inner d h (ask_call msg) s deep = h msg s deep

pub run_frame-Settled :
    (env : Env) (inner : Caller) (d : ℕ)
    → AnswersBelow d inner
    → (script : Script) (s : State) → AsksDeeper d script
    → Settled (run_frame env inner script s)
unfolding run_frame AsksDeeper
run_frame-Settled env inner d h (finish result) s deep = (plain refl)
run_frame-Settled env inner d h (ask r k) s deep =
    bind-Settled (perform env inner r s) _ (perform-Settled env inner d h r s deep.0)
      (λ a. run_frame-Settled env inner d h (k a.0) a.1 (deep.1 a.0))

pub rolled_back-Settled : (cp : Checkpoint) (o : Outcome) (s : State) → Settled (rolled_back cp o s)
rolled_back-Settled cp o s =
    bind-Settled (lift (rollback cp s)) _ (lift-Settled (rollback cp s)) (λ t. (plain refl))

pub undo_failure-Settled :
    (cp : Checkpoint) (o : Outcome) (s : State) → Settled (undo_failure cp o s)
undo_failure-Settled cp o s =
    if-Settled (is_success o.status_code) _ _ (plain refl) (rolled_back-Settled cp o s)

pub pay-Settled : (from to value : ℕ) (s : State) → Settled (pay from to value s)
pay-Settled from to value s = if-Settled (value == 0) _ _ (plain refl) (lift-Settled _)
