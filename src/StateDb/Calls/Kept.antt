-- ===== src/StateDb/Calls/Kept.antt =====
-- The requests of a frame and their answers: each continues what its rollback will undo.
use ziskethone.Prelude.{ℕ, false, Option, none, some, List, length, Result, ok, fatal, ◌>>=◌}
use ziskethone.Accounts
use ziskethone.StateDb.{
  State, Fault, account_row, account_found, touch, account_exists, is_nonempty,
}
use ziskethone.StateDb.Code
use ziskethone.StateDb.Code.{
  CallFault, lift, code_of, read_code_hash, code_and_entry, get_code_size, copy_code,
}
use ziskethone.StateDb.Precompiles.{Message}
use ziskethone.StateDb.Frames.{
  Stretch, Stretch-refl, Stretch-trans, touch-Stretch, set_transient_storage-Stretch,
}
use ziskethone.StateDb.Operations.{access_account-Stretch, access_storage-Stretch, emit_log-Stretch}
use ziskethone.StateDb.Answers.{
  Continued, Answered, selfdestruct-Answered, set_storage-Answered, get_balance-Answered,
  get_nonce-Answered, get_code_hash-Answered, get_storage-Answered,
}
use ziskethone.StateDb.Calls.{
  Env, Caller, Called, Request, Script, finish, ask, ask_account_exists, ask_balance, ask_nonce,
  ask_code_size, ask_code_hash, ask_access_account, ask_storage, ask_transient_storage,
  ask_access_storage, ask_set_storage, ask_set_transient_storage, ask_copy_code, ask_selfdestruct,
  ask_emit_log, ask_call, perform, run_frame,
}

-- Where the operation answers, `Q` holds of its answer.
abbrev pub OnOk : {A : Type 0} → (A → Type 0) → Result CallFault A → Type 0
OnOk Q (ok a) = Q a
OnOk Q (fatal e) = Unit

pub after :
    {A B : Type 0} (Q : A → Type 0) (R : B → Type 0) (m : Result CallFault A)
    (f : A → Result CallFault B)
    → OnOk Q m
    → ((a : A) → Q a → OnOk R (f a))
    → OnOk R (m >>= f)
after Q R (ok a) f h k = k a h
after Q R (fatal e) f h k = tt

-- The answer's state continues the frame.
abbrev pub Kept : {A : Type 0} → State → A × State → Type 0
Kept s r = Stretch false s r.1

pub lift-Answered :
    {A : Type 0} (s : State) (m : Result Fault (A × State))
    → Answered false s m
    → OnOk (Kept s) (lift m)
lift-Answered s (ok r) h = h
lift-Answered s (fatal e) h = tt

pub lift-Continued :
    (s : State) (m : Result Fault State) → Continued false s m → OnOk (Stretch false s) (lift m)
lift-Continued s (ok t) h = h
lift-Continued s (fatal e) h = tt

read_code_hash-Kept : (addr : ℕ) (s : State) → OnOk (Kept s) (read_code_hash addr s)
unfolding read_code_hash account_row
read_code_hash-Kept addr s = go (s.accounts.index addr)
  where
    go :
        (o : Option ℕ)
        → OnOk (Kept s) (
            lift (account_found o) >>= λ i.
            ok (Accounts.code_hash_at i (touch i s).accounts, touch i s))
    go none = tt
    go (some i) = touch-Stretch s i (λ e. absurd (cc))

-- An answer from the code of an account.
pub from_code :
    {A : Type 0} (addr : ℕ) (s : State) (g : List ℕ → A)
    → OnOk (Kept s) (read_code_hash addr s >>= λ r. code_of r.0 r.1 >>= λ code. ok (g code, r.1))
from_code addr s g =
    after (Kept s) (Kept s) (read_code_hash addr s) _ (read_code_hash-Kept addr s) (λ r h.
      after (λ code. Unit) (Kept s) (code_of r.0 r.1) _ (anything (code_of r.0 r.1)) (λ code u. h))
  where
    anything : (m : Result CallFault (List ℕ)) → OnOk (λ code. Unit) m
    anything (ok code) = tt
    anything (fatal e) = tt

account_exists-Kept :
    (addr : ℕ) (s : State)
    → OnOk (Kept s) (lift (account_exists addr s) >>= λ exists. ok (exists, s))
unfolding account_exists account_row
account_exists-Kept addr s = go (s.accounts.index addr)
  where
    go :
        (o : Option ℕ)
        → OnOk
            (Kept s)
            (lift (account_found o >>= λ i. ok (is_nonempty i s)) >>= λ exists. ok (exists, s))
    go none = tt
    go (some i) = Stretch-refl s

-- Every request continues the frame, where the inner calls do.
perform-Kept :
    (env : Env) (inner : Caller)
    → ((m : Message) (t : State) → OnOk (Kept t) (inner m t))
    → (r : Request) (s : State) → OnOk (Kept s) (perform env inner r s)
unfolding get_code_size copy_code
perform-Kept env inner h (ask_account_exists addr) s = account_exists-Kept addr s
perform-Kept env inner h (ask_balance addr) s =
    lift-Answered s _ (get_balance-Answered false addr s (λ e. absurd (cc)))
perform-Kept env inner h (ask_nonce addr) s =
    lift-Answered s _ (get_nonce-Answered false addr s (λ e. absurd (cc)))
perform-Kept env inner h (ask_code_size addr) s = from_code addr s length
perform-Kept env inner h (ask_code_hash addr) s =
    lift-Answered s _ (get_code_hash-Answered false addr s (λ e. absurd (cc)))
perform-Kept env inner h (ask_access_account addr) s =
    access_account-Stretch env.is_precompile addr s
perform-Kept env inner h (ask_storage addr key) s =
    lift-Answered s _ (get_storage-Answered false addr key s (λ e. absurd (cc)))
perform-Kept env inner h (ask_transient_storage addr key) s = Stretch-refl s
perform-Kept env inner h (ask_access_storage addr key) s = access_storage-Stretch addr key s
perform-Kept env inner h (ask_set_storage addr key value) s =
    lift-Answered s _ (set_storage-Answered false addr key value s)
perform-Kept env inner h (ask_set_transient_storage addr key value) s =
    set_transient_storage-Stretch addr key value s
perform-Kept env inner h (ask_copy_code addr offset buffer_size) s =
    from_code addr s (Code.slice offset buffer_size)
perform-Kept env inner h (ask_selfdestruct addr beneficiary) s =
    lift-Answered s _ (selfdestruct-Answered false addr beneficiary s)
perform-Kept env inner h (ask_emit_log entry) s = emit_log-Stretch entry s
perform-Kept env inner h (ask_call msg) s = h msg s

Kept-trans : {A : Type 0} {s t : State} (r : A × State) → Stretch false s t → Kept t r → Kept s r
Kept-trans r h k = Stretch-trans h k

pub widen :
    {A : Type 0} {s t : State} (m : Called A)
    → Stretch false s t
    → OnOk (Kept t) m
    → OnOk (Kept s) m
widen (ok r) h k = Stretch-trans h k
widen (fatal e) h k = tt

pub run_frame-Kept :
    (env : Env) (inner : Caller)
    → ((m : Message) (t : State) → OnOk (Kept t) (inner m t))
    → (script : Script) (s : State) → OnOk (Kept s) (run_frame env inner script s)
unfolding run_frame
run_frame-Kept env inner h (finish o) s = Stretch-refl s
run_frame-Kept env inner h (ask r k) s =
    after (Kept s) (Kept s) (perform env inner r s) _ (perform-Kept env inner h r s)
      (λ a e. widen (run_frame env inner (k a.0) a.1) e (run_frame-Kept env inner h (k a.0) a.1))
