-- ===== src/StateDb/Calls/Deployed.antt =====
-- The code that a creation deploys is the code that later calls of the address run.
use ziskethone.Prelude.{
  ℕ, ◌<◌, ◌≡◌, refl, sym, ap, ◌∙◌, arith, Bool, true, false, some, List, leb, ltb, ◌==◌,
  if◌then◌else◌, length, ok,
}
use ziskethone.Prelude.Rows.{hits}
use ziskethone.Accounts
use ziskethone.Accounts.View.{
  RowView, view_at, view_at-readers, view_at-mark_touched_at, view_at-set_code_hash_at,
}
use ziskethone.Contracts
use ziskethone.Journal
use ziskethone.Contracts.Lookup.{IsIndexed, by_hash-insert}
use ziskethone.StateDb.{State, account_row, write_code_hash, touch, empty_code_hash}
use ziskethone.StateDb.Code.{code_of, read_code_hash, code_and_entry}
use ziskethone.StateDb.Calls.{Env, register_deployed_code}

-- The table after a code with a hash that it lacks was inserted leads from the hash to the code.
code_of-inserted :
    (hash : ℕ) (output : List ℕ) (owner : ℕ) (c : Contracts.Contracts) (s : State)
    → s.contracts ≡ Contracts.insert hash output owner c
    → IsIndexed c
    → (hash == empty_code_hash) ≡ false
    → Contracts.has hash c ≡ false
    → code_of hash s ≡ ok output
unfolding code_of
code_of-inserted hash output owner c s e w ne absent =
    let same : (hash == hash) ≡ true = ground arith in
    rw (ne, e, by_hash-insert hash output owner c hash w, absent, same)

-- The readers of a row whose code hash was written, after the touch of a later read.
code_hash-written :
    (i hash tx : ℕ) (a : Accounts.Accounts)
    → i < length a.mods
    → Accounts.code_hash_at i
        (Accounts.mark_touched_at i tx (Accounts.set_code_hash_at i hash tx a))
      ≡ hash
code_hash-written i hash tx a h =
    let b = Accounts.set_code_hash_at i hash tx a in
    ap (λ r. r.code_hash) (sym (view_at-readers i (Accounts.mark_touched_at i tx b)))
    ∙ ap (λ r. r.code_hash) (view_at-mark_touched_at i i tx b)
    ∙ kept (hits i i b.mods) (view_at i b)
    ∙ written
  where
    kept :
        (hit : Bool) (r : RowView)
        → (if hit
            then (if ltb r.last_tx_idx tx then record r { last_tx_idx = tx } else r)
            else r).code_hash
          ≡ r.code_hash
    kept hit r = ground arith

    written : (view_at i (Accounts.set_code_hash_at i hash tx a)).code_hash ≡ hash
    written =
        let hit : hits i i a.mods ≡ true = ground arith in
        rw (view_at-set_code_hash_at i i tx a hash, hit)

index-written :
    (i hash : ℕ) (s : State) → (write_code_hash i hash s).accounts.index ≡ s.accounts.index
unfolding write_code_hash Accounts.set_code_hash_at
index-written i hash s = refl

-- Where the address has a row, the output is not empty and does not have the hash of the empty code, and
-- the table of codes, whose index is sound, lacks the hash of the output, `register_deployed_code`
-- succeeds, and `code_and_entry` of the address then answers that output.
pub register_deployed_code-code_and_entry :
    (env : Env) (addr i : ℕ) (output : List ℕ) (s : State)
    → s.accounts.index addr ≡ some i
    → i < length s.accounts.mods
    → IsIndexed s.contracts
    → 0 < length output
    → (env.keccak256 output == empty_code_hash) ≡ false
    → Contracts.has (env.keccak256 output) s.contracts ≡ false
    → (t u : State) × (register_deployed_code env addr output s ≡ ok t)
      × (code_and_entry addr t ≡ ok (output, u))
unfolding register_deployed_code code_and_entry account_row read_code_hash write_code_hash
    Accounts.code_hash_at Accounts.mark_touched_at Journal.log Contracts.insert
register_deployed_code-code_and_entry env addr i output s e h w long ne absent =
    (deployed, touch i deployed, rw (e, nonempty), found)
  where
    hash : ℕ
    hash = env.keccak256 output

    deployed : State
    deployed =
        write_code_hash i hash (record s { contracts = Contracts.insert hash output i s.contracts })

    nonempty : leb (length output) 0 ≡ false
    nonempty = ground arith

    found : code_and_entry addr deployed ≡ ok (output, touch i deployed)
    found = rw (
      index-written i hash (record s { contracts = Contracts.insert hash output i s.contracts }),
      e,
      code_hash-written i hash s.tx_counter s.accounts h,
      code_of-inserted hash output i s.contracts (touch i deployed) refl w ne absent,
    )
