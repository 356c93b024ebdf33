-- ===== src/StateDb/Code.antt =====
-- cpp-guest/src/zisk_state_db.cpp: the operations that lead from an account to its code.
use ziskethone.Prelude.{
  ℕ, ◌-◌, List, [], ltb, leb, ◌==◌, if◌then◌else◌, length, take, drop, Result, ok, fatal, ◌>>=◌,
}
use ziskethone.Accounts
use ziskethone.Contracts
use ziskethone.StateDb.{State, Fault, account_row, touch, empty_code_hash}

-- What may end the program in a code lookup or in a call: a fault of the tables, a code that the table
-- of codes lacks, and a message that is too deep. `out_of_fuel` is the model's own.
pub data CallFault : Type 0 where
  host : Fault → CallFault
  missing_code depth_exceeded out_of_fuel : CallFault

abbrev pub lift {ℓ} : {A : Type ℓ} → Result Fault A → Result CallFault A
lift (ok a) = ok a
lift (fatal e) = fatal (host e)

abbrev pub code_found : Result Contracts.Fault Contracts.Contract → Result CallFault (List ℕ)
code_found (ok c) = ok c.code
code_found (fatal e) = fatal missing_code

-- `contracts_.by_hash(hash)`, and the code there; the empty code where the hash is its hash.
unfoldable pub code_of : ℕ → State → Result CallFault (List ℕ)
code_of hash s =
    if hash == empty_code_hash then ok [] else code_found (Contracts.by_hash hash s.contracts)

-- `accounts_.code_hash(addr, tx_counter_)`
unfoldable pub read_code_hash : ℕ → State → Result CallFault (ℕ × State)
read_code_hash addr s =
    lift (account_row addr s) >>= λ i. ok (Accounts.code_hash_at i (touch i s).accounts, touch i s)

-- The code that an execution at the address runs.
unfoldable pub code_and_entry : ℕ → State → Result CallFault (List ℕ × State)
unfolding read_code_hash code_of
code_and_entry addr s = read_code_hash addr s >>= λ r. code_of r.0 r.1 >>= λ code. ok (code, r.1)

unfoldable pub get_code_size : ℕ → State → Result CallFault (ℕ × State)
unfolding read_code_hash code_of
get_code_size addr s =
    read_code_hash addr s >>= λ r. code_of r.0 r.1 >>= λ code. ok (length code, r.1)

-- The bytes that `copy_code` writes to the buffer; their count is what it returns.
abbrev pub slice : ℕ → ℕ → List ℕ → List ℕ
slice offset size code =
    if leb (length code) offset
    then []
    else let remaining = length code - offset in
      take (if ltb remaining size then remaining else size) (drop offset code)

unfoldable pub copy_code : ℕ → ℕ → ℕ → State → Result CallFault (List ℕ × State)
unfolding read_code_hash code_of
copy_code addr offset buffer_size s = read_code_hash addr s >>= λ r.
    code_of r.0 r.1 >>= λ code. ok (slice offset buffer_size code, r.1)
