-- ===== src/Lib.antt =====
-- The verification of the ZisK guest that executes one Ethereum block: cpp-guest/.
--
-- The guest keeps the world state in tables that the witness fills, and lets the EVM change them
-- through the host operations of `ZiskStateDB`. Each write is logged in the journal, so that a call
-- frame that fails is undone. What enters and leaves the guest is RLP. The library has these parts:
--
--   Prelude           what the parts share: library names, `Result` (a call that may end in
--                     `zeg::fatal`, whose message is the reason), bytes and big-endian numbers, and
--                     tables of rows that are changed in place
--   Rlp               cpp-guest/src/rlp.cpp and include/zeg/rlp.hpp: `encode`, `encode_u64`,
--                     `encode_u256`, `encode_list`, `encode_list_payload`, the writers of the
--                     state-root walk
--   Rlp.Decode        the decoder: `decode_item` (a short string, a short list and the two long forms
--                     are functions of their own), `ListIter::next`, `as_u256`, `as_u64`
--   Accounts          cpp-guest/src/accounts.cpp: the rows, their lookup, the readers and the setters
--   Storages          cpp-guest/src/storages.cpp: the same for slots, with the last `find` remembered
--   WarmKeys          cpp-guest/include/zeg/warm_keys.hpp: the warmth of keys without a row
--   TransientStorage  cpp-guest/src/transient_storage.cpp
--   Journal           cpp-guest/src/journal.cpp: the entries, `checkpoint` and `rollback`
--   StateDb           cpp-guest/src/zisk_state_db.cpp: the host operations on the tables above;
--                     StateDb.Status holds `compute_storage_status` and `set_storage`
--   Contracts         cpp-guest/include/zeg/contracts.hpp: the codes by their hash, `insert` and
--                     `settle_staged`
--   StateDb.Code      the operations from an account to its code
--   StateDb.Precompiles  the messages and results of the EVM, and the dispatch of precompiles
--   StateDb.Calls     `call` and `call_create`, over an interpreter
--   StateDb.Accounting  `check_transaction`, the gas price of `build_per_tx_context`, and
--                     `apply_pre_evm_accounting`
--   StateDb.Settlement  `settle_tx_gas`
--   StateDb.BlockCredits  `credit_block_reward` and `credit_withdrawals`
--   FakeExponential   cpp-guest/src/fake_exponential.cpp
--   HexPrefix         cpp-guest/include/zeg/trie_node.hpp, `PackedPath`, and src/hex_prefix.cpp
--   IntrinsicGas      cpp-guest/src/intrinsic_gas.cpp: `compute_intrinsic_gas`, whose two answers are the
--                     gas and the calldata floor
--
-- An operation of a class is a function from its state to the new one, with the class's state as the
-- last argument: `accounts_.set_nonce_at(i, v, tx)` is `Accounts.set_nonce_at i v tx accounts`, and
-- `ZiskStateDB` is the record `StateDb.State`. An address, a slot's position, a hash and a 256-bit
-- value is the number of its big-endian bytes, except in Rlp, where a value is its bytes. Arithmetic
-- that wraps in the program wraps here: the balances at 2 ^ 256, the lengths that the decoder reads
-- at 2 ^ 64; the gas amounts of IntrinsicGas are natural numbers, and IntrinsicGas.Bounds is about
-- the `int64_t` that holds them. A hash map is a function to an option, and a set of rows is a list
-- without repetition. The journal's last entry stands first.
--
-- The Rlp theorems hold for payloads and inputs of fewer than 2 ^ 32 bytes, which four bytes of
-- length cover, as the encoders assume. `Rlp.Decode.collect`, the loop over a list's items, runs on
-- fuel, and the payload's length is enough, since every item takes a byte. The loops of IntrinsicGas
-- over an access list have the length of what they walk as fuel too. The loop of
-- FakeExponential has 256 turns more than twice the numerator: the divisor reaches twice the numerator
-- first, and each turn after that halves the 256-bit accumulator. All other loops are structural.
--
-- The interpreter is a parameter, `Env.execute`: from a message and its code it gives a script, which
-- ends or asks the host for one of its operations and goes on with the answer. `call` has the levels
-- of inner calls as fuel. The program stops at a message deeper than 1024, so that 1026 levels are
-- enough where every inner message is deeper than its frame's.
--
-- Two worlds are the same (`Journal.Same.SameWorld`) where every reader answers alike. This leaves
-- out whether a field was marked dirty, the memory of the last `find`, and a slot's value at the
-- start of the transaction, which is read only on a slot that the transaction touched, and a touch
-- sets it. Without `exact` it also leaves out when a row was last touched, which a read changes and
-- logs no entry for. No rollback restores the marks of creations and
-- the table of codes: a frame only adds to them (`StateDb.Grown`).
--
-- Not modelled: in StateDb, the revisions from Amsterdam on, with their block access list and
-- transfer logs, and of the execution of transactions what is not named above; the interpreter; the
-- trie and the state root; the input formats; the memory arenas, the analysis cache and the hash
-- seeds, which the results do not show; the tools in Rust. What `is_precompile`, `call_precompile`
-- and keccak answer is a parameter, as are the recovery of an address from a signature and the mark
-- of the old-root walk on accounts without storage.
pub mod Prelude
pub mod Rlp
pub mod Accounts
pub mod Contracts
pub mod Storages
pub mod WarmKeys
pub mod TransientStorage
pub mod Journal
pub mod StateDb
pub mod IntrinsicGas
pub mod FakeExponential
pub mod HexPrefix
