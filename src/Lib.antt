-- ===== src/Lib.antt =====
-- Verification of ubt-exex, a reth execution extension that keeps a Unified Binary Tree (UBT) of
-- the chain's state: the blocks of each notification become writes to stems of 256 values, which go
-- to NOMT at once, to an overlay of dirty stems, and from there to MDBX every few blocks.
--
-- The parts of the program, and where they stand here:
--
-- - Common/: what the parts share. `Result` and the error types of src/error.rs (Results), methods
--   that take `&mut self` as actions on a state with rules for what they ensure (Exec), hash maps
--   as associations (Assoc), machine words as bytes and digits (Bytes, Bits), the standard sorts
--   (Order).
-- - Tree: keys, stem nodes, key derivation and the root of a list of entries, which are of the
--   `ubt` crate: parameters, with the behaviour of a stem node as laws.
-- - Store: the operations of `UbtDatabase` (src/persistence.rs) as the interface that `UbtExEx`
--   uses, and what each does to the contents of the four tables.
-- - Mdbx, Mdbx/: the wrapper of the MDBX library (src/mdbx.rs), whose C calls are parameters (Ffi in
--   Mdbx; what they promise in Tables). Errors and return codes (Mdbx), environments (Env),
--   transactions (Txn), cursors (Cursor), and what the methods give (Laws).
-- - Persistence, Persistence/: `UbtDatabase` (src/persistence.rs) over that wrapper. The start and
--   the end of its transactions and the loop over a cursor (Persistence), heads (Head), stems
--   (Stems), stem addresses (Addresses) and block deltas (Deltas); rules for the transactions and the
--   loop (Rules), the tables as values (View), what each method does to them (Writes, Keys, Blocks,
--   Entries, Listing), all of it against Store (Refine), and more on addresses and on loading what
--   was saved (Agreement, RoundTrip).
-- - Index, Index/: `KeyIndex` (src/key_index.rs). The interface that `UbtExEx` uses, with NOMT's;
--   the values of the tables as bytes (Codec, RoundTrip), the bitmap of a stem (Bits), the methods
--   over a redb database (Table, Iterate) against that interface (Refine), saving and loading a
--   head (Saved), the bits and the stems that a batch of updates collects (Noted, Counted), and
--   what `apply_updates` makes of the table of stems (Merged, Updated).
-- - Exex, Exex/: `UbtExEx` (src/ubt_exex.rs). The state and reads through it (Exex), what a step
--   does to the values that a client sees (Overlay, Steps, Effect), `commit` (Commit and below),
--   `revert` and `shutdown` (Revert and below), the two together (Undo, Restore), the root of what
--   MDBX holds (Root), `new`, `get_head` and `process_chain` (Lifecycle, Resume,
--   Named and below, Reads, Reorg), and the loop over notifications and signals (Loop). The loop takes a list of
--   turns, which is what `select!` sees; a list that does not end it leaves it waiting.
-- - PirExport, PirExport/: src/pir_export.rs. The bytes of headers and entries (Format), the exports
--   over MDBX (Export) and over NOMT (Nomt), and `get_state_delta` (Delta, Window).
-- - Rpc, Rpc/: the requests of src/rpc.rs: `ensure_nomt_synced` and `get_root` (Rpc), and those that
--   write files (Handlers).
-- - RpcServer, RpcServer/: the servers of src/rpc_server.rs: which are started, the loop on a Unix
--   socket, and what it serves (Serving). What `select!` sees, round by round, is a list of events,
--   of which a stop ends the loop; a list with no stop is a run that has not ended yet.
-- - Config, Config/: the settings of src/config.rs, how their texts are read (Laws), and
--   which turn a server off (Normal); the limit of
--   the size of MDBX of src/persistence.rs is in Persistence/ (Size, Parsed), and `open` too (Opened).
-- - Tool: the command of src/bin/key_index.rs.
-- - Whole: `UbtExEx` on the models of the two databases.
-- - Tests/: the outside parts in memory, with their laws, and runs of the methods on them.
--
-- How the code is read. `UbtExEx` is a record with the source's fields; its database, key index and
-- NOMT are values of parameters. A method is a function from a state to a result and a state, so
-- that what was written before an error stays written. `?` is the bind. An `expect` is a third
-- result, `panic`. Numbers of 64 bits are natural numbers; where the code subtracts, it has compared
-- before; the counts that it adds up are reduced. Byte arrays are lists, and theorems on bytes say
-- which lengths they need. A hash map is an association with each key
-- once. A block number that becomes a key of MDBX is reduced to its 64 bits. Loops run over lists or
-- over a counted range, but for those over a cursor of MDBX: they run on fuel, which is a number
-- above that of the rows of the table, and the wrapper's laws say that this is enough.
--
-- What a client sees is, for each key, the value of the overlay's node of its stem, if there is one,
-- else that of MDBX's, else zero.
--
-- Not modelled: closing the handles of the MDBX library, and its read-only transactions apart from
-- those that write, which have the same methods; how jsonrpsee answers a connection; the parsing of
-- command lines; logging and metrics; the files that NOMT and the key index are opened from, of which
-- `new` and a request take what comes of opening them.
pub mod Common
pub mod Tree
pub mod Store
pub mod Config
pub mod Mdbx
pub mod Persistence
pub mod Index
pub mod Exex
pub mod PirExport
pub mod Rpc
pub mod RpcServer
pub mod Tool
pub mod Whole
pub mod Tests
