-- ===== src/Lib.antt =====
-- Transfer Assistant sends files between the devices of one local network. This library models its
-- core, the Rust crate native/transfer_core; the Flutter application (app/) only calls it.
--
-- How the parts work together. A sender cuts each file by a plan (Chunk), sends the list of files
-- (Manifest) and its messages as frames (Protocol), and then the chunks, each behind a header with its
-- place and hash (Transfer). The receiver checks and writes every chunk (Storage), marks it in a map
-- that it sends back when a transfer is resumed (Chunk), and every transfer moves through the states of
-- one lifecycle (Model). The calls of the application (App), the tasks (Core) and the discovery of
-- devices (Discovery) change one state in memory and one repository (Persistence); what is sent is
-- scanned, saved and restored (Sources) and listed page by page (Paging).
--
-- Which file models which part:
--   Model     native/transfer_core/src/model.rs: TransferState, TransferSnapshot, the transition table
--             and the commands. A method on `&mut self` returns the new snapshot.
--   Chunk     native/transfer_core/src/chunk.rs: ChunkPlan and ResumeMap, and resume_count of
--             incoming.rs. The words of the map are natural numbers, read and set by bits.
--   Manifest  native/transfer_core/src/manifest.rs: the validation of paths and entries.
--   Io        tokio's streams as the code uses them: bytes still to be read and the error behind them,
--             bytes written and the room left.
--   Protocol  native/transfer_core/src/protocol.rs and proto/transfer.proto: messages and frames.
--   Storage   native/transfer_core/src/storage.rs: positioned reads and writes and verified chunks.
--   Transfer  native/transfer_core/src/transfer.rs: both ends of a stream of chunks.
--   Wire      native/transfer_core/src/wire.rs: envelopes, checks of greetings, pairing codes (with
--             derive_pairing_code of identity.rs), and the errors of lan.rs.
--   Control   JobControl of native/transfer_core/src/outgoing.rs, and its interleavings with a task.
--   Persistence  native/transfer_core/src/persistence.rs: the tables as lists of rows, the statements as
--             functions with the constraints of the schema.
--   PathSafety  native/transfer_core/src/path_safety.rs: names for the files that arrive.
--   Core      native/transfer_core/src/core.rs: the state behind the lock of CoreInner; a function
--             that holds the lock for its whole body is one step, and those that write the repository
--             before they take it have their locked half as a function of its own.
--   Jobs      build_chunk_jobs of native/transfer_core/src/outgoing.rs, and validate_channel of
--             incoming.rs.
--   Paging    the pages of a manifest: write_manifest of outgoing.rs, read_manifest of incoming.rs.
--   Identity  native/transfer_core/src/identity.rs: the certificate, the key and the file with them.
--   Sources   the first part of native/transfer_core/src/outgoing.rs: scanning what is to be sent,
--             saving it, restoring it after a restart, and deleting what a reception left.
--   App       TransferCore of native/transfer_core/src/core.rs: the calls of the application (Transfers
--             and Requests), the start (Start), and two step relations: Steps, in which each call ends
--             before the next begins, and Sections, in which calls overlap and the steps are the locked
--             sections and the writes to the repository outside the lock.
--   Discovery  native/transfer_core/src/mdns.rs: the interfaces, the announcements, and the browsing
--             thread as a function of a turn of its loop.
-- Examples runs the theorems on concrete inputs; Prelude has what all of them share.
--
-- What stands for code that is not in the repository is a parameter: prost's encoding of messages
-- (Protocol.Codec), the hash blake3, the operating system's part in file access (Storage.Kernel, with
-- Storage.Loops.MakesProgress for its documented behaviour: a call without an error moves at least one
-- byte), SHA-256 and the other cryptography of the identity (Identity.Cryptography), the text of
-- a UUID, lower case, the names in a directory, the file tree that a scan finds, the parsers of JSON
-- and addresses, and the floating-point quotient of the speed. Numbers are
-- natural numbers; where the source's words can wrap, saturate or be cut, this is written out
-- (u32 lengths of chunks, u64 sums in validate_header).
--
-- Fuel. The loops of Storage that repeat short reads and writes run on one unit for each byte of the
-- buffer; Storage.Loops shows that this is enough, since every round moves at least one byte. A
-- u64 is written with at most 20 digits, and 2 ^ 64 is less than 10 ^ 20. The ten tries to remove a
-- file are those of the source. All other loops run over a list or a counted range.
--
-- Not modelled: the C interface (ffi.rs), Android's document trees (android_storage.rs), the sockets,
-- tasks and timers of lan.rs, incoming.rs, outgoing.rs and core.rs, the daemon of mdns.rs, the
-- configurations of TLS in identity.rs, the opening and migration of the database, and its
-- failures: a statement fails by a constraint of the schema only, and the sizes and counts of a row fit
-- the database's signed 64 bits (a greater one is an error of rusqlite in the code).
pub mod Prelude
pub mod Model
pub mod Chunk
pub mod Manifest
pub mod Io
pub mod Protocol
pub mod Storage
pub mod Transfer
pub mod Persistence
pub mod PathSafety
pub mod Wire
pub mod Control
pub mod Core
pub mod Jobs
pub mod Paging
pub mod Identity
pub mod Sources
pub mod App
pub mod Discovery
pub mod Examples
