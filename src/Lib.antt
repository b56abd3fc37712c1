-- ===== src/Lib.antt =====
-- ciphermesh: end-to-end encrypted messaging between devices. This library models its core and proves
-- what the parts promise each other.
--
-- The parts, and the files that model them:
--
--   Prelude          shared names, Boolean tests on numbers, list operations over native numbers, and
--                    linear orders. `Ord` is the interface that the maps take as an instance.
--   BTree            `BTreeMap` and `BTreeSet`, and the tables of SQLite by primary key: a list of rows
--                    in the order of the keys. Laws, commutation and membership in its child modules.
--   Storage          src/storage.rs. Storage/Events is the event log: `append_event`, `append_events`,
--                    `version_vector`, `missing_events_for`, `refresh_vector_for_device`,
--                    `next_local_event_counter`. A table is a map; a statement succeeds, but for the
--                    one that UNIQUE can refuse (Storage/Peers). A column of type INTEGER is kept as the
--                    `u64` with the same bits as its `i64`, and compared as the `i64` where SQLite does.
--                    Storage/Invites and Storage/Accepted are the tables of invites and of accepted
--                    messages. Storage/Sql has the statements on one table,
--                    Storage/Database the rows and the tables of a profile, and Storage/Messages,
--                    Storage/Peers, Storage/Outbox and Storage/Conversations the operations on them. A
--                    transaction is one function on the database.
--   Crdt             src/crdt.rs: `materialize_conversation` as a fold over the rows, one function per
--                    arm of its match, and a second fold over the reactions.
--   Crypto           what src/lib.rs takes from other crates, as a record of functions; its error type,
--                    UTF-8 and byte order. No law of the primitives is assumed but where a theorem
--                    names it.
--   Devices          src/lib.rs: accounts, devices, certificates, revocations and their verification.
--   Ratchet          src/lib.rs: `RatchetSession`. A method that changes the session and may fail is a
--                    function to a result and the session as it is left, so what was written before an
--                    error stays written.
--   Handshake        src/lib.rs: signed key exchanges and prekeys (Handshake/Keys), `Alice`, `Bob` and
--                    `SimulatedDirectory` (Handshake/Parties), and `DeviceSession`
--                    (Handshake/Deliveries). They make sessions of Ratchet. Handshake/States is what is
--                    stored of them: `export_state` and `from_state`.
--   Mailbox          src/mailbox_storage.rs, and `handle_mailbox_request` of src/main.rs: a table of
--                    envelopes with their statuses. The clock is an argument.
--   Sync             src/main.rs: `sync_authorized_sibling_devices`, which reads the certificates of
--                    Devices and the logs of Storage/Events, and whose result Crdt materializes.
--   App              `AppResult` of src/main.rs, and functions that change what they are given and may
--                    fail, with `?` as the bind of a do block.
--   Chat             src/pairing.rs, with the functions of src/main.rs that it calls: `run_pairing_chat`
--                    as steps over the events of its loop (Chat/Loop), the frames that a chat sends and
--                    takes (Chat/Frames), the ids of contacts and messages (Chat/Peers) and names
--                    (Chat/Names). `Alice` and `Bob` chat in the same way; `ChatParty` is what differs.
--                    A chat keeps its party, a database of Storage and a list of what it did outside.
--   Pairing          src/pairing.rs: the public service, `run_public_service_swarm`, as steps over its
--                    events (Pairing/Service), and the addresses that are given to others
--                    (Pairing/Addresses); and the invite codes of src/main.rs (Pairing/Codes).
--   Profile          src/main.rs: what it stores of an account, a device and a contact, in the tables of
--                    Storage/Devices and Storage/Database, and deliveries through the outbox. What
--                    printing a chat changes in the tables is in Chat/Entries.
--   Tests            concrete runs. Tests/Toy has primitives that keep the laws and no secrecy,
--                    Tests/Codec and Tests/Frames formats that read back what they write.
--
-- Bounds: counters are `u64` and wrap at 2^64 where the code adds to them. The loop over skipped
-- messages of `decrypt` runs on a number of rounds, which is the distance to the message's number.
-- Numbers of attempts and times are not bounded.
--
-- Not modelled: the terminal interface, networking and TLS, file input and output, the demos and the
-- benchmark; the chat over QUIC of src/main.rs; random numbers and readings of the clock are arguments;
-- errors of SQLite itself, but for the UNIQUE
-- conversation of a known peer.
pub mod Prelude
pub mod BTree
pub mod Storage
pub mod Crdt
pub mod Crypto
pub mod Devices
pub mod App
pub mod Sync
pub mod Chat
pub mod Pairing
pub mod Profile
pub mod Ratchet
pub mod Handshake
pub mod Mailbox
pub mod Tests
