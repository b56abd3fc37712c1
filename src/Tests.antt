-- ===== src/Tests.antt =====
-- Concrete runs: the theorems at inputs that exercise the code of src/.
mod Codec
mod Toy
mod World
mod Conversations
mod Siblings
mod Syncs
mod Ratchets
mod Mailboxes
mod Handshakes
mod Invites
mod Databases
mod Chats
mod Frames
mod Pairings
mod Profiles
