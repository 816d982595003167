-- ===== src/Client.antt =====
-- The client: client/*.c. `Types` holds the data of client/client.h; `Queue`, `Parse`, `Sender` and
-- `Threads` are client/processing.c, and `Discovery` is client/discovery.c.
pub mod Types
pub mod Queue
pub mod Log
pub mod Parse
pub mod Sender
pub mod Threads
pub mod Discovery
pub mod Main
mod Tests
