-- ===== src/Server.antt =====
-- The server: server/*.c. `Types` holds the data of server/server.h; the other children are the
-- source files.
pub mod Types
pub mod Clients
pub mod Bank
pub mod Ledger
pub mod Replication
pub mod Processing
pub mod Threads
pub mod Peers
pub mod Election
pub mod Backups
pub mod Leadership
pub mod Ping
pub mod Discovery
pub mod Startup
pub mod Log
pub mod Main
pub mod Dispatch
pub mod Safety
pub mod Frame
pub mod Life
mod Tests
