-- ===== src/Tcp.antt =====
-- The TCP layer, in rpc/tcp/.
pub mod Connection
pub mod Ids
pub mod Server
mod Tests
