-- ===== src/Log.antt =====
-- The logging library, in log/.
pub mod FixedBuffer
pub mod Convert
pub mod Stream
pub mod File
pub mod Worker
pub mod Capture
pub mod Utilities
mod Tests
