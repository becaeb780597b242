-- ===== src/Http.antt =====
-- rpc/http: the request parser, the response printer and the server's handlers.
pub mod HeaderMap
pub mod Request
pub mod Context
pub mod Response
pub mod Server
mod Tests
