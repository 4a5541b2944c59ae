-- ===== src/Fcgi.antt =====
-- The FastCGI responder (onboard/src/fcgi.rs): the parameters, the reader of one request and the
-- reply, each in a child module with its proofs below it.
pub mod Wire
pub mod Params
pub mod Reader
pub mod Reply
mod Tests
