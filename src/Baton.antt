-- ===== src/Baton.antt =====
-- internal/baton: the Devious Baton endpoint on a WebTransport session.
pub mod Codec
pub mod Messages
pub mod Config
pub mod Query
pub mod Exchange
pub mod Finish
pub mod Rules
pub mod Replies
pub mod Calls
pub mod Run
pub mod Pending
pub mod Rounds
pub mod Handled
pub mod Outcome
pub mod Leftover
