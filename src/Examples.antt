-- ===== src/Examples.antt =====
-- Concrete runs, and the theorems at concrete inputs.
pub mod Varint
mod Limits
mod Queues
mod Sessions
mod Reached
mod Batons
mod Handshakes
mod Dials
mod Links
mod Echoes
mod Runs
