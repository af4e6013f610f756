-- ===== src/Session.antt =====
-- session.go and stream.go: the session, its streams, and the goroutines that work on them.
pub mod State
pub mod Close
pub mod Send
pub mod Receive
pub mod Streams
pub mod ReadLoop
pub mod Ending
pub mod Writing
pub mod Delivering
pub mod PeerStreams
pub mod Steps
pub mod Flags
pub mod Reachable
pub mod Completes
pub mod Registry
pub mod Keeps
pub mod Invariant
pub mod Side
pub mod Quiet
pub mod Within
pub mod WithinLoop
pub mod Bounds
pub mod Closable
pub mod Reuse
pub mod Routing
pub mod Routed
