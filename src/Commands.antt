-- ===== src/Commands.antt =====
-- cmd/echo/main.go and cmd/devious-baton/main.go: what the commands do between the flags and the session.
-- Flags are arguments, by their values; dialling and the URL's text are parameters.
pub mod EchoCommand
pub mod BatonCommand
pub mod Dialling
pub mod Queries
