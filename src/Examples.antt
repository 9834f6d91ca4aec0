-- ===== src/Examples.antt =====
-- Concrete runs: a box that stands for libsodium's, tests, and the theorems at inputs that meet
-- their hypotheses.
pub mod Box
mod Clients
mod Components
mod Forwards
mod Multiplexer
mod Parsers
mod Routers
mod Servers
mod Sessions
mod TerminalServers
mod Terminals
mod Transfers
