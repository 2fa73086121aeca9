-- ===== src/Server.antt =====
-- The Raft server of src/server.rs: its state, the monad of its handlers, one module for each group
-- of handlers, and the modules that prove what each group does.
pub mod State
pub mod Action
pub mod Roles
pub mod Apply
pub mod Append
pub mod Vote
pub mod Client
pub mod Replicate
pub mod Loop
pub mod Steps
pub mod Progress
pub mod Safety
