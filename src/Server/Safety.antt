-- ===== src/Server/Safety.antt =====
-- Invariants of a run of the server of src/server.rs: what every write keeps, and so every run.
pub mod Shape
pub mod Growth
pub mod Terms
pub mod Requests
pub mod Pieces
