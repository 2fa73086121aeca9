-- ===== src/Network.antt =====
-- The network manager (src/network.rs): who is connected, which messages go to whom, how a connection
-- begins, and what its tasks do. Sockets and the order of the tasks' steps are not modelled: what a
-- socket yields is an argument. A channel to a writer task is what was put into it and how many more
-- messages it takes before the task drops its end.
pub mod Registry
pub mod Dispatch
pub mod Connect
pub mod Tasks
pub mod Manager
pub mod EndToEnd
mod Tests
