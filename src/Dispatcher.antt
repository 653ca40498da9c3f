-- ===== src/Dispatcher.antt =====
-- libs/dispatcher: what runs once a tick besides the network.
pub mod Tasks
pub mod Timers
pub mod Loop
