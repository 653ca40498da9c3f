-- ===== src/Network/Channel.antt =====
-- libs/network/channel.h and channel.cpp, with the senders and receivers of
-- libs/network/tcp_packet_sender.cpp, tcp_packet_receiver.cpp and their base classes. The children
-- hold the operations: `State` those of the channel alone, `Sender` and `Receiver` those that move
-- bytes, `Lifecycle` those that join and leave the poller.
pub mod State
pub mod Sender
pub mod Lifecycle
pub mod Receiver
pub mod Pending
pub mod Attempts
pub mod Conservation
pub mod Condemned
pub mod Intake
pub mod Departure
pub mod Filling
pub mod Arrival
pub mod Tests
