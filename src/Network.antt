-- ===== src/Network.antt =====
-- libs/network: packets, the reader that frames messages, channels, and what they register with.
pub mod Common
pub mod Address
pub mod Poller
pub mod Packet
pub mod Framing
pub mod Reader
pub mod EndPoint
pub mod Channel
pub mod Registry
pub mod Interface
pub mod Session
pub mod Server
