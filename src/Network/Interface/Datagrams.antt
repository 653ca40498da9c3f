-- ===== src/Network/Interface/Datagrams.antt =====
-- `UDPPacketReceiver::processRecv` of libs/network/udp_packet_receiver.cpp, for a peer that has a channel.
use x_kbengine.Prelude.{ℕ, some}
use x_kbengine.Network.Address.{Address}
use x_kbengine.Network.Reader
use x_kbengine.Network.Reader.{Reader}
use x_kbengine.Network.Packet.{Packet}
use x_kbengine.Network.Packet
use x_kbengine.Network.Poller.{Epoll}
use x_kbengine.Network.EndPoint.{EndPoint, Sockets}
use x_kbengine.Network.Channel.State.{
  Channel, Host, protocol_udp, is_destroyed, is_condemn, condemn, with_channel, with_flags,
  clear_bundle,
}
use x_kbengine.Network.Channel.State

module _ (e : Epoll) (k : Sockets) where
  -- The new channel for a datagram.
  datagram_channel : ℕ → ℕ → EndPoint → Reader → Channel
  datagram_channel id now p r = record (State.init id now (some p) protocol_udp) {
    packet_reader = some r;
  }
