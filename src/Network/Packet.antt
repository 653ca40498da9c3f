-- ===== src/Network/Packet.antt =====
-- libs/network/packet.h, tcp_packet.h and udp_packet.h: a stream that remembers how much of it was
-- sent.
use x_kbengine.Prelude.{ℕ, Bool, true, ◌==◌, Outcome, ok, ◌>>=◌}
use x_kbengine.Stream.{Stream, data_resize, unread_length}
use x_kbengine.Stream

pub record Packet : Type 0 where
  pub stream : Stream
  pub open stream use *
  pub is_tcp_packet : Bool
  pub sent_size : ℕ

-- `Packet(size_t res)`: `res` zero bytes, and both positions at the start.
unfoldable pub init : ℕ → Outcome Packet
unfolding data_resize
init res = do
  s ← data_resize res Stream.init
  ok (record { stream = record s { wpos = 0 }; is_tcp_packet = true; sent_size = 0 })

abbrev pub packet_max_size_tcp : ℕ
packet_max_size_tcp = 1460

abbrev pub packet_max_size_udp : ℕ
packet_max_size_udp = 1472

-- The constructors of the two kinds size the packet once more.
unfoldable pub sized_init : ℕ → Outcome Packet
unfolding init data_resize
sized_init size = do
  p ← init size
  s ← data_resize size p.stream
  ok (record p { stream = record s { wpos = 0 } })

unfoldable pub tcp_init : Outcome Packet
unfolding sized_init
tcp_init = sized_init packet_max_size_tcp

unfoldable pub udp_init : Outcome Packet
unfolding sized_init
udp_init = sized_init packet_max_size_udp

-- `Packet::empty` hides the stream's: nothing left to read.
unfoldable pub empty : Packet → Bool
unfolding unread_length
empty p = unread_length p.stream == 0

unfoldable pub clear : Bool → Packet → Packet
unfolding Stream.clear
clear clear_data p = record p { stream = Stream.clear clear_data p.stream; sent_size = 0 }
