-- ===== src/Network/Channel/State.antt =====
-- The state of libs/network/channel.h, the globals of libs/network/common.cpp, and the operations of
-- channel.cpp that concern the channel alone.
--
-- A log line prints `c_str()`, which reads through the end point: without one it is undefined.
use x_kbengine.Prelude.{
  ℕ, ◌+◌, ◌%◌, ◌^◌, Bool, true, false, ◌&&◌, Option, none, some, List, [], ◌∷◌, ◌++◌, length, ltb,
  leb, if◌then◌else◌, Outcome, ok, fail, undefined, ◌>>◌,
}
use x_kbengine.Prelude.Int.{ℤ, pos_part}
use x_kbengine.Stream.{unread_length}
use x_kbengine.Network.Packet.{Packet}
use x_kbengine.Network.Poller.{Epoll, Poller}
use x_kbengine.Network.Reader.{Reader}
use x_kbengine.Network.EndPoint.{EndPoint, Sockets}

pub data Protocol : Type 0 where
  protocol_tcp protocol_udp : Protocol

pub data ReceiverType : Type 0 where
  tcp_packet_receiver udp_packet_receiver : ReceiverType

-- `flags_`, a boolean for each bit of `enum Flags`.
pub record Flags : Type 0 where
  pub sending : Bool
  pub recving : Bool
  pub destroyed : Bool
  pub condemned : Bool

abbrev pub no_flags : Flags
no_flags = record { sending = false; recving = false; destroyed = false; condemned = false }

-- The thresholds of common.cpp; 0 switches a check off.
pub record Limits : Type 0 where
  pub receive_messages_critical : ℕ
  pub receive_messages : ℕ
  pub receive_bytes : ℕ
  pub send_messages_critical : ℕ
  pub send_messages : ℕ
  pub send_bytes : ℕ

abbrev pub default_limits : Limits
default_limits = record {
  receive_messages_critical = 32;
  receive_messages = 65535;
  receive_bytes = 256;
  send_messages_critical = 32;
  send_messages = 65535;
  send_bytes = 65535;
}

-- The counters of all channels together.
pub record Stats : Type 0 where
  pub packets_sent : ℕ
  pub packets_received : ℕ
  pub bytes_sent : ℕ
  pub bytes_received : ℕ

abbrev pub no_stats : Stats
no_stats = record { packets_sent = 0; packets_received = 0; bytes_sent = 0; bytes_received = 0 }

-- `TCPPacketSender`, which counts its failed attempts.
pub record Sender : Type 0 where
  pub sendfail_count : ℕ

-- `id` is the identity of the shared object, by which its handlers are registered.
pub record Channel : Type 0 where
  pub id : ℕ
  pub protocoltype : Protocol
  pub flags : Flags
  pub last_tick_bytes_received : ℕ
  pub last_tick_bytes_sent : ℕ
  pub num_bytes_received : ℕ
  pub num_bytes_sent : ℕ
  pub num_packets_received : ℕ
  pub num_packets_sent : ℕ
  pub buffered_receives : List Packet
  pub bundles : List Packet
  pub last_received_time : ℕ
  pub end_point : Option EndPoint
  pub packet_reader : Option Reader
  pub packet_receiver : Option ReceiverType
  pub packet_sender : Option Sender

-- What is registered for reading: a channel's receiver, the listener, or a null pointer.
pub data InputHandler : Type 0 where
  channel_receiver : ReceiverType → ℕ → InputHandler
  listener : InputHandler
  null_handler : InputHandler

-- What is registered for writing: the sender of the channel with this identity.
abbrev pub OutputHandler : Type 0
OutputHandler = ℕ

-- A channel with what its operations reach: the poller, the global counters and the sockets.
pub record Node (K S : Type 0) : Type 0 where
  pub channel : Channel
  pub poller : Poller K InputHandler OutputHandler
  pub stats : Stats
  pub sockets : S

abbrev pub Host : Epoll → Sockets → Type 0
Host e k = Node e.Kernel k.State

abbrev pub with_channel : {K S : Type 0} → Channel → Node K S → Node K S
with_channel c h = record h { channel = c }

-- `Channel(networkInterface, pEndPoint, pt)`
unfoldable pub init : ℕ → ℕ → Option EndPoint → Protocol → Channel
init id now end_point pt = record {
  id = id;
  protocoltype = pt;
  flags = no_flags;
  last_tick_bytes_received = 0;
  last_tick_bytes_sent = 0;
  num_bytes_received = 0;
  num_bytes_sent = 0;
  num_packets_received = 0;
  num_packets_sent = 0;
  buffered_receives = [];
  bundles = [];
  last_received_time = now;
  end_point = end_point;
  packet_reader = none;
  packet_receiver = none;
  packet_sender = none;
}

-- `c_str()`, of which only the null dereference is modelled.
unfoldable pub c_str : Channel → Outcome (Unit {0})
c_str c = elim c.end_point [ none ↦ fail undefined | some p ↦ ok tt ]

unfoldable pub is_condemn : Channel → Bool
is_condemn c = c.flags.condemned

unfoldable pub is_destroyed : Channel → Bool
is_destroyed c = c.flags.destroyed

abbrev pub with_flags : Flags → Channel → Channel
with_flags f c = record c { flags = f }

unfoldable pub condemn : Channel → Channel
condemn c = with_flags (record c.flags { condemned = true }) c

unfoldable pub clear_bundle : Channel → Channel
clear_bundle c = record c { bundles = [] }

unfoldable pub bundles_length : List Packet → ℕ
bundles_length [] = 0
bundles_length (p ∷ ps) = unread_length p.stream + bundles_length ps

-- A threshold that is switched on and passed.
abbrev pub passed : ℕ → ℕ → Bool
passed limit n = ltb 0 limit && ltb limit n

abbrev pub reached : ℕ → ℕ → Bool
reached limit n = ltb 0 limit && leb limit n

abbrev pub condemn_if : Bool → Channel → Channel
condemn_if b c = if b then condemn c else c

unfoldable pub add_receive_window : Limits → Packet → Channel → Outcome Channel
add_receive_window limits packet c = do
  c_str c
  let d = record c { buffered_receives = c.buffered_receives ++ packet ∷ [] }
  let size = length d.buffered_receives
  ok (
      condemn_if
        (passed limits.receive_messages_critical size && passed limits.receive_messages size) d)

unfoldable pub update_last_received_time : ℕ → Channel → Channel
update_last_received_time now c = record c { last_received_time = now }

abbrev pub count_received : ℕ → ℤ → Channel → Channel
count_received now bytes c =
    let n = pos_part bytes in
    record c {
      last_received_time = now;
      num_packets_received = (c.num_packets_received + 1) % 2 ^ 32;
      num_bytes_received = (c.num_bytes_received + n) % 2 ^ 32;
      last_tick_bytes_received = (c.last_tick_bytes_received + n) % 2 ^ 32;
    }

abbrev pub count_all_received : ℤ → Stats → Stats
count_all_received bytes st = record st {
  packets_received = (st.packets_received + 1) % 2 ^ 64;
  bytes_received = (st.bytes_received + pos_part bytes) % 2 ^ 64;
}

-- `bytes` is an `int`; only a positive one is counted.
unfoldable pub on_packet_received : Limits → ℕ → ℤ → Channel → Stats → Outcome (Channel × Stats)
on_packet_received limits now bytes c st = do
  c_str c
  let d = count_received now bytes c
  ok (
    condemn_if (reached limits.receive_bytes d.last_tick_bytes_received) d,
    count_all_received bytes st,
  )

abbrev pub count_sent : ℤ → Bool → Channel → Channel
count_sent bytes sent_completed c =
    let n = pos_part bytes in
    record c {
      num_packets_sent = (c.num_packets_sent + (if sent_completed then 1 else 0)) % 2 ^ 32;
      num_bytes_sent = (c.num_bytes_sent + n) % 2 ^ 32;
      last_tick_bytes_sent = (c.last_tick_bytes_sent + n) % 2 ^ 32;
    }

abbrev pub count_all_sent : ℤ → Bool → Stats → Stats
count_all_sent bytes sent_completed st = record st {
  packets_sent = (st.packets_sent + (if sent_completed then 1 else 0)) % 2 ^ 64;
  bytes_sent = (st.bytes_sent + pos_part bytes) % 2 ^ 64;
}

unfoldable pub on_packet_sent : Limits → ℤ → Bool → Channel → Stats → Outcome (Channel × Stats)
on_packet_sent limits bytes sent_completed c st = do
  c_str c
  let d = count_sent bytes sent_completed c
  ok (
    condemn_if (reached limits.send_bytes d.last_tick_bytes_sent) d,
    count_all_sent bytes sent_completed st,
  )
