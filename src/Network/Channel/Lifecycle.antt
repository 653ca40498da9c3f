-- ===== src/Network/Channel/Lifecycle.antt =====
-- The operations of libs/network/channel.cpp by which a channel joins and leaves the poller.
use x_kbengine.Prelude.{
  ℕ, Bool, true, false, not, Option, none, some, [], if◌then◌else◌, Outcome, ok, ◌>>=◌, ◌>>◌,
}
use x_kbengine.Network.Poller.{Epoll, register_for_read, deregister_for_read}
use x_kbengine.Network.Reader
use x_kbengine.Network.Reader.{Reader}
use x_kbengine.Network.EndPoint.{Sockets}
use x_kbengine.Network.Channel.State.{
  Channel, Host, with_channel, Protocol, protocol_tcp, protocol_udp, ReceiverType,
  tcp_packet_receiver, udp_packet_receiver, channel_receiver, null_handler, InputHandler, c_str,
  clear_bundle, with_flags,
}
use x_kbengine.Network.Channel.Sender.{end_point_of, stop_send}

-- The receiver that `initialize` leaves: one of the other protocol's type is dropped, and none is made
-- in its place.
unfoldable pub choose_receiver : Protocol → Bool → Option ReceiverType → Option ReceiverType
choose_receiver protocol_tcp register none = if register then some tcp_packet_receiver else none
choose_receiver protocol_tcp register (some udp_packet_receiver) = none
choose_receiver protocol_tcp register (some tcp_packet_receiver) = some tcp_packet_receiver
choose_receiver protocol_udp register none = if register then some udp_packet_receiver else none
choose_receiver protocol_udp register (some tcp_packet_receiver) = none
choose_receiver protocol_udp register (some udp_packet_receiver) = some udp_packet_receiver

module _ (e : Epoll) (k : Sockets) where
  unfoldable pub stop_recv : Host e k → Outcome (Host e k)
  stop_recv h = if not h.channel.flags.recving then ok h else do
    p ← end_point_of h.channel
    let c = with_flags (record h.channel.flags { recving = false }) h.channel
    ok (record h { channel = c; poller = (deregister_for_read e p.socket h.poller).0 })

  -- `clearState` from the counters on.
  unfoldable pub clear_counters : ℕ → Channel → Channel
  clear_counters now c = record c {
    last_received_time = now;
    num_packets_sent = 0;
    num_packets_received = 0;
    num_bytes_sent = 0;
    num_bytes_received = 0;
    last_tick_bytes_received = 0;
    last_tick_bytes_sent = 0;
  }

  -- Off the poller, with empty buffers and no end point.
  unfoldable pub leave : Host e k → Outcome (Host e k)
  unfolding clear_bundle
  leave h = do
    h1 ← stop_send e k h
    h2 ← stop_recv (with_channel (clear_bundle h1.channel) h1)
    ok (with_channel (record h2.channel { buffered_receives = []; end_point = none }) h2)

  unfoldable pub clear_state : ℕ → Host e k → Outcome (Host e k)
  clear_state now h = do
    c_str h.channel
    left ← elim h.channel.end_point [ none ↦ ok h | some p ↦ leave h ]
    ok (with_channel (clear_counters now left.channel) left)

  unfoldable pub destroy : ℕ → Host e k → Outcome (Host e k)
  destroy now h = if h.channel.flags.destroyed then c_str h.channel >> ok h else do
    h' ← clear_state now h
    ok (with_channel (with_flags (record h'.channel.flags { destroyed = true }) h'.channel) h')

  unfoldable pub finalise : ℕ → Host e k → Outcome (Host e k)
  finalise now h = do
    h' ← clear_state now h
    ok (
        with_channel
          (record h'.channel { packet_reader = none; packet_receiver = none; packet_sender = none })
          h')

  -- A reader is made where there is none.
  unfoldable pub ensure_reader : Channel → Outcome Channel
  ensure_reader c = elim c.packet_reader [
    | none ↦ Reader.init >>= λ r. ok (record c { packet_reader = some r })
    | some r ↦ ok c
  ]

  -- The result is `false` where the poller refuses. A receiver that was dropped is registered as a null
  -- pointer.
  unfoldable pub initialize : Bool → Host e k → Outcome (Bool × Host e k)
  unfolding choose_receiver
  initialize register h = do
    c_str h.channel
    let receiver = choose_receiver h.channel.protocoltype register h.channel.packet_receiver
    let c = record h.channel { packet_receiver = receiver }
    p ← end_point_of c
    if not register
        then ensure_reader c >>= (λ d. ok (true, with_channel d h))
        else let handler : InputHandler = elim receiver [
          | none ↦ null_handler
          | some t ↦ channel_receiver t c.id
        ] in
          let (poller, done) = register_for_read e p.socket handler h.poller in
          if done
          then ensure_reader (with_flags (record c.flags { recving = true }) c)
            >>= (λ d. ok (true, record h { channel = d; poller = poller }))
          else c_str c >> ok (false, record h { channel = c; poller = poller })
