-- ===== src/Network/Channel/Receiver.antt =====
-- libs/network/tcp_packet_receiver.cpp, packet_receiver.cpp and udp_packet_receiver.cpp, and
-- `Channel::processPackets` of channel.cpp.
use x_kbengine.Prelude.{
  ℕ, zero, suc, ◌+◌, Bool, true, false, none, some, List, [], ◌∷◌, length, if◌then◌else◌, Outcome,
  ok, fail, assertion, undefined, no_fuel, ◌>>=◌, ◌>>◌, get_elem?,
}
use x_kbengine.Prelude.Int.{ℤ}
use x_kbengine.Network.Packet.{Packet, tcp_init}
use x_kbengine.Network.Poller.{Epoll, Fd, same_fd}
use x_kbengine.Network.Reader.{Reader, process_messages}
use x_kbengine.Network.EndPoint.{Sockets, Errno, try_again, Received, received, recv_failed, recv}
use x_kbengine.Network.Channel.State.{
  Host, with_channel, Limits, c_str, condemn, add_receive_window, on_packet_received,
}
use x_kbengine.Network.Channel.Sender.{end_point_of}

abbrev pub is_try_again : Errno → Bool
is_try_again try_again = true
is_try_again _ = false

module _ (e : Epoll) (k : Sockets) (limits : Limits) where
  -- A packet of some length goes to the receive window; an error or the end of the connection
  -- condemns the channel. The result says whether to try once more.
  unfoldable pub deliver : ℕ → Packet × ℤ → Received → Host e k → Outcome (Bool × Host e k)
  unfolding condemn
  deliver now (packet, len) (recv_failed err) h =
      ok (false, if is_try_again err then h else with_channel (condemn h.channel) h)
  deliver now (packet, len) (received []) h =
      c_str h.channel >> ok (false, with_channel (condemn h.channel) h)
  deliver now (packet, len) (received (b ∷ bs)) h = do
    (c, st) ← on_packet_received limits now len h.channel h.stats
    d ← add_receive_window limits packet c
    ok (true, record h { channel = d; stats = st })

  -- `TCPPacketReceiver::processRecv`, with what `recv(2)` answers.
  unfoldable pub process_recv : ℕ → Received → Host e k → Outcome (Bool × Host e k)
  process_recv now answer h =
      if h.channel.flags.condemned
      then ok (false, h)
      else end_point_of h.channel >>= λ p.
          tcp_init >>= λ fresh. recv fresh answer >>= λ filled. deliver now filled answer h

  abbrev pub once_more : (Host e k → Outcome (Host e k)) → Bool × Host e k → Outcome (Host e k)
  once_more rest (true, h) = rest h
  once_more rest (false, h) = ok h

  -- `while (processRecv())`, over the answers of the calls of `recv(2)`. A non-blocking socket answers
  -- EAGAIN once it is drained, as the end of the list does here.
  unfoldable pub recv_loop : ℕ → List Received → Host e k → Outcome (Host e k)
  recv_loop now [] h = process_recv now (recv_failed try_again) h >>= once_more (λ h'. ok h')
  recv_loop now (answer ∷ answers) h =
      process_recv now answer h >>= once_more (λ h'. recv_loop now answers h')

  -- `PacketReceiver::handleInputNotification`
  unfoldable pub handle_input_notification : Fd → ℕ → List Received → Host e k → Outcome (Host e k)
  handle_input_notification fd now answers h = end_point_of h.channel >>= λ p.
      if same_fd p.socket fd then recv_loop now answers h else fail assertion

module _ (e : Epoll) (k : Sockets)
    (handle : Host e k → Packet → Outcome (Bool × Host e k × Packet)) where
  -- The reader goes back to its channel; the packet is read where it lies in the buffer, and is not
  -- looked at again.
  abbrev pub next_received :
      (Host e k → Outcome (Bool × Host e k))
      → Bool × Host e k × Reader × Packet
      → Outcome (Bool × Host e k)
  next_received rest (fine, h, r, p) =
      let back = with_channel (record h.channel { packet_reader = some r }) h in
      if fine then rest back else ok (false, back)

  -- `for (i = 0; i < bufferedReceives_.size(); ++i)`; the reader logs the channel first. The handler may change the channel, so that the
  -- buffer is looked at in each round; it never puts packets into it, and one round for each packet
  -- and one more are enough.
  unfoldable pub receive_loop : ℕ → ℕ → Host e k → Outcome (Bool × Host e k)
  receive_loop zero i h = fail no_fuel
  receive_loop (suc fuel) i h = elim (get_elem? h.channel.buffered_receives i) [
    | none ↦ ok (true, h)
    | some p ↦ elim h.channel.packet_reader [
      | none ↦ fail undefined
      | some r ↦
          c_str h.channel
          >> process_messages handle h r p
          >>= next_received (λ h'. receive_loop fuel (i + 1) h')
    ]
  ]

  -- After the loop, or after the exception that ended it.
  abbrev pub finish_packets : Bool × Host e k → Outcome (Host e k)
  finish_packets (true, h) = ok (with_channel (record h.channel { buffered_receives = [] }) h)
  finish_packets (false, h) =
      c_str h.channel >> ok (with_channel (record (condemn h.channel) { buffered_receives = [] }) h)

  unfoldable pub process_packets : Host e k → Outcome (Host e k)
  process_packets h = do
    c_str h.channel
    let started =
        with_channel (record h.channel { last_tick_bytes_received = 0; last_tick_bytes_sent = 0 }) h
    if h.channel.flags.destroyed
        then ok started
        else if h.channel.flags.condemned
        then ok started
        else receive_loop (length h.channel.buffered_receives + 1) 0 started >>= finish_packets
