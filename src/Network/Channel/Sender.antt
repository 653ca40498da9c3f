-- ===== src/Network/Channel/Sender.antt =====
-- libs/network/tcp_packet_sender.cpp and packet_sender.cpp, with the parts of channel.cpp that they
-- call: `onSendCompleted`, `stopSend` and `send`.
use x_kbengine.Prelude.{
  ℕ, zero, suc, ◌+◌, ◌%◌, Bool, true, false, not, ◌&&◌, Option, none, some, List, [], ◌∷◌, ◌++◌,
  length, leb, ◌==◌, if◌then◌else◌, Outcome, ok, fail, assertion, undefined, ◌>>=◌, ◌>>◌,
}
use x_kbengine.Prelude.Int.{ℤ, pos, negsuc}
use x_kbengine.Stream.{unread_length}
use x_kbengine.Network.Common.{
  Reason, reason_success, reason_no_such_port, reason_general_network, reason_resource_unavailable,
  reason_client_disconnected, reason_transmit_queue_full, reason_channel_condemn,
}
use x_kbengine.Network.Packet.{Packet}
use x_kbengine.Network.Poller.{Epoll, register_for_write, deregister_for_write}
use x_kbengine.Network.EndPoint.{
  EndPoint, Sockets, Errno, refused, try_again, broken_pipe, connection_reset, no_buffers,
  other_error, Sent, sent, failed, send,
}
use x_kbengine.Network.Channel.State.{
  Channel, Host, with_channel, Limits, c_str, condemn, clear_bundle, bundles_length, on_packet_sent,
  with_flags, passed, reached,
}

-- `*pEndPoint_`
abbrev pub end_point_of : Channel → Outcome EndPoint
end_point_of c = elim c.end_point [ none ↦ fail undefined | some p ↦ ok p ]

abbrev pub length_of : Sent → ℤ
length_of (sent n) = pos n
length_of failed = negsuc 0

-- The switch on `errno`.
unfoldable pub reason_of_errno : Errno → Reason
reason_of_errno refused = reason_no_such_port
reason_of_errno try_again = reason_resource_unavailable
reason_of_errno broken_pipe = reason_client_disconnected
reason_of_errno connection_reset = reason_client_disconnected
reason_of_errno no_buffers = reason_transmit_queue_full
reason_of_errno other_error = reason_general_network

-- After a send that did not complete its packet. One that took no byte at all looks at `errno`.
unfoldable pub reason_of : Sent → Errno → Reason
unfolding reason_of_errno
reason_of (sent zero) err = reason_of_errno err
reason_of (sent (suc n)) err = reason_resource_unavailable
reason_of failed err = reason_of_errno err

abbrev pub is_success : Reason → Bool
is_success reason_success = true
is_success _ = false

abbrev pub is_unavailable : Reason → Bool
is_unavailable reason_resource_unavailable = true
is_unavailable _ = false

module _ (e : Epoll) (k : Sockets) where
  unfoldable pub stop_send : Host e k → Outcome (Host e k)
  stop_send h = if not h.channel.flags.sending then ok h else do
    p ← end_point_of h.channel
    let c = with_flags (record h.channel.flags { sending = false }) h.channel
    ok (record h { channel = c; poller = (deregister_for_write e p.socket h.poller).0 })

  unfoldable pub on_send_completed : Host e k → Outcome (Host e k)
  unfolding stop_send
  on_send_completed h =
      if (length h.channel.bundles == 0) && h.channel.flags.sending
      then stop_send h
      else fail assertion

abbrev pub fail_count : Channel → ℕ
fail_count c = elim c.packet_sender [ none ↦ 0 | some s ↦ s.sendfail_count ]

abbrev pub with_fail_count : ℕ → Channel → Channel
with_fail_count n c = record c { packet_sender = some (record { sendfail_count = n }) }

module _ (e : Epoll) (k : Sockets) (limits : Limits) where
  -- Once the channel's end point is read: the call of `send`, and what is noted of it.
  abbrev pub send_by : Packet → Host e k → EndPoint → Outcome (Reason × Packet × Host e k)
  send_by packet h p =
      let (s, packet', answer) = send k p packet h.sockets in
      let sent_completed = packet'.sent_size == unread_length packet'.stream in
      on_packet_sent limits (length_of answer) sent_completed h.channel h.stats >>= λ (c, st). ok (
        if sent_completed then reason_success else reason_of answer (k.errno s),
        packet',
        record h { channel = c; stats = st; sockets = s },
      )

  unfoldable pub do_send : Packet → Host e k → Outcome (Reason × Packet × Host e k)
  do_send packet h =
      if h.channel.flags.condemned
      then ok (reason_channel_condemn, packet, h)
      else end_point_of h.channel >>= send_by packet h

  abbrev pub send_next :
      (Host e k → Outcome (Reason × List Packet × Host e k))
      → List Packet
      → Reason × Packet × Host e k
      → Outcome (Reason × List Packet × Host e k)
  send_next rest packets (reason, packet, h) =
      if is_success reason then rest h else ok (reason, packet ∷ packets, h)

  -- The loop over the bundles: the packets that are left, the first of them the one that failed.
  unfoldable pub send_loop : List Packet → Host e k → Outcome (Reason × List Packet × Host e k)
  send_loop [] h = ok (reason_success, [], h)
  send_loop (p ∷ ps) h = do_send p h >>= send_next (λ h'. send_loop ps h') ps

  -- After the loop. The count is a `uint8_t`.
  unfoldable pub sent_all : Bool → Host e k → Outcome (Bool × Host e k)
  unfolding on_send_completed
  sent_all is_epoll h =
      let done = with_channel (with_fail_count 0 (record h.channel { bundles = [] })) h in
      if is_epoll then on_send_completed e k done >>= (λ h'. ok (true, h')) else ok (true, done)

  unfoldable pub sent_part : Reason → List Packet → Host e k → Outcome (Bool × Host e k)
  unfolding condemn
  sent_part reason rest h =
      let c = record h.channel { bundles = rest } in
      let n = (fail_count c + 1) % 256 in
      let counted = with_fail_count n c in
      if is_unavailable reason
      then ok (false, with_channel (if leb 10 n then condemn counted else counted) h)
      else ok (false, with_channel (condemn c) h)

  unfoldable pub process_send : Bool → Host e k → Outcome (Bool × Host e k)
  process_send is_epoll h =
      if h.channel.flags.condemned
      then ok (false, h)
      else send_loop h.channel.bundles h >>= λ (reason, rest, h').
          if is_success reason then sent_all is_epoll h' else sent_part reason rest h'

  -- `PacketSender::handleOutputNotification`
  unfoldable pub handle_output_notification : Host e k → Outcome (Host e k)
  unfolding process_send
  handle_output_notification h = process_send true h >>= λ (done, h'). ok h'

  -- The end of `Channel::send`: the answer of the registration is not looked at.
  unfoldable pub send_now : Host e k → Outcome (Host e k)
  send_now h = do
    let started : Host e k = elim h.channel.packet_sender [
      | none ↦ with_channel (with_fail_count 0 h.channel) h
      | some s ↦ h
    ]
    (done, h1) ← process_send false started
    let f = h1.channel.flags
    if not (length h1.channel.bundles == 0) && not f.condemned && not f.destroyed
        then end_point_of h1.channel >>= (λ p. ok (record h1 {
          channel = with_flags (record f { sending = true }) h1.channel;
          poller = (register_for_write e p.socket h1.channel.id h1.poller).0;
        }))
        else ok h1

  -- The thresholds of the send window, by messages and by bytes.
  unfoldable pub check_send_window : Channel → Channel
  unfolding condemn bundles_length
  check_send_window c =
      let size = length c.bundles in
      let many =
        if passed limits.send_messages_critical size && passed limits.send_messages size
        then condemn c
        else c in
      if reached limits.send_bytes (bundles_length c.bundles) then condemn many else many

  unfoldable pub send_packet : Option Packet → Host e k → Outcome (Host e k)
  send_packet packet h = do
    c_str h.channel
    let c = h.channel
    let queued : Channel = elim packet [
      | none ↦ c
      | some p ↦ record c { bundles = c.bundles ++ p ∷ [] }
    ]
    let checked = check_send_window queued
    if c.flags.destroyed
        then ok (with_channel (clear_bundle c) h)
        else if c.flags.condemned
        then ok (with_channel (clear_bundle c) h)
        else if length queued.bundles == 0
        then ok (with_channel queued h)
        else if checked.flags.sending
        then ok (with_channel checked h)
        else send_now (with_channel checked h)
