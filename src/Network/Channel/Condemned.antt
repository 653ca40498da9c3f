-- ===== src/Network/Channel/Condemned.antt =====
-- An event for a channel of libs/network/packet_receiver.cpp, and what a condemned one makes of it.
use x_kbengine.Prelude.{
  ℕ, ◌≡◌, ap, ◌∙◌, Bool, true, false, none, some, List, [], ◌∷◌, if◌then◌else◌, Outcome, ok, fail,
  assertion, undefined, ◌>>=◌,
}
use x_kbengine.Network.Packet.{tcp_init}
use x_kbengine.Network.Poller.{Epoll, same_fd}
use x_kbengine.Network.Poller.Coherent.{same_fd_refl}
use x_kbengine.Network.EndPoint.{EndPoint, Sockets, Received, recv, recv_failed, try_again}
use x_kbengine.Network.Channel.State.{Host, Limits}
use x_kbengine.Network.Channel.Sender.{end_point_of}
use x_kbengine.Network.Channel.Receiver.{
  deliver, process_recv, recv_loop, once_more, handle_input_notification,
}

module _ (e : Epoll) (k : Sockets) (limits : Limits) where
  -- The event is for the channel's own descriptor.
  pub notified :
      (ep : EndPoint) (now : ℕ) (answers : List Received) (h : Host e k)
      → h.channel.end_point ≡ some ep
      → handle_input_notification e k limits ep.socket now answers h
        ≡ recv_loop e k limits now answers h
  unfolding handle_input_notification
  notified ep now answers h has =
      ap
        (λ o. elim o [ none ↦ fail undefined | some x ↦ ok x ] >>= λ (p : EndPoint).
          if same_fd p.socket ep.socket then recv_loop e k limits now answers h else fail assertion)
        has
      ∙ ap (λ b. if b then recv_loop e k limits now answers h else fail assertion)
          (same_fd_refl ep.socket)

  process_recv_condemned :
      (now : ℕ) (answer : Received) (h : Host e k)
      → h.channel.flags.condemned ≡ true
      → process_recv e k limits now answer h ≡ ok (false, h)
  unfolding process_recv
  process_recv_condemned now answer h dead =
      let go_on : Outcome (Bool × Host e k) = end_point_of h.channel >>= λ p. tcp_init >>= λ fresh.
      recv fresh answer >>= λ filled. deliver e k limits now filled answer h in
      ap (λ b. if b then ok (false, h) else go_on) dead

  -- A condemned channel takes nothing.
  pub recv_loop_condemned :
      (now : ℕ) (answers : List Received) (h : Host e k)
      → h.channel.flags.condemned ≡ true
      → recv_loop e k limits now answers h ≡ ok h
  unfolding recv_loop
  recv_loop_condemned now [] h dead =
      ap (λ o. o >>= once_more e k limits (λ h'. ok h'))
        (process_recv_condemned now (recv_failed try_again) h dead)
  recv_loop_condemned now (a ∷ answers) h dead =
      ap (λ o. o >>= once_more e k limits (λ h'. recv_loop e k limits now answers h'))
        (process_recv_condemned now a h dead)
