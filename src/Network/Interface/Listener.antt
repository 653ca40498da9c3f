-- ===== src/Network/Interface/Listener.antt =====
-- libs/network/listener_receiver.cpp, and `UDPPacketReceiver::processRecv` of
-- libs/network/udp_packet_receiver.cpp: how channels come to the interface.
use x_kbengine.Prelude.{
  ℕ, ◌+◌, Bool, true, false, some, List, [], ◌∷◌, ◌++◌, if◌then◌else◌, Outcome, ok, ◌>>=◌,
}
use x_kbengine.Prelude.Int.{ℤ}
use x_kbengine.Network.Address.{Address}
use x_kbengine.Network.Registry.{insert}
use x_kbengine.Network.Packet.{Packet, udp_init}
use x_kbengine.Network.Poller.{Epoll, Fd}
use x_kbengine.Network.EndPoint.{
  EndPoint, Sockets, good, open_socket, Accepted, accepted_one, accept_failed, accept, Received,
  received, recv_failed, recvfrom,
}
use x_kbengine.Network.EndPoint
use x_kbengine.Network.Channel.State.{
  Channel, Host, Limits, protocol_tcp, protocol_udp, condemn, add_receive_window,
  on_packet_received, c_str,
}
use x_kbengine.Network.Channel.State
use x_kbengine.Network.Channel.Sender.{end_point_of}
use x_kbengine.Network.Channel.Lifecycle.{initialize}
use x_kbengine.Network.Channel.Receiver.{is_try_again}
use x_kbengine.Network.Interface.{Net, node_of, after, register_channel, close_socket}

module _ (e : Epoll) (k : Sockets) where
  -- The channel of an accepted connection. One that was initialized and then refused stays with the
  -- poller.
  unfoldable pub accept_channel : ℕ → EndPoint → Net e k → Outcome (Net e k)
  unfolding State.init
  accept_channel now p n =
      initialize e k true (node_of e k (State.init n.fresh now (some p) protocol_tcp) n)
      >>= λ started.
          let h = started.1 in
          let m : Net e k = record (after e k h n) { fresh = n.fresh + 1 } in
          if started.0
          then register_channel e k h.channel m >>= (λ r.
            ok (if r.0 then r.1 else record r.1 { strays = r.1.strays ++ h.channel ∷ [] }))
          else ok m

  -- `while (true)`, over the answers of `accept(2)`. A non-blocking socket answers EAGAIN once no
  -- connection waits, as the end of the list does here.
  unfoldable pub accept_loop : Bool → ℕ → List Accepted → Net e k → Outcome (Net e k)
  accept_loop closed now [] n = ok n
  accept_loop closed now (accept_failed err ∷ answers) n =
      if is_try_again err then ok n else close_socket e k closed n
  accept_loop closed now (accepted_one fd address ∷ answers) n =
      accept_channel now (record { socket = some fd; address = address }) n
      >>= accept_loop closed now answers

  -- The packet goes to the channel that was registered for it.
  unfoldable pub take_datagram :
      Limits → ℕ → Address → Packet × ℤ → Channel → Net e k → Outcome (Bool × Net e k)
  take_datagram limits now from (packet, len) c n =
      if c.flags.condemned
      then ok (false, n)
      else on_packet_received limits now len c n.stats >>= λ counted.
          add_receive_window limits packet counted.0 >>= λ d.
          ok (true, record n { stats = counted.1; channel_map = insert from d n.channel_map })

  -- A datagram, on its own channel: `opened` is what `socket(2)` answers.
  unfoldable pub receive_datagram :
      Limits → ℕ → Fd → Address → Packet × ℤ → Net e k → Outcome (Bool × Net e k)
  unfolding State.init open_socket good
  receive_datagram limits now opened from filled n =
      let p = open_socket opened (EndPoint.init from) in
      if good p
      then initialize e k false (node_of e k (State.init n.fresh now (some p) protocol_udp) n)
        >>= (λ started.
            let m : Net e k = record (after e k started.1 n) { fresh = n.fresh + 1 } in
            if started.0
            then register_channel e k started.1.channel m >>= (λ r.
              if r.0
              then take_datagram limits now from filled started.1.channel r.1
              else ok (false, r.1))
            else ok (false, m))
      else ok (false, n)

  -- `UDPPacketReceiver::processRecv` of the channel that listens, with what `recvfrom(2)` answers.
  unfoldable pub process_recv_udp :
      Limits → ℕ → Fd → Received → Address → Channel → Net e k → Outcome (Bool × Channel × Net e k)
  process_recv_udp limits now opened answer from c n =
      if c.flags.condemned
      then ok (false, c, n)
      else end_point_of c >>= λ p. udp_init >>= λ fresh. recvfrom fresh answer >>= λ filled.
          elim answer [
            | recv_failed err ↦ ok (false, if is_try_again err then c else condemn c, n)
            | received l ↦ elim l [
              | [] ↦ ok (false, condemn c, n)
              | b ∷ bs ↦ receive_datagram limits now opened from filled n >>= λ r. ok (r.0, c, r.1)
            ]
          ]
