-- ===== src/Network/Session.antt =====
-- A connection as the server's loop serves it: what libs/network/packet_sender.cpp and channel.cpp do
-- for the peer that sends, and packet_receiver.cpp and channel.cpp for the peer that receives, over
-- any number of rounds.
pub mod Log
pub mod Tick
pub mod Rounds
pub mod Outflow
pub mod Wire
mod Tests
use x_kbengine.Prelude.{
  ℕ, zero, suc, Bool, true, false, none, List, [], ◌∷◌, map, Outcome, ok, ◌>>=◌, if◌then◌else◌,
}
use x_kbengine.Network.Packet.{Packet}
use x_kbengine.Network.Poller.{Epoll, Fd}
use x_kbengine.Network.EndPoint.{Sockets, received}
use x_kbengine.Network.Channel.State.{Host, Limits}
use x_kbengine.Network.Channel.Sender.{process_send, send_packet}
use x_kbengine.Network.Channel.Receiver.{handle_input_notification, process_packets}

-- A round of the loop: its time, and the bytes that each call of `recv(2)` gives until the socket is
-- drained.
abbrev pub Arrivals : Type 0
Arrivals = ℕ × List (List ℕ)

module _ (e : Epoll) (k : Sockets) (limits : Limits)
    (handle : Host e k → Packet → Outcome (Bool × Host e k × Packet)) where
  -- The poller calls the channel's receiver, and the tick processes what has arrived.
  unfoldable pub receive_round : Fd → Arrivals → Host e k → Outcome (Host e k)
  receive_round fd (now, chunks) h =
      handle_input_notification e k limits fd now (map received chunks) h
      >>= process_packets e k handle

  unfoldable pub receive_rounds : Fd → List Arrivals → Host e k → Outcome (Host e k)
  receive_rounds fd [] h = ok h
  receive_rounds fd (r ∷ rs) h = receive_round fd r h >>= receive_rounds fd rs

module _ (e : Epoll) (k : Sockets) (limits : Limits) where
  -- The poller calls the channel's sender at most so many times, and only as long as it is registered.
  unfoldable pub send_rounds : ℕ → Host e k → Outcome (Host e k)
  send_rounds zero h = ok h
  send_rounds (suc n) h = elim h.channel.flags.sending [
    | false ↦ ok h
    | true ↦ process_send e k limits true h >>= λ (done, h'). send_rounds n h'
  ]

  -- `Channel::send()`, and what the poller does about it.
  unfoldable pub transmit : ℕ → Host e k → Outcome (Host e k)
  transmit n h = send_packet e k limits none h >>= send_rounds n
