-- ===== src/Network/Server.antt =====
-- The server's network as a whole: the interface of libs/network/network_interface.cpp with its channels
-- and the listener, and the poller that calls them. A turn is one call of a handler, one call of the
-- application, or one tick; they come in any order.
--
-- The poller and the application may still hold channels that left the map, or that never came in. Events
-- for these and calls of these are turns of their own (`astray`), of any channel in any state.
pub mod Tame
pub mod Ticks
pub mod Sound
pub mod Members
pub mod Turns
mod Tests
use x_kbengine.Prelude.{ℕ, ◌≡◌, Bool, true, none, some, Option, List, Outcome, ok}
use x_kbengine.Network.Address.{Address}
use x_kbengine.Network.Registry.{find, insert}
use x_kbengine.Network.Packet.{Packet}
use x_kbengine.Network.Poller.{Epoll, Fd}
use x_kbengine.Network.Poller
use x_kbengine.Network.EndPoint.{EndPoint, Sockets, Received, Accepted}
use x_kbengine.Network.Channel.State.{Channel, Host, Limits, Stats}
use x_kbengine.Network.Channel.Sender.{handle_output_notification, send_packet}
use x_kbengine.Network.Channel.Receiver.{handle_input_notification}
use x_kbengine.Network.Channel.Lifecycle.{destroy}
use x_kbengine.Network.Interface.{
  Net, node_of, after, register_channel, deregister_channel, deregister_all_channels, close_socket,
  initialize, process_channels,
}
use x_kbengine.Network.Interface
use x_kbengine.Network.Interface.Listener.{accept_loop}
use x_kbengine.Network.Interface.Doors.{AllRouted}

module _ (e : Epoll) (k : Sockets) where
  -- The channel goes back under its address, with what its operation did to the rest.
  abbrev pub put : Address → Host e k → Net e k → Net e k
  put a h n = record (after e k h n) { channel_map = insert a h.channel n.channel_map }

pub data Turn (e : Epoll) (k : Sockets) (limits : Limits)
    (handle : Host e k → Packet → Outcome (Bool × Host e k × Packet))
    : Net e k → Net e k → Type 0 where
  -- The listener is called while the interface listens.
  accepts :
      {n n' : Net e k} (closed : Bool) (now : ℕ) (answers : List Accepted) (q : EndPoint)
      → n.end_point ≡ some q
      → AllRouted answers
      → accept_loop e k closed now answers n ≡ ok n'
      → Turn e k limits handle n n'
  -- A channel's receiver is called for its descriptor, and its sender while it is registered.
  receives :
      {n n' : Net e k} (a : Address) (c : Channel) (p : EndPoint) (now : ℕ)
      (answers : List Received) (h : Host e k)
      → find a n.channel_map ≡ some c
      → c.end_point ≡ some p
      → handle_input_notification e k limits p.socket now answers (node_of e k c n) ≡ ok h
      → n' ≡ put e k a h n
      → Turn e k limits handle n n'
  resumes :
      {n n' : Net e k} (a : Address) (c : Channel) (h : Host e k)
      → find a n.channel_map ≡ some c
      → c.flags.sending ≡ true
      → handle_output_notification e k limits (node_of e k c n) ≡ ok h
      → n' ≡ put e k a h n
      → Turn e k limits handle n n'
  -- The same for a channel that is not in the map, which may be any.
  receives_astray :
      {n n' : Net e k} (c : Channel) (p : EndPoint) (now : ℕ) (answers : List Received)
      (h : Host e k) (strays : List Channel)
      → c.end_point ≡ some p
      → handle_input_notification e k limits p.socket now answers (node_of e k c n) ≡ ok h
      → n' ≡ record (after e k h n) { strays = strays }
      → Turn e k limits handle n n'
  resumes_astray :
      {n n' : Net e k} (c : Channel) (h : Host e k) (strays : List Channel)
      → handle_output_notification e k limits (node_of e k c n) ≡ ok h
      → n' ≡ record (after e k h n) { strays = strays }
      → Turn e k limits handle n n'
  -- What the application calls: `Channel::send` and `destroy`, and the members of the interface.
  sends :
      {n n' : Net e k} (a : Address) (c : Channel) (packet : Option Packet) (h : Host e k)
      → find a n.channel_map ≡ some c
      → send_packet e k limits packet (node_of e k c n) ≡ ok h
      → n' ≡ put e k a h n
      → Turn e k limits handle n n'
  destroys :
      {n n' : Net e k} (a : Address) (c : Channel) (now : ℕ) (h : Host e k)
      → find a n.channel_map ≡ some c
      → destroy e k now (node_of e k c n) ≡ ok h
      → n' ≡ put e k a h n
      → Turn e k limits handle n n'
  sends_astray :
      {n n' : Net e k} (c : Channel) (packet : Option Packet) (h : Host e k) (strays : List Channel)
      → send_packet e k limits packet (node_of e k c n) ≡ ok h
      → n' ≡ record (after e k h n) { strays = strays }
      → Turn e k limits handle n n'
  destroys_astray :
      {n n' : Net e k} (c : Channel) (now : ℕ) (h : Host e k) (strays : List Channel)
      → destroy e k now (node_of e k c n) ≡ ok h
      → n' ≡ record (after e k h n) { strays = strays }
      → Turn e k limits handle n n'
  registers :
      {n n' : Net e k} (c : Channel) (done : Bool)
      → register_channel e k c n ≡ ok (done, n')
      → Turn e k limits handle n n'
  deregisters :
      {n n' : Net e k} (c : Channel) (done : Bool)
      → deregister_channel e k c n ≡ ok (done, n')
      → Turn e k limits handle n n'
  deregisters_all :
      {n n' : Net e k} (now : ℕ)
      → deregister_all_channels e k now n ≡ ok n'
      → Turn e k limits handle n n'
  closes :
      {n n' : Net e k} (closed : Bool)
      → close_socket e k closed n ≡ ok n'
      → Turn e k limits handle n n'
  starts_again :
      {n n' : Net e k} (opened : Fd) (closed : Bool) (listens : Fd → Bool) (address : Address)
      → n' ≡ (initialize e k opened closed listens address n).1
      → Turn e k limits handle n n'
  ticks : {n n' : Net e k} → process_channels e k handle n ≡ ok n' → Turn e k limits handle n n'

-- From a new interface on a new poller, for which the kernel watches nothing.
pub data Reachable (e : Epoll) (k : Sockets) (limits : Limits)
    (handle : Host e k → Packet → Outcome (Bool × Host e k × Packet)) : Net e k → Type 0 where
  made :
      {n : Net e k} (kernel : e.Kernel) (stats : Stats) (sockets : k.State)
      → ((fd : Fd) → e.interest kernel fd ≡ none)
      → n ≡ Interface.init e k (Poller.init kernel) stats sockets
      → Reachable e k limits handle n
  turned :
      {n n' : Net e k}
      → Reachable e k limits handle n
      → Turn e k limits handle n n'
      → Reachable e k limits handle n'
