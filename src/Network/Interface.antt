-- ===== src/Network/Interface.antt =====
-- libs/network/network_interface.h and network_interface.cpp: the channels by the address of their
-- peers. A channel's handlers do not register or remove channels themselves here.
pub mod Listener
pub mod Entries
pub mod Sweep
pub mod Doors
pub mod Faults
pub mod Datagrams
pub mod Leftover
mod Tests
use x_kbengine.Prelude.{
  ℕ, ◌+◌, Bool, true, false, not, ◌||◌, Option, none, some, List, [], ◌∷◌, ◌++◌, map, ◌==◌,
  if◌then◌else◌, Outcome, ok, fail, assertion, undefined, ◌>>=◌, ◌>>◌,
}
use x_kbengine.Network.Address.{Address, unset}
use x_kbengine.Network.Registry.{find, insert, erase}
use x_kbengine.Network.Packet.{Packet}
use x_kbengine.Network.Poller.{Epoll, Poller, Fd, same_fd, register_for_read, deregister_for_read}
use x_kbengine.Network.EndPoint.{EndPoint, Sockets, good, close, open_socket}
use x_kbengine.Network.EndPoint
use x_kbengine.Network.Channel.State.{
  Channel, Host, InputHandler, listener, OutputHandler, Stats, c_str, is_condemn, is_destroyed,
}
use x_kbengine.Network.Channel.Lifecycle.{destroy}
use x_kbengine.Network.Channel.Receiver.{process_packets}

-- `deregistered` notes the channels for which the handler of deregistrations, if there is one, was
-- called, and `strays` the channels that stay alive only because the poller refers to them. The
-- identities of new channels start at `fresh`. The listener is not kept: the poller refers to it.
pub record NetworkInterface (K S : Type 0) : Type 0 where
  pub channel_map : List (Address × Channel)
  pub end_point : Option EndPoint
  pub has_deregister_handler : Bool
  pub deregistered : List ℕ
  pub strays : List Channel
  pub fresh : ℕ
  pub poller : Poller K InputHandler OutputHandler
  pub stats : Stats
  pub sockets : S

abbrev pub Net : Epoll → Sockets → Type 0
Net e k = NetworkInterface e.Kernel k.State

module _ (e : Epoll) (k : Sockets) where
  -- `NetworkInterface(pPoller)`
  unfoldable pub init : Poller e.Kernel InputHandler OutputHandler → Stats → k.State → Net e k
  init poller stats sockets = record {
    channel_map = [];
    end_point = none;
    has_deregister_handler = false;
    deregistered = [];
    strays = [];
    fresh = 0;
    poller = poller;
    stats = stats;
    sockets = sockets;
  }

  -- A channel of the interface with what its operations reach, and the way back.
  abbrev pub node_of : Channel → Net e k → Host e k
  node_of c n = record { channel = c; poller = n.poller; stats = n.stats; sockets = n.sockets }

  abbrev pub after : Host e k → Net e k → Net e k
  after h n = record n { poller = h.poller; stats = h.stats; sockets = h.sockets }

  -- The two look-ups: by address, and by file descriptor.
  unfoldable pub find_channel : Address → Net e k → Option Channel
  find_channel a n = if a.ip == 0 then none else find a n.channel_map

  abbrev pub has_fd : Fd → Channel → Bool
  has_fd fd c = elim c.end_point [ none ↦ false | some p ↦ same_fd p.socket fd ]

  unfoldable pub find_by_fd : Fd → List (Address × Channel) → Option Channel
  find_by_fd fd [] = none
  find_by_fd fd ((a, c) ∷ entries) = if has_fd fd c then some c else find_by_fd fd entries

  unfoldable pub register_channel : Channel → Net e k → Outcome (Bool × Net e k)
  register_channel c n = elim c.end_point [
    | none ↦ fail undefined
    | some p ↦ if p.address.ip == 0 then fail assertion else elim (find p.address n.channel_map) [
      | some d ↦ ok (false, n)
      | none ↦ ok (true, record n { channel_map = insert p.address c n.channel_map })
    ]
  ]

  abbrev pub note_deregistered : Channel → Net e k → Net e k
  note_deregistered c n =
      if n.has_deregister_handler
      then record n { deregistered = n.deregistered ++ c.id ∷ [] }
      else n

  unfoldable pub deregister_channel : Channel → Net e k → Outcome (Bool × Net e k)
  deregister_channel c n = elim c.end_point [
    | none ↦ fail assertion
    | some p ↦
        let (found, rest) = erase p.address n.channel_map in
        let m : Net e k = record n { channel_map = rest } in
        ok (found, if found then note_deregistered c m else m)
  ]

  unfoldable pub destroy_all : ℕ → List (Address × Channel) → Net e k → Outcome (Net e k)
  destroy_all now [] n = ok n
  destroy_all now ((a, c) ∷ entries) n =
      destroy e k now (node_of c n) >>= λ h. destroy_all now entries (after h n)

  unfoldable pub deregister_all_channels : ℕ → Net e k → Outcome (Net e k)
  deregister_all_channels now n = do
    m ← destroy_all now n.channel_map n
    ok (record m { channel_map = [] })

  -- The end point leaves the poller and is closed; `closed` is whether `close(2)` succeeded.
  abbrev pub shut : Bool → EndPoint → Net e k → Net e k
  shut closed p n =
      if good p
      then record n {
        end_point = some (close closed p).0;
        poller = (deregister_for_read e p.socket n.poller).0;
      }
      else n

  unfoldable pub close_socket : Bool → Net e k → Outcome (Net e k)
  unfolding good close
  close_socket closed n = elim n.end_point [ none ↦ fail undefined | some p ↦ ok (shut closed p n) ]

  -- `~NetworkInterface()`
  unfoldable pub destruct : Bool → Net e k → Outcome (Net e k)
  unfolding close_socket
  destruct closed n = do
    m ← close_socket closed (record n { channel_map = [] })
    ok (record m { end_point = none })

  -- From the end point's address on; `listens` is what `listen(2)` answers for a descriptor. The
  -- answers of `registerForRead` and of `bind` are not looked at.
  unfoldable pub listen_at : (Fd → Bool) → Address → EndPoint → Net e k → Bool × Net e k
  listen_at listens address p n =
      let q : EndPoint = record p { address = address } in
      (
        listens q.socket,
        record n {
          end_point = some q;
          poller = (register_for_read e q.socket listener n.poller).0;
        },
      )

  -- An end point that is there is closed and used again; otherwise one is made, on the descriptor that
  -- `socket(2)` answers.
  unfoldable pub initialize : Fd → Bool → (Fd → Bool) → Address → Net e k → Bool × Net e k
  unfolding good close listen_at open_socket
  initialize opened closed listens address n = elim n.end_point [
    | some p ↦
        listen_at listens address (if good p then (close closed p).0 else p) (shut closed p n)
    | none ↦
        let p = open_socket opened (EndPoint.init unset) in
        if good p then listen_at listens address p n else (false, record n { end_point = some p })
  ]

module _ (e : Epoll) (k : Sockets)
    (handle : Host e k → Packet → Outcome (Bool × Host e k × Packet)) where
  -- What is done with one channel.
  unfoldable pub process_channel : Address → Channel → Net e k → Outcome (Net e k)
  process_channel a c n =
      if is_destroyed c || is_condemn c
      then deregister_channel e k c n >>= (λ r. ok r.1)
      else process_packets e k handle (node_of e k c n) >>= λ h.
          ok (record (after e k h n) { channel_map = insert a h.channel n.channel_map })

  -- The iterator has left the entry before it is erased; it stays valid as long as no later entry is.
  unfoldable pub process_keys : List Address → Net e k → Outcome (Net e k)
  process_keys [] n = ok n
  process_keys (a ∷ keys) n = elim (find a n.channel_map) [
    | none ↦ fail undefined
    | some c ↦ process_channel a c n >>= process_keys keys
  ]

  unfoldable pub process_channels : Net e k → Outcome (Net e k)
  process_channels n = process_keys (map (λ entry. entry.0) n.channel_map) n
