-- ===== src/Network/EndPoint/Calls.antt =====
-- The members of libs/network/endpoint.cpp that make system calls on the socket, which they leave as it
-- is. The calls are recorded with their arguments, in order; their answers are arguments.
use x_kbengine.Prelude.{ℕ, Bool, true, List, [], ◌∷◌, ◌++◌, if◌then◌else◌}
use x_kbengine.Prelude.Int.{ℤ}
use x_kbengine.Network.Address.{Address}
use x_kbengine.Network.Packet.{Packet}
use x_kbengine.Network.Poller.{Fd}
use x_kbengine.Network.EndPoint.{EndPoint, Sent, offered, note_sent}

-- `SO_BROADCAST`, `TCP_NODELAY`, and the two about a group, which is an address in network order; any
-- interface is taken.
pub data SocketOption : Type 0 where
  broadcast no_delay : Bool → SocketOption
  add_membership drop_membership : ℕ → SocketOption

pub data SystemCall : Type 0 where
  call_bind call_connect : Fd → Address → SystemCall
  call_listen : Fd → ℤ → SystemCall
  call_set_option : Fd → SocketOption → SystemCall
  -- `F_SETFL`, with the flag `O_NONBLOCK` alone or with none at all
  call_set_flags : Fd → Bool → SystemCall
  call_sendto : Fd → Address → List ℕ → SystemCall

unfoldable pub bind : EndPoint → List SystemCall
bind p = call_bind p.socket p.address ∷ []

unfoldable pub listen : ℤ → EndPoint → List SystemCall
listen backlog p = call_listen p.socket backlog ∷ []

unfoldable pub set_broadcast : Bool → EndPoint → List SystemCall
set_broadcast on p = call_set_option p.socket (broadcast on) ∷ []

unfoldable pub set_no_delay : Bool → EndPoint → List SystemCall
set_no_delay on p = call_set_option p.socket (no_delay on) ∷ []

unfoldable pub set_non_blocking : Bool → EndPoint → List SystemCall
set_non_blocking on p = call_set_flags p.socket on ∷ []

-- The flags are set whether or not `connect(2)` succeeded.
unfoldable pub connect : Bool → EndPoint → List SystemCall
unfolding set_non_blocking set_no_delay
connect auto_set_flags p =
    call_connect p.socket p.address
    ∷ (if auto_set_flags then set_non_blocking true p ++ set_no_delay true p else [])

-- `inet_addr` reads the group's text.
unfoldable pub join_multicast_group : (List ℕ → ℕ) → List ℕ → EndPoint → List SystemCall
join_multicast_group inet_addr group p =
    call_set_option p.socket (add_membership (inet_addr group)) ∷ []

unfoldable pub quit_multicast_group : (List ℕ → ℕ) → List ℕ → EndPoint → List SystemCall
quit_multicast_group inet_addr group p =
    call_set_option p.socket (drop_membership (inet_addr group)) ∷ []

-- `EndPoint::sendto`, with what `sendto(2)` answers.
unfoldable pub sendto : EndPoint → Packet → Sent → SystemCall × Packet
sendto p packet answer = (call_sendto p.socket p.address (offered packet), note_sent packet answer)
