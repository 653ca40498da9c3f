-- ===== src/Network/EndPoint.antt =====
-- libs/network/endpoint.h and endpoint.cpp: a socket with the address of its peer. The system calls are
-- a parameter; the error codes are those that the callers tell apart.
pub mod Calls
use x_kbengine.Prelude.{
  ℕ, ◌+◌, ◌-◌, ◌%◌, ◌^◌, ◌≤◌, ◌≡◌, Bool, true, false, not, Option, none, some, List, ◌++◌, length,
  take, drop, ltb, if◌then◌else◌, Outcome, ok, fail, assertion,
}
use x_kbengine.Prelude.Int.{ℤ, pos, negsuc}
use x_kbengine.Stream.{unread_length, overwrite}
use x_kbengine.Network.Address.{Address}
use x_kbengine.Network.Packet.{Packet, packet_max_size_tcp, packet_max_size_udp}
use x_kbengine.Network.Poller.{Fd, is_some}

pub record EndPoint : Type 0 where
  pub socket : Fd
  pub address : Address

-- `EndPoint(Address)` and `EndPoint(uint32_t, uint16_t)`
abbrev pub init : Address → EndPoint
init address = record { socket = none; address = address }

unfoldable pub good : EndPoint → Bool
good p = is_some p.socket

unfoldable pub set_file_descriptor : Fd → EndPoint → EndPoint
set_file_descriptor fd p = record p { socket = fd }

-- `EndPoint::close`, with whether `close(2)` succeeded.
unfoldable pub close : Bool → EndPoint → EndPoint × Bool
unfolding good set_file_descriptor
close closed p =
    if not (good p)
    then (p, true)
    else if closed
    then (set_file_descriptor none p, true)
    else (p, false)

-- `EndPoint::socket`, with what `socket(2)` answers.
unfoldable pub open_socket : Fd → EndPoint → EndPoint
unfolding set_file_descriptor
open_socket opened p = set_file_descriptor opened p

pub data Errno : Type 0 where
  refused try_again broken_pipe connection_reset no_buffers other_error : Errno

-- What `accept(2)` answers: a new descriptor and its peer, or -1 with `errno`.
pub data Accepted : Type 0 where
  accepted_one : ℕ → Address → Accepted
  accept_failed : Errno → Accepted

-- `EndPoint::accept`: the end point that was made.
unfoldable pub accept : Accepted → Option EndPoint
accept (accepted_one fd address) = some (record { socket = some fd; address = address })
accept (accept_failed err) = none

-- What `send(2)` answers: a count, or -1 with `errno`.
pub data Sent : Type 0 where
  sent : ℕ → Sent
  failed : Sent

-- `send(2)` takes a prefix of the bytes that it is given, and none if it fails. `accepted` is what the
-- descriptors took so far, and `errno` what the last call that failed left there.
pub record Sockets : Type 1 where
  pub State : Type 0
  pub send_bytes : State → Fd → List ℕ → State × Sent
  pub accepted : State → List ℕ
  pub errno : State → Errno
  pub send_done :
      (s : State) (fd : Fd) (l : List ℕ) (n : ℕ)
      → (send_bytes s fd l).1 ≡ sent n
      → (n ≤ length l) × (accepted (send_bytes s fd l).0 ≡ accepted s ++ take n l)
  pub send_failed :
      (s : State) (fd : Fd) (l : List ℕ)
      → (send_bytes s fd l).1 ≡ failed
      → accepted (send_bytes s fd l).0 ≡ accepted s

-- The bytes that `send` offers: from the vector's start, whatever the read position, less what was
-- sent. Both counts are taken off in `size_t`.
abbrev pub offered : Packet → List ℕ
offered p =
    take ((unread_length p.stream + 2 ^ 64 - p.sent_size) % 2 ^ 64) (drop p.sent_size p.bytes)

abbrev pub note_sent : Packet → Sent → Packet
note_sent p (sent n) = record p { sent_size = (p.sent_size + n) % 2 ^ 32 }
note_sent p failed = p

-- `EndPoint::send`: the packet notes how much of it went out.
unfoldable pub send : (k : Sockets) → EndPoint → Packet → k.State → k.State × Packet × Sent
send k p packet s =
    let (s', answer) = k.send_bytes s p.socket (offered packet) in
    (s', note_sent packet answer, answer)

-- What `recv(2)` and `recvfrom(2)` answer: bytes, no more than asked for, or -1 with `errno`.
pub data Received : Type 0 where
  received : List ℕ → Received
  recv_failed : Errno → Received

-- `EndPoint::recv` and `recvfrom`, whose bounds are those of the two kinds of packets: the kernel puts
-- the bytes behind the write position.
unfoldable pub receive : ℕ → Packet → Received → Outcome (Packet × ℤ)
receive limit packet (recv_failed e) =
    if ltb packet.wpos limit then ok (packet, negsuc 0) else fail assertion
receive limit packet (received l) =
    let filled = record packet {
      stream = record packet.stream {
        bytes = overwrite packet.bytes packet.wpos l;
        wpos = packet.wpos + length l;
      };
    } in
    if ltb packet.wpos limit then ok (filled, pos (length l)) else fail assertion

unfoldable pub recv : Packet → Received → Outcome (Packet × ℤ)
unfolding receive
recv = receive packet_max_size_tcp

unfoldable pub recvfrom : Packet → Received → Outcome (Packet × ℤ)
unfolding receive
recvfrom = receive packet_max_size_udp
