-- ===== src/Network/Reader/Holds.antt =====
-- How the reader's state stands for a phase of the framing machine, and what one round of its loop has
-- to do.
use x_kbengine.Prelude.{ℕ, ◌-◌, ◌≤◌, ◌<◌, ◌≡◌, Bool, List, [], ◌∷◌, ◌++◌, length, take, Outcome, ok}
use x_kbengine.Stream.Queue.{IsValid, unread}
use x_kbengine.Network.Packet.{Packet}
use x_kbengine.Network.Framing.{Phase, idle, half, collecting, feed}
use x_kbengine.Network.Reader.{
  Reader, Fragment, unknow, message_length, message_body, Turn, again, leave, threw,
}

abbrev pub message : ℕ → ℕ → List ℕ → Bool → ℕ → Packet
message rp wp bytes tcp sent = record {
  stream = record { rpos = rp; wpos = wp; bytes = bytes };
  is_tcp_packet = tcp;
  sent_size = sent;
}

abbrev pub reader : Fragment → Packet → Reader
reader flag c = record { curr_packet = c; fragment = flag }

-- Between messages the vector is not empty: the first byte of a split header has to fit in it. The
-- read position within a body is 2 if its header was split, and 0 otherwise.
pub data Holds : Reader → Phase → Type 0 where
  at_start :
      (bytes : List ℕ) (tcp : Bool) (sent : ℕ)
      → 0 < length bytes
      → length bytes ≤ 65535
      → Holds (reader unknow (message 0 0 bytes tcp sent)) idle
  in_header :
      (hi : ℕ) (bytes : List ℕ) (tcp : Bool) (sent : ℕ)
      → hi < 256
      → length (hi ∷ bytes) ≤ 65535
      → Holds (reader message_length (message 0 1 (hi ∷ bytes) tcp sent)) (half hi)
  in_body :
      (rp : ℕ) (got bytes : List ℕ) (tcp : Bool) (sent : ℕ)
      → take (length got) bytes ≡ got
      → length got < length bytes
      → length bytes ≤ 65535
      → Holds
          (reader message_body (message rp (length got) bytes tcp sent))
          (collecting (length bytes) got)

-- A round that leaves the loop has used up its packet, and none throws.
abbrev pub Ends : Turn → List ℕ → Type 0
Ends again rest = Unit {0}
Ends leave rest = rest ≡ []
Ends threw rest = ⊥

module _ {W : Type 0} (deliver : W → List ℕ → W) where
  -- A round takes bytes off the packet's front, and does with them what the machine does.
  pub record Round (m : W × Phase) (xs : List ℕ) (o : Outcome (Turn × W × Reader × Packet))
      : Type 0 where
    pub turn : Turn
    pub world : W
    pub after : Reader
    pub packet : Packet
    pub phase : Phase
    pub front : List ℕ
    pub rest : List ℕ
    pub result : o ≡ ok (turn, world, after, packet)
    pub split : xs ≡ front ++ rest
    pub fed : feed deliver m front ≡ (world, phase)
    pub holds : Holds after phase
    pub valid : IsValid packet.stream
    pub left : unread packet.stream ≡ rest
    pub shorter : length rest ≤ length xs - 1
    pub ends : Ends turn rest
