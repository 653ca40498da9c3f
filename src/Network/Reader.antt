-- ===== src/Network/Reader.antt =====
-- libs/network/packet_reader.h and packet_reader.cpp: messages are a 16-bit size, which counts itself,
-- and a body. The reader joins the pieces of a message that arrive in several packets.
--
-- The message handler is virtual, so it is a parameter: a function of the world behind it and of the
-- packet that it is lent. It returns the two as it leaves them, and whether it returned or threw.
pub mod Fragments
pub mod Holds
pub mod Bodies
pub mod Rounds
pub mod Delivery
pub mod Worlds
pub mod Faults
mod Tests
use x_kbengine.Prelude.{
  ℕ, zero, suc, ◌+◌, ◌-◌, ◌%◌, ◌^◌, Bool, true, false, ◌&&◌, List, [], ◌∷◌, ◌++◌, length, take,
  drop, ltb, ◌==◌, if◌then◌else◌, Outcome, ok, fail, undefined, past_size, no_fuel, ◌>>=◌,
}
use x_kbengine.Stream.{Stream, unread_length, space, size, data_resize, overwrite, read_skip}
use x_kbengine.Stream.Codec.{read_uint8, read_uint16, write_uint8}
use x_kbengine.Network.Packet.{Packet}
use x_kbengine.Network.Packet

pub data Fragment : Type 0 where
  unknow message_length message_body : Fragment

pub record Reader : Type 0 where
  pub curr_packet : Packet
  pub fragment : Fragment

-- `PacketReader(pChannel)`: `Packet()` has 200 bytes.
unfoldable pub init : Outcome Reader
unfolding Packet.init
init = do p ← Packet.init 200; ok (record { curr_packet = p; fragment = unknow })

unfoldable pub reset : Reader → Reader
unfolding Packet.clear
reset r = record { curr_packet = Packet.clear false r.curr_packet; fragment = unknow }

-- `memcpy(to.data() + to.wpos(), from.data() + from.rpos(), n)`. Behind the sizes of the vectors the
-- model stops: to write there is `past_size`, since the capacity is not modelled.
unfoldable pub copy_bytes : ℕ → Stream → Stream → Outcome Stream
copy_bytes n to from =
    if ltb (size to) (to.wpos + n)
    then fail past_size
    else if ltb (size from) (from.rpos + n)
    then fail undefined
    else ok (record to { bytes = overwrite to.bytes to.wpos (take n (drop from.rpos from.bytes)) })

-- `datasize` is a `uint32_t`.
unfoldable pub write_fragment_message : Fragment → Packet → ℕ → Reader → Outcome (Reader × Packet)
write_fragment_message flag packet datasize r = do
  let n = datasize % 2 ^ 32
  s ← copy_bytes n r.curr_packet.stream packet.stream
  t ← read_skip n packet.stream
  ok (
    record {
      curr_packet = record r.curr_packet { stream = record s { wpos = s.wpos + n } };
      fragment = flag;
    },
    record packet { stream = t },
  )

-- `bodySize -= 2` on a `uint16_t`, `currPacket.data_resize(bodySize)`, `currPacket.wpos(0)`.
unfoldable pub start_body : ℕ → Reader → Outcome Reader
start_body message_size r = do
  s ← data_resize ((message_size + 65534) % 65536) r.curr_packet.stream
  ok (record r { curr_packet = record r.curr_packet { stream = record s { wpos = 0 } } })

-- The size of the next message, as far as it has come: `none` where it is incomplete, and the loop is
-- left.
unfoldable pub read_header : Reader → Packet → Outcome (Bool × Reader × Packet)
read_header r p = elim r.fragment [
  | unknow ↦
      if ltb (unread_length p.stream) 2
      then write_fragment_message message_length p (unread_length p.stream) r
        >>= (λ (r', p'). ok (false, r', p'))
      else read_uint16 p.stream >>= (λ (body_size, s).
        start_body body_size r >>= λ r'. ok (true, r', record p { stream = s }))
  | message_length ↦ read_uint8 p.stream >>= λ (c, s).
      write_uint8 c r.curr_packet.stream >>= λ joined. read_uint16 joined >>= λ (body_size, t).
      start_body body_size (record r { curr_packet = record r.curr_packet { stream = t } })
      >>= λ r'. ok (true, r', record p { stream = s })
  | message_body ↦ ok (true, r, p)
]

-- How a round of the loop ends: another one follows, the loop is left, or the handler threw.
pub data Turn : Type 0 where
  again leave threw : Turn

module _ {W : Type 0} (handle : W → Packet → Outcome (Bool × W × Packet)) where
  -- A handler that threw leaves the reader as it stands, with no `reset`.
  abbrev pub handled : Reader → Packet → Bool × W × Packet → Outcome (Turn × W × Reader × Packet)
  handled r p (true, w, lent) = ok (again, w, reset (record r { curr_packet = lent }), p)
  handled r p (false, w, lent) = ok (threw, w, record r { curr_packet = lent }, p)

  -- What is in the packet goes to the body; a complete body goes to the handler.
  unfoldable pub read_body : W → Reader → Packet → Outcome (Turn × W × Reader × Packet)
  read_body w r p =
      let missing = space r.curr_packet.stream in
      if ltb (unread_length p.stream) missing
      then write_fragment_message message_body p (unread_length p.stream) r
        >>= (λ (r', p'). ok (leave, w, r', p'))
      else write_fragment_message message_body p missing r >>= λ (r', p').
          handle w r'.curr_packet >>= handled r' p'

  -- The loop's body.
  unfoldable pub read_message : W → Reader → Packet → Outcome (Turn × W × Reader × Packet)
  read_message w r p = read_header r p >>= λ (complete, r', p').
      if complete then read_body w r' p' else ok (leave, w, r', p')

  abbrev pub go_on :
      (W → Reader → Packet → Outcome (Bool × W × Reader × Packet))
      → Turn × W × Reader × Packet
      → Outcome (Bool × W × Reader × Packet)
  go_on loop (again, w, r, p) = loop w r p
  go_on loop (leave, w, r, p) = ok (true, w, r, p)
  go_on loop (threw, w, r, p) = ok (false, w, r, p)

  -- `while (pPacket->length() > 0)`; the result is `false` where an exception of the handler passes.
  unfoldable pub message_loop : ℕ → W → Reader → Packet → Outcome (Bool × W × Reader × Packet)
  message_loop zero w r p = fail no_fuel
  message_loop (suc fuel) w r p = elim (unread_length p.stream == 0) [
    | true ↦ ok (true, w, r, p)
    | false ↦ read_message w r p >>= go_on (message_loop fuel)
  ]

  -- Each round takes a byte from the packet, so `length() + 1` rounds are enough.
  unfoldable pub process_messages : W → Reader → Packet → Outcome (Bool × W × Reader × Packet)
  process_messages w r p = message_loop (unread_length p.stream + 1) w r p

  abbrev pub next_packet :
      (W → Reader → Outcome (Bool × W × Reader))
      → Bool × W × Reader × Packet
      → Outcome (Bool × W × Reader)
  next_packet rest (true, w, r, p) = rest w r
  next_packet rest (false, w, r, p) = ok (false, w, r)

  -- The loop of `Channel::processPackets` over the buffered packets, which an exception ends. The
  -- packets are dropped afterwards.
  unfoldable pub process_packets : W → Reader → List Packet → Outcome (Bool × W × Reader)
  process_packets w r [] = ok (true, w, r)
  process_packets w r (p ∷ ps) =
      process_messages w r p >>= next_packet (λ w' r'. process_packets w' r' ps)
