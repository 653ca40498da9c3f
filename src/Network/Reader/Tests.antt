-- ===== src/Network/Reader/Tests.antt =====
-- Runs of the reader, with a handler that keeps the messages' bodies.
use x_kbengine.Prelude.{
  ℕ, ◌≡◌, ◌<◌, refl, Bool, true, List, [], ◌∷◌, ◌++◌, arith, length, take, Outcome, ok, fail,
  past_size, ◌>>=◌,
}
use x_kbengine.Stream.Bytes.{AllBytes, AllBytes-append}
use x_kbengine.Stream.Queue.{IsValid, unread}
use x_kbengine.Network.Packet.{Packet}
use x_kbengine.Network.Framing.{idle, AllFull, AllOpen-encode_all, feed}
use x_kbengine.Stream.{append, read, read_skip, data_resize, unread_length, space}
use x_kbengine.Stream.Bytes.{swap_bytes, host_bytes, host_value}
use x_kbengine.Stream.Codec.{read_uint8, read_uint16, read_swapped, write_uint8}
use x_kbengine.Network.Packet.{clear}
use x_kbengine.Network.Reader.{
  Reader, unknow, init, process_packets, process_messages, message_loop, read_message, read_header,
  read_body, start_body, write_fragment_message, copy_bytes, reset,
}
use x_kbengine.Network.Reader.Holds.{Holds, at_start, message, reader}
use x_kbengine.Network.Reader.Delivery.{
  process_packets-encode_all, process_packets-feed, AllValid, bytes_of,
}
use x_kbengine.Network.Reader.Faults.{process_packets-past_size}

abbrev keep : List (List ℕ) → List ℕ → List (List ℕ)
keep w m = w ++ m ∷ []

abbrev handle : List (List ℕ) → Packet → Outcome (Bool × List (List ℕ) × Packet)
handle w c = ok (true, keep w (take c.wpos c.bytes), c)

keeps :
    (w : List (List ℕ)) (c : Packet)
    → (q : Packet) × (handle w c ≡ ok (true, keep w (take c.wpos c.bytes), q)) × (q.bytes ≡ c.bytes)
keeps w c = (c, refl, refl)

-- A packet that holds just these bytes.
abbrev packet : List ℕ → Packet
packet l = message 0 (length l) l true 0

packet-IsValid : (l : List ℕ) → IsValid (packet l).stream
packet-IsValid l = record { ordered = omega arith; within = omega arith }

-- Two messages, cut within a header and within a body.
abbrev messages : List (List ℕ)
messages = (1 ∷ 2 ∷ 3 ∷ []) ∷ (4 ∷ []) ∷ []

abbrev packets : List Packet
packets = packet (0 ∷ []) ∷ packet (5 ∷ 1 ∷ 2 ∷ []) ∷ packet (3 ∷ 0 ∷ 3 ∷ 4 ∷ []) ∷ []

messages-AllFull : AllFull messages
messages-AllFull = (omega arith, omega arith, (omega arith, omega arith, tt))

packets-AllValid : AllValid packets
packets-AllValid = (packet-IsValid _, (packet-IsValid _, (packet-IsValid _, tt)))

small : (a b c d : ℕ) → a < 256 → b < 256 → c < 256 → d < 256 → AllBytes (a ∷ b ∷ c ∷ d ∷ [])
small a b c d ha hb hc hd = (ha, (hb, (hc, (hd, tt))))

packets-AllBytes : AllBytes (bytes_of packets)
packets-AllBytes =
    AllBytes-append (0 ∷ 5 ∷ 1 ∷ 2 ∷ []) (3 ∷ 0 ∷ 3 ∷ 4 ∷ [])
      (small 0 5 1 2 (omega arith) (omega arith) (omega arith) (omega arith))
      (small 3 0 3 4 (omega arith) (omega arith) (omega arith) (omega arith))

process_packets-encode_all_example :
    (r : Reader) × ((init >>= λ r0. process_packets handle [] r0 packets) ≡ ok (true, messages, r))
    × Holds r idle
process_packets-encode_all_example =
    process_packets-encode_all handle keep keeps messages packets [] messages-AllFull
      packets-AllValid packets-AllBytes refl

process_packets-feed_example :
    (r' : Reader) × (process_packets handle [] (reader unknow (message 0 0 (9 ∷ []) true 0)) packets
      ≡ ok (true, messages, r'))
    × Holds r' idle
unfolding feed
process_packets-feed_example =
    process_packets-feed handle keep keeps packets idle
      (reader unknow (message 0 0 (9 ∷ []) true 0)) []
      (at_start (9 ∷ []) true 0 (omega arith) (omega arith)) packets-AllValid packets-AllBytes
      (AllOpen-encode_all messages messages-AllFull)

process_packets-past_size_example :
    process_packets handle []
      (reader unknow (message 0 0 (9 ∷ []) true 0))
      (packet (0 ∷ 2 ∷ []) ∷ packet (0 ∷ []) ∷ [])
    ≡ fail past_size
process_packets-past_size_example =
    process_packets-past_size handle keep keeps [] (9 ∷ []) true 0 (packet (0 ∷ 2 ∷ []))
      (packet (0 ∷ [])) [] (packet-IsValid _) refl (packet-IsValid _) refl

-- A handler that takes what `>>` would read.
abbrev takes : List (List ℕ) → Packet → Outcome (Bool × List (List ℕ) × Packet)
takes w c = ok (true, w ++ unread c.stream ∷ [], c)

-- The size of a message with four bytes comes in two pieces: two bytes of the message are missed.
split_size_test :
    (process_packets takes []
        (reader unknow (message 0 0 (9 ∷ 9 ∷ 9 ∷ []) true 0))
        (packet (0 ∷ []) ∷ packet (6 ∷ 1 ∷ 2 ∷ 3 ∷ 4 ∷ []) ∷ [])
      >>= λ r. ok r.1)
    ≡ ok ((3 ∷ 4 ∷ []) ∷ [])
unfolding process_packets process_messages message_loop read_message read_header read_body
    start_body write_fragment_message copy_bytes reset append read read_skip data_resize
    unread_length space swap_bytes host_bytes host_value read_uint8 read_uint16 read_swapped
    write_uint8 clear
split_size_test = refl
