-- ===== src/Network/Reader/Faults.antt =====
-- Where a size that comes in two pieces goes wrong.
use x_kbengine.Prelude.{
  ℕ, suc, ◌-◌, ◌≡◌, ap, ◌∙◌, Bool, true, false, List, [], ◌∷◌, arith, length, take, ltb, le→ltb,
  Outcome, ok, fail, past_size, ◌==◌,
}
use x_kbengine.Stream.{space, unread_length}
use x_kbengine.Stream.Queue.{IsValid, unread, unread_length_lem}
use x_kbengine.Network.Packet.{Packet, clear}
use x_kbengine.Network.Reader.{
  Reader, unknow, message_body, read_header, read_message, message_loop, process_messages,
  process_packets, read_body, reset, write_fragment_message, copy_bytes,
}
use x_kbengine.Network.Reader.Holds.{message, reader}
use x_kbengine.Network.Reader.Bodies.{start_body-ok}
use x_kbengine.Network.Reader.Fragments.{
  after_read, write_fragment_message-ok, after_read-IsValid, unread-after_read,
}
use x_kbengine.Stream.Codec.Numbers.{read_uint16-Reads}

module _ {W : Type 0} (handle : W → Packet → Outcome (Bool × W × Packet)) where
  loop_end :
      (fuel : ℕ) (w : W) (r : Reader) (p : Packet)
      → (unread_length p.stream == 0) ≡ true
      → message_loop handle (suc fuel) w r p ≡ ok (true, w, r, p)
  unfolding message_loop
  loop_end fuel w r p over = rw (over, message_loop)

  -- If the message before had an empty body, the reader's vector is empty. Then a packet of which one
  -- byte is left, the first of the next message's size, is copied to behind the vector's size, whatever
  -- the handler does.
  pub process_messages-past_size :
      (w : W) (tcp : Bool) (sent : ℕ) (p : Packet)
      → IsValid p.stream
      → length (unread p.stream) ≡ 1
      → process_messages handle w (reader unknow (message 0 0 [] tcp sent)) p ≡ fail past_size
  unfolding process_messages message_loop read_message read_header write_fragment_message copy_bytes
  process_messages-past_size w tcp sent p v one =
      let len : unread_length p.stream ≡ 1 = unread_length_lem p.stream v ∙ one in
      let more : (unread_length p.stream == 0) ≡ false = ap (λ k. k == 0) len in
      rw len (rw (more, message_loop) (rw (len, read_header)))

module _ {W : Type 0} (handle : W → Packet → Outcome (Bool × W × Packet)) (deliver : W → List ℕ → W)
    (contract : (w : W) (c : Packet)
      → (q : Packet) × (handle w c ≡ ok (true, deliver w (take c.wpos c.bytes), q))
        × (q.bytes ≡ c.bytes)) where
  -- An empty message goes to the handler, and leaves the vector empty.
  empty_message :
      (w : W) (bytes : List ℕ) (tcp : Bool) (sent : ℕ) (p : Packet)
      → IsValid p.stream
      → unread p.stream ≡ 0 ∷ 2 ∷ []
      → (tcp' : Bool) × (p' : Packet) × (process_messages handle w
            (reader unknow (message 0 0 bytes tcp sent))
            p
          ≡ ok (true, deliver w [], reader unknow (message 0 0 [] tcp' 0), p'))
  unfolding process_messages message_loop read_message read_header read_body reset clear space
  empty_message w bytes tcp sent p v e =
      let (s, got, v', u) = read_uint16-Reads p.stream v 0 2 [] (omega arith) (omega arith) e in
      let len : unread_length p.stream ≡ 2 = unread_length_lem p.stream v ∙ ap length e in
      let more : (unread_length p.stream == 0) ≡ false = ap (λ k. k == 0) len in
      let none_left : 0 - length bytes ≡ 0 = omega arith in
      let p1 : Packet = record p { stream = s } in
      let c : Packet = message 0 0 [] tcp sent in
      let (q, said, same) = contract w c in
      let gone : q.bytes ≡ [] = same in
      let less : ltb (unread_length s) 0 ≡ false = le→ltb (unread_length s) 0 (omega arith) in
      let moved =
        write_fragment_message-ok (reader unknow c) p1 [] [] v' u message_body (omega arith)
          (omega arith) in
      let valid' = after_read-IsValid (reader unknow c) p1 [] [] v' u in
      let over : (unread_length (after_read p1 0).stream == 0) ≡ true =
        ap (λ k. k == 0)
          (unread_length_lem (after_read p1 0).stream valid'
            ∙ ap length (unread-after_read (reader unknow c) p1 [] [] v' u)) in
      (
        q.is_tcp_packet,
        after_read p1 0,
        rw len (
            rw (more, message_loop)
              (rw
                (
                  len,
                  read_header,
                  got,
                  start_body-ok unknow 2 0 0 bytes tcp sent,
                  none_left,
                  less,
                  moved,
                  said,
                  gone,
                )
                (loop_end handle 1 (deliver w []) (reader unknow (message 0 0 [] q.is_tcp_packet 0))
                  (after_read p1 0) over))),
      )

  -- An empty message, followed by a packet that ends after the first byte of the next size, makes the
  -- reader write one byte behind the size of its vector, which is 0: input that the peer chooses. The
  -- reader is one between messages. The handler returns, keeps the packet's bytes, and what it does
  -- depends on the bytes from the packet's start.
  pub process_packets-past_size :
      (w : W) (bytes : List ℕ) (tcp : Bool) (sent : ℕ) (p1 p2 : Packet) (ps : List Packet)
      → IsValid p1.stream
      → unread p1.stream ≡ 0 ∷ 2 ∷ []
      → IsValid p2.stream
      → length (unread p2.stream) ≡ 1
      → process_packets handle w (reader unknow (message 0 0 bytes tcp sent)) (p1 ∷ p2 ∷ ps)
        ≡ fail past_size
  unfolding process_packets
  process_packets-past_size w bytes tcp sent p1 p2 ps v1 e v2 one =
      let (tcp', p', done) = empty_message w bytes tcp sent p1 v1 e in
      rw (done, process_messages-past_size handle (deliver w []) tcp' 0 p2 v2 one)
