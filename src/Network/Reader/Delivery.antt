-- ===== src/Network/Reader/Delivery.antt =====
-- What the reader hands to the message handler, for every way in which the messages' bytes are cut into
-- packets.
use x_kbengine.Prelude.{
  ℕ, zero, suc, ◌+◌, ◌<◌, ◌≡◌, refl, sym, ap, subst, subst₂, ◌∙◌, true, false, Bool, List, [], ◌∷◌,
  ◌++◌, arith, length, take, suc→==, Outcome, ok, ◌>>=◌, ◌==◌, append-nil, replicate,
}
use x_kbengine.Stream.{data_resize, unread_length}
use x_kbengine.Stream.Bytes.{AllBytes}
use x_kbengine.Stream.Queue.{IsValid, unread, unread_length_lem}
use x_kbengine.Network.Packet.{Packet}
use x_kbengine.Network.Packet
use x_kbengine.Network.Framing.{
  Phase, idle, feed, next_phase, AllOpen, AllOpen-feed, feed-append, encode_all, deliver_all,
  feed-encode_all, AllFull, AllFull-AllShort, AllOpen-encode_all,
}
use x_kbengine.Network.Reader.{
  Reader, Turn, again, leave, threw, read_message, message_loop, process_messages, process_packets,
  go_on, init,
}
use x_kbengine.Network.Reader.Holds.{Holds, at_start, Round, Ends}
use x_kbengine.Network.Reader.Rounds.{read_message-Round}

pub AllBytes-rest : (xs ys : List ℕ) → AllBytes (xs ++ ys) → AllBytes ys
AllBytes-rest [] ys h = h
AllBytes-rest (x ∷ xs) ys h = AllBytes-rest xs ys h.1

pub AllBytes-front : (xs ys : List ℕ) → AllBytes (xs ++ ys) → AllBytes xs
AllBytes-front [] ys h = tt
AllBytes-front (x ∷ xs) ys h = (h.0, AllBytes-front xs ys h.1)

pub AllOpen-front : (ph : Phase) (xs ys : List ℕ) → AllOpen ph (xs ++ ys) → AllOpen ph xs
AllOpen-front ph [] ys h = tt
AllOpen-front ph (x ∷ xs) ys h = (h.0, AllOpen-front (next_phase ph x) xs ys h.1)

-- The unread bytes of the packets, one after another.
abbrev pub bytes_of : List Packet → List ℕ
bytes_of [] = []
bytes_of (p ∷ ps) = unread p.stream ++ bytes_of ps

abbrev pub AllValid : List Packet → Type 0
AllValid [] = Unit {0}
AllValid (p ∷ ps) = IsValid p.stream × AllValid ps

-- A new reader is between messages.
init-Holds : (r : Reader) × (init ≡ ok r) × Holds r idle
unfolding init Packet.init data_resize
init-Holds = (_, refl, at_start (replicate 200 0) true 0 (omega arith) (omega arith))

module _ {W : Type 0} (handle : W → Packet → Outcome (Bool × W × Packet)) (deliver : W → List ℕ → W)
    (contract : (w : W) (c : Packet)
      → (q : Packet) × (handle w c ≡ ok (true, deliver w (take c.wpos c.bytes), q))
        × (q.bytes ≡ c.bytes)) where
  -- The reader and the packet as the machine's final state has them.
  abbrev pub Follows : W × Phase → Outcome (Bool × W × Reader × Packet) → Type 0
  Follows m o =
      (r : Reader) × (p : Packet) × (o ≡ ok (true, m.0, r, p))
      × Holds r m.1
      × (unread p.stream ≡ [])

  -- What follows a round that ended in such a turn.
  abbrev Goes : (W → Reader → Packet → Outcome (Bool × W × Reader × Packet)) → ℕ → Type 0
  Goes loop fuel =
      (w : W) (ph : Phase) (r : Reader) (p : Packet) (rest : List ℕ)
      → Holds r ph
      → IsValid p.stream
      → unread p.stream ≡ rest
      → AllBytes rest
      → AllOpen ph rest
      → length rest < fuel
      → Follows (feed deliver (w, ph) rest) (loop w r p)

  module _ (loop : W → Reader → Packet → Outcome (Bool × W × Reader × Packet)) (fuel : ℕ)
      (goes : Goes loop fuel) where
    turned :
        (turn : Turn) (m : W × Phase) (front rest : List ℕ) (w : W) (ph : Phase) (r : Reader)
        (p : Packet)
        → feed deliver m front ≡ (w, ph)
        → Holds r ph
        → IsValid p.stream
        → unread p.stream ≡ rest
        → AllBytes rest
        → AllOpen ph rest
        → length rest < fuel
        → Ends turn rest
        → Follows (feed deliver m (front ++ rest)) (go_on handle loop (turn, w, r, p))
    turned again m front rest w ph r p fed holds v e all open_ enough ends =
        rw (feed-append deliver m front rest, fed) (goes w ph r p rest holds v e all open_ enough)
    turned leave m front rest w ph r p fed holds v e all open_ enough ends =
        let all_used : feed deliver m (front ++ rest) ≡ (w, ph) =
          ap (λ l. feed deliver m (front ++ l)) ends
          ∙ ap (feed deliver m) (append-nil front)
          ∙ fed in
        rw all_used (r, p, refl, holds, e ∙ ends)
    turned threw m front rest w ph r p fed holds v e all open_ enough ends = absurd ends

    loop_on :
        (ph : Phase) (w : W) (xs : List ℕ) (o : Outcome (Turn × W × Reader × Packet))
        → AllBytes xs
        → AllOpen ph xs
        → length xs < suc fuel
        → 0 < length xs
        → Round deliver (w, ph) xs o
        → Follows (feed deliver (w, ph) xs) (o >>= go_on handle loop)
    loop_on ph w xs o all open_ enough more rd =
        let all' : AllBytes (rd.front ++ rd.rest) = subst AllBytes rd.split all in
        let open' : AllOpen ph (rd.front ++ rd.rest) = subst (AllOpen ph) rd.split open_ in
        let phase : (feed deliver (w, ph) rd.front).1 ≡ rd.phase = ap (λ m. m.1) rd.fed in
        subst₂ (λ l k. Follows (feed deliver (w, ph) l) (k >>= go_on handle loop)) (sym rd.split)
          (sym rd.result)
          (turned rd.turn (w, ph) rd.front rd.rest rd.world rd.phase rd.after rd.packet rd.fed
            rd.holds rd.valid rd.left (AllBytes-rest rd.front rd.rest all')
            (subst (λ k. AllOpen k rd.rest) phase
              (AllOpen-feed deliver w ph rd.front rd.rest open'))
            (omega (arith, rd.shorter)) rd.ends)

  pub message_loop-Follows :
      (fuel : ℕ) (ph : Phase) (r : Reader) (w : W) (p : Packet) (xs : List ℕ)
      → Holds r ph
      → IsValid p.stream
      → unread p.stream ≡ xs
      → AllBytes xs
      → AllOpen ph xs
      → length xs < fuel
      → Follows (feed deliver (w, ph) xs) (message_loop handle fuel w r p)
  unfolding message_loop feed
  message_loop-Follows zero ph r w p xs holds v e all open_ enough = absurd (omega arith)
  message_loop-Follows (suc fuel) ph r w p [] holds v e all open_ enough =
      let size : (unread_length p.stream == 0) ≡ true =
        ap (λ k. k == 0) (unread_length_lem p.stream v ∙ ap length e) in
      rw (size, message_loop) (r, p, refl, holds, e)
  message_loop-Follows (suc fuel) ph r w p (x ∷ xs) holds v e all open_ enough =
      let size : (unread_length p.stream == 0) ≡ false =
        ap (λ k. k == 0) (unread_length_lem p.stream v ∙ ap length e) ∙ suc→== (length xs) in
      rw (size, message_loop)
        (loop_on (message_loop handle fuel) fuel
          (λ w' ph' r' p' rest h' v' e' a' o' f'.
            message_loop-Follows fuel ph' r' w' p' rest h' v' e' a' o' f')
          ph w (x ∷ xs) (read_message handle w r p) all open_ enough (omega arith)
          (read_message-Round handle deliver contract w p (x ∷ xs) holds v e all open_
            (omega arith)))

  -- The reader, on packets that hold any byte sequence in any pieces, calls the handler for just the
  -- messages that the framing machine finds in the whole sequence, and ends in the machine's state. It
  -- neither throws, nor fails an assertion, nor touches memory outside a buffer, nor loops for ever.
  -- Conditions: no header on the way announces an empty body; the handler returns, keeps the packet's
  -- bytes, and what it does depends on the bytes from the packet's start alone, not on the read
  -- position, from which `>>` reads.
  pub process_packets-feed :
      (ps : List Packet) (ph : Phase) (r : Reader) (w : W)
      → Holds r ph
      → AllValid ps
      → AllBytes (bytes_of ps)
      → AllOpen ph (bytes_of ps)
      → (r' : Reader) × (process_packets handle w r ps
          ≡ ok (true, (feed deliver (w, ph) (bytes_of ps)).0, r'))
        × Holds r' (feed deliver (w, ph) (bytes_of ps)).1
  unfolding process_packets process_messages
  process_packets-feed [] ph r w holds v all open_ = unfold feed in (r, refl, holds)
  process_packets-feed (p ∷ ps) ph r w holds v all open_ =
      let xs : List ℕ = unread p.stream in
      let enough : length xs < unread_length p.stream + 1 =
        omega (arith, unread_length_lem p.stream v.0) in
      let (r1, p1, done, holds1, _) =
        message_loop-Follows (unread_length p.stream + 1) ph r w p xs holds v.0 refl
          (AllBytes-front xs (bytes_of ps) all) (AllOpen-front ph xs (bytes_of ps) open_) enough in
      let (r2, done2, holds2) =
        process_packets-feed ps (feed deliver (w, ph) xs).1 r1 (feed deliver (w, ph) xs).0 holds1
          v.1 (AllBytes-rest xs (bytes_of ps) all)
          (AllOpen-feed deliver w ph xs (bytes_of ps) open_) in
      rw (done, feed-append deliver (w, ph) xs (bytes_of ps)) (r2, done2, holds2)

  -- A sender's messages, each of 1 to 65533 bytes, reach the handler unchanged, once each and in order,
  -- however their encoded bytes are cut into packets; the reader, new at the start, is between messages
  -- at the end. Condition: the handler returns, keeps the packet's bytes, and what it does depends on
  -- the bytes from the packet's start alone, not on the read position, from which `>>` reads.
  pub process_packets-encode_all :
      (ms : List (List ℕ)) (ps : List Packet) (w : W)
      → AllFull ms
      → AllValid ps
      → AllBytes (bytes_of ps)
      → bytes_of ps ≡ encode_all ms
      → (r : Reader) × ((init >>= λ r0. process_packets handle w r0 ps)
          ≡ ok (true, deliver_all deliver w ms, r))
        × Holds r idle
  process_packets-encode_all ms ps w full valid all e =
      let (r0, made, fresh) = init-Holds in
      let open_ : AllOpen idle (bytes_of ps) = rw e (AllOpen-encode_all ms full) in
      let (r, done, holds) = process_packets-feed ps idle r0 w fresh valid all open_ in
      let total : feed deliver (w, idle) (bytes_of ps) ≡ (deliver_all deliver w ms, idle) =
        ap (feed deliver (w, idle)) e ∙ feed-encode_all deliver w ms (AllFull-AllShort ms full) in
      (r, rw (made, done, total), rw total at holds)
