-- ===== src/Network/Channel/Arrival.antt =====
-- The bytes that the calls of `recv(2)` give reach the receive window once each and in order.
use x_kbengine.Prelude.{
  ℕ, ◌≡◌, refl, sym, ap, ◌∙◌, Bool, true, false, some, List, [], ◌∷◌, ◌++◌, append_assoc,
  append-nil, if◌then◌else◌, Outcome, ok, ◌>>=◌, ◌>>◌, Bool-cases, inl, inr,
}
use x_kbengine.Prelude.Int.{ℤ, pos, negsuc}
use x_kbengine.Network.Packet.{Packet, tcp_init}
use x_kbengine.Network.Poller.{Epoll}
use x_kbengine.Network.EndPoint.{
  EndPoint, Sockets, Errno, refused, try_again, broken_pipe, connection_reset, no_buffers,
  other_error, Received, received, recv_failed, recv,
}
use x_kbengine.Network.Channel.State.{Channel, Host, Limits, with_channel, condemn}
use x_kbengine.Network.Channel.Receiver.{deliver, process_recv, once_more, recv_loop}
use x_kbengine.Network.Channel.Sender.{end_point_of}
use x_kbengine.Network.Channel.Pending.{c_str-ok}
use x_kbengine.Network.Reader.Delivery.{bytes_of}
use x_kbengine.Network.Channel.Filling.{
  tcp_init-ok, recv-fresh, process_recv-deliver, process_recv-received, recv_failed-ok,
}

-- What an answer holds.
abbrev pub payload : Received → List ℕ
payload (received l) = l
payload (recv_failed err) = []

abbrev pub payloads : List Received → List ℕ
payloads [] = []
payloads (a ∷ answers) = payload a ++ payloads answers

module _ (e : Epoll) (k : Sockets) (limits : Limits) (ep : EndPoint) where
  -- What follows the answers that were taken: nothing more to take, or the channel is condemned.
  abbrev pub Stops : List Received → Channel → Type 0
  Stops [] c = Unit {0}
  Stops (recv_failed try_again ∷ rest) c = Unit {0}
  Stops (a ∷ rest) c = c.flags.condemned ≡ true

  record Arrives (answers : List Received) (h : Host e k) (o : Outcome (Host e k)) : Type 0 where
    after : Host e k
    taken : List Received
    rest : List Received
    result : o ≡ ok after
    split : answers ≡ taken ++ rest
    arrived :
        bytes_of after.channel.buffered_receives
        ≡ bytes_of h.channel.buffered_receives ++ payloads taken
    stops : Stops rest after.channel

  -- The end of the loop, at an error or the end of the connection.
  abbrev Halts : List Received → Host e k → Outcome (Bool × Host e k) → Type 0
  Halts answers h o =
      (h' : Host e k) × (o ≡ ok (false, h'))
      × (h'.channel.buffered_receives ≡ h.channel.buffered_receives)
      × Stops answers h'.channel

  deliver_failed-Halts :
      (now : ℕ) (p : Packet) (n : ℤ) (err : Errno) (rest : List Received) (h : Host e k)
      → Halts (recv_failed err ∷ rest) h (deliver e k limits now (p, n) (recv_failed err) h)
  unfolding deliver condemn
  deliver_failed-Halts now p n refused rest h = (_, refl, refl, refl)
  deliver_failed-Halts now p n try_again rest h = (_, refl, refl, tt)
  deliver_failed-Halts now p n broken_pipe rest h = (_, refl, refl, refl)
  deliver_failed-Halts now p n connection_reset rest h = (_, refl, refl, refl)
  deliver_failed-Halts now p n no_buffers rest h = (_, refl, refl, refl)
  deliver_failed-Halts now p n other_error rest h = (_, refl, refl, refl)

  deliver_end-Halts :
      (now : ℕ) (p : Packet) (n : ℤ) (rest : List Received) (h : Host e k)
      → h.channel.end_point ≡ some ep
      → Halts (received [] ∷ rest) h (deliver e k limits now (p, n) (received []) h)
  unfolding deliver condemn
  deliver_end-Halts now p n rest h has = (
    _,
    ap (λ o. o >> ok (false, with_channel (condemn h.channel) h)) (c_str-ok h.channel ep has),
    refl,
    refl,
  )

  condemned-Stops :
      (answers : List Received) (c : Channel) → c.flags.condemned ≡ true → Stops answers c
  condemned-Stops [] c e = tt
  condemned-Stops (received l ∷ rest) c e = e
  condemned-Stops (recv_failed try_again ∷ rest) c e = tt
  condemned-Stops (recv_failed refused ∷ rest) c e = e
  condemned-Stops (recv_failed broken_pipe ∷ rest) c e = e
  condemned-Stops (recv_failed connection_reset ∷ rest) c e = e
  condemned-Stops (recv_failed no_buffers ∷ rest) c e = e
  condemned-Stops (recv_failed other_error ∷ rest) c e = e

  condemned-Halts :
      (now : ℕ) (answer : Received) (answers : List Received) (h : Host e k)
      → h.channel.flags.condemned ≡ true
      → Halts answers h (process_recv e k limits now answer h)
  unfolding process_recv
  condemned-Halts now answer answers h c = (
    h,
    ap
        (λ b. if◌then◌else◌ {A = Outcome (Bool × Host e k)} b (ok (false, h)) (
          end_point_of h.channel >>= λ x.
          tcp_init >>= λ fresh. recv fresh answer >>= λ f. deliver e k limits now f answer h))
        c,
    refl,
    condemned-Stops answers h.channel c,
  )

  failed-Halts :
      (now : ℕ) (err : Errno) (rest : List Received) (h : Host e k)
      → h.channel.end_point ≡ some ep
      → h.channel.flags.condemned ≡ false
      → Halts (recv_failed err ∷ rest) h (process_recv e k limits now (recv_failed err) h)
  failed-Halts now err rest h has fine =
      let (p, made, w, r) = tcp_init-ok in
      let (h', done, same, stops) = deliver_failed-Halts now p (negsuc 0) err rest h in
      (
        h',
        process_recv-deliver e k limits ep now (recv_failed err) h p p (negsuc 0) has fine made
              (recv_failed-ok e k limits ep p err w)
            ∙ done,
        same,
        stops,
      )

  end-Halts :
      (now : ℕ) (rest : List Received) (h : Host e k)
      → h.channel.end_point ≡ some ep
      → h.channel.flags.condemned ≡ false
      → Halts (received [] ∷ rest) h (process_recv e k limits now (received []) h)
  end-Halts now rest h has fine =
      let (p, made, w, r) = tcp_init-ok in
      let (q, filled, whole) = recv-fresh p [] w r in
      let (h', done, same, stops) = deliver_end-Halts now q (pos 0) rest h has in
      (
        h',
        process_recv-deliver e k limits ep now (received []) h p q (pos 0) has fine made filled
            ∙ done,
        same,
        stops,
      )

  halted :
      (answers : List Received) (h : Host e k) (o : Outcome (Bool × Host e k))
      (more : Host e k → Outcome (Host e k))
      → Halts answers h o
      → Arrives answers h (o >>= once_more e k limits more)
  halted answers h o more (h', done, same, stops) = record {
    after = h';
    taken = [];
    rest = answers;
    result = rw done;
    split = refl;
    arrived = ap bytes_of same ∙ sym (append-nil (bytes_of h.channel.buffered_receives));
    stops = stops;
  }

  recv_loop-Arrives :
      (now : ℕ) (answers : List Received) (h : Host e k)
      → h.channel.end_point ≡ some ep
      → Arrives answers h (recv_loop e k limits now answers h)
  unfolding recv_loop
  recv_loop-Arrives now [] h has = elim (Bool-cases h.channel.flags.condemned) [
    | inl c ↦ halted [] h _ (λ h'. ok h') (condemned-Halts now (recv_failed try_again) [] h c)
    | inr fine ↦
        let (h', done, same, stops) = failed-Halts now try_again [] h has fine in
        halted [] h _ (λ h'. ok h') (h', done, same, tt)
  ]
  recv_loop-Arrives now (recv_failed err ∷ rest) h has =
      elim (Bool-cases h.channel.flags.condemned) [
        | inl c ↦
            halted (recv_failed err ∷ rest) h _ (λ h'. recv_loop e k limits now rest h')
              (condemned-Halts now (recv_failed err) (recv_failed err ∷ rest) h c)
        | inr fine ↦
            halted (recv_failed err ∷ rest) h _ (λ h'. recv_loop e k limits now rest h')
              (failed-Halts now err rest h has fine)
      ]
  recv_loop-Arrives now (received [] ∷ rest) h has = elim (Bool-cases h.channel.flags.condemned) [
    | inl c ↦
        halted (received [] ∷ rest) h _ (λ h'. recv_loop e k limits now rest h')
          (condemned-Halts now (received []) (received [] ∷ rest) h c)
    | inr fine ↦
        halted (received [] ∷ rest) h _ (λ h'. recv_loop e k limits now rest h')
          (end-Halts now rest h has fine)
  ]
  recv_loop-Arrives now (received (b ∷ bs) ∷ rest) h has =
      elim (Bool-cases h.channel.flags.condemned) [
        | inl c ↦
            halted (received (b ∷ bs) ∷ rest) h _ (λ h'. recv_loop e k limits now rest h')
              (condemned-Halts now (received (b ∷ bs)) (received (b ∷ bs) ∷ rest) h c)
        | inr fine ↦
            let (h1, done, has1, put) = process_recv-received e k limits ep now b bs h has fine in
            let g = recv_loop-Arrives now rest h1 has1 in
            record {
              after = g.after;
              taken = received (b ∷ bs) ∷ g.taken;
              rest = g.rest;
              result = rw done g.result;
              split = ap (λ l. received (b ∷ bs) ∷ l) g.split;
              arrived =
                  g.arrived
                  ∙ ap (λ l. l ++ payloads g.taken) put
                  ∙ append_assoc (bytes_of h.channel.buffered_receives) (b ∷ bs) (payloads g.taken);
              stops = g.stops;
            }
      ]

  -- The receiver's loop over the answers of `recv(2)` ends, and appends to the receive window the bytes of
  -- the answers that it takes, in their order and without loss. It leaves answers aside only where the
  -- socket is drained or the channel is condemned. Condition: the channel has its end point.
  pub recv_loop-payloads :
      (now : ℕ) (answers : List Received) (h : Host e k)
      → h.channel.end_point ≡ some ep
      → (h' : Host e k) × (taken : List Received) × (rest : List Received) × (recv_loop e k limits
            now answers h
          ≡ ok h')
        × (answers ≡ taken ++ rest)
        × (bytes_of h'.channel.buffered_receives
            ≡ bytes_of h.channel.buffered_receives ++ payloads taken)
        × Stops rest h'.channel
  recv_loop-payloads now answers h has =
      let g = recv_loop-Arrives now answers h has in
      (g.after, g.taken, g.rest, g.result, g.split, g.arrived, g.stops)
