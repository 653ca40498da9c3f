-- ===== src/Network/Session/Rounds.antt =====
-- A receiving channel over any number of rounds of the loop: what its handler sees is what the framing
-- machine finds in the bytes that arrived, as far as the channel took them.
use x_kbengine.Prelude.{
  ℕ, ◌≡◌, refl, sym, ap, ap₂, ◌∙◌, Bool, true, false, some, List, [], ◌∷◌, ◌++◌, map, append_assoc,
  append-nil, ◌⊎◌, Outcome, ok, ◌>>=◌, Bool-cases, inl, inr, Ensures-ok, subst,
}
use x_kbengine.Stream.Bytes.{AllBytes}
use x_kbengine.Network.Packet.{Packet}
use x_kbengine.Network.Poller.{Epoll}
use x_kbengine.Network.EndPoint.{EndPoint, Sockets, Received, received, recv_failed}
use x_kbengine.Network.Framing.{Phase, feed, feed-append, AllOpen, AllOpen-feed}
use x_kbengine.Network.Reader.{Reader}
use x_kbengine.Network.Reader.Holds.{Holds}
use x_kbengine.Network.Reader.Delivery.{
  bytes_of, AllValid, AllBytes-rest, AllBytes-front, AllOpen-front,
}
use x_kbengine.Network.Channel.State.{Channel, Host, Limits}
use x_kbengine.Network.Channel.Arrival.{payloads, Stops, recv_loop-payloads}
use x_kbengine.Network.Channel.Condemned.{notified, recv_loop_condemned}
use x_kbengine.Network.Channel.Receiver.{recv_loop, process_packets}
use x_kbengine.Network.Session.{Arrivals, receive_round, receive_rounds}
use x_kbengine.Network.Session.Log.{note}
use x_kbengine.Network.Channel.Intake.{Untouched, recv_loop-Untouched}
use x_kbengine.Network.Session.Tick.{Handler, process_packets-Ticked, process_packets_condemned}

-- All bytes of the rounds.
abbrev pub arrived : List Arrivals → List ℕ
arrived [] = []
arrived ((now, chunks) ∷ rs) = payloads (map received chunks) ++ arrived rs

payloads-append : (xs ys : List Received) → payloads (xs ++ ys) ≡ payloads xs ++ payloads ys
payloads-append [] ys = refl
payloads-append (received l ∷ xs) ys =
    ap (λ m. l ++ m) (payloads-append xs ys) ∙ sym (append_assoc l (payloads xs) (payloads ys))
payloads-append (recv_failed err ∷ xs) ys = payloads-append xs ys

abbrev AllReceived : List Received → Type 0
AllReceived [] = Unit {0}
AllReceived (received l ∷ answers) = AllReceived answers
AllReceived (recv_failed err ∷ answers) = ⊥

map-AllReceived : (chunks : List (List ℕ)) → AllReceived (map received chunks)
map-AllReceived [] = tt
map-AllReceived (l ∷ chunks) = map-AllReceived chunks

AllReceived-rest : (xs ys : List Received) → AllReceived (xs ++ ys) → AllReceived ys
AllReceived-rest [] ys a = a
AllReceived-rest (received l ∷ xs) ys a = AllReceived-rest xs ys a
AllReceived-rest (recv_failed err ∷ xs) ys a = absurd a

module _ (e : Epoll) (k : Sockets) (limits : Limits)
    (handle : Host e k → Packet → Outcome (Bool × Host e k × Packet)) (t : Handler e k handle)
    (ep : EndPoint) where
  none_left :
      (rest : List Received) (c : Channel)
      → AllReceived rest
      → Stops e k limits ep rest c
      → c.flags.condemned ≡ false
      → rest ≡ []
  none_left [] c a s live = refl
  none_left (received l ∷ rest) c a s live = absurd (cc (s, live))
  none_left (recv_failed err ∷ rest) c a s live = absurd a

  -- Between two rounds, with the reader in a phase of the machine.
  pub record IsReady (ph : Phase) (h : Host e k) : Type 0 where
    pub reader : Reader
    pub has_reader : h.channel.packet_reader ≡ some reader
    pub holds : Holds reader ph
    pub has_end_point : h.channel.end_point ≡ some ep
    pub here : h.channel.flags.destroyed ≡ false
    pub live : h.channel.flags.condemned ≡ false
    pub empty : h.channel.buffered_receives ≡ []

  -- What the rounds come to: a front of the bytes went through the machine, and only a condemned
  -- channel leaves a rest.
  pub record Served (ph : Phase) (xs : List ℕ) (h : Host e k) (o : Outcome (Host e k))
      : Type 0 where
    pub after : Host e k
    pub front : List ℕ
    pub rest : List ℕ
    pub result : o ≡ ok after
    pub split : xs ≡ front ++ rest
    pub shown : t.seen after.sockets ≡ (feed note (t.seen h.sockets, ph) front).0
    pub complete : after.channel.flags.condemned ≡ false → rest ≡ []

  -- A condemned channel lets nothing through any more.
  receive_round_condemned :
      (r : Arrivals) (h : Host e k)
      → h.channel.end_point ≡ some ep
      → h.channel.flags.condemned ≡ true
      → (h' : Host e k) × (receive_round e k limits handle ep.socket r h ≡ ok h')
        × (h'.sockets ≡ h.sockets)
        × (h'.channel.end_point ≡ some ep)
        × (h'.channel.flags.condemned ≡ true)
  unfolding receive_round
  receive_round_condemned (now, chunks) h has dead =
      let (h', ticked, s, f, q) = process_packets_condemned e k handle t ep h has dead in
      (
        h',
        ap (λ o. o >>= process_packets e k handle)
              (notified e k limits ep now (map received chunks) h has
                ∙ recv_loop_condemned e k limits now (map received chunks) h dead)
            ∙ ticked,
        s,
        q,
        ap (λ x. x.condemned) f ∙ dead,
      )

  receive_rounds_condemned :
      (rs : List Arrivals) (h : Host e k)
      → h.channel.end_point ≡ some ep
      → h.channel.flags.condemned ≡ true
      → (h' : Host e k) × (receive_rounds e k limits handle ep.socket rs h ≡ ok h')
        × (h'.sockets ≡ h.sockets)
        × (h'.channel.flags.condemned ≡ true)
  unfolding receive_rounds
  receive_rounds_condemned [] h has dead = (h, refl, refl, dead)
  receive_rounds_condemned (r ∷ rs) h has dead =
      let (h1, done, s1, q1, c1) = receive_round_condemned r h has dead in
      let (h2, done2, s2, c2) = receive_rounds_condemned rs h1 q1 c1 in
      (h2, ap (λ o. o >>= receive_rounds e k limits handle ep.socket rs) done ∙ done2, s2 ∙ s1, c2)

  -- The end of a round: the channel is condemned and nothing was read, or all was read.
  abbrev Ends : Phase → List ℕ → Host e k → Host e k → Type 0
  Ends ph xs h h' =
      ((h'.channel.flags.condemned ≡ true)
        × (h'.channel.end_point ≡ some ep)
        × (h'.sockets ≡ h.sockets))
      ⊎ (IsReady (feed note (t.seen h.sockets, ph) xs).1 h'
          × (t.seen h'.sockets ≡ (feed note (t.seen h.sockets, ph) xs).0))

  filled_round :
      (ph : Phase) (xs : List ℕ) (h h1 : Host e k)
      → IsReady ph h
      → Untouched h h1
      → h1.channel.flags.condemned ≡ false
      → bytes_of h1.channel.buffered_receives ≡ xs
      → AllBytes xs
      → AllOpen ph xs
      → (h' : Host e k) × (process_packets e k handle h1 ≡ ok h') × Ends ph xs h h'
  filled_round ph xs h h1 y u live all_in bytes open_ =
      let g =
        process_packets-Ticked e k handle t ep h1 ph y.reader (u.reader ∙ y.has_reader)
          (u.end_point ∙ y.has_end_point) (u.destroyed ∙ y.here) live y.holds
          (u.valid (subst AllValid (sym y.empty) tt)) (subst AllBytes (sym all_in) bytes)
          (subst (AllOpen ph) (sym all_in) open_) in
      let same : feed note (t.seen h1.sockets, ph) (bytes_of h1.channel.buffered_receives)
          ≡ feed note (t.seen h.sockets, ph) xs =
        ap₂ (λ s l. feed note (t.seen s, ph) l) u.sockets all_in in
      (
        g.after,
        g.result,
        inr (
          record {
            reader = g.reader;
            has_reader = g.kept;
            holds = subst (λ m. Holds g.reader m.1) same g.holds;
            has_end_point = g.end_point;
            here = ap (λ x. x.destroyed) g.flags ∙ u.destroyed ∙ y.here;
            live = ap (λ x. x.condemned) g.flags ∙ live;
            empty = g.empty;
          },
          g.shown ∙ ap (λ m. m.0) same,
        ),
      )

  receive_round-Ends :
      (now : ℕ) (chunks : List (List ℕ)) (ph : Phase) (h : Host e k)
      → IsReady ph h
      → AllBytes (payloads (map received chunks))
      → AllOpen ph (payloads (map received chunks))
      → (h' : Host e k) × (receive_round e k limits handle ep.socket (now, chunks) h ≡ ok h')
        × Ends ph (payloads (map received chunks)) h h'
  unfolding receive_round
  receive_round-Ends now chunks ph h y bytes open_ =
      let answers : List Received = map received chunks in
      let (h1, taken, rest, done, split, filled, stops) =
        recv_loop-payloads e k limits ep now answers h y.has_end_point in
      let u : Untouched h h1 =
        Ensures-ok (Untouched h) (recv_loop e k limits now answers h) h1 done
          (recv_loop-Untouched e k limits now answers h) in
      let heard : receive_round e k limits handle ep.socket (now, chunks) h
          ≡ process_packets e k handle h1 =
        ap (λ o. o >>= process_packets e k handle)
          (notified e k limits ep now answers h y.has_end_point ∙ done) in
      elim (Bool-cases h1.channel.flags.condemned) [
        | inl dead ↦
            let (h', ticked, s, f, q) =
              process_packets_condemned e k handle t ep h1 (u.end_point ∙ y.has_end_point) dead in
            (h', heard ∙ ticked, inl (ap (λ x. x.condemned) f ∙ dead, q, s ∙ u.sockets))
        | inr live ↦
            let gone : rest ≡ [] =
              none_left rest h1.channel
                (AllReceived-rest taken rest (subst AllReceived split (map-AllReceived chunks)))
                stops live in
            let all_in : bytes_of h1.channel.buffered_receives ≡ payloads answers =
              filled
              ∙ ap (λ l. bytes_of l ++ payloads taken) y.empty
              ∙ sym (append-nil (payloads taken))
              ∙ ap (λ l. payloads taken ++ payloads l) (sym gone)
              ∙ sym (payloads-append taken rest)
              ∙ ap payloads (sym split) in
            let (h', ticked, ends) =
              filled_round ph (payloads answers) h h1 y u live all_in bytes open_ in
            (h', heard ∙ ticked, ends)
      ]

  pub receive_rounds-Served :
      (rs : List Arrivals) (ph : Phase) (h : Host e k)
      → IsReady ph h
      → AllBytes (arrived rs)
      → AllOpen ph (arrived rs)
      → Served ph (arrived rs) h (receive_rounds e k limits handle ep.socket rs h)
  receive_rounds-Served [] ph h y bytes open_ =
      unfold receive_rounds in
      unfold feed in
      record {
        after = h;
        front = [];
        rest = [];
        result = refl;
        split = refl;
        shown = refl;
        complete = λ c. refl;
      }
  receive_rounds-Served ((now, chunks) ∷ rs) ph h y bytes open_ =
      let xs : List ℕ = payloads (map received chunks) in
      let (h1, done, ends) =
        receive_round-Ends now chunks ph h y (AllBytes-front xs (arrived rs) bytes)
          (AllOpen-front ph xs (arrived rs) open_) in
      let on : receive_rounds e k limits handle ep.socket ((now, chunks) ∷ rs) h
          ≡ receive_rounds e k limits handle ep.socket rs h1 =
        unfold receive_rounds in
        ap (λ o. o >>= receive_rounds e k limits handle ep.socket rs) done in
      elim ends [
        | inl (dead, q, s) ↦
            let (h2, done2, s2, dead2) = receive_rounds_condemned rs h1 q dead in
            unfold feed in
            record {
              after = h2;
              front = [];
              rest = xs ++ arrived rs;
              result = on ∙ done2;
              split = refl;
              shown = ap t.seen (s2 ∙ s);
              complete = λ live. absurd (cc (live, dead2));
            }
        | inr (y1, shown) ↦
            let m = feed note (t.seen h.sockets, ph) xs in
            let g =
              receive_rounds-Served rs m.1 h1 y1 (AllBytes-rest xs (arrived rs) bytes)
                (AllOpen-feed note (t.seen h.sockets) ph xs (arrived rs) open_) in
            record {
              after = g.after;
              front = xs ++ g.front;
              rest = g.rest;
              result = on ∙ g.result;
              split = ap (λ l. xs ++ l) g.split ∙ sym (append_assoc xs g.front g.rest);
              shown =
                  g.shown
                  ∙ ap (λ v. (feed note (v, m.1) g.front).0) shown
                  ∙ ap (λ x. x.0) (sym (feed-append note (t.seen h.sockets, ph) xs g.front));
              complete = g.complete;
            }
      ]
