-- ===== src/Network/Session/Tick.antt =====
-- `Channel::processPackets` of libs/network/channel.cpp on a whole receive window.
use x_kbengine.Prelude.{
  ℕ, zero, suc, ◌+◌, ◌<◌, ◌≡◌, refl, sym, ap, ap₂, ◌∙◌, Bool, true, false, Option, none, some, List,
  [], ◌∷◌, ◌++◌, arith, length, take, append_assoc, length-append, get_elem?, if◌then◌else◌,
  Outcome, ok, fail, undefined, ◌>>=◌, ◌>>◌,
}
use x_kbengine.Stream.{unread_length}
use x_kbengine.Stream.Bytes.{AllBytes}
use x_kbengine.Stream.Queue.{unread, unread_length_lem}
use x_kbengine.Network.Packet.{Packet}
use x_kbengine.Network.Poller.{Epoll}
use x_kbengine.Network.EndPoint.{EndPoint, Sockets}
use x_kbengine.Network.Framing.{Phase, feed, feed-append, AllOpen, AllOpen-feed}
use x_kbengine.Network.Reader.{Reader, process_messages}
use x_kbengine.Network.Reader.Holds.{Holds}
use x_kbengine.Network.Reader.Delivery.{
  bytes_of, AllValid, AllBytes-rest, AllBytes-front, AllOpen-front, message_loop-Follows,
}
use x_kbengine.Network.Channel.State.{Host, with_channel, c_str}
use x_kbengine.Network.Channel.Pending.{c_str-ok}
use x_kbengine.Network.Channel.Receiver.{
  receive_loop, next_received, finish_packets, process_packets,
}
use x_kbengine.Network.Session.Log.{Messages, note, feed-joins}

-- A message handler that takes each message once: `deliver` is what it does, `seen` what the world
-- shows of it. It returns, lets its own channel's window, end point and flags alone, keeps the packet's
-- bytes, and takes the message from the packet's start, whatever the read position is.
pub record Handler (e : Epoll) (k : Sockets)
    (handle : Host e k → Packet → Outcome (Bool × Host e k × Packet)) : Type 0 where
  pub seen : k.State → Messages
  pub deliver : Host e k → List ℕ → Host e k
  pub handles :
      (h : Host e k) (c : Packet)
      → (q : Packet) × (handle h c ≡ ok (true, deliver h (take c.wpos c.bytes), q))
        × (q.bytes ≡ c.bytes)
  pub sees : (h : Host e k) (m : List ℕ) → seen (deliver h m).sockets ≡ seen h.sockets ++ m ∷ []
  pub flags : (h : Host e k) (m : List ℕ) → (deliver h m).channel.flags ≡ h.channel.flags
  pub end_point :
      (h : Host e k) (m : List ℕ) → (deliver h m).channel.end_point ≡ h.channel.end_point
  pub window :
      (h : Host e k) (m : List ℕ)
      → (deliver h m).channel.buffered_receives ≡ h.channel.buffered_receives

get_elem?-middle :
    (front : List Packet) (p : Packet) (ps : List Packet)
    → get_elem? (front ++ p ∷ ps) (length front) ≡ some p
get_elem?-middle [] p ps = refl
get_elem?-middle (q ∷ front) p ps = get_elem?-middle front p ps

get_elem?-end : (front : List Packet) → get_elem? (front ++ []) (length front) ≡ none
get_elem?-end [] = refl
get_elem?-end (q ∷ front) = get_elem?-end front

module _ (e : Epoll) (k : Sockets) (handle : Host e k → Packet → Outcome (Bool × Host e k × Packet))
    (t : Handler e k handle) (ep : EndPoint) where
  -- The two looks of a round of the loop: at the packet, and at the reader.
  abbrev at_reader : ℕ → ℕ → Host e k → Packet → Option Reader → Outcome (Bool × Host e k)
  at_reader fuel i h p none = fail undefined
  at_reader fuel i h p (some r) =
      c_str h.channel
      >> process_messages handle h r p
      >>= next_received e k handle (λ h'. receive_loop e k handle fuel (i + 1) h')

  abbrev at_packet : ℕ → ℕ → Host e k → Option Packet → Outcome (Bool × Host e k)
  at_packet fuel i h none = ok (true, h)
  at_packet fuel i h (some p) = at_reader fuel i h p h.channel.packet_reader

  loop_end :
      (fuel i : ℕ) (h : Host e k)
      → get_elem? h.channel.buffered_receives i ≡ none
      → receive_loop e k handle (suc fuel) i h ≡ ok (true, h)
  unfolding receive_loop
  loop_end fuel i h none_left = ap (at_packet fuel i h) none_left

  loop_step :
      (fuel i : ℕ) (h : Host e k) (p : Packet) (r : Reader) (w : Host e k) (r1 : Reader)
      (p1 : Packet)
      → get_elem? h.channel.buffered_receives i ≡ some p
      → h.channel.packet_reader ≡ some r
      → h.channel.end_point ≡ some ep
      → process_messages handle h r p ≡ ok (true, w, r1, p1)
      → receive_loop e k handle (suc fuel) i h
        ≡ receive_loop e k handle fuel
            (i + 1)
            (with_channel (record w.channel { packet_reader = some r1 }) w)
  unfolding receive_loop
  loop_step fuel i h p r w r1 p1 there has at_ done =
      ap (at_packet fuel i h) there
      ∙ ap (at_reader fuel i h p) has
      ∙ ap
          (λ c.
            c
            >> process_messages handle h r p
            >>= next_received e k handle (λ h'. receive_loop e k handle fuel (i + 1) h'))
          (c_str-ok h.channel ep at_)
      ∙ ap (λ o. o >>= next_received e k handle (λ h'. receive_loop e k handle fuel (i + 1) h'))
          done

  -- What stays of the channel.
  abbrev pub Side : Host e k → Host e k → Type 0
  Side h h' =
      (h'.channel.flags ≡ h.channel.flags)
      × (h'.channel.end_point ≡ h.channel.end_point)
      × (h'.channel.buffered_receives ≡ h.channel.buffered_receives)

  abbrev Shows : Host e k → Host e k → Messages → Type 0
  Shows h w v = Side h w × (t.seen w.sockets ≡ v)

  deliver-Shows :
      (h w : Host e k) (v : Messages) (m : List ℕ)
      → Shows h w v
      → Shows h (t.deliver w m) (note v m)
  deliver-Shows h w v m ((f, q, b), s) =
      ((t.flags w m ∙ f, t.end_point w m ∙ q, t.window w m ∙ b), t.sees w m ∙ ap (λ l. note l m) s)

  -- The whole loop: what the framing machine finds in the window is seen, and the reader is in the
  -- machine's phase.
  record Reads (ph : Phase) (xs : List ℕ) (h : Host e k) (o : Outcome (Bool × Host e k))
      : Type 0 where
    after : Host e k
    reader : Reader
    result : o ≡ ok (true, after)
    kept : after.channel.packet_reader ≡ some reader
    holds : Holds reader (feed note (t.seen h.sockets, ph) xs).1
    shown : t.seen after.sockets ≡ (feed note (t.seen h.sockets, ph) xs).0
    side : Side h after

  receive_loop-Reads :
      (fuel : ℕ) (front ps : List Packet) (h : Host e k) (ph : Phase) (r : Reader)
      → h.channel.buffered_receives ≡ front ++ ps
      → h.channel.packet_reader ≡ some r
      → h.channel.end_point ≡ some ep
      → Holds r ph
      → AllValid ps
      → AllBytes (bytes_of ps)
      → AllOpen ph (bytes_of ps)
      → length ps < fuel
      → Reads ph (bytes_of ps) h (receive_loop e k handle fuel (length front) h)
  receive_loop-Reads zero front ps h ph r same has at_ holds v all open_ enough =
      absurd (omega arith)
  receive_loop-Reads (suc fuel) front [] h ph r same has at_ holds v all open_ enough =
      let stop =
        loop_end fuel (length front) h
          (ap (λ l. get_elem? l (length front)) same ∙ get_elem?-end front) in
      unfold feed in
      record {
        after = h;
        reader = r;
        result = stop;
        kept = has;
        holds = holds;
        shown = refl;
        side = (refl, refl, refl);
      }
  receive_loop-Reads (suc fuel) front (p ∷ ps) h ph r same has at_ holds v all open_ enough =
      let xs : List ℕ = unread p.stream in
      let m : Host e k × Phase = feed t.deliver (h, ph) xs in
      let (r1, p1, done, holds1, _) =
        message_loop-Follows handle t.deliver t.handles (unread_length p.stream + 1) ph r h p xs
          holds v.0 refl (AllBytes-front xs (bytes_of ps) all)
          (AllOpen-front ph xs (bytes_of ps) open_)
          (omega (arith, unread_length_lem p.stream v.0)) in
      let back : Host e k = with_channel (record m.0.channel { packet_reader = some r1 }) m.0 in
      let step : receive_loop e k handle (suc fuel) (length front) h
          ≡ receive_loop e k handle fuel (length front + 1) back =
        loop_step fuel (length front) h p r m.0 r1 p1
          (ap (λ l. get_elem? l (length front)) same ∙ get_elem?-middle front p ps) has at_
          (unfold process_messages in done) in
      let (((f, q, b), shown), phase) : Shows h m.0 (feed note (t.seen h.sockets, ph) xs).0
          × (m.1 ≡ (feed note (t.seen h.sockets, ph) xs).1) =
        feed-joins t.deliver note (Shows h) (deliver-Shows h) h (t.seen h.sockets) ph xs
          ((refl, refl, refl), refl) in
      let rest =
        receive_loop-Reads fuel (front ++ p ∷ []) ps back m.1 r1
          (b ∙ same ∙ sym (append_assoc front (p ∷ []) ps)) refl (q ∙ at_) holds1 v.1
          (AllBytes-rest xs (bytes_of ps) all) (AllOpen-feed t.deliver h ph xs (bytes_of ps) open_)
          (omega arith) in
      let here : length (front ++ p ∷ []) ≡ length front + 1 = length-append front (p ∷ []) in
      let whole : feed note (t.seen h.sockets, ph) (xs ++ bytes_of ps)
          ≡ feed note (t.seen back.sockets, m.1) (bytes_of ps) =
        feed-append note (t.seen h.sockets, ph) xs (bytes_of ps)
        ∙ ap₂ (λ s k'. feed note (s, k') (bytes_of ps)) (sym shown) (sym phase) in
      record {
        after = rest.after;
        reader = rest.reader;
        result = step ∙ ap (λ i. receive_loop e k handle fuel i back) (sym here) ∙ rest.result;
        kept = rest.kept;
        holds = rw whole rest.holds;
        shown = rest.shown ∙ ap (λ m'. m'.0) (sym whole);
        side = (rest.side.0 ∙ f, rest.side.1 ∙ q, rest.side.2 ∙ b);
      }

  -- After the tick of a channel that is alive: the window is empty, and all of it was read.
  pub record Ticked (ph : Phase) (h : Host e k) (o : Outcome (Host e k)) : Type 0 where
    pub after : Host e k
    pub reader : Reader
    pub result : o ≡ ok after
    pub kept : after.channel.packet_reader ≡ some reader
    pub holds :
        Holds reader (feed note (t.seen h.sockets, ph) (bytes_of h.channel.buffered_receives)).1
    pub shown :
        t.seen after.sockets
        ≡ (feed note (t.seen h.sockets, ph) (bytes_of h.channel.buffered_receives)).0
    pub flags : after.channel.flags ≡ h.channel.flags
    pub end_point : after.channel.end_point ≡ some ep
    pub empty : after.channel.buffered_receives ≡ []

  abbrev started : Host e k → Host e k
  started h =
      with_channel (record h.channel { last_tick_bytes_received = 0; last_tick_bytes_sent = 0 }) h

  abbrev by_flags : Host e k → Bool → Bool → Outcome (Host e k)
  by_flags h destroyed condemned =
      if destroyed
      then ok (started h)
      else if condemned
      then ok (started h)
      else receive_loop e k handle (length h.channel.buffered_receives + 1) 0 (started h)
        >>= finish_packets e k handle

  process_packets-by_flags :
      (h : Host e k)
      → h.channel.end_point ≡ some ep
      → process_packets e k handle h
        ≡ by_flags h h.channel.flags.destroyed h.channel.flags.condemned
  unfolding process_packets
  process_packets-by_flags h at_ =
      ap (λ c. c >> by_flags h h.channel.flags.destroyed h.channel.flags.condemned)
        (c_str-ok h.channel ep at_)

  -- A condemned channel is left as it is, but for two counters.
  pub process_packets_condemned :
      (h : Host e k)
      → h.channel.end_point ≡ some ep
      → h.channel.flags.condemned ≡ true
      → (h' : Host e k) × (process_packets e k handle h ≡ ok h')
        × (h'.sockets ≡ h.sockets)
        × (h'.channel.flags ≡ h.channel.flags)
        × (h'.channel.end_point ≡ some ep)
  process_packets_condemned h at_ dead = (
    started h,
    process_packets-by_flags h at_
        ∙ ap (by_flags h h.channel.flags.destroyed) dead
        ∙ either h.channel.flags.destroyed,
    refl,
    refl,
    at_,
  )
    where
      either : (b : Bool) → by_flags h b true ≡ ok (started h)
      either true = refl
      either false = refl

  pub process_packets-Ticked :
      (h : Host e k) (ph : Phase) (r : Reader)
      → h.channel.packet_reader ≡ some r
      → h.channel.end_point ≡ some ep
      → h.channel.flags.destroyed ≡ false
      → h.channel.flags.condemned ≡ false
      → Holds r ph
      → AllValid h.channel.buffered_receives
      → AllBytes (bytes_of h.channel.buffered_receives)
      → AllOpen ph (bytes_of h.channel.buffered_receives)
      → Ticked ph h (process_packets e k handle h)
  process_packets-Ticked h ph r has at_ here live holds v all open_ =
      let ps : List Packet = h.channel.buffered_receives in
      let g =
        receive_loop-Reads (length ps + 1) [] ps (started h) ph r refl has at_ holds v all open_
          (omega arith) in
      record {
        after = with_channel (record g.after.channel { buffered_receives = [] }) g.after;
        reader = g.reader;
        result =
            process_packets-by_flags h at_
            ∙ ap (λ b. by_flags h b h.channel.flags.condemned) here
            ∙ ap (by_flags h false) live
            ∙ ap (λ o. o >>= finish_packets e k handle) g.result;
        kept = g.kept;
        holds = g.holds;
        shown = g.shown;
        flags = g.side.0;
        end_point = g.side.1 ∙ at_;
        empty = refl;
      }
