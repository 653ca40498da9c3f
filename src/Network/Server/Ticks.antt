-- ===== src/Network/Server/Ticks.antt =====
-- The tick: `Channel::processPackets` for each channel, and `processChannels` of
-- libs/network/network_interface.cpp.
use x_kbengine.Prelude.{
  ℕ, zero, suc, ◌+◌, refl, Bool, true, false, Option, none, some, length, get_elem?, if_cases,
  Outcome, ok, fail, undefined, ◌>>=◌, ◌>>◌, Ensures, Ensures-bind, Ensures-ok,
}
use x_kbengine.Network.Packet.{Packet}
use x_kbengine.Network.Poller.{Epoll}
use x_kbengine.Network.EndPoint.{Sockets}
use x_kbengine.Network.Reader.{Reader, process_messages}
use x_kbengine.Network.Reader.Worlds.{Read, process_messages_lem}
use x_kbengine.Network.Channel.State.{Host, with_channel, condemn, c_str}
use x_kbengine.Network.Channel.Receiver.{
  receive_loop, next_received, finish_packets, process_packets,
}
use x_kbengine.Network.Server.Tame.{IsTame, IsTame-refl, IsTame-trans, Ensures-IsTame}

module _ (e : Epoll) (k : Sockets) (handle : Host e k → Packet → Outcome (Bool × Host e k × Packet))
    (tame : (h : Host e k) (c : Packet)
      → Ensures (λ (r : Bool × Host e k × Packet). IsTame e k h r.1) (handle h c)) where
  abbrev Kept : Host e k → Bool × Host e k → Type 0
  Kept h r = IsTame e k h r.1

  next_received-IsTame :
      (h : Host e k) (rest : Host e k → Outcome (Bool × Host e k))
      (x : Bool × Host e k × Reader × Packet)
      → IsTame e k h x.1
      → ((h' : Host e k) → Ensures (Kept h') (rest h'))
      → Ensures (Kept h) (next_received e k handle rest x)
  next_received-IsTame h rest (fine, w, r, p) a more =
      let back : Host e k = with_channel (record w.channel { packet_reader = some r }) w in
      let b : IsTame e k h back = record { coherent = a.coherent; end_point = a.end_point } in
      if_cases (Ensures (Kept h)) fine {y = ok (false, back)}
        (λ t. Ensures-IsTame e k (λ (r : Bool × Host e k). r.1) h back (rest back) b (more back))
        (λ t. b)

  receive_loop-IsTame :
      (fuel i : ℕ) (h : Host e k) → Ensures (Kept h) (receive_loop e k handle fuel i h)
  unfolding receive_loop
  receive_loop-IsTame zero i h = tt
  receive_loop-IsTame (suc fuel) i h =
      by_packet (λ h'. receive_loop-IsTame fuel (i + 1) h')
        (get_elem? h.channel.buffered_receives i) h.channel.packet_reader
    where
      rest : Host e k → Outcome (Bool × Host e k)
      rest h' = receive_loop e k handle fuel (i + 1) h'

      by_packet :
          ((h' : Host e k) → Ensures (Kept h') (rest h'))
          → (o : Option Packet) (q : Option Reader)
          → Ensures (Kept h) (elim o [
            | none ↦ ok (true, h)
            | some p ↦ elim q [
              | none ↦ fail undefined
              | some r ↦
                  c_str h.channel >> process_messages handle h r p >>= next_received e k handle rest
            ]
          ])
      by_packet ih none q = IsTame-refl e k h
      by_packet ih (some p) none = tt
      by_packet ih (some p) (some r) =
          Ensures-bind (Kept h) (c_str h.channel >> process_messages handle h r p)
            (next_received e k handle rest)
            (λ x t.
              next_received-IsTame h rest x
                (Ensures-ok (Read handle (IsTame e k) (IsTame-refl e k) (IsTame-trans e k) tame h)
                  (c_str h.channel >> process_messages handle h r p) x t
                  (Ensures-bind
                    (Read handle (IsTame e k) (IsTame-refl e k) (IsTame-trans e k) tame h)
                    (c_str h.channel) (λ u. process_messages handle h r p)
                    (λ u v.
                      process_messages_lem handle (IsTame e k) (IsTame-refl e k) (IsTame-trans e k)
                        tame h r p)))
                ih)

  finish_packets-IsTame :
      (h : Host e k) (x : Bool × Host e k)
      → Kept h x
      → Ensures (IsTame e k h) (finish_packets e k handle x)
  unfolding condemn
  finish_packets-IsTame h (true, w) a = record { coherent = a.coherent; end_point = a.end_point }
  finish_packets-IsTame h (false, w) a =
      Ensures-bind (IsTame e k h) (c_str w.channel) _
        (λ u t. record { coherent = a.coherent; end_point = a.end_point })

  pub process_packets-IsTame :
      (h : Host e k) → Ensures (IsTame e k h) (process_packets e k handle h)
  unfolding process_packets
  process_packets-IsTame h =
      let h0 : Host e k =
        with_channel (record h.channel { last_tick_bytes_received = 0; last_tick_bytes_sent = 0 })
          h in
      let a : IsTame e k h h0 = record { coherent = λ c. c; end_point = refl } in
      Ensures-bind (IsTame e k h) (c_str h.channel) _ (λ u t.
        if_cases (Ensures (IsTame e k h)) h.channel.flags.destroyed (λ b. a)
          (λ b.
            if_cases (Ensures (IsTame e k h)) h.channel.flags.condemned (λ c. a)
              (λ c.
                Ensures-IsTame e k (λ x. x) h h0 _ a
                  (let loop =
                      receive_loop e k handle (length h.channel.buffered_receives + 1) 0 h0 in
                    Ensures-bind (IsTame e k h0) loop (finish_packets e k handle) (λ x v.
                      finish_packets-IsTame h0 x (
                        Ensures-ok (Kept h0) loop x v
                          (receive_loop-IsTame (length h.channel.buffered_receives + 1) 0 h0)))))))
