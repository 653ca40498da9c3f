-- ===== src/Network/Channel/Intake.antt =====
-- What the receiver of libs/network/packet_receiver.cpp leaves alone while it fills the receive window.
use x_kbengine.Prelude.{
  ℕ, ◌+◌, ◌≡◌, refl, ◌∙◌, Bool, true, false, List, [], ◌∷◌, ◌++◌, arith, length, ◌&&◌, ltb,
  if_cases, Outcome, ok, fail, ◌>>=◌, Ensures, Ensures-bind, Ensures-ok,
}
use x_kbengine.Prelude.Int.{ℤ, pos, negsuc}
use x_kbengine.Stream.Queue.{IsValid, length-overwrite}
use x_kbengine.Stream.{data_resize, overwrite}
use x_kbengine.Network.Packet.{Packet, tcp_init, sized_init, packet_max_size_tcp}
use x_kbengine.Network.Packet
use x_kbengine.Network.Poller.{Epoll}
use x_kbengine.Network.EndPoint.{Sockets, Received, received, recv_failed, try_again, recv, receive}
use x_kbengine.Network.Channel.State.{
  Channel, Node, Host, Stats, Limits, with_channel, condemn, condemn_if, passed, reached,
  count_received, count_all_received, c_str, on_packet_received, add_receive_window,
}
use x_kbengine.Network.Channel.Receiver.{is_try_again, deliver, process_recv, once_more, recv_loop}
use x_kbengine.Network.Channel.Sender.{end_point_of}
use x_kbengine.Network.Reader.Delivery.{AllValid}

-- The receiver touches neither the reader, nor whether the channel is destroyed, nor the sockets and the poller; the
-- packets in the window stay valid.
pub record Untouched {K S : Type 0} (h h' : Node K S) : Type 0 where
  pub sockets : h'.sockets ≡ h.sockets
  pub poller : h'.poller ≡ h.poller
  pub reader : h'.channel.packet_reader ≡ h.channel.packet_reader
  pub destroyed : h'.channel.flags.destroyed ≡ h.channel.flags.destroyed
  pub end_point : h'.channel.end_point ≡ h.channel.end_point
  pub valid : AllValid h.channel.buffered_receives → AllValid h'.channel.buffered_receives

Untouched-refl : {K S : Type 0} (h : Node K S) → Untouched h h
Untouched-refl h = record {
  sockets = refl;
  poller = refl;
  reader = refl;
  destroyed = refl;
  end_point = refl;
  valid = λ v. v;
}

Untouched-trans :
    {K S : Type 0} (h h' h'' : Node K S) → Untouched h h' → Untouched h' h'' → Untouched h h''
Untouched-trans h h' h'' a b = record {
  sockets = b.sockets ∙ a.sockets;
  poller = b.poller ∙ a.poller;
  reader = b.reader ∙ a.reader;
  destroyed = b.destroyed ∙ a.destroyed;
  end_point = b.end_point ∙ a.end_point;
  valid = λ v. b.valid (a.valid v);
}

condemned-Untouched :
    {K S : Type 0} (h : Node K S) → Untouched h (with_channel (condemn h.channel) h)
unfolding condemn
condemned-Untouched h = record {
  sockets = refl;
  poller = refl;
  reader = refl;
  destroyed = refl;
  end_point = refl;
  valid = λ v. v;
}

AllValid-snoc :
    (ps : List Packet) (p : Packet) → AllValid ps → IsValid p.stream → AllValid (ps ++ p ∷ [])
AllValid-snoc [] p v w = (w, tt)
AllValid-snoc (q ∷ ps) p v w = (v.0, AllValid-snoc ps p v.1 w)

tcp_init-IsValid : (p : Packet) → tcp_init ≡ ok p → IsValid p.stream
unfolding tcp_init sized_init Packet.init data_resize
tcp_init-IsValid p e =
    Ensures-ok (λ (q : Packet). IsValid q.stream) tcp_init p e
      (record { ordered = omega arith; within = omega arith })

recv-IsValid :
    (p : Packet) (answer : Received)
    → IsValid p.stream
    → Ensures (λ (r : Packet × ℤ). IsValid r.0.stream) (recv p answer)
unfolding recv receive
recv-IsValid p (recv_failed err) v =
    if_cases (Ensures (λ (r : Packet × ℤ). IsValid r.0.stream)) (ltb p.wpos packet_max_size_tcp)
      {x = ok (p, negsuc 0)} (λ t. v) (λ t. tt)
recv-IsValid p (received l) v =
    let filled : Packet = record p {
      stream = record p.stream { bytes = overwrite p.bytes p.wpos l; wpos = p.wpos + length l };
    } in
    let valid : IsValid filled.stream = record {
      ordered = omega (arith, v.ordered);
      within = length-overwrite p.bytes l p.wpos v.within;
    } in
    if_cases (Ensures (λ (r : Packet × ℤ). IsValid r.0.stream)) (ltb p.wpos packet_max_size_tcp)
      {x = ok (filled, pos (length l))} (λ t. valid) (λ t. tt)

-- What the two counters of a received packet leave alone in the channel.
abbrev Same : Channel → Channel → Type 0
Same c d =
    (d.packet_reader ≡ c.packet_reader)
    × (d.flags.destroyed ≡ c.flags.destroyed)
    × (d.end_point ≡ c.end_point)

condemn_if-Same :
    (b : Bool) (c : Channel)
    → Same c (condemn_if b c) × ((condemn_if b c).buffered_receives ≡ c.buffered_receives)
unfolding condemn
condemn_if-Same true c = ((refl, refl, refl), refl)
condemn_if-Same false c = ((refl, refl, refl), refl)

on_packet_received-Same :
    (limits : Limits) (now : ℕ) (n : ℤ) (c : Channel) (st : Stats)
    → Ensures
        (λ (r : Channel × Stats). Same c r.0 × (r.0.buffered_receives ≡ c.buffered_receives))
        (on_packet_received limits now n c st)
unfolding on_packet_received
on_packet_received-Same limits now n c st =
    let d : Channel = count_received now n c in
    Ensures-bind
      (λ (r : Channel × Stats). Same c r.0 × (r.0.buffered_receives ≡ c.buffered_receives))
      (c_str c)
      (λ u. ok (
        condemn_if (reached limits.receive_bytes d.last_tick_bytes_received) d,
        count_all_received n st,
      ))
      (λ u t. condemn_if-Same (reached limits.receive_bytes d.last_tick_bytes_received) d)

add_receive_window-Same :
    (limits : Limits) (p : Packet) (c : Channel)
    → Ensures
        (λ d. Same c d × (d.buffered_receives ≡ c.buffered_receives ++ p ∷ []))
        (add_receive_window limits p c)
unfolding add_receive_window
add_receive_window-Same limits p c =
    let d : Channel = record c { buffered_receives = c.buffered_receives ++ p ∷ [] } in
    let n : ℕ = length d.buffered_receives in
    let b : Bool = passed limits.receive_messages_critical n && passed limits.receive_messages n in
    Ensures-bind (λ x. Same c x × (x.buffered_receives ≡ c.buffered_receives ++ p ∷ [])) (c_str c)
      (λ u. ok (condemn_if b d)) (λ u t. condemn_if-Same b d)

module _ (e : Epoll) (k : Sockets) (limits : Limits) where
  deliver-Untouched :
      (now : ℕ) (p : Packet) (n : ℤ) (answer : Received) (h : Host e k)
      → IsValid p.stream
      → Ensures (λ (r : Bool × Host e k). Untouched h r.1) (deliver e k limits now (p, n) answer h)
  unfolding deliver
  deliver-Untouched now p n (recv_failed err) h v =
      if_cases (λ h'. Untouched h h') (is_try_again err) (λ t. Untouched-refl h)
        (λ t. condemned-Untouched h)
  deliver-Untouched now p n (received []) h v =
      Ensures-bind _ (c_str h.channel) _ (λ u t. condemned-Untouched h)
  deliver-Untouched now p n (received (b ∷ bs)) h v =
      Ensures-bind (λ (r : Bool × Host e k). Untouched h r.1)
        (on_packet_received limits now n h.channel h.stats)
        (λ x.
          add_receive_window limits p x.0 >>= λ d. ok (true, record h { channel = d; stats = x.1 }))
        (λ x counted.
          let ((r, f, q), same) =
            Ensures-ok
              (λ (x : Channel × Stats).
                Same h.channel x.0 × (x.0.buffered_receives ≡ h.channel.buffered_receives))
              (on_packet_received limits now n h.channel h.stats) x counted
              (on_packet_received-Same limits now n h.channel h.stats) in
          Ensures-bind (λ (r : Bool × Host e k). Untouched h r.1) (add_receive_window limits p x.0)
            (λ d. ok (true, record h { channel = d; stats = x.1 }))
            (λ d put.
              let ((r', f', q'), last) =
                Ensures-ok
                  (λ d. Same x.0 d × (d.buffered_receives ≡ x.0.buffered_receives ++ p ∷ []))
                  (add_receive_window limits p x.0) d put (add_receive_window-Same limits p x.0) in
              record {
                sockets = refl;
                poller = refl;
                reader = r' ∙ r;
                destroyed = f' ∙ f;
                end_point = q' ∙ q;
                valid = λ all. rw (last, same) (AllValid-snoc h.channel.buffered_receives p all v);
              }))

  process_recv-Untouched :
      (now : ℕ) (answer : Received) (h : Host e k)
      → Ensures (λ (r : Bool × Host e k). Untouched h r.1) (process_recv e k limits now answer h)
  unfolding process_recv
  process_recv-Untouched now answer h =
      let P : Bool × Host e k → Type 0 = λ r. Untouched h r.1 in
      if_cases (Ensures P) h.channel.flags.condemned {x = ok (false, h)} (λ t. Untouched-refl h)
        (λ t. Ensures-bind P (end_point_of h.channel) _ (λ ep u.
          Ensures-bind P tcp_init _ (λ fresh made.
            Ensures-bind P (recv fresh answer) (λ filled. deliver e k limits now filled answer h)
              (λ (q, n) filled. deliver-Untouched now q n answer h (
                Ensures-ok (λ (r : Packet × ℤ). IsValid r.0.stream) (recv fresh answer) (q, n)
                  filled (recv-IsValid fresh answer (tcp_init-IsValid fresh made)))))))

  once_more-Untouched :
      (h : Host e k) (o : Outcome (Bool × Host e k)) (rest : Host e k → Outcome (Host e k))
      → Ensures (λ (r : Bool × Host e k). Untouched h r.1) o
      → ((h' : Host e k) → Ensures (Untouched h') (rest h'))
      → Ensures (Untouched h) (o >>= once_more e k limits rest)
  once_more-Untouched h (fail err) rest u more = tt
  once_more-Untouched h (ok (false, h')) rest u more = u
  once_more-Untouched h (ok (true, h')) rest u more = further (rest h') (more h')
    where
      further : (o : Outcome (Host e k)) → Ensures (Untouched h') o → Ensures (Untouched h) o
      further (ok h'') w = Untouched-trans h h' h'' u w
      further (fail err) w = tt

  pub recv_loop-Untouched :
      (now : ℕ) (answers : List Received) (h : Host e k)
      → Ensures (Untouched h) (recv_loop e k limits now answers h)
  unfolding recv_loop
  recv_loop-Untouched now [] h =
      once_more-Untouched h (process_recv e k limits now (recv_failed try_again) h) (λ h'. ok h')
        (process_recv-Untouched now (recv_failed try_again) h) (λ h'. Untouched-refl h')
  recv_loop-Untouched now (a ∷ answers) h =
      once_more-Untouched h (process_recv e k limits now a h)
        (λ h'. recv_loop e k limits now answers h') (process_recv-Untouched now a h)
        (λ h'. recv_loop-Untouched now answers h')
