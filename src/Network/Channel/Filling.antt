-- ===== src/Network/Channel/Filling.antt =====
-- One call of `recv(2)`: the packet that it fills, and what the channel does with it.
use x_kbengine.Prelude.{
  ℕ, ◌+◌, ◌≡◌, refl, sym, ap, ◌∙◌, Bool, true, false, ◌&&◌, none, some, List, [], ◌∷◌, ◌++◌, arith,
  length, take, drop, append_assoc, append-nil, if◌then◌else◌, Outcome, ok, fail, undefined, ◌>>=◌,
  ltb, lt→ltb, ap₂, assertion,
}
use x_kbengine.Prelude.Int.{ℤ, pos, negsuc}
use x_kbengine.Stream.Queue.{unread, take-overwrite}
use x_kbengine.Stream.{data_resize, overwrite}
use x_kbengine.Network.Packet.{Packet, tcp_init, sized_init}
use x_kbengine.Network.Packet
use x_kbengine.Network.Poller.{Epoll}
use x_kbengine.Network.EndPoint.{
  EndPoint, Sockets, Errno, Received, received, recv_failed, recv, receive,
}
use x_kbengine.Network.Channel.State.{
  Channel, Host, Limits, Stats, condemn, condemn_if, passed, reached, add_receive_window,
  on_packet_received, count_received, count_all_received,
}
use x_kbengine.Network.Channel.Receiver.{deliver, process_recv}
use x_kbengine.Network.Channel.Sender.{end_point_of}
use x_kbengine.Network.Channel.Pending.{c_str-ok}
use x_kbengine.Network.Reader.Delivery.{bytes_of}

bytes_of-append :
    (ps : List Packet) (p : Packet) → bytes_of (ps ++ p ∷ []) ≡ bytes_of ps ++ unread p.stream
bytes_of-append [] p = append-nil (unread p.stream)
bytes_of-append (q ∷ ps) p =
    ap (λ l. unread q.stream ++ l) (bytes_of-append ps p)
    ∙ sym (append_assoc (unread q.stream) (bytes_of ps) (unread p.stream))

condemn_if-same :
    (b : Bool) (c : Channel)
    → ((condemn_if b c).end_point ≡ c.end_point)
      × ((condemn_if b c).buffered_receives ≡ c.buffered_receives)
unfolding condemn
condemn_if-same true c = (refl, refl)
condemn_if-same false c = (refl, refl)

pub tcp_init-ok : (p : Packet) × (tcp_init ≡ ok p) × (p.wpos ≡ 0) × (p.rpos ≡ 0)
unfolding tcp_init sized_init Packet.init data_resize
tcp_init-ok = (_, refl, refl, refl)

-- What a call of `recv(2)` puts into a fresh packet.
pub recv-fresh :
    (p : Packet) (l : List ℕ)
    → p.wpos ≡ 0
    → p.rpos ≡ 0
    → (q : Packet) × (recv p (received l) ≡ ok (q, pos (length l))) × (unread q.stream ≡ l)
unfolding recv receive
recv-fresh p l w r =
    let low : ltb p.wpos 1460 ≡ true = lt→ltb p.wpos 1460 (omega arith) in
    let q : Packet = record p {
      stream = record p.stream { bytes = overwrite p.bytes p.wpos l; wpos = p.wpos + length l };
    } in
    (
      q,
      ap (λ b. if◌then◌else◌ {A = Outcome (Packet × ℤ)} b (ok (q, pos (length l))) (fail assertion))
          low,
      ap (drop p.rpos) (take-overwrite p.bytes l p.wpos (omega arith))
          ∙ ap₂ (λ a b. drop a (take b p.bytes ++ l)) r w,
    )

on_packet_received-ok :
    (limits : Limits) (now : ℕ) (bytes : ℤ) (c : Channel) (st : Stats) (ep : EndPoint)
    → c.end_point ≡ some ep
    → (d : Channel) × (st' : Stats) × (on_packet_received limits now bytes c st ≡ ok (d, st'))
      × (d.end_point ≡ some ep)
      × (d.buffered_receives ≡ c.buffered_receives)
unfolding on_packet_received
on_packet_received-ok limits now bytes c st ep e =
    let d : Channel = count_received now bytes c in
    let b : Bool = reached limits.receive_bytes d.last_tick_bytes_received in
    let (same, still) = condemn_if-same b d in
    (
      condemn_if b d,
      count_all_received bytes st,
      ap (λ o. o >>= λ u. ok (condemn_if b d, count_all_received bytes st)) (c_str-ok c ep e),
      same ∙ e,
      still,
    )

add_receive_window-ok :
    (limits : Limits) (q : Packet) (c : Channel) (ep : EndPoint)
    → c.end_point ≡ some ep
    → (d : Channel) × (add_receive_window limits q c ≡ ok d)
      × (d.end_point ≡ some ep)
      × (d.buffered_receives ≡ c.buffered_receives ++ q ∷ [])
unfolding add_receive_window
add_receive_window-ok limits q c ep e =
    let d : Channel = record c { buffered_receives = c.buffered_receives ++ q ∷ [] } in
    let n : ℕ = length d.buffered_receives in
    let b : Bool = passed limits.receive_messages_critical n && passed limits.receive_messages n in
    let (same, still) = condemn_if-same b d in
    (condemn_if b d, ap (λ o. o >>= λ u. ok (condemn_if b d)) (c_str-ok c ep e), same ∙ e, still)

module _ (e : Epoll) (k : Sockets) (limits : Limits) (ep : EndPoint) where
  -- What a received packet comes to.
  deliver-received :
      (now : ℕ) (q : Packet) (len : ℤ) (b : ℕ) (bs : List ℕ) (h : Host e k)
      → h.channel.end_point ≡ some ep
      → (h' : Host e k) × (deliver e k limits now (q, len) (received (b ∷ bs)) h ≡ ok (true, h'))
        × (h'.channel.end_point ≡ some ep)
        × (h'.channel.buffered_receives ≡ h.channel.buffered_receives ++ q ∷ [])
  unfolding deliver
  deliver-received now q len b bs h has =
      let (c, st, counted, has', same) =
        on_packet_received-ok limits now len h.channel h.stats ep has in
      let (d, put, has'', last) = add_receive_window-ok limits q c ep has' in
      (
        record h { channel = d; stats = st },
        rw counted (rw put),
        has'',
        last ∙ ap (λ l. l ++ q ∷ []) same,
      )

  pub process_recv-deliver :
      (now : ℕ) (answer : Received) (h : Host e k) (p q : Packet) (n : ℤ)
      → h.channel.end_point ≡ some ep
      → h.channel.flags.condemned ≡ false
      → tcp_init ≡ ok p
      → recv p answer ≡ ok (q, n)
      → process_recv e k limits now answer h ≡ deliver e k limits now (q, n) answer h
  unfolding process_recv
  process_recv-deliver now answer h p q n has fine made filled =
      let fill : Packet → Outcome (Bool × Host e k) =
        λ fresh. recv fresh answer >>= λ f. deliver e k limits now f answer h in
      let begin : EndPoint → Outcome (Bool × Host e k) = λ x. tcp_init >>= fill in
      ap (λ c. if c then ok (false, h) else end_point_of h.channel >>= begin) fine
      ∙ ap (λ o. elim o [ none ↦ fail undefined | some x ↦ ok x ] >>= begin) has
      ∙ ap (λ o. o >>= fill) made
      ∙ ap (λ o. o >>= λ f. deliver e k limits now f answer h) filled

  -- What one call of `processRecv` does with bytes.
  pub process_recv-received :
      (now : ℕ) (b : ℕ) (bs : List ℕ) (h : Host e k)
      → h.channel.end_point ≡ some ep
      → h.channel.flags.condemned ≡ false
      → (h' : Host e k) × (process_recv e k limits now (received (b ∷ bs)) h ≡ ok (true, h'))
        × (h'.channel.end_point ≡ some ep)
        × (bytes_of h'.channel.buffered_receives ≡ bytes_of h.channel.buffered_receives ++ (b ∷ bs))
  process_recv-received now b bs h has fine =
      let (p, made, w, r) = tcp_init-ok in
      let (q, filled, whole) = recv-fresh p (b ∷ bs) w r in
      let (h', done, has', buffered) = deliver-received now q (pos (length (b ∷ bs))) b bs h has in
      (
        h',
        process_recv-deliver now (received (b ∷ bs)) h p q (pos (length (b ∷ bs))) has fine made
              filled
            ∙ done,
        has',
        ap bytes_of buffered
            ∙ bytes_of-append h.channel.buffered_receives q
            ∙ ap (λ l. bytes_of h.channel.buffered_receives ++ l) whole,
      )

  pub recv_failed-ok :
      (p : Packet) (err : Errno) → p.wpos ≡ 0 → recv p (recv_failed err) ≡ ok (p, negsuc 0)
  unfolding recv receive
  recv_failed-ok p err w =
      ap (λ b. if◌then◌else◌ {A = Outcome (Packet × ℤ)} b (ok (p, negsuc 0)) (fail assertion))
        (lt→ltb p.wpos 1460 (omega arith))
