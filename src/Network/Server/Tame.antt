-- ===== src/Network/Server/Tame.antt =====
-- What the operations of a channel do to the poller and to the channel's end point: the poller stays
-- coherent with the kernel, and the end point stays.
use x_kbengine.Prelude.{
  ℕ, ◌%◌, ◌+◌, ◌≡◌, refl, sym, subst, ◌∙◌, Bool, true, false, not, ◌&&◌, Option, none, some, List,
  [], ◌∷◌, ◌++◌, length, ◌==◌, leb, if◌then◌else◌, if_cases, Outcome, ok, fail, assertion, Ensures,
  Ensures-bind, Ensures-ok,
}
use x_kbengine.Prelude.Int.{ℤ}
use x_kbengine.Stream.{unread_length}
use x_kbengine.Network.Common.{Reason, reason_success}
use x_kbengine.Network.Packet.{Packet}
use x_kbengine.Network.Poller.{Epoll, Fd, same_fd}
use x_kbengine.Network.Poller.Coherent.{
  IsCoherent, register_for_write-IsCoherent, deregister_for_write-IsCoherent,
}
use x_kbengine.Network.EndPoint.{Sockets, Received, send}
use x_kbengine.Network.Channel.State.{
  Channel, Host, Sender, Stats, Limits, with_channel, condemn, condemn_if, c_str, on_packet_sent,
  count_sent, count_all_sent, reached, passed, bundles_length, clear_bundle,
}
use x_kbengine.Network.Channel.Sender.{
  end_point_of, length_of, reason_of, is_success, is_unavailable, stop_send, on_send_completed,
  fail_count, with_fail_count, send_by, do_send, send_next, send_loop, sent_all, sent_part,
  process_send, handle_output_notification, send_now, check_send_window, send_packet,
}
use x_kbengine.Network.Channel.Receiver.{recv_loop, handle_input_notification}
use x_kbengine.Network.Channel.Intake.{Untouched, recv_loop-Untouched}

module _ (e : Epoll) (k : Sockets) where
  pub record IsTame (h h' : Host e k) : Type 0 where
    pub coherent : IsCoherent e h.poller → IsCoherent e h'.poller
    pub end_point : h'.channel.end_point ≡ h.channel.end_point

  pub IsTame-refl : (h : Host e k) → IsTame h h
  IsTame-refl h = record { coherent = λ c. c; end_point = refl }

  pub IsTame-trans : (h h' h'' : Host e k) → IsTame h h' → IsTame h' h'' → IsTame h h''
  IsTame-trans h h' h'' a b = record {
    coherent = λ c. b.coherent (a.coherent c);
    end_point = b.end_point ∙ a.end_point;
  }

  -- A chain of calls.
  pub Ensures-IsTame :
      {A : Type 0} (f : A → Host e k) (h h' : Host e k) (o : Outcome A)
      → IsTame h h'
      → Ensures (λ r. IsTame h' (f r)) o
      → Ensures (λ r. IsTame h (f r)) o
  Ensures-IsTame f h h' (ok r) a b = IsTame-trans h h' (f r) a b
  Ensures-IsTame f h h' (fail err) a b = tt

  with_channel-IsTame :
      (h : Host e k) (c : Channel) → c.end_point ≡ h.channel.end_point → IsTame h (with_channel c h)
  with_channel-IsTame h c same = record { coherent = λ x. x; end_point = same }

  pub stop_send-IsTame : (h : Host e k) → Ensures (IsTame h) (stop_send e k h)
  unfolding stop_send
  stop_send-IsTame h =
      if_cases (Ensures (IsTame h)) (not h.channel.flags.sending) (λ t. IsTame-refl h)
        (λ t. Ensures-bind (IsTame h) (end_point_of h.channel) _ (λ p u. record {
          coherent = λ c. deregister_for_write-IsCoherent e p.socket h.poller c;
          end_point = refl;
        }))

  on_send_completed-IsTame : (h : Host e k) → Ensures (IsTame h) (on_send_completed e k h)
  unfolding on_send_completed
  on_send_completed-IsTame h =
      if_cases (Ensures (IsTame h)) ((length h.channel.bundles == 0) && h.channel.flags.sending)
        {y = fail assertion} (λ t. stop_send-IsTame h) (λ t. tt)

condemn_if-end_point :
    (b : Bool) (c : Channel) → (if b then condemn c else c).end_point ≡ c.end_point
unfolding condemn
condemn_if-end_point true c = refl
condemn_if-end_point false c = refl

module _ (e : Epoll) (k : Sockets) (limits : Limits) where
  on_packet_sent-end_point :
      (n : ℤ) (done : Bool) (c : Channel) (st : Stats)
      → Ensures
          (λ (r : Channel × Stats). r.0.end_point ≡ c.end_point)
          (on_packet_sent limits n done c st)
  unfolding on_packet_sent
  on_packet_sent-end_point n done c st =
      let d : Channel = count_sent n done c in
      Ensures-bind (λ (r : Channel × Stats). r.0.end_point ≡ c.end_point) (c_str c)
        (λ u. ok (
          condemn_if (reached limits.send_bytes d.last_tick_bytes_sent) d,
          count_all_sent n done st,
        ))
        (λ u t. condemn_if-end_point (reached limits.send_bytes d.last_tick_bytes_sent) d)

  do_send-IsTame :
      (p : Packet) (h : Host e k)
      → Ensures (λ (r : Reason × Packet × Host e k). IsTame e k h r.2) (do_send e k limits p h)
  unfolding do_send
  do_send-IsTame p h =
      let P : Reason × Packet × Host e k → Type 0 = λ r. IsTame e k h r.2 in
      if_cases (Ensures P) h.channel.flags.condemned (λ t. IsTame-refl e k h)
        (λ t. Ensures-bind P (end_point_of h.channel) (send_by e k limits p h) (λ ep u.
          let (s, p', answer) = send k ep p h.sockets in
          let done : Bool = p'.sent_size == unread_length p'.stream in
          Ensures-bind P (on_packet_sent limits (length_of answer) done h.channel h.stats)
            (λ (c, st). ok (
              if done then reason_success else reason_of answer (k.errno s),
              p',
              record h { channel = c; stats = st; sockets = s },
            ))
            (λ x counted. record {
              coherent = λ c. c;
              end_point =
                  Ensures-ok (λ (r : Channel × Stats). r.0.end_point ≡ h.channel.end_point)
                    (on_packet_sent limits (length_of answer) done h.channel h.stats) x counted
                    (on_packet_sent-end_point (length_of answer) done h.channel h.stats);
            })))

  send_loop-IsTame :
      (ps : List Packet) (h : Host e k)
      → Ensures
          (λ (r : Reason × List Packet × Host e k). IsTame e k h r.2)
          (send_loop e k limits ps h)
  unfolding send_loop
  send_loop-IsTame [] h = IsTame-refl e k h
  send_loop-IsTame (p ∷ ps) h =
      let P : Reason × List Packet × Host e k → Type 0 = λ r. IsTame e k h r.2 in
      Ensures-bind P (do_send e k limits p h)
        (send_next e k limits (λ h'. send_loop e k limits ps h') ps)
        (λ (reason, p', h') done.
          let first : IsTame e k h h' =
            Ensures-ok (λ (r : Reason × Packet × Host e k). IsTame e k h r.2)
              (do_send e k limits p h) (reason, p', h') done (do_send-IsTame p h) in
          if_cases (Ensures P) (is_success reason) {y = ok (reason, p' ∷ ps, h')}
            (λ t.
              Ensures-IsTame e k (λ (r : Reason × List Packet × Host e k). r.2) h h'
                (send_loop e k limits ps h') first (send_loop-IsTame ps h'))
            (λ t. first))

  sent_all-IsTame :
      (is_epoll : Bool) (h : Host e k)
      → Ensures (λ (r : Bool × Host e k). IsTame e k h r.1) (sent_all e k limits is_epoll h)
  unfolding sent_all
  sent_all-IsTame false h = record { coherent = λ c. c; end_point = refl }
  sent_all-IsTame true h =
      let done : Host e k =
        with_channel (with_fail_count 0 (record h.channel { bundles = [] })) h in
      Ensures-bind (λ (r : Bool × Host e k). IsTame e k h r.1) (on_send_completed e k done)
        (λ h'. ok (true, h'))
        (λ h' t. IsTame-trans e k h done h' (with_channel-IsTame e k h done.channel refl) (
          Ensures-ok (IsTame e k done) (on_send_completed e k done) h' t
            (on_send_completed-IsTame e k done)))

  sent_part-IsTame :
      (reason : Reason) (rest : List Packet) (h : Host e k)
      → Ensures (λ (r : Bool × Host e k). IsTame e k h r.1) (sent_part e k limits reason rest h)
  unfolding sent_part
  sent_part-IsTame reason rest h =
      let P : Bool × Host e k → Type 0 = λ r. IsTame e k h r.1 in
      let c : Channel = record h.channel { bundles = rest } in
      let n : ℕ = (fail_count c + 1) % 256 in
      let counted : Channel = with_fail_count n c in
      if_cases (Ensures P) (is_unavailable reason)
        {x = ok (false, with_channel (if leb 10 n then condemn counted else counted) h)}
        {y = ok (false, with_channel (condemn c) h)}
        (λ t. with_channel-IsTame e k h _ (condemn_if-end_point (leb 10 n) counted))
        (λ t. with_channel-IsTame e k h _ (condemn_if-end_point true c))

  process_send-IsTame :
      (is_epoll : Bool) (h : Host e k)
      → Ensures (λ (r : Bool × Host e k). IsTame e k h r.1) (process_send e k limits is_epoll h)
  unfolding process_send
  process_send-IsTame is_epoll h =
      let P : Bool × Host e k → Type 0 = λ r. IsTame e k h r.1 in
      if_cases (Ensures P) h.channel.flags.condemned {x = ok (false, h)} (λ t. IsTame-refl e k h)
        (λ t.
          Ensures-bind P (send_loop e k limits h.channel.bundles h) _ (λ (reason, rest, h') done.
            let first : IsTame e k h h' =
              Ensures-ok (λ (r : Reason × List Packet × Host e k). IsTame e k h r.2)
                (send_loop e k limits h.channel.bundles h) (reason, rest, h') done
                (send_loop-IsTame h.channel.bundles h) in
            if_cases (Ensures P) (is_success reason)
              (λ s.
                Ensures-IsTame e k (λ (r : Bool × Host e k). r.1) h h'
                  (sent_all e k limits is_epoll h') first (sent_all-IsTame is_epoll h'))
              (λ s.
                Ensures-IsTame e k (λ (r : Bool × Host e k). r.1) h h'
                  (sent_part e k limits reason rest h') first (sent_part-IsTame reason rest h'))))

  pub handle_output_notification-IsTame :
      (h : Host e k) → Ensures (IsTame e k h) (handle_output_notification e k limits h)
  unfolding handle_output_notification
  handle_output_notification-IsTame h =
      Ensures-bind (IsTame e k h) (process_send e k limits true h) (λ r. ok r.1)
        (λ r t.
          Ensures-ok (λ (x : Bool × Host e k). IsTame e k h x.1) (process_send e k limits true h) r
            t (process_send-IsTame true h))

  started : Host e k → Option Sender → Host e k
  started h none = with_channel (with_fail_count 0 h.channel) h
  started h (some s) = h

  started-IsTame : (h : Host e k) (o : Option Sender) → IsTame e k h (started h o)
  unfolding started
  started-IsTame h none = with_channel-IsTame e k h _ refl
  started-IsTame h (some s) = IsTame-refl e k h

  send_now-IsTame : (h : Host e k) → Ensures (IsTame e k h) (send_now e k limits h)
  unfolding send_now started
  send_now-IsTame h =
      let h0 : Host e k = started h h.channel.packet_sender in
      Ensures-IsTame e k (λ x. x) h h0 (send_now e k limits h)
        (started-IsTame h h.channel.packet_sender)
        (Ensures-bind (IsTame e k h0) (process_send e k limits false h0) _ (λ (done, h1) sent_.
          let first : IsTame e k h0 h1 =
            Ensures-ok (λ (r : Bool × Host e k). IsTame e k h0 r.1)
              (process_send e k limits false h0) (done, h1) sent_ (process_send-IsTame false h0) in
          let f = h1.channel.flags in
          if_cases (Ensures (IsTame e k h0))
            (not (length h1.channel.bundles == 0) && not f.condemned && not f.destroyed)
            (λ t. Ensures-bind (IsTame e k h0) (end_point_of h1.channel) _ (λ p u.
              IsTame-trans e k h0 h1 _ first (record {
                coherent = λ c. register_for_write-IsCoherent e p.socket h1.channel.id h1.poller c;
                end_point = refl;
              })))
            (λ t. first)))

  check_send_window-end_point :
      (c : Channel) → (check_send_window e k limits c).end_point ≡ c.end_point
  unfolding check_send_window
  check_send_window-end_point c =
      let size : ℕ = length c.bundles in
      let m : Bool =
        passed limits.send_messages_critical size && passed limits.send_messages size in
      let many : Channel = if m then condemn c else c in
      condemn_if-end_point (reached limits.send_bytes (bundles_length c.bundles)) many
      ∙ condemn_if-end_point m c

  queued : Channel → Option Packet → Channel
  queued c none = c
  queued c (some p) = record c { bundles = c.bundles ++ p ∷ [] }

  queued-end_point : (c : Channel) (o : Option Packet) → (queued c o).end_point ≡ c.end_point
  unfolding queued
  queued-end_point c none = refl
  queued-end_point c (some p) = refl

  pub send_packet-IsTame :
      (o : Option Packet) (h : Host e k) → Ensures (IsTame e k h) (send_packet e k limits o h)
  unfolding send_packet queued clear_bundle
  send_packet-IsTame o h =
      let q : Channel = queued h.channel o in
      let checked : Channel = check_send_window e k limits q in
      let same : q.end_point ≡ h.channel.end_point = queued-end_point h.channel o in
      let kept : checked.end_point ≡ h.channel.end_point = check_send_window-end_point q ∙ same in
      let T : Outcome (Host e k) → Type 0 = Ensures (IsTame e k h) in
      let cleared : IsTame e k h (with_channel (clear_bundle h.channel) h) =
        with_channel-IsTame e k h _ refl in
      let ready : IsTame e k h (with_channel checked h) = with_channel-IsTame e k h checked kept in
      Ensures-bind (IsTame e k h) (c_str h.channel) _ (λ u t.
        if_cases T h.channel.flags.destroyed (λ a. cleared)
          (λ a.
            if_cases T h.channel.flags.condemned (λ b. cleared)
              (λ b.
                if_cases T (length q.bundles == 0) (λ c. with_channel-IsTame e k h q same)
                  (λ c.
                    if_cases T checked.flags.sending (λ d. ready)
                      (λ d.
                        Ensures-IsTame e k (λ x. x) h (with_channel checked h)
                          (send_now e k limits (with_channel checked h)) ready
                          (send_now-IsTame (with_channel checked h)))))))

  pub handle_input_notification-IsTame :
      (fd : Fd) (now : ℕ) (answers : List Received) (h : Host e k)
      → Ensures (IsTame e k h) (handle_input_notification e k limits fd now answers h)
  unfolding handle_input_notification
  handle_input_notification-IsTame fd now answers h =
      Ensures-bind (IsTame e k h) (end_point_of h.channel) _ (λ p t.
        if_cases (Ensures (IsTame e k h)) (same_fd p.socket fd) {y = fail assertion}
          (λ u.
            taken (recv_loop e k limits now answers h)
              (recv_loop-Untouched e k limits now answers h))
          (λ u. tt))
    where
      taken : (o : Outcome (Host e k)) → Ensures (Untouched h) o → Ensures (IsTame e k h) o
      taken (ok h') u = record {
        coherent = λ c. subst (IsCoherent e) (sym u.poller) c;
        end_point = u.end_point;
      }
      taken (fail err) u = tt
