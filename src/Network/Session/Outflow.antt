-- ===== src/Network/Session/Outflow.antt =====
-- A sending channel over any number of notifications: the bytes that its socket accepted, followed by
-- those still queued, stay the same.
use x_kbengine.Prelude.{
  ℕ, zero, suc, ◌≡◌, refl, sym, ap, ap₂, subst, ◌∙◌, Bool, true, false, not, ◌&&◌, Option, none,
  some, ◌++◌, length, ◌==◌, if◌then◌else◌, Outcome, ok, fail, undefined, ◌>>=◌, ◌>>◌, Bool-cases,
  inl, inr,
}
use x_kbengine.Network.Poller.{Epoll, register_for_write}
use x_kbengine.Network.EndPoint.{EndPoint, Sockets}
use x_kbengine.Network.Channel.State.{
  Channel, Host, Sender, clear_bundle, with_channel, Limits, condemn, bundles_length, with_flags,
  passed, reached,
}
use x_kbengine.Network.Channel.Sender.{
  process_send, send_now, check_send_window, send_packet, with_fail_count, end_point_of,
}
use x_kbengine.Network.Channel.Pending.{AllSendable, pending_all, c_str-ok}
use x_kbengine.Network.Channel.Conservation.{process_send-pending}
use x_kbengine.Network.Session.{send_rounds, transmit}

module _ (e : Epoll) (k : Sockets) (limits : Limits) (ep : EndPoint) where
  -- A channel that can send.
  pub record IsSending (h : Host e k) : Type 0 where
    pub has_end_point : h.channel.end_point ≡ some ep
    pub sendable : AllSendable h.channel.bundles

  -- No byte was lost, repeated or reordered on the way to the socket.
  pub record Sends (h h' : Host e k) : Type 0 where
    pub conserved :
        k.accepted h'.sockets ++ pending_all h'.channel.bundles
        ≡ k.accepted h.sockets ++ pending_all h.channel.bundles
    pub still : IsSending h'

  Sends-refl : (h : Host e k) → IsSending h → Sends h h
  Sends-refl h y = record { conserved = refl; still = y }

  Sends-trans : (h h' h'' : Host e k) → Sends h h' → Sends h' h'' → Sends h h''
  Sends-trans h h' h'' a b = record { conserved = b.conserved ∙ a.conserved; still = b.still }

  attempt :
      (is_epoll : Bool) (h : Host e k)
      → IsSending h
      → (is_epoll ≡ true → h.channel.flags.sending ≡ true)
      → (done : Bool) × (h' : Host e k) × (process_send e k limits is_epoll h ≡ ok (done, h'))
        × Sends h h'
  attempt is_epoll h y flag =
      let (done, h', result, conserved, all, gone, on) =
        process_send-pending e k limits is_epoll h ep y.has_end_point y.sendable flag in
      (
        done,
        h',
        result,
        record { conserved = conserved; still = record { has_end_point = on; sendable = all } },
      )

  send_rounds-Sends :
      (n : ℕ) (h : Host e k)
      → IsSending h
      → (h' : Host e k) × (send_rounds e k limits n h ≡ ok h') × Sends h h'
  unfolding send_rounds
  send_rounds-Sends zero h y = (h, refl, Sends-refl h y)
  send_rounds-Sends (suc n) h y = elim (Bool-cases h.channel.flags.sending) [
    | inl flag ↦
        let (done, h1, result, s) = attempt true h y (λ t. flag) in
        let (h2, result2, s2) = send_rounds-Sends n h1 s.still in
        (
          h2,
          ap next flag ∙ ap (λ o. o >>= λ r. send_rounds e k limits n r.1) result ∙ result2,
          Sends-trans h h1 h2 s s2,
        )
    | inr flag ↦ (h, ap next flag, Sends-refl h y)
  ]
    where
      next : Bool → Outcome (Host e k)
      next false = ok h
      next true = process_send e k limits true h >>= λ r. send_rounds e k limits n r.1

  -- The sender is made where there is none, which no byte depends on.
  abbrev with_sender : Host e k → Option Sender → Host e k
  with_sender h none = with_channel (with_fail_count 0 h.channel) h
  with_sender h (some s) = h

  with_sender-Sends : (h : Host e k) (o : Option Sender) → IsSending h → Sends h (with_sender h o)
  with_sender-Sends h none y = record {
    conserved = refl;
    still = record { has_end_point = y.has_end_point; sendable = y.sendable };
  }
  with_sender-Sends h (some s) y = Sends-refl h y

  -- The end of `Channel::send`, by whether packets are left for the poller.
  abbrev finish : Host e k → Bool → Outcome (Host e k)
  finish h b =
      if b
      then end_point_of h.channel >>= (λ p. ok (record h {
        channel = with_flags (record h.channel.flags { sending = true }) h.channel;
        poller = (register_for_write e p.socket h.channel.id h.poller).0;
      }))
      else ok h

  finish-Sends :
      (h : Host e k) (b : Bool) → IsSending h → (h' : Host e k) × (finish h b ≡ ok h') × Sends h h'
  finish-Sends h false y = (h, refl, Sends-refl h y)
  finish-Sends h true y = (
    _,
    ap
        (λ o. elim o [ none ↦ fail undefined | some x ↦ ok x ] >>= λ p. ok (record h {
          channel = with_flags (record h.channel.flags { sending = true }) h.channel;
          poller = (register_for_write e p.socket h.channel.id h.poller).0;
        }))
        y.has_end_point,
    record {
      conserved = refl;
      still = record { has_end_point = y.has_end_point; sendable = y.sendable };
    },
  )

  send_now-Sends :
      (h : Host e k) → IsSending h → (h' : Host e k) × (send_now e k limits h ≡ ok h') × Sends h h'
  unfolding send_now
  send_now-Sends h y =
      let h0 : Host e k = with_sender h h.channel.packet_sender in
      let s0 : Sends h h0 = with_sender-Sends h h.channel.packet_sender y in
      let (done, h1, result, s) = attempt false h0 s0.still (λ t. cc) in
      let left : Host e k → Bool = λ w.
        not (length w.channel.bundles == 0)
        && not w.channel.flags.condemned
        && not w.channel.flags.destroyed in
      let (h2, result2, s2) = finish-Sends h1 (left h1) s.still in
      (
        h2,
        ap (λ o. o >>= λ r. finish r.1 (left r.1)) result ∙ result2,
        Sends-trans h h0 h2 s0 (Sends-trans h0 h1 h2 s s2),
      )

  -- The thresholds change flags alone.
  condemned_either :
      (b : Bool) (c : Channel)
      → ((if b then condemn c else c).bundles ≡ c.bundles)
        × ((if b then condemn c else c).end_point ≡ c.end_point)
  unfolding condemn
  condemned_either true c = (refl, refl)
  condemned_either false c = (refl, refl)

  check_send_window-same :
      (c : Channel)
      → ((check_send_window e k limits c).bundles ≡ c.bundles)
        × ((check_send_window e k limits c).end_point ≡ c.end_point)
  unfolding check_send_window
  check_send_window-same c =
      let size : ℕ = length c.bundles in
      let m : Bool =
        passed limits.send_messages_critical size && passed limits.send_messages size in
      let many : Channel = if m then condemn c else c in
      let (b, q) = condemned_either m c in
      let (b', q') = condemned_either (reached limits.send_bytes (bundles_length c.bundles)) many in
      (b' ∙ b, q' ∙ q)

  abbrev by_state : Host e k → Bool → Bool → Bool → Outcome (Host e k)
  by_state h destroyed condemned none_left =
      let checked : Host e k = with_channel (check_send_window e k limits h.channel) h in
      if destroyed
      then ok (with_channel (clear_bundle h.channel) h)
      else if condemned
      then ok (with_channel (clear_bundle h.channel) h)
      else if none_left
      then ok h
      else if checked.channel.flags.sending
      then ok checked
      else send_now e k limits checked

  send_packet-Sends :
      (h : Host e k)
      → IsSending h
      → h.channel.flags.destroyed ≡ false
      → h.channel.flags.condemned ≡ false
      → (h' : Host e k) × (send_packet e k limits none h ≡ ok h') × Sends h h'
  unfolding send_packet
  send_packet-Sends h y here live =
      let checked : Host e k = with_channel (check_send_window e k limits h.channel) h in
      let (bundles, q) = check_send_window-same h.channel in
      let s : Sends h checked = record {
        conserved = ap (λ l. k.accepted h.sockets ++ pending_all l) bundles;
        still = record {
          has_end_point = q ∙ y.has_end_point;
          sendable = subst AllSendable (sym bundles) y.sendable;
        };
      } in
      let (h', result, s') =
        elim (length h.channel.bundles == 0)
          as (λ b. (h' : Host e k) × (by_state h false false b ≡ ok h') × Sends h h') [
            | true ↦ (h, refl, Sends-refl h y)
            | false ↦
                elim checked.channel.flags.sending
                  as (λ b.
                    (h' : Host e k) × ((if b then ok checked else send_now e k limits checked)
                      ≡ ok h')
                    × Sends h h') [
                      | true ↦ (checked, refl, s)
                      | false ↦
                          let (h', result, s') = send_now-Sends checked s.still in
                          (h', result, Sends-trans h checked h' s s')
                    ]
          ] in
      (
        h',
        ap
              (λ c.
                c
                >> by_state h h.channel.flags.destroyed h.channel.flags.condemned
                    (length h.channel.bundles == 0))
              (c_str-ok h.channel ep y.has_end_point)
            ∙ ap₂ (λ d c. by_state h d c (length h.channel.bundles == 0)) here live
            ∙ result,
        s',
      )

  -- `Channel::send()` and any number of notifications, for a channel with its end point that is neither
  -- destroyed nor condemned.
  pub transmit-Sends :
      (n : ℕ) (h : Host e k)
      → IsSending h
      → h.channel.flags.destroyed ≡ false
      → h.channel.flags.condemned ≡ false
      → (h' : Host e k) × (transmit e k limits n h ≡ ok h') × Sends h h'
  unfolding transmit
  transmit-Sends n h y here live =
      let (h1, result, s) = send_packet-Sends h y here live in
      let (h2, result2, s2) = send_rounds-Sends n h1 s.still in
      (h2, ap (λ o. o >>= send_rounds e k limits n) result ∙ result2, Sends-trans h h1 h2 s s2)
