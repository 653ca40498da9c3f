-- ===== src/Network/Channel/Conservation.antt =====
-- The bytes of a channel's bundles reach its socket once each and in order: what the socket accepted,
-- followed by what is still pending, is the same before and after an attempt to send.
use x_kbengine.Prelude.{
  ℕ, ◌+◌, ◌%◌, ◌≡◌, refl, sym, ap, ◌∙◌, Bool, true, false, some, List, [], ◌++◌, leb, if◌then◌else◌,
  Outcome, ok, ◌>>=◌,
}
use x_kbengine.Network.Common.{Reason}
use x_kbengine.Network.Packet.{Packet}
use x_kbengine.Network.Poller.{Epoll}
use x_kbengine.Network.EndPoint.{EndPoint, Sockets}
use x_kbengine.Network.Channel.State.{Channel, Host, with_channel, Limits, condemn}
use x_kbengine.Network.Channel.Sender.{
  send_loop, process_send, is_success, sent_all, sent_part, on_send_completed, stop_send,
  is_unavailable, fail_count, with_fail_count,
}
use x_kbengine.Network.Channel.Pending.{AllSendable, pending_all}
use x_kbengine.Network.Channel.Attempts.{Drained, send_loop-Drained}

module _ (e : Epoll) (k : Sockets) (limits : Limits) where
  sent_all-ok :
      (is_epoll : Bool) (h : Host e k) (ep : EndPoint)
      → h.channel.end_point ≡ some ep
      → (is_epoll ≡ true → h.channel.flags.sending ≡ true)
      → (h' : Host e k) × (sent_all e k limits is_epoll h ≡ ok (true, h'))
        × (h'.sockets ≡ h.sockets)
        × (h'.channel.bundles ≡ [])
        × (h'.channel.end_point ≡ some ep)
  unfolding sent_all on_send_completed stop_send
  sent_all-ok false h ep has flag = (_, refl, refl, refl, has)
  sent_all-ok true h ep has flag = rw (flag refl, has) (_, refl, refl, refl, refl)

  -- The channel with the packets that are left, on its end point.
  abbrev Left : List Packet → Host e k → Channel → Type 0
  Left rest h c = (c.bundles ≡ rest) × (c.end_point ≡ h.channel.end_point)

  either :
      (b b' : Bool) (x y z : Channel) (rest : List Packet) (h : Host e k)
      (o : Outcome (Bool × Host e k))
      → o
        ≡ if◌then◌else◌ {A = Outcome (Bool × Host e k)} b
            (ok (false, with_channel (if b' then x else y) h))
            (ok (false, with_channel z h))
      → Left rest h x
      → Left rest h y
      → Left rest h z
      → (h' : Host e k) × (o ≡ ok (false, h')) × (h'.sockets ≡ h.sockets) × Left rest h h'.channel
  either true true x y z rest h o e' ex ey ez = (_, e', refl, ex)
  either true false x y z rest h o e' ex ey ez = (_, e', refl, ey)
  either false b' x y z rest h o e' ex ey ez = (_, e', refl, ez)

  sent_part-ok :
      (reason : Reason) (rest : List Packet) (h : Host e k)
      → (h' : Host e k) × (sent_part e k limits reason rest h ≡ ok (false, h'))
        × (h'.sockets ≡ h.sockets)
        × Left rest h h'.channel
  unfolding sent_part condemn
  sent_part-ok reason rest h =
      let c : Channel = record h.channel { bundles = rest } in
      let n : ℕ = (fail_count c + 1) % 256 in
      let counted : Channel = with_fail_count n c in
      either (is_unavailable reason) (leb 10 n) (condemn counted) counted (condemn c) rest h
        (sent_part e k limits reason rest h) refl (refl, refl) (refl, refl) (refl, refl)

  -- An attempt to send keeps the order and the number of the bytes: the bytes that the socket accepted,
  -- with those still queued behind them, are the same before and after. It always returns a result; if
  -- that is true, nothing is left in the queue. The end point stays. Conditions: the channel has its end
  -- point, the queued packets are sent from their start, and a call from the poller finds the channel's
  -- flag SENDING.
  pub process_send-pending :
      (is_epoll : Bool) (h : Host e k) (ep : EndPoint)
      → h.channel.end_point ≡ some ep
      → AllSendable h.channel.bundles
      → (is_epoll ≡ true → h.channel.flags.sending ≡ true)
      → (done : Bool) × (h' : Host e k) × (process_send e k limits is_epoll h ≡ ok (done, h'))
        × (k.accepted h'.sockets ++ pending_all h'.channel.bundles
            ≡ k.accepted h.sockets ++ pending_all h.channel.bundles)
        × AllSendable h'.channel.bundles
        × (done ≡ true → h'.channel.bundles ≡ [])
        × (h'.channel.end_point ≡ some ep)
  unfolding process_send
  process_send-pending is_epoll h ep has all flag = by_state h.channel.flags.condemned
    where
      Sends : Outcome (Bool × Host e k) → Type 0
      Sends o =
          (done : Bool) × (h' : Host e k) × (o ≡ ok (done, h'))
          × (k.accepted h'.sockets ++ pending_all h'.channel.bundles
              ≡ k.accepted h.sockets ++ pending_all h.channel.bundles)
          × AllSendable h'.channel.bundles
          × (done ≡ true → h'.channel.bundles ≡ [])
          × (h'.channel.end_point ≡ some ep)

      d : Drained e k limits h.channel.bundles h ep (send_loop e k limits h.channel.bundles h)
      d = send_loop-Drained e k limits h.channel.bundles h ep has all

      by_reason :
          (b : Bool)
          → is_success d.reason ≡ b
          → Sends (
              if b
              then sent_all e k limits is_epoll d.after
              else sent_part e k limits d.reason d.rest d.after)
      by_reason true s =
          let (h', done, same, none_left, on) =
            sent_all-ok is_epoll d.after ep d.keeps.0 (λ t. d.keeps.1 ∙ flag t) in
          (
            true,
            h',
            done,
            rw (same, none_left)
                (ap (λ l. k.accepted d.after.sockets ++ pending_all l) (sym (d.complete s))
                  ∙ d.conserved),
            rw none_left tt,
            λ t. none_left,
            on,
          )
      by_reason false s =
          let (h', done, same, left) = sent_part-ok d.reason d.rest d.after in
          (
            false,
            h',
            done,
            rw (same, left.0) d.conserved,
            rw left.0 d.sendable,
            λ t. cc,
            left.1 ∙ d.keeps.0,
          )

      by_state :
          (b : Bool)
          → Sends (
              if b
              then ok (false, h)
              else send_loop e k limits h.channel.bundles h >>= λ (reason, rest, h').
                  if is_success reason
                  then sent_all e k limits is_epoll h'
                  else sent_part e k limits reason rest h')
      by_state true = (false, h, refl, refl, all, λ t. cc, has)
      by_state false = rw d.result (by_reason (is_success d.reason) refl)
