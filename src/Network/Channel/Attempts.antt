-- ===== src/Network/Channel/Attempts.antt =====
-- The loop over a channel's bundles, and the bytes that it moves to the socket.
use x_kbengine.Prelude.{
  ◌≡◌, refl, sym, ap, ◌∙◌, Bool, true, false, none, some, List, [], ◌∷◌, ◌++◌, append_assoc, ◌==◌,
  if◌then◌else◌, Outcome, ok, fail, undefined, ◌>>=◌, subst,
}
use x_kbengine.Stream.{unread_length}
use x_kbengine.Network.Common.{Reason, reason_success, reason_channel_condemn}
use x_kbengine.Network.Packet.{Packet}
use x_kbengine.Network.Poller.{Epoll}
use x_kbengine.Network.EndPoint.{EndPoint, Sockets, send}
use x_kbengine.Network.Channel.State.{Node, Host, Limits}
use x_kbengine.Network.Channel.Sender.{
  do_send, send_loop, length_of, is_success, reason_of, end_point_of, send_by, send_next,
}
use x_kbengine.Network.Channel.Pending.{
  IsSendable, pending, AllSendable, pending_all, send-pending, on_packet_sent-ok, pending_complete,
}

-- What an attempt to send keeps, besides the bytes.
abbrev pub Keeps : {K S : Type 0} → EndPoint → Node K S → Node K S → Type 0
Keeps ep h h' =
    (h'.channel.end_point ≡ some ep) × (h'.channel.flags.sending ≡ h.channel.flags.sending)

module _ (e : Epoll) (k : Sockets) (limits : Limits) where
  -- What an attempt to send one packet comes to.
  pub record Attempt (p : Packet) (h : Host e k) (ep : EndPoint)
      (o : Outcome (Reason × Packet × Host e k)) : Type 0 where
    pub reason : Reason
    pub packet : Packet
    pub after : Host e k
    pub result : o ≡ ok (reason, packet, after)
    pub conserved : k.accepted after.sockets ++ pending packet ≡ k.accepted h.sockets ++ pending p
    pub sendable : IsSendable packet
    pub complete : is_success reason ≡ true → pending packet ≡ []
    pub keeps : Keeps ep h after

  not_condemned :
      (p : Packet) (h : Host e k) (ep : EndPoint)
      → h.channel.end_point ≡ some ep
      → IsSendable p
      → Attempt p h ep (send_by e k limits p h ep)
  not_condemned p h ep has v =
      let (s', p', answer) = send k ep p h.sockets in
      let (conserved, v') = send-pending k ep p h.sockets v in
      let done : Bool = p'.sent_size == unread_length p'.stream in
      let (d, st', noted, has', same) =
        on_packet_sent-ok limits (length_of answer) done h.channel h.stats ep has in
      record {
        reason = if done then reason_success else reason_of answer (k.errno s');
        packet = p';
        after = record h { channel = d; stats = st'; sockets = s' };
        result = rw noted;
        conserved = conserved;
        sendable = v';
        complete = pending_complete p' answer (k.errno s') v';
        keeps = (has', same);
      }

  do_send-Attempt :
      (p : Packet) (h : Host e k) (ep : EndPoint)
      → h.channel.end_point ≡ some ep
      → IsSendable p
      → Attempt p h ep (do_send e k limits p h)
  unfolding do_send
  do_send-Attempt p h ep has v = by_state h.channel.flags.condemned
    where
      by_state :
          (b : Bool)
          → Attempt p h ep (
              if b
              then ok (reason_channel_condemn, p, h)
              else end_point_of h.channel >>= send_by e k limits p h)
      by_state true = record {
        reason = reason_channel_condemn;
        packet = p;
        after = h;
        result = refl;
        conserved = refl;
        sendable = v;
        complete = λ e. cc;
        keeps = (has, refl);
      }
      by_state false =
          subst (λ o. Attempt p h ep (o >>= send_by e k limits p h))
            (sym (ap (λ o. elim o [ none ↦ fail undefined | some x ↦ ok x ]) has))
            (not_condemned p h ep has v)

  -- What the loop comes to.
  pub record Drained (ps : List Packet) (h : Host e k) (ep : EndPoint)
      (o : Outcome (Reason × List Packet × Host e k)) : Type 0 where
    pub reason : Reason
    pub rest : List Packet
    pub after : Host e k
    pub result : o ≡ ok (reason, rest, after)
    pub conserved :
        k.accepted after.sockets ++ pending_all rest ≡ k.accepted h.sockets ++ pending_all ps
    pub sendable : AllSendable rest
    pub complete : is_success reason ≡ true → rest ≡ []
    pub keeps : Keeps ep h after

  send_next-Drained :
      (p : Packet) (ps : List Packet) (h : Host e k) (ep : EndPoint)
      (o : Outcome (Reason × Packet × Host e k))
      → ((h' : Host e k)
          → h'.channel.end_point ≡ some ep
          → Drained ps h' ep (send_loop e k limits ps h'))
      → AllSendable ps
      → Attempt p h ep o
      → Drained (p ∷ ps) h ep (o >>= send_next e k limits (λ h'. send_loop e k limits ps h') ps)
  send_next-Drained p ps h ep o more all at = rw at.result (by_reason (is_success at.reason) refl)
    where
      whole :
          k.accepted at.after.sockets ++ (pending at.packet ++ pending_all ps)
          ≡ k.accepted h.sockets ++ (pending p ++ pending_all ps)
      whole =
          sym (append_assoc (k.accepted at.after.sockets) (pending at.packet) (pending_all ps))
          ∙ ap (λ l. l ++ pending_all ps) at.conserved
          ∙ append_assoc (k.accepted h.sockets) (pending p) (pending_all ps)

      by_reason :
          (b : Bool)
          → is_success at.reason ≡ b
          → Drained (p ∷ ps) h ep (
              if b
              then send_loop e k limits ps at.after
              else ok (at.reason, at.packet ∷ ps, at.after))
      by_reason true s =
          let d = more at.after at.keeps.0 in
          let gone : pending at.packet ≡ [] = at.complete s in
          record {
            reason = d.reason;
            rest = d.rest;
            after = d.after;
            result = d.result;
            conserved =
                d.conserved
                ∙ ap (λ l. k.accepted at.after.sockets ++ (l ++ pending_all ps)) (sym gone)
                ∙ whole;
            sendable = d.sendable;
            complete = d.complete;
            keeps = (d.keeps.0, d.keeps.1 ∙ at.keeps.1);
          }
      by_reason false s = record {
        reason = at.reason;
        rest = at.packet ∷ ps;
        after = at.after;
        result = refl;
        conserved = whole;
        sendable = (at.sendable, all);
        complete = λ t. cc (s, t);
        keeps = at.keeps;
      }

  pub send_loop-Drained :
      (ps : List Packet) (h : Host e k) (ep : EndPoint)
      → h.channel.end_point ≡ some ep
      → AllSendable ps
      → Drained ps h ep (send_loop e k limits ps h)
  unfolding send_loop
  send_loop-Drained [] h ep has all = record {
    reason = reason_success;
    rest = [];
    after = h;
    result = refl;
    conserved = refl;
    sendable = tt;
    complete = λ e. refl;
    keeps = (has, refl);
  }
  send_loop-Drained (p ∷ ps) h ep has all =
      send_next-Drained p ps h ep (do_send e k limits p h)
        (λ h' has'. send_loop-Drained ps h' ep has' all.1) all.1 (do_send-Attempt p h ep has all.0)
