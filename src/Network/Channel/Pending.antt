-- ===== src/Network/Channel/Pending.antt =====
-- One call of `send`: what it does to a packet's pending bytes, and what is noted of it.
use x_kbengine.Prelude.{
  ℕ, zero, suc, ◌+◌, ◌-◌, ◌%◌, ◌^◌, ◌≤◌, ◌<◌, ◌≡◌, refl, sym, ap, ◌∙◌, Bool, true, false, some,
  List, [], ◌∷◌, ◌++◌, arith, length, take, drop, take-append-drop, length-take, length-drop,
  drop-take, drop-drop, drop_all, append_assoc, ◌==◌, if◌then◌else◌, ok, ◌>>=◌, ==→≡,
}
use x_kbengine.Prelude.Int.{ℤ}
use x_kbengine.Stream.{unread_length}
use x_kbengine.Network.Common.{reason_success}
use x_kbengine.Network.Packet.{Packet}
use x_kbengine.Network.EndPoint.{
  EndPoint, Sockets, Sent, sent, failed, offered, note_sent, send, Errno, refused, try_again,
  broken_pipe, connection_reset, no_buffers, other_error,
}
use x_kbengine.Network.Channel.State.{
  Channel, Limits, Stats, c_str, on_packet_sent, condemn, reached, condemn_if, count_sent,
  count_all_sent,
}
use x_kbengine.Network.Channel.Sender.{is_success, reason_of, reason_of_errno}

-- A packet that is sent from its start, and of which no more was sent than there is.
pub record IsSendable (p : Packet) : Type 0 where
  pub from_start : p.rpos ≡ 0
  pub sent_within : p.sent_size ≤ p.wpos
  pub within : p.wpos ≤ length p.bytes
  pub small : p.wpos < 2 ^ 32

abbrev pub pending : Packet → List ℕ
pending p = drop p.sent_size (take p.wpos p.bytes)

abbrev pub AllSendable : List Packet → Type 0
AllSendable [] = Unit {0}
AllSendable (p ∷ ps) = IsSendable p × AllSendable ps

abbrev pub pending_all : List Packet → List ℕ
pending_all [] = []
pending_all (p ∷ ps) = pending p ++ pending_all ps

unread_length-wpos : (p : Packet) → IsSendable p → unread_length p.stream ≡ p.wpos
unfolding unread_length
unread_length-wpos p v = ground arith

offered-pending : (p : Packet) → IsSendable p → offered p ≡ pending p
offered-pending p v =
    let n : (unread_length p.stream + 2 ^ 64 - p.sent_size) % 2 ^ 64 ≡ p.wpos - p.sent_size =
      omega (arith, unread_length-wpos p v) in
    let w : p.wpos ≡ p.sent_size + (p.wpos - p.sent_size) = omega (arith, v.sent_within) in
    ap (λ k. take k (drop p.sent_size p.bytes)) n
    ∙ sym (
        ap (λ k. drop p.sent_size (take k p.bytes)) w
        ∙ drop-take p.sent_size (p.wpos - p.sent_size) p.bytes)

length-pending : (p : Packet) → IsSendable p → length (pending p) ≡ p.wpos - p.sent_size
length-pending p v =
    omega (arith, length-drop p.sent_size (take p.wpos p.bytes), length-take p.wpos p.bytes)

module _ (k : Sockets) where
  -- One `send`: the socket takes a prefix of what is pending, and the packet keeps the rest.
  pub send-pending :
      (ep : EndPoint) (p : Packet) (s : k.State)
      → IsSendable p
      → let (s', p', answer) = send k ep p s in
        (k.accepted s' ++ pending p' ≡ k.accepted s ++ pending p) × IsSendable p'
  unfolding send
  send-pending ep p s v = by_answer (k.send_bytes s ep.socket (offered p)).1 refl
    where
      s' : k.State
      s' = (k.send_bytes s ep.socket (offered p)).0

      by_answer :
          (a : Sent)
          → (k.send_bytes s ep.socket (offered p)).1 ≡ a
          → (k.accepted s' ++ pending (note_sent p (k.send_bytes s ep.socket (offered p)).1)
              ≡ k.accepted s ++ pending p)
            × IsSendable (note_sent p (k.send_bytes s ep.socket (offered p)).1)
      by_answer (sent n) e =
          let (within, took) = k.send_done s ep.socket (offered p) n e in
          let len : length (offered p) ≡ p.wpos - p.sent_size =
            ap length (offered-pending p v) ∙ length-pending p v in
          let total : (p.sent_size + n) % 2 ^ 32 ≡ p.sent_size + n =
            omega (arith, len, within, v.sent_within, v.small) in
          let rest : drop (p.sent_size + n) (take p.wpos p.bytes) ≡ drop n (pending p) =
            sym (drop-drop p.sent_size n (take p.wpos p.bytes)) in
          rw e (
            rw (total, took, offered-pending p v)
              ((
                ap (λ l. (k.accepted s ++ take n (pending p)) ++ l) rest
                    ∙ append_assoc (k.accepted s) (take n (pending p)) (drop n (pending p))
                    ∙ ap (λ l. k.accepted s ++ l) (take-append-drop n (pending p)),
                record {
                  from_start = v.from_start;
                  sent_within = omega (arith, len, within, v.sent_within);
                  within = v.within;
                  small = v.small;
                },
              )))
      by_answer failed e =
          rw e ((ap (λ l. l ++ pending p) (k.send_failed s ep.socket (offered p) e), v))

pub c_str-ok : (c : Channel) (ep : EndPoint) → c.end_point ≡ some ep → c_str c ≡ ok tt
unfolding c_str
c_str-ok c ep e = rw e

end_point-condemned :
    (b : Bool) (c : Channel)
    → ((condemn_if b c).end_point ≡ c.end_point)
      × ((condemn_if b c).flags.sending ≡ c.flags.sending)
unfolding condemn
end_point-condemned true c = (refl, refl)
end_point-condemned false c = (refl, refl)

pub on_packet_sent-ok :
    (limits : Limits) (bytes : ℤ) (completed : Bool) (c : Channel) (st : Stats) (ep : EndPoint)
    → c.end_point ≡ some ep
    → (d : Channel) × (st' : Stats) × (on_packet_sent limits bytes completed c st ≡ ok (d, st'))
      × (d.end_point ≡ some ep)
      × (d.flags.sending ≡ c.flags.sending)
unfolding on_packet_sent
on_packet_sent-ok limits bytes completed c st ep e =
    let d : Channel = count_sent bytes completed c in
    let b : Bool = reached limits.send_bytes d.last_tick_bytes_sent in
    let (same, still) = end_point-condemned b d in
    (
      condemn_if b d,
      count_all_sent bytes completed st,
      ap (λ o. o >>= λ u. ok (condemn_if b d, count_all_sent bytes completed st)) (c_str-ok c ep e),
      same ∙ e,
      still,
    )

reason_of_errno-failure : (err : Errno) → is_success (reason_of_errno err) ≡ false
unfolding reason_of_errno
reason_of_errno-failure refused = refl
reason_of_errno-failure try_again = refl
reason_of_errno-failure broken_pipe = refl
reason_of_errno-failure connection_reset = refl
reason_of_errno-failure no_buffers = refl
reason_of_errno-failure other_error = refl

reason_of-failure : (a : Sent) (err : Errno) → is_success (reason_of a err) ≡ false
unfolding reason_of
reason_of-failure (sent zero) err = reason_of_errno-failure err
reason_of-failure (sent (suc n)) err = refl
reason_of-failure failed err = reason_of_errno-failure err

pub pending_complete :
    (p : Packet) (a : Sent) (err : Errno)
    → IsSendable p
    → is_success (if p.sent_size == unread_length p.stream then reason_success else reason_of a err)
      ≡ true
    → pending p ≡ []
pending_complete p a err v = by_test (p.sent_size == unread_length p.stream) refl
  where
    by_test :
        (b : Bool)
        → (p.sent_size == unread_length p.stream) ≡ b
        → is_success (if b then reason_success else reason_of a err) ≡ true
        → pending p ≡ []
    by_test true t s = drop_all p.sent_size (take p.wpos p.bytes) (
        omega (
          arith,
          ==→≡ p.sent_size (unread_length p.stream) t,
          unread_length-wpos p v,
          length-take p.wpos p.bytes,
        ))
    by_test false t s = cc (reason_of-failure a err, s)
