-- ===== src/Network/Session/Wire.antt =====
-- From the queue of one channel to the message handler of another.
use x_kbengine.Prelude.{
  ℕ, ◌≡◌, refl, sym, ap, ◌∙◌, Bool, false, List, [], ◌∷◌, ◌++◌, arith, length, drop,
  drop-append_exact, append_assoc, Outcome, ok, fail, subst,
}
use x_kbengine.Stream.Bytes.{AllBytes}
use x_kbengine.Network.Packet.{Packet}
use x_kbengine.Network.Poller.{Epoll}
use x_kbengine.Network.EndPoint.{EndPoint, Sockets}
use x_kbengine.Network.Framing.{
  idle, encode, encode_all, AllFull, AllFull-AllShort, AllOpen, AllOpen-encode_all,
}
use x_kbengine.Network.Reader.Delivery.{AllBytes-front, AllOpen-front}
use x_kbengine.Network.Channel.State.{Host, Limits}
use x_kbengine.Network.Channel.Pending.{pending_all}
use x_kbengine.Network.Session.{Arrivals, receive_rounds, transmit}
use x_kbengine.Network.Session.Log.{Messages, feed-front}
use x_kbengine.Network.Session.Tick.{Handler}
use x_kbengine.Network.Session.Rounds.{arrived, IsReady, receive_rounds-Served}
use x_kbengine.Network.Session.Outflow.{IsSending, transmit-Sends}

-- Messages of bytes.
abbrev pub AllOctets : Messages → Type 0
AllOctets [] = Unit {0}
AllOctets (m ∷ ms) = AllBytes m × AllOctets ms

AllBytes-append : (xs ys : List ℕ) → AllBytes xs → AllBytes ys → AllBytes (xs ++ ys)
AllBytes-append [] ys a b = b
AllBytes-append (x ∷ xs) ys a b = (a.0, AllBytes-append xs ys a.1 b)

AllBytes-encode_all : (ms : Messages) → AllFull ms → AllOctets ms → AllBytes (encode_all ms)
AllBytes-encode_all [] f a = tt
AllBytes-encode_all (m ∷ ms) f a =
    AllBytes-append (encode m) (encode_all ms) (omega (arith, f.1), (omega arith, a.0))
      (AllBytes-encode_all ms f.2 a.1)

cancel : (v xs ys : List ℕ) → v ++ xs ≡ v ++ ys → xs ≡ ys
cancel v xs ys e =
    sym (drop-append_exact (length v) v xs refl)
    ∙ ap (drop (length v)) e
    ∙ drop-append_exact (length v) v ys refl

-- What a channel's socket accepted by the end of its rounds.
abbrev pub accepted_by : (e : Epoll) (k : Sockets) → Outcome (Host e k) → List ℕ
accepted_by e k (ok h) = k.accepted h.sockets
accepted_by e k (fail f) = []

module _ (e e' : Epoll) (k k' : Sockets) (limits limits' : Limits)
    (handle : Host e k → Packet → Outcome (Bool × Host e k × Packet)) (t : Handler e k handle)
    (ep ep' : EndPoint) where
  -- A channel has messages of 1 to 65533 bytes in its queue, encoded and cut into packets in any way, and
  -- sends them, at once and as often as the poller calls for them; its socket takes what it takes. Of
  -- the bytes that it took, a channel at the other end receives a front, over any rounds of its loop and
  -- in any pieces; `later` is on the way. Both sides return results, and the handler has seen the first
  -- of the messages, unchanged, once each and in order; if no byte is queued or on the way and the
  -- receiver was not condemned, it has seen all. Conditions: both channels have their end points and are
  -- alive, the queued packets are sent from their start, the reader is new, and the handler returns,
  -- takes each message once, keeps the packet's bytes, lets the receiving channel alone, and takes the
  -- message from the packet's start, not from the read position, from which `>>` reads.
  pub transmit-receive_rounds :
      (ms : Messages) (n : ℕ) (s : Host e' k') (rs : List Arrivals) (later : List ℕ) (h : Host e k)
      → IsSending e' k' limits' ep' s
      → s.channel.flags.destroyed ≡ false
      → s.channel.flags.condemned ≡ false
      → pending_all s.channel.bundles ≡ encode_all ms
      → AllFull ms
      → AllOctets ms
      → IsReady e k limits handle t ep idle h
      → accepted_by e' k' (transmit e' k' limits' n s)
        ≡ k'.accepted s.sockets ++ (arrived rs ++ later)
      → (s' : Host e' k') × (h' : Host e k) × (got : Messages) × (more : Messages) × (transmit e' k'
            limits' n s
          ≡ ok s')
        × (receive_rounds e k limits handle ep.socket rs h ≡ ok h')
        × (ms ≡ got ++ more)
        × (t.seen h'.sockets ≡ t.seen h.sockets ++ got)
        × (pending_all s'.channel.bundles ≡ []
            → later ≡ []
            → h'.channel.flags.condemned ≡ false
            → more ≡ [])
  transmit-receive_rounds ms n s rs later h y here live queued full octets ready took =
      let (s', sent, out) = transmit-Sends e' k' limits' ep' n s y here live in
      let queue : List ℕ = pending_all s'.channel.bundles in
      let passed : arrived rs ++ (later ++ queue) ≡ encode_all ms =
        cancel (k'.accepted s.sockets) (arrived rs ++ (later ++ queue)) (encode_all ms) (
          ap (λ l. k'.accepted s.sockets ++ l) (sym (append_assoc (arrived rs) later queue))
          ∙ sym (append_assoc (k'.accepted s.sockets) (arrived rs ++ later) queue)
          ∙ ap (λ l. l ++ queue) (sym took ∙ ap (accepted_by e' k') sent)
          ∙ out.conserved
          ∙ ap (λ l. k'.accepted s.sockets ++ l) queued) in
      let bytes : AllBytes (arrived rs ++ (later ++ queue)) =
        subst AllBytes (sym passed) (AllBytes-encode_all ms full octets) in
      let open_ : AllOpen idle (arrived rs ++ (later ++ queue)) =
        subst (AllOpen idle) (sym passed) (AllOpen-encode_all ms full) in
      let g =
        receive_rounds-Served e k limits handle t ep rs idle h ready
          (AllBytes-front (arrived rs) (later ++ queue) bytes)
          (AllOpen-front idle (arrived rs) (later ++ queue) open_) in
      let (got, more, whole, noted, complete) =
        feed-front (t.seen h.sockets) ms g.front (g.rest ++ (later ++ queue))
          (AllFull-AllShort ms full)
          (sym (append_assoc g.front g.rest (later ++ queue))
            ∙ ap (λ l. l ++ (later ++ queue)) (sym g.split)
            ∙ passed) in
      (
        s',
        g.after,
        got,
        more,
        sent,
        g.result,
        whole,
        g.shown ∙ noted,
        λ none_queued none_later alive.
            complete (rw (g.complete alive, none_later, none_queued) refl),
      )
