-- ===== src/Network/Interface/Faults.antt =====
-- libs/network/network_interface.cpp: a second start, and a channel that was destroyed.
use x_kbengine.Prelude.{
  ℕ, ◌≡◌, refl, sym, subst, ap, ◌∙◌, Bool, true, false, ◌||◌, Option, none, some, List, [], ◌∷◌,
  map, if◌then◌else◌, arith, Outcome, ok, fail, assertion, undefined, ◌>>=◌, ◌>>◌,
}
use x_kbengine.Network.Address.{Address, unset}
use x_kbengine.Network.Registry.{find}
use x_kbengine.Network.Address.Order.{less_irrefl}
use x_kbengine.Network.Interface.Sweep.{stuck}
use x_kbengine.Network.Packet.{Packet}
use x_kbengine.Network.Poller.{Epoll, Fd}
use x_kbengine.Network.EndPoint.{
  EndPoint, Sockets, Received, received, good, close, open_socket, recvfrom,
}
use x_kbengine.Network.EndPoint
use x_kbengine.Network.Channel.State.{
  Channel, Host, c_str, is_destroyed, is_condemn, with_channel, with_flags, clear_bundle,
}
use x_kbengine.Network.Channel.Lifecycle.{destroy, clear_state, leave, clear_counters, stop_recv}
use x_kbengine.Network.Channel.Sender.{stop_send}
use x_kbengine.Network.Interface.{
  NetworkInterface, Net, node_of, after, register_channel, find_channel, deregister_channel,
  process_channels, process_keys, process_channel,
}
use x_kbengine.Network.Interface

module _ (e : Epoll) (k : Sockets) where
  -- The interface is started twice, first without an end point, where `socket(2)` gives a descriptor that
  -- `listen(2)` takes, and `close(2)` succeeds in between. The first start succeeds. The second fails and
  -- leaves the interface without a socket, if `listen(2)` refuses the descriptor -1: none is opened.
  pub initialize-initialize :
      (fd : ℕ) (opened : Fd) (listens : Fd → Bool) (a b : Address) (n : Net e k)
      → n.end_point ≡ none
      → listens (some fd) ≡ true
      → listens none ≡ false
      → (n1 : Net e k) × (n2 : Net e k) × (Interface.initialize e k (some fd) true listens a n
          ≡ (true, n1))
        × (Interface.initialize e k opened true listens b n1 ≡ (false, n2))
        × (n2.end_point ≡ some (record { socket = none; address = b }))
  unfolding Interface.initialize
  initialize-initialize fd opened listens a b n fresh takes refuses =
      let p : EndPoint = record { socket = some fd; address = a } in
      let n1 : Net e k = (Interface.listen_at e k listens a p n).1 in
      let q : EndPoint = record { socket = none; address = a } in
      let n2 : Net e k = (Interface.listen_at e k listens b q (Interface.shut e k true p n1)).1 in
      (
        n1,
        n2,
        ap (start (some fd) a) fresh ∙ ap (λ t. (t, n1)) takes,
        ap (λ t. (t, n2)) refuses,
        refl,
      )
    where
      start : Fd → Address → Option EndPoint → Bool × Net e k
      start opened' address q = elim q [
        | some p ↦
            Interface.listen_at e k listens address (if good p then (close true p).0 else p)
              (Interface.shut e k true p n)
        | none ↦
            if good (open_socket opened' (EndPoint.init unset))
            then Interface.listen_at e k listens address (open_socket opened' (EndPoint.init unset))
                n
            else (false, record n { end_point = some (open_socket opened' (EndPoint.init unset)) })
      ]

  over :
      {A B : Type 0} (P : B → Type 0) (m : Outcome A) (f : A → Outcome B) (b : B)
      → ((a : A) → m ≡ ok a → f a ≡ ok b → P b)
      → (m >>= f) ≡ ok b
      → P b
  over P (ok a) f b h r = h a refl r
  over P (fail x) f b h r = ground arith

  ended : {A : Type 0} (P : A → Type 0) (a b : A) → P a → ok a ≡ ok b → P b
  ended P a b h r = subst P (cc r) h

  abbrev IsBare : Host e k → Type 0
  IsBare h = h.channel.end_point ≡ none

  abbrev emptied : Host e k → Host e k
  emptied h = with_channel (record h.channel { buffered_receives = []; end_point = none }) h

  leave-end_point : (h h' : Host e k) → leave e k h ≡ ok h' → h'.channel.end_point ≡ none
  unfolding leave
  leave-end_point h h' r =
      over IsBare (stop_send e k h)
        (λ h1. stop_recv e k (with_channel (clear_bundle h1.channel) h1) >>= λ h2. ok (emptied h2))
        h'
        (λ h1 _.
          over IsBare (stop_recv e k (with_channel (clear_bundle h1.channel) h1))
            (λ h2. ok (emptied h2)) h' (λ h2 _. ended IsBare (emptied h2) h' refl))
        r

  abbrev left_or_not : Option EndPoint → Host e k → Outcome (Host e k)
  left_or_not q h = elim q [ none ↦ ok h | some p ↦ leave e k h ]

  left_bare :
      (q : Option EndPoint) (h l : Host e k)
      → h.channel.end_point ≡ q
      → left_or_not q h ≡ ok l
      → l.channel.end_point ≡ none
  left_bare none h l there was = ended IsBare h l there was
  left_bare (some p) h l there was = leave-end_point h l was

  clear_state-end_point :
      (now : ℕ) (h h' : Host e k) → clear_state e k now h ≡ ok h' → h'.channel.end_point ≡ none
  unfolding clear_state clear_counters
  clear_state-end_point now h h' r =
      over IsBare (c_str h.channel) (λ _. left_or_not h.channel.end_point h >>= λ l. ok (cleared l))
        h'
        (λ _ _.
          over IsBare (left_or_not h.channel.end_point h) (λ l. ok (cleared l)) h'
            (λ l was. ended IsBare (cleared l) h' (left_bare h.channel.end_point h l refl was)))
        r
    where
      cleared : Host e k → Host e k
      cleared l = with_channel (clear_counters e k now l.channel) l

  destroy-end_point :
      (now : ℕ) (h h' : Host e k)
      → destroy e k now h ≡ ok h'
      → h.channel.flags.destroyed ≡ false
      → (h'.channel.flags.destroyed ≡ true) × (h'.channel.end_point ≡ none)
  unfolding destroy
  destroy-end_point now h h' r live =
      over (λ g. (g.channel.flags.destroyed ≡ true) × (g.channel.end_point ≡ none))
        (clear_state e k now h) (λ g. ok (marked g)) h'
        (λ g was.
          ended (λ g'. (g'.channel.flags.destroyed ≡ true) × (g'.channel.end_point ≡ none))
            (marked g) h' (refl, clear_state-end_point now h g was))
        (ap
            (λ b.
              if b then c_str h.channel >> ok h else clear_state e k now h >>= λ g. ok (marked g))
            (sym live)
          ∙ r)
    where
      marked : Host e k → Host e k
      marked g = with_channel (with_flags (record g.channel.flags { destroyed = true }) g.channel) g

  find_first :
      (a : Address) (c : Channel) (entries : List (Address × Channel))
      → find a ((a, c) ∷ entries) ≡ some c
  unfolding find
  find_first a c entries = let same = less_irrefl a in ground (arith, same)

  -- A channel that is not destroyed is destroyed while it is registered as the first of the interface's
  -- entries. The next `processChannels` fails the assertion of `deregisterChannel` that the channel has
  -- an end point, whatever the packets and the other channels.
  pub destroy-process_channels :
      (handle : Host e k → Packet → Outcome (Bool × Host e k × Packet)) (now : ℕ) (a : Address)
      (c : Channel) (entries : List (Address × Channel)) (n : Net e k) (h : Host e k)
      → c.flags.destroyed ≡ false
      → destroy e k now (node_of e k c n) ≡ ok h
      → process_channels e k handle
          (record (after e k h n) { channel_map = (a, h.channel) ∷ entries })
        ≡ fail assertion
  unfolding process_channels process_keys is_destroyed is_condemn
  destroy-process_channels handle now a c entries n h live done =
      let (gone, bare) = destroy-end_point now (node_of e k c n) h done live in
      let m : Net e k = record (after e k h n) { channel_map = (a, h.channel) ∷ entries } in
      let keys = process_keys e k handle (map (λ entry. entry.0) entries) in
      ap
        (λ q. elim q [ none ↦ fail undefined | some d ↦ process_channel e k handle a d m >>= keys ])
        (find_first a h.channel entries)
      ∙ ap (λ o. o >>= keys)
          (stuck e k handle a h.channel m (ap (λ b. b || h.channel.flags.condemned) gone) bare)
