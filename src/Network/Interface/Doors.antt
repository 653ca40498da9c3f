-- ===== src/Network/Interface/Doors.antt =====
-- The loop of libs/network/listener_receiver.cpp that accepts connections.
use x_kbengine.Prelude.{
  ℕ, ◌+◌, ◌≡◌, refl, sym, subst, ap, ◌∙◌, Bool, true, false, none, some, List, [], ◌∷◌, ◌++◌, ◌==◌,
  if◌then◌else◌, if_cases, arith, Outcome, ok, fail, undefined, ◌>>=◌, Option-cases, inl, inr,
}
use x_kbengine.Network.Address.{Address, eq}
use x_kbengine.Network.Address.Order.{eq→≡}
use x_kbengine.Network.Registry.{find, insert}
use x_kbengine.Network.Registry.Laws.{IsOrdered, find-insert, insert-IsOrdered}
use x_kbengine.Network.Poller.{Epoll, register_for_read}
use x_kbengine.Network.Reader
use x_kbengine.Network.Reader.{Reader}
use x_kbengine.Network.EndPoint.{EndPoint, Sockets, Accepted, accepted_one, accept_failed}
use x_kbengine.Network.Channel.State.{
  Channel, Host, protocol_tcp, protocol_udp, c_str, InputHandler, channel_receiver,
  tcp_packet_receiver,
}
use x_kbengine.Network.Channel.State
use x_kbengine.Network.Channel.Lifecycle.{initialize, ensure_reader, choose_receiver}
use x_kbengine.Network.Channel.Receiver.{is_try_again}
use x_kbengine.Network.Interface.{
  Net, node_of, after, register_channel, find_channel, close_socket, shut,
}
use x_kbengine.Network.Interface.Entries.{
  AllHome, IsValid, insert-AllHome, register_new, register_known, home,
}
use x_kbengine.Network.Interface.Listener.{accept_channel, accept_loop}

-- Connections from addresses that are not 0.
abbrev pub AllRouted : List Accepted → Type 0
AllRouted [] = Unit
AllRouted (accepted_one fd a ∷ answers) = ((a.ip == 0) ≡ false) × AllRouted answers
AllRouted (accept_failed err ∷ answers) = AllRouted answers

module _ (e : Epoll) (k : Sockets) where
  insert_other :
      (a b : Address) (c d : Channel) (m : List (Address × Channel))
      → find a m ≡ none
      → find b m ≡ some d
      → find b (insert a c m) ≡ some d
  insert_other a b c d m new known = find-insert a b c m ∙ by_eq (eq b a) refl
    where
      by_eq : (x : Bool) → eq b a ≡ x → (if x then some c else find b m) ≡ some d
      by_eq true x =
          absurd (ground (arith, sym new ∙ ap (λ o. find o m) (sym (eq→≡ b a x)) ∙ known))
      by_eq false x = known

  -- `n'` has what `n` has, and maybe more.
  record Extends (n n' : Net e k) : Type 0 where
    valid : IsValid n'
    kept :
        (a : Address) (c : Channel) → find a n.channel_map ≡ some c → find a n'.channel_map ≡ some c
    same_end_point : n'.end_point ≡ n.end_point

  -- What `initialize` makes of a new channel.
  pub initialize_fresh :
      (now : ℕ) (p : EndPoint) (n : Net e k)
      → (done : Bool) × (h : Host e k) × (initialize e k true
            (node_of e k (State.init n.fresh now (some p) protocol_tcp) n)
          ≡ ok (done, h))
        × (h.channel.end_point ≡ some p)
  unfolding initialize State.init c_str ensure_reader choose_receiver Reader.init
  initialize_fresh now p n =
      if_cases
        (λ m. (done : Bool) × (h : Host e k) × (m ≡ ok (done, h)) × (h.channel.end_point ≡ some p))
        (register_for_read e p.socket (channel_receiver tcp_packet_receiver n.fresh) n.poller).1
        (λ _. (true, _, refl, refl)) (λ _. (false, _, refl, refl))

  Extends-refl : (n : Net e k) → IsValid n → Extends n n
  Extends-refl n v = record { valid = v; kept = λ a c h. h; same_end_point = refl }

  Extends-trans : (n1 n2 n3 : Net e k) → Extends n1 n2 → Extends n2 n3 → Extends n1 n3
  Extends-trans n1 n2 n3 x y = record {
    valid = y.valid;
    kept = λ a c h. y.kept a c (x.kept a c h);
    same_end_point = y.same_end_point ∙ x.same_end_point;
  }

  accept_channel-Extends :
      (now : ℕ) (p : EndPoint) (n : Net e k)
      → IsValid n
      → (p.address.ip == 0) ≡ false
      → (n' : Net e k) × (accept_channel e k now p n ≡ ok n') × Extends n n'
  unfolding accept_channel State.init
  accept_channel-Extends now p n v routed =
      let (done, h, made, there) = initialize_fresh now p n in
      let (n', result, ext) = by_done done h there in (n', ap (λ m. m >>= rest) made ∙ result, ext)
    where
      moved : Host e k → Net e k
      moved h = record (after e k h n) { fresh = n.fresh + 1 }

      rest : Bool × Host e k → Outcome (Net e k)
      rest (done, h) =
          if done
          then register_channel e k h.channel (moved h) >>= (λ r.
            ok (if r.0 then r.1 else record r.1 { strays = r.1.strays ++ h.channel ∷ [] }))
          else ok (moved h)

      settle : Host e k → Bool × Net e k → Outcome (Net e k)
      settle h r = ok (if r.0 then r.1 else record r.1 { strays = r.1.strays ++ h.channel ∷ [] })

      by_done :
          (done : Bool) (h : Host e k)
          → h.channel.end_point ≡ some p
          → (n' : Net e k) × (rest (done, h) ≡ ok n') × Extends n n'
      by_done false h there =
          (moved h, refl, record { valid = v; kept = λ a c f. f; same_end_point = refl })
      by_done true h there = elim (Option-cases (find p.address n.channel_map)) [
        | inl new ↦ (
          record (moved h) { channel_map = insert p.address h.channel n.channel_map },
          ap (λ m. m >>= settle h) (register_new e k h.channel p (moved h) there routed new),
          record {
            valid = (
              insert-IsOrdered p.address h.channel n.channel_map v.0,
              insert-AllHome p.address h.channel n.channel_map (home e k h.channel p there routed)
                  v.1,
            );
            kept = λ a c f. insert_other p.address a h.channel c n.channel_map new f;
            same_end_point = refl;
          },
        )
        | inr (d, known) ↦ (
          record (moved h) { strays = n.strays ++ h.channel ∷ [] },
          ap (λ m. m >>= settle h) (register_known e k h.channel d p (moved h) there routed known),
          record { valid = v; kept = λ a c f. f; same_end_point = refl },
        )
      ]

  shut_map :
      (closed : Bool) (q : EndPoint) (n : Net e k)
      → (shut e k closed q n).channel_map ≡ n.channel_map
  shut_map closed q n =
      if_cases (λ (m : Net e k). m.channel_map ≡ n.channel_map) _ (λ _. refl) (λ _. refl)

  pub accept_loop-Extends :
      (closed : Bool) (now : ℕ) (answers : List Accepted) (n : Net e k) (q : EndPoint)
      → IsValid n
      → AllRouted answers
      → n.end_point ≡ some q
      → (n' : Net e k) × (accept_loop e k closed now answers n ≡ ok n')
        × IsValid n'
        × ((a : Address) (c : Channel)
            → find a n.channel_map ≡ some c
            → find a n'.channel_map ≡ some c)
  unfolding accept_loop close_socket
  accept_loop-Extends closed now [] n q v r has = (n, refl, v, λ a c f. f)
  accept_loop-Extends closed now (accept_failed err ∷ answers) n q v r has =
      if_cases
        (λ m.
          (n' : Net e k) × (m ≡ ok n')
          × IsValid n'
          × ((a : Address) (c : Channel)
              → find a n.channel_map ≡ some c
              → find a n'.channel_map ≡ some c))
        (is_try_again err) (λ _. (n, refl, v, λ a c f. f))
        (λ _. (
          shut e k closed q n,
          ap (λ o. elim o [ none ↦ fail undefined | some p ↦ ok (shut e k closed p n) ]) has,
          (
            subst IsOrdered (sym (shut_map closed q n)) v.0,
            subst AllHome (sym (shut_map closed q n)) v.1,
          ),
          λ a c f. ap (find a) (shut_map closed q n) ∙ f,
        ))
  accept_loop-Extends closed now (accepted_one fd a ∷ answers) n q v (routed, r) has =
      let p : EndPoint = record { socket = some fd; address = a } in
      let (m, made, ext) = accept_channel-Extends now p n v routed in
      let (n', result, v', kept) =
        accept_loop-Extends closed now answers m q ext.valid r (ext.same_end_point ∙ has) in
      (
        n',
        ap (λ o. o >>= accept_loop e k closed now answers) made ∙ result,
        v',
        λ b c f. kept b c (ext.kept b c f),
      )

  -- The listener accepts connections from addresses that are not 0, on an interface that listens and
  -- whose entries are in order and under their channels' addresses. It comes to an end, the entries
  -- stay so, and a channel that was found before is found under the same address, whatever connections
  -- came in and whatever the poller answered.
  pub accept_loop-find_channel :
      (closed : Bool) (now : ℕ) (answers : List Accepted) (n : Net e k) (q : EndPoint) (a : Address)
      (c : Channel)
      → IsValid n
      → AllRouted answers
      → n.end_point ≡ some q
      → find_channel e k a n ≡ some c
      → (n' : Net e k) × (accept_loop e k closed now answers n ≡ ok n')
        × IsValid n'
        × (find_channel e k a n' ≡ some c)
  unfolding find_channel
  accept_loop-find_channel closed now answers n q a c v r has known =
      let (n', result, v', kept) = accept_loop-Extends closed now answers n q v r has in
      (n', result, v', ground (arith, known, kept a c))
