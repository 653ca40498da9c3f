-- ===== src/Network/Server/Turns.antt =====
-- In every state that the server's network can reach, the entries of the channels' map are in order and
-- under their channels' addresses, and the kernel watches just what the poller holds handlers for.
use x_kbengine.Prelude.{
  ℕ, ◌+◌, ◌≡◌, refl, sym, subst, inl, Bool, true, ◌||◌, Option, none, some, List, [], ◌∷◌, map,
  if_cases, Outcome, ok, fail, undefined, ◌>>=◌, Ensures, Ensures-bind, Ensures-ok,
}
use x_kbengine.Network.Address.{Address}
use x_kbengine.Network.Registry.{find}
use x_kbengine.Network.Registry.Laws.{IsOrdered}
use x_kbengine.Network.Packet.{Packet}
use x_kbengine.Network.Poller.{Epoll, Fd, is_some, register_for_read}
use x_kbengine.Network.Poller.Coherent.{IsCoherent, wanted, register_for_read-IsCoherent}
use x_kbengine.Network.EndPoint.{EndPoint, Sockets, Accepted, accepted_one, accept_failed}
use x_kbengine.Network.Channel.State.{
  Channel, Host, Limits, Node, protocol_tcp, InputHandler, null_handler, channel_receiver,
  is_condemn, is_destroyed, c_str, with_flags,
}
use x_kbengine.Network.Channel.State
use x_kbengine.Network.Channel.Lifecycle.{initialize, ensure_reader, destroy, choose_receiver}
use x_kbengine.Network.Channel.Sender.{end_point_of}
use x_kbengine.Network.Channel.Receiver.{is_try_again, process_packets}
use x_kbengine.Network.Interface.{
  Net, node_of, after, register_channel, deregister_channel, destroy_all, deregister_all_channels,
  close_socket, process_channel, process_keys, process_channels,
}
use x_kbengine.Network.Interface
use x_kbengine.Network.Interface.Entries.{IsHome, IsValid}
use x_kbengine.Network.Interface.Listener.{accept_channel, accept_loop}
use x_kbengine.Network.Interface.Doors.{accept_loop-Extends}
use x_kbengine.Network.Server.Tame.{
  IsTame, send_packet-IsTame, handle_input_notification-IsTame, handle_output_notification-IsTame,
}
use x_kbengine.Network.Server.Ticks.{process_packets-IsTame}
use x_kbengine.Network.Server.Sound.{IsSound, find-IsHome, put-IsSound, Ends, destroy-Ends}
use x_kbengine.Network.Server.Members.{
  initialize-IsSound, close_socket-IsCoherent, register_channel-IsCoherent, close_socket-IsSound,
  register_channel-IsSound, deregister_channel-IsSound,
}
use x_kbengine.Network.Server.{
  put, Turn, accepts, receives, resumes, receives_astray, resumes_astray, sends, sends_astray,
  destroys, destroys_astray, deregisters_all, registers, deregisters, closes, starts_again, ticks,
  Reachable, made, turned,
}

module _ (e : Epoll) (k : Sockets) where
  -- A channel that joins the poller.
  initialize-IsCoherent :
      (h : Host e k)
      → IsCoherent e h.poller
      → Ensures (λ (r : Bool × Host e k). IsCoherent e r.1.poller) (initialize e k true h)
  unfolding initialize
  initialize-IsCoherent h c =
      let P : Bool × Host e k → Type 0 = λ r. IsCoherent e r.1.poller in
      let q : Channel = record h.channel {
        packet_receiver = choose_receiver h.channel.protocoltype true h.channel.packet_receiver;
      } in
      let handler : InputHandler = elim q.packet_receiver [
        | none ↦ null_handler
        | some t ↦ channel_receiver t h.channel.id
      ] in
      Ensures-bind P (c_str h.channel) _ (λ u t. Ensures-bind P (end_point_of q) _ (λ p v.
        let joined : IsCoherent e (register_for_read e p.socket handler h.poller).0 =
          register_for_read-IsCoherent e p.socket handler h.poller c in
        if_cases (Ensures P) (register_for_read e p.socket handler h.poller).1
          (λ a.
            Ensures-bind P (ensure_reader e k (with_flags (record q.flags { recving = true }) q)) _
              (λ d b. joined))
          (λ a. Ensures-bind P (c_str q) _ (λ d b. joined))))

  accept_channel-IsCoherent :
      (now : ℕ) (p : EndPoint) (n : Net e k)
      → IsCoherent e n.poller
      → Ensures (λ n'. IsCoherent e n'.poller) (accept_channel e k now p n)
  unfolding accept_channel State.init register_channel
  accept_channel-IsCoherent now p n c =
      let P : Net e k → Type 0 = λ n'. IsCoherent e n'.poller in
      let fresh : Host e k = node_of e k (State.init n.fresh now (some p) protocol_tcp) n in
      Ensures-bind P (initialize e k true fresh) _ (λ (done, h) t.
        let joined : IsCoherent e h.poller =
          Ensures-ok (λ (r : Bool × Host e k). IsCoherent e r.1.poller) (initialize e k true fresh)
            (done, h) t (initialize-IsCoherent fresh c) in
        let m : Net e k = record (after e k h n) { fresh = n.fresh + 1 } in
        if_cases (Ensures P) done {y = ok m}
          (λ a. Ensures-bind P (register_channel e k h.channel m) _ (λ (there, m') b.
            let kept : IsCoherent e m'.poller =
              Ensures-ok (λ (r : Bool × Net e k). IsCoherent e r.1.poller)
                (register_channel e k h.channel m) (there, m') b
                (register_channel-IsCoherent e k h.channel m joined) in
            if_cases P there (λ x. kept) (λ x. kept)))
          (λ a. joined))

  accept_loop-IsCoherent :
      (closed : Bool) (now : ℕ) (answers : List Accepted) (n : Net e k)
      → IsCoherent e n.poller
      → Ensures (λ n'. IsCoherent e n'.poller) (accept_loop e k closed now answers n)
  unfolding accept_loop
  accept_loop-IsCoherent closed now [] n c = c
  accept_loop-IsCoherent closed now (accept_failed err ∷ answers) n c =
      if_cases (Ensures (λ (n' : Net e k). IsCoherent e n'.poller)) (is_try_again err) {x = ok n}
        (λ t. c) (λ t. close_socket-IsCoherent e k closed n c)
  accept_loop-IsCoherent closed now (accepted_one fd a ∷ answers) n c =
      let p : EndPoint = record { socket = some fd; address = a } in
      Ensures-bind (λ (n' : Net e k). IsCoherent e n'.poller) (accept_channel e k now p n)
        (accept_loop e k closed now answers)
        (λ m t. accept_loop-IsCoherent closed now answers m (
          Ensures-ok (λ (n' : Net e k). IsCoherent e n'.poller) (accept_channel e k now p n) m t
            (accept_channel-IsCoherent now p n c)))

module _ (e : Epoll) (k : Sockets) (limits : Limits)
    (handle : Host e k → Packet → Outcome (Bool × Host e k × Packet))
    (tame : (h : Host e k) (c : Packet)
      → Ensures (λ (r : Bool × Host e k × Packet). IsTame e k h r.1) (handle h c)) where
  -- A channel's tame operation, and the channel back under its address.
  tame-IsSound :
      (a : Address) (c : Channel) (n : Net e k) (h : Host e k) (o : Outcome (Host e k))
      → IsSound e k n
      → find a n.channel_map ≡ some c
      → o ≡ ok h
      → Ensures (IsTame e k (node_of e k c n)) o
      → IsSound e k (put e k a h n)
  tame-IsSound a c n h o s found done kept =
      let t = Ensures-ok (IsTame e k (node_of e k c n)) o h done kept in
      put-IsSound e k a c h n s found (t.coherent s.coherent) (inl t.end_point)

  process_channel-IsSound :
      (a : Address) (c : Channel) (n : Net e k)
      → IsSound e k n
      → find a n.channel_map ≡ some c
      → Ensures (IsSound e k) (process_channel e k handle a c n)
  unfolding process_channel
  process_channel-IsSound a c n s found =
      let S : Net e k → Type 0 = IsSound e k in
      if_cases (Ensures S) (is_destroyed c || is_condemn c)
        (λ t.
          Ensures-bind S (deregister_channel e k c n) (λ r. ok r.1)
            (λ r u.
              Ensures-ok (λ (x : Bool × Net e k). IsSound e k x.1) (deregister_channel e k c n) r u
                (deregister_channel-IsSound e k c n s)))
        (λ t. Ensures-bind S (process_packets e k handle (node_of e k c n)) _ (λ h u.
          tame-IsSound a c n h (process_packets e k handle (node_of e k c n)) s found u
            (process_packets-IsTame e k handle tame (node_of e k c n))))

  process_keys-IsSound :
      (keys : List Address) (n : Net e k)
      → IsSound e k n
      → Ensures (IsSound e k) (process_keys e k handle keys n)
  unfolding process_keys
  process_keys-IsSound [] n s = s
  process_keys-IsSound (a ∷ keys) n s =
      by_find (λ m s'. process_keys-IsSound keys m s') (find a n.channel_map) refl
    where
      by_find :
          ((m : Net e k) → IsSound e k m → Ensures (IsSound e k) (process_keys e k handle keys m))
          → (o : Option Channel) → find a n.channel_map ≡ o
          → Ensures (IsSound e k) (elim o [
            | none ↦ fail undefined
            | some c ↦ process_channel e k handle a c n >>= process_keys e k handle keys
          ])
      by_find ih none found = tt
      by_find ih (some c) found =
          Ensures-bind (IsSound e k) (process_channel e k handle a c n)
            (process_keys e k handle keys)
            (λ m t. ih m (
              Ensures-ok (IsSound e k) (process_channel e k handle a c n) m t
                (process_channel-IsSound a c n s found)))

  astray-IsSound :
      (n : Net e k) (h : Host e k) (strays : List Channel)
      → IsSound e k n
      → IsCoherent e h.poller
      → IsSound e k (record (after e k h n) { strays = strays })
  astray-IsSound n h strays s coherent = record { valid = s.valid; coherent = coherent }

  tame_astray-IsSound :
      (c : Channel) (n : Net e k) (h : Host e k) (strays : List Channel) (o : Outcome (Host e k))
      → IsSound e k n
      → o ≡ ok h
      → Ensures (IsTame e k (node_of e k c n)) o
      → IsSound e k (record (after e k h n) { strays = strays })
  tame_astray-IsSound c n h strays o s done kept =
      astray-IsSound n h strays s
        ((Ensures-ok (IsTame e k (node_of e k c n)) o h done kept).coherent s.coherent)

  destroyed-IsCoherent :
      (c : Channel) (n : Net e k) (now : ℕ) (h : Host e k)
      → IsCoherent e n.poller
      → destroy e k now (node_of e k c n) ≡ ok h
      → IsCoherent e h.poller
  destroyed-IsCoherent c n now h s done =
      (Ensures-ok (Ends e k (node_of e k c n)) (destroy e k now (node_of e k c n)) h done
          (destroy-Ends e k now (node_of e k c n))).0
        s

  destroy_all-IsCoherent :
      (now : ℕ) (entries : List (Address × Channel)) (n : Net e k)
      → IsCoherent e n.poller
      → Ensures (λ (n' : Net e k). IsCoherent e n'.poller) (destroy_all e k now entries n)
  unfolding destroy_all
  destroy_all-IsCoherent now [] n s = s
  destroy_all-IsCoherent now ((a, c) ∷ entries) n s =
      Ensures-bind (λ (n' : Net e k). IsCoherent e n'.poller) (destroy e k now (node_of e k c n))
        (λ h. destroy_all e k now entries (after e k h n))
        (λ h done.
          destroy_all-IsCoherent now entries (after e k h n)
            (destroyed-IsCoherent c n now h s done))

  deregister_all_channels-IsSound :
      (now : ℕ) (n : Net e k)
      → IsSound e k n
      → Ensures (IsSound e k) (deregister_all_channels e k now n)
  unfolding deregister_all_channels
  deregister_all_channels-IsSound now n s =
      Ensures-bind (IsSound e k) (destroy_all e k now n.channel_map n) _ (λ m done. record {
        valid = (tt, tt);
        coherent =
            Ensures-ok (λ (n' : Net e k). IsCoherent e n'.poller)
              (destroy_all e k now n.channel_map n) m done
              (destroy_all-IsCoherent now n.channel_map n s.coherent);
      })

  turn-IsSound : {n n' : Net e k} → Turn e k limits handle n n' → IsSound e k n → IsSound e k n'
  turn-IsSound {n} {n'} (accepts closed now answers q has routed done) s =
      let (m, result, valid, kept) =
        accept_loop-Extends e k closed now answers n q s.valid routed has in
      record {
        valid =
            Ensures-ok (λ (x : Net e k). IsValid x) (accept_loop e k closed now answers n) n' done
              (subst (Ensures (λ (x : Net e k). IsValid x)) (sym result) valid);
        coherent =
            Ensures-ok (λ (x : Net e k). IsCoherent e x.poller)
              (accept_loop e k closed now answers n) n' done
              (accept_loop-IsCoherent e k closed now answers n s.coherent);
      }
  turn-IsSound {n} (receives a c p now answers h found has done to) s =
      subst (IsSound e k) (sym to) (
        tame-IsSound a c n h _ s found done
          (handle_input_notification-IsTame e k limits p.socket now answers (node_of e k c n)))
  turn-IsSound {n} (resumes a c h found flag done to) s = subst (IsSound e k) (sym to) (
      tame-IsSound a c n h _ s found done
        (handle_output_notification-IsTame e k limits (node_of e k c n)))
  turn-IsSound {n} (receives_astray c p now answers h strays has done to) s =
      subst (IsSound e k) (sym to) (
        tame_astray-IsSound c n h strays _ s done
          (handle_input_notification-IsTame e k limits p.socket now answers (node_of e k c n)))
  turn-IsSound {n} (resumes_astray c h strays done to) s = subst (IsSound e k) (sym to) (
      tame_astray-IsSound c n h strays _ s done
        (handle_output_notification-IsTame e k limits (node_of e k c n)))
  turn-IsSound {n} (sends_astray c packet h strays done to) s = subst (IsSound e k) (sym to) (
      tame_astray-IsSound c n h strays _ s done
        (send_packet-IsTame e k limits packet (node_of e k c n)))
  turn-IsSound {n} (destroys_astray c now h strays done to) s =
      subst (IsSound e k) (sym to)
        (astray-IsSound n h strays s (destroyed-IsCoherent c n now h s.coherent done))
  turn-IsSound {n} {n'} (deregisters_all now done) s =
      Ensures-ok (IsSound e k) (deregister_all_channels e k now n) n' done
        (deregister_all_channels-IsSound now n s)
  turn-IsSound {n} (sends a c packet h found done to) s =
      subst (IsSound e k) (sym to) (
        tame-IsSound a c n h _ s found done
          (send_packet-IsTame e k limits packet (node_of e k c n)))
  turn-IsSound {n} (destroys a c now h found done to) s =
      let (coherent, homed) =
        Ensures-ok (Ends e k (node_of e k c n)) (destroy e k now (node_of e k c n)) h done
          (destroy-Ends e k now (node_of e k c n)) in
      subst (IsSound e k) (sym to) (put-IsSound e k a c h n s found (coherent s.coherent) homed)
  turn-IsSound {n} {n'} (registers c result done) s =
      Ensures-ok (λ (r : Bool × Net e k). IsSound e k r.1) (register_channel e k c n) (result, n')
        done (register_channel-IsSound e k c n s)
  turn-IsSound {n} {n'} (deregisters c result done) s =
      Ensures-ok (λ (r : Bool × Net e k). IsSound e k r.1) (deregister_channel e k c n) (result, n')
        done (deregister_channel-IsSound e k c n s)
  turn-IsSound {n} {n'} (closes closed done) s =
      Ensures-ok (IsSound e k) (close_socket e k closed n) n' done
        (close_socket-IsSound e k closed n s)
  turn-IsSound {n} (starts_again opened closed listens address to) s =
      subst (IsSound e k) (sym to) (initialize-IsSound e k opened closed listens address n s)
  turn-IsSound {n} {n'} (ticks done) s =
      Ensures-ok (IsSound e k) (process_channels e k handle n) n' done
        (unfold process_channels in process_keys-IsSound (map (λ entry. entry.0) n.channel_map) n s)

  reached : {n : Net e k} → Reachable e k limits handle n → IsSound e k n
  reached (made kernel stats sockets none_yet to) =
      subst (IsSound e k) (sym to)
        (unfold Interface.init in record { valid = (tt, tt); coherent = none_yet })
  reached (turned r t) = turn-IsSound t (reached r)

  -- The server's network is in a state that it can reach from a new interface on a new poller, by any
  -- sequence of accepted connections, events for channels in and outside the map, calls of `send` and
  -- `destroy` of such channels, calls of the interface that register and remove channels, one or all,
  -- close it or start it, and ticks, whatever the sockets and the kernel answer. Then the entries of the channels' map are in order, each channel
  -- that is found has the address under which it is found, which is not 0, or no end point any more, and
  -- the kernel watches each descriptor for just what the poller holds handlers for. Condition: a message
  -- handler that returns leaves the poller coherent with the kernel, and the channel its end point.
  pub Reachable-IsSound :
      (n : Net e k)
      → Reachable e k limits handle n
      → IsOrdered n.channel_map
        × ((a : Address) (c : Channel) → find a n.channel_map ≡ some c → IsHome a c)
        × ((fd : Fd)
            → e.interest n.poller.kernel fd
              ≡ wanted (is_some (n.poller.read_handlers fd)) (is_some (n.poller.write_handlers fd)))
  Reachable-IsSound n r =
      let s = reached r in
      (s.valid.0, λ a c found. find-IsHome a c n.channel_map s.valid.1 found, s.coherent)
