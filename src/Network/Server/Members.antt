-- ===== src/Network/Server/Members.antt =====
-- The members of libs/network/network_interface.cpp leave the server's network sound.
use x_kbengine.Prelude.{
  ◌≡◌, refl, Bool, true, false, Option, none, some, ◌==◌, if◌then◌else◌, if_cases, Outcome, ok,
  fail, assertion, undefined, Ensures,
}
use x_kbengine.Network.Address.{Address, unset}
use x_kbengine.Network.Registry.{find, insert, erase}
use x_kbengine.Network.Registry.Laws.{insert-IsOrdered, erase-IsOrdered}
use x_kbengine.Network.Poller.{Epoll, Fd}
use x_kbengine.Network.Poller.Coherent.{
  IsCoherent, register_for_read-IsCoherent, deregister_for_read-IsCoherent,
}
use x_kbengine.Network.EndPoint.{
  EndPoint, Sockets, Accepted, accepted_one, accept_failed, good, close, open_socket,
}
use x_kbengine.Network.EndPoint
use x_kbengine.Network.Channel.State.{Channel, listener}
use x_kbengine.Network.Interface.{
  Net, node_of, after, register_channel, deregister_channel, note_deregistered, shut, close_socket,
  listen_at, process_channel, process_keys, process_channels,
}
use x_kbengine.Network.Interface
use x_kbengine.Network.Interface.Entries.{insert-AllHome, erase-AllHome, home}
use x_kbengine.Network.Server.Sound.{IsSound}

module _ (e : Epoll) (k : Sockets) where
  -- The interface's own end point joins and leaves the poller.
  shut-IsSound :
      (closed : Bool) (p : EndPoint) (n : Net e k)
      → IsSound e k n
      → IsSound e k (shut e k closed p n)
  shut-IsSound closed p n s =
      if_cases (IsSound e k) (good p)
        (λ t. record {
          valid = s.valid;
          coherent = deregister_for_read-IsCoherent e p.socket n.poller s.coherent;
        })
        (λ t. s)

  listen_at-IsSound :
      (listens : Fd → Bool) (address : Address) (p : EndPoint) (n : Net e k)
      → IsSound e k n
      → IsSound e k (listen_at e k listens address p n).1
  unfolding listen_at
  listen_at-IsSound listens address p n s = record {
    valid = s.valid;
    coherent = register_for_read-IsCoherent e p.socket listener n.poller s.coherent;
  }

  pub initialize-IsSound :
      (opened : Fd) (closed : Bool) (listens : Fd → Bool) (address : Address) (n : Net e k)
      → IsSound e k n
      → IsSound e k (Interface.initialize e k opened closed listens address n).1
  unfolding Interface.initialize
  initialize-IsSound opened closed listens address n s = by_end n.end_point
    where
      began : Option EndPoint → Bool × Net e k
      began o = elim o [
        | some p ↦
            listen_at e k listens address (if good p then (close closed p).0 else p)
              (shut e k closed p n)
        | none ↦
            let p = open_socket opened (EndPoint.init unset) in
            if good p
            then listen_at e k listens address p n
            else (false, record n { end_point = some p })
      ]

      by_end : (o : Option EndPoint) → IsSound e k (began o).1
      by_end none =
          let p : EndPoint = open_socket opened (EndPoint.init unset) in
          if_cases (λ (r : Bool × Net e k). IsSound e k r.1) (good p)
            (λ t. listen_at-IsSound listens address p n s)
            (λ t. record { valid = s.valid; coherent = s.coherent })
      by_end (some p) =
          listen_at-IsSound listens address (if good p then (close closed p).0 else p)
            (shut e k closed p n) (shut-IsSound closed p n s)

  pub close_socket-IsSound :
      (closed : Bool) (n : Net e k)
      → IsSound e k n
      → Ensures (IsSound e k) (close_socket e k closed n)
  unfolding close_socket
  close_socket-IsSound closed n s = by_end n.end_point
    where
      by_end :
          (o : Option EndPoint)
          → Ensures
              (IsSound e k)
              (elim o [ none ↦ fail undefined | some p ↦ ok (shut e k closed p n) ])
      by_end none = tt
      by_end (some p) = shut-IsSound closed p n s

  pub register_channel-IsSound :
      (c : Channel) (n : Net e k)
      → IsSound e k n
      → Ensures (λ (r : Bool × Net e k). IsSound e k r.1) (register_channel e k c n)
  unfolding register_channel
  register_channel-IsSound c n s = by_end c.end_point refl
    where
      P : Bool × Net e k → Type 0
      P r = IsSound e k r.1

      known : EndPoint → Option Channel → Outcome (Bool × Net e k)
      known p o = elim o [
        | some d ↦ ok (false, n)
        | none ↦ ok (true, record n { channel_map = insert p.address c n.channel_map })
      ]

      by_known :
          (p : EndPoint) (o : Option Channel)
          → c.end_point ≡ some p
          → (p.address.ip == 0) ≡ false
          → Ensures P (known p o)
      by_known p (some d) at_ routed = s
      by_known p none at_ routed = record {
        valid = (
          insert-IsOrdered p.address c n.channel_map s.valid.0,
          insert-AllHome p.address c n.channel_map (home e k c p at_ routed) s.valid.1,
        );
        coherent = s.coherent;
      }

      by_end :
          (o : Option EndPoint)
          → c.end_point ≡ o
          → Ensures P (elim o [
            | none ↦ fail undefined
            | some p ↦
                if p.address.ip == 0 then fail assertion else known p (find p.address n.channel_map)
          ])
      by_end none at_ = tt
      by_end (some p) at_ =
          if_cases (Ensures P) (p.address.ip == 0) {x = fail assertion} (λ t. tt)
            (λ routed. by_known p (find p.address n.channel_map) at_ routed)

  note-IsSound :
      (c : Channel) (n : Net e k) → IsSound e k n → IsSound e k (note_deregistered e k c n)
  note-IsSound c n s =
      if_cases (IsSound e k) n.has_deregister_handler
        (λ t. record { valid = s.valid; coherent = s.coherent }) (λ t. s)

  pub deregister_channel-IsSound :
      (c : Channel) (n : Net e k)
      → IsSound e k n
      → Ensures (λ (r : Bool × Net e k). IsSound e k r.1) (deregister_channel e k c n)
  unfolding deregister_channel
  deregister_channel-IsSound c n s = by_end c.end_point
    where
      by_end :
          (o : Option EndPoint)
          → Ensures
              (λ (r : Bool × Net e k). IsSound e k r.1)
              (elim o [
                | none ↦ fail assertion
                | some p ↦
                    let (found, rest) = erase p.address n.channel_map in
                    let m : Net e k = record n { channel_map = rest } in
                    ok (found, if found then note_deregistered e k c m else m)
              ])
      by_end none = tt
      by_end (some p) =
          let m : Net e k = record n { channel_map = (erase p.address n.channel_map).1 } in
          let left : IsSound e k m = record {
            valid = (
              erase-IsOrdered p.address n.channel_map s.valid.0,
              erase-AllHome p.address n.channel_map s.valid.1,
            );
            coherent = s.coherent;
          } in
          if_cases (IsSound e k) (erase p.address n.channel_map).0 (λ t. note-IsSound c m left)
            (λ t. left)

  -- The poller alone, whatever the map holds.
  pub close_socket-IsCoherent :
      (closed : Bool) (n : Net e k)
      → IsCoherent e n.poller
      → Ensures (λ n'. IsCoherent e n'.poller) (close_socket e k closed n)
  unfolding close_socket
  close_socket-IsCoherent closed n c = by_end n.end_point
    where
      by_end :
          (o : Option EndPoint)
          → Ensures
              (λ (n' : Net e k). IsCoherent e n'.poller)
              (elim o [ none ↦ fail undefined | some p ↦ ok (shut e k closed p n) ])
      by_end none = tt
      by_end (some p) =
          if_cases (λ (n' : Net e k). IsCoherent e n'.poller) (good p)
            (λ t. deregister_for_read-IsCoherent e p.socket n.poller c) (λ t. c)

  pub register_channel-IsCoherent :
      (c : Channel) (n : Net e k)
      → IsCoherent e n.poller
      → Ensures (λ (r : Bool × Net e k). IsCoherent e r.1.poller) (register_channel e k c n)
  unfolding register_channel
  register_channel-IsCoherent c n kept = by_end c.end_point
    where
      P : Bool × Net e k → Type 0
      P r = IsCoherent e r.1.poller

      known : EndPoint → Option Channel → Outcome (Bool × Net e k)
      known p o = elim o [
        | some d ↦ ok (false, n)
        | none ↦ ok (true, record n { channel_map = insert p.address c n.channel_map })
      ]

      by_known : (p : EndPoint) (o : Option Channel) → Ensures P (known p o)
      by_known p (some d) = kept
      by_known p none = kept

      by_end :
          (o : Option EndPoint)
          → Ensures P (elim o [
            | none ↦ fail undefined
            | some p ↦
                if p.address.ip == 0 then fail assertion else known p (find p.address n.channel_map)
          ])
      by_end none = tt
      by_end (some p) =
          if_cases (Ensures P) (p.address.ip == 0) {x = fail assertion} (λ t. tt)
            (λ routed. by_known p (find p.address n.channel_map))
