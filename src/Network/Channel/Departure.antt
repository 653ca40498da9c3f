-- ===== src/Network/Channel/Departure.antt =====
-- What `destroy` leaves of a channel, and of its registrations.
use x_kbengine.Prelude.{
  ℕ, ◌≡◌, refl, ap, ap₂, ◌∙◌, Bool, true, false, not, Option, none, some, [], if◌then◌else◌,
  Outcome, ok, fail, undefined, ◌>>=◌, ◌>>◌,
}
use x_kbengine.Network.Poller.{
  Epoll, Poller, Fd, is_some, deregister_for_read, deregister_for_write, do_register,
}
use x_kbengine.Network.Poller.Coherent.{
  IsCoherent, wanted, same_fd_refl, deregister_for_read-IsCoherent, deregister_for_write-IsCoherent,
}
use x_kbengine.Network.EndPoint.{EndPoint, Sockets}
use x_kbengine.Network.Channel.State.{
  Host, with_channel, with_flags, c_str, clear_bundle, InputHandler, OutputHandler,
}
use x_kbengine.Network.Channel.Sender.{stop_send, end_point_of}
use x_kbengine.Network.Channel.Lifecycle.{stop_recv, leave, clear_state, clear_counters, destroy}
use x_kbengine.Network.Channel.Pending.{c_str-ok}

-- The kernel's set is that of the handlers, and the channel's flags say which of them it has.
pub record IsSettled (e : Epoll) (k : Sockets) (fd : Fd) (h : Host e k) : Type 0 where
  pub coherent : IsCoherent e h.poller
  pub not_sending : h.channel.flags.sending ≡ false → h.poller.write_handlers fd ≡ none
  pub not_recving : h.channel.flags.recving ≡ false → h.poller.read_handlers fd ≡ none

module _ (e : Epoll) (fd : Fd) (p : Poller e.Kernel InputHandler OutputHandler) where
  write_handlers-deregister :
      ((deregister_for_write e fd p).0.write_handlers fd ≡ none)
      × ((deregister_for_write e fd p).0.read_handlers ≡ p.read_handlers)
  unfolding deregister_for_write do_register
  write_handlers-deregister = (rw (same_fd_refl fd), refl)

  read_handlers-deregister :
      ((deregister_for_read e fd p).0.read_handlers fd ≡ none)
      × ((deregister_for_read e fd p).0.write_handlers ≡ p.write_handlers)
  unfolding deregister_for_read do_register
  read_handlers-deregister = (rw (same_fd_refl fd), refl)

abbrev some_end : Option EndPoint → Outcome EndPoint
some_end o = elim o [ none ↦ fail undefined | some p ↦ ok p ]

module _ (e : Epoll) (k : Sockets) (ep : EndPoint) where
  abbrev Settled : Host e k → Type 0
  Settled h = IsSettled e k ep.socket h

  record Stopped (h : Host e k) (o : Outcome (Host e k)) : Type 0 where
    after : Host e k
    result : o ≡ ok after
    has : after.channel.end_point ≡ some ep
    settled : Settled after
    destroyed : after.channel.flags.destroyed ≡ h.channel.flags.destroyed

  stop_send-Stopped :
      (h : Host e k)
      → h.channel.end_point ≡ some ep
      → Settled h
      → (s : Stopped h (stop_send e k h)) × (s.after.channel.flags.sending ≡ false)
  unfolding stop_send
  stop_send-Stopped h has v = by_flag h.channel.flags.sending refl
    where
      rest : EndPoint → Outcome (Host e k)
      rest p =
          let c = with_flags (record h.channel.flags { sending = false }) h.channel in
          ok (record h { channel = c; poller = (deregister_for_write e p.socket h.poller).0 })

      by_flag :
          (b : Bool)
          → h.channel.flags.sending ≡ b
          → (s : Stopped h (if not b then ok h else end_point_of h.channel >>= rest))
            × (s.after.channel.flags.sending ≡ false)
      by_flag false f =
          (record { after = h; result = refl; has = has; settled = v; destroyed = refl }, f)
      by_flag true f =
          let (gone, same) = write_handlers-deregister e ep.socket h.poller in
          (
            record {
              after = record h {
                channel = with_flags (record h.channel.flags { sending = false }) h.channel;
                poller = (deregister_for_write e ep.socket h.poller).0;
              };
              result = ap (λ o. some_end o >>= rest) has;
              has = has;
              settled = record {
                coherent = deregister_for_write-IsCoherent e ep.socket h.poller v.coherent;
                not_sending = λ t. gone;
                not_recving = λ t. ap (λ m. m ep.socket) same ∙ v.not_recving t;
              };
              destroyed = refl;
            },
            refl,
          )

  stop_recv-Stopped :
      (h : Host e k)
      → h.channel.end_point ≡ some ep
      → Settled h
      → h.channel.flags.sending ≡ false
      → (s : Stopped h (stop_recv e k h)) × (s.after.channel.flags.sending ≡ false)
        × (s.after.channel.flags.recving ≡ false)
        × (s.after.channel.bundles ≡ h.channel.bundles)
  unfolding stop_recv
  stop_recv-Stopped h has v quiet = by_flag h.channel.flags.recving refl
    where
      rest : EndPoint → Outcome (Host e k)
      rest p =
          let c = with_flags (record h.channel.flags { recving = false }) h.channel in
          ok (record h { channel = c; poller = (deregister_for_read e p.socket h.poller).0 })

      by_flag :
          (b : Bool)
          → h.channel.flags.recving ≡ b
          → (s : Stopped h (if not b then ok h else end_point_of h.channel >>= rest))
            × (s.after.channel.flags.sending ≡ false)
            × (s.after.channel.flags.recving ≡ false)
            × (s.after.channel.bundles ≡ h.channel.bundles)
      by_flag false f = (
        record { after = h; result = refl; has = has; settled = v; destroyed = refl },
        quiet,
        f,
        refl,
      )
      by_flag true f =
          let (gone, same) = read_handlers-deregister e ep.socket h.poller in
          (
            record {
              after = record h {
                channel = with_flags (record h.channel.flags { recving = false }) h.channel;
                poller = (deregister_for_read e ep.socket h.poller).0;
              };
              result = ap (λ o. some_end o >>= rest) has;
              has = has;
              settled = record {
                coherent = deregister_for_read-IsCoherent e ep.socket h.poller v.coherent;
                not_sending = λ t. ap (λ m. m ep.socket) same ∙ v.not_sending t;
                not_recving = λ t. gone;
              };
              destroyed = refl;
            },
            quiet,
            refl,
            refl,
          )

  clear_state-leave :
      (now : ℕ) (h left : Host e k)
      → h.channel.end_point ≡ some ep
      → leave e k h ≡ ok left
      → clear_state e k now h ≡ ok (with_channel (clear_counters e k now left.channel) left)
  unfolding clear_state
  clear_state-leave now h left has gone =
      ap
        (λ o.
          o
          >> (elim h.channel.end_point [ none ↦ ok h | some p ↦ leave e k h ] >>= λ l.
              ok (with_channel (clear_counters e k now l.channel) l)))
        (c_str-ok h.channel ep has)
      ∙ ap
          (λ o. elim o [ none ↦ ok h | some p ↦ leave e k h ] >>= λ l.
            ok (with_channel (clear_counters e k now l.channel) l))
          has
      ∙ ap (λ o. o >>= λ l. ok (with_channel (clear_counters e k now l.channel) l)) gone

  abbrev marked : Host e k → Host e k
  marked h = with_channel (with_flags (record h.channel.flags { destroyed = true }) h.channel) h

  -- Destroying a channel that has its end point takes it off the poller: the kernel watches its
  -- descriptor no more, in either direction, and watches the others as the poller's handlers want.
  -- Nothing is left in the queues, and the flag DESTROYED is set. A second
  -- `destroy` reads through the null end point, to print the channel's name. Conditions: the kernel's set was that of
  -- the handlers before, and the channel's flags say for which directions it is registered.
  pub destroy-IsCoherent :
      (now later : ℕ) (h : Host e k)
      → h.channel.end_point ≡ some ep
      → IsSettled e k ep.socket h
      → h.channel.flags.destroyed ≡ false
      → (h' : Host e k) × (destroy e k now h ≡ ok h')
        × (e.interest h'.poller.kernel ep.socket ≡ none)
        × IsCoherent e h'.poller
        × (h'.channel.flags.destroyed ≡ true)
        × (h'.channel.bundles ≡ [])
        × (h'.channel.buffered_receives ≡ [])
        × (destroy e k later h' ≡ fail undefined)
  unfolding destroy
  destroy-IsCoherent now later h has v alive =
      let (s, quiet) = stop_send-Stopped h has v in
      let (r, quiet', deaf, same) =
        stop_recv-Stopped (with_channel (record s.after.channel { bundles = [] }) s.after) s.has
          (record {
            coherent = s.settled.coherent;
            not_sending = s.settled.not_sending;
            not_recving = s.settled.not_recving;
          })
          quiet in
      let left : Host e k =
        with_channel (record r.after.channel { buffered_receives = []; end_point = none })
          r.after in
      let gone : leave e k h ≡ ok left = unfold leave clear_bundle in rw s.result (rw r.result) in
      let cleared = clear_state-leave now h left has gone in
      (
        marked (with_channel (clear_counters e k now left.channel) left),
        ap
              (λ b.
                if b
                then c_str h.channel >> ok h
                else clear_state e k now h >>= λ h'. ok (marked h'))
              alive
            ∙ ap (λ o. o >>= λ h'. ok (marked h')) cleared,
        r.settled.coherent ep.socket
            ∙ ap₂ (λ i o. wanted (is_some i) (is_some o)) (r.settled.not_recving deaf)
                (r.settled.not_sending quiet'),
        r.settled.coherent,
        refl,
        unfold clear_counters in same,
        unfold clear_counters in refl,
        unfold clear_counters c_str in refl,
      )
