-- ===== src/Network/Server/Sound.antt =====
-- When the server's network is sound, and how a channel's operation leaves it so.
use x_kbengine.Prelude.{
  ℕ, ◌≡◌, refl, sym, subst₂, ap, ◌∙◌, ◌⊎◌, inl, inr, Bool, false, not, Option, none, some, List, [],
  ◌∷◌, if◌then◌else◌, if_cases, arith, Outcome, ok, ◌>>=◌, Ensures, Ensures-bind, Ensures-ok,
  Bool-cases,
}
use x_kbengine.Network.Address.{Address, less}
use x_kbengine.Network.Address.Order.{eq→≡, less_total}
use x_kbengine.Network.Registry.{same_key, find}
use x_kbengine.Network.Registry.Laws.{insert-IsOrdered}
use x_kbengine.Network.Poller.{Epoll}
use x_kbengine.Network.Poller.Coherent.{IsCoherent, deregister_for_read-IsCoherent}
use x_kbengine.Network.EndPoint.{EndPoint, Sockets}
use x_kbengine.Network.Channel.State.{Channel, Host, c_str, with_channel, clear_bundle}
use x_kbengine.Network.Channel.Sender.{end_point_of, stop_send}
use x_kbengine.Network.Channel.Lifecycle.{destroy, clear_state, leave, clear_counters, stop_recv}
use x_kbengine.Network.Interface.{Net}
use x_kbengine.Network.Interface.Entries.{IsHome, AllHome, IsValid, insert-AllHome}
use x_kbengine.Network.Server.Tame.{IsTame, stop_send-IsTame}
use x_kbengine.Network.Server.{put}

pub find-IsHome :
    (a : Address) (c : Channel) (m : List (Address × Channel))
    → AllHome m
    → find a m ≡ some c
    → IsHome a c
unfolding find
find-IsHome a c [] h e = absurd cc
find-IsHome a c ((b, d) ∷ m) (h, hs) e =
    let pick : Bool → Option Channel = λ x. if x then some d else find a m in
    elim (Bool-cases (same_key a b)) [
      | inl same ↦
          let below : less a b ≡ false = ground (arith, same) in
          let above : less b a ≡ false = ground (arith, same) in
          let there : some d ≡ some c = sym (ap pick same) ∙ e in
          let d_is_c : d ≡ c = cc in
          subst₂ IsHome (sym (eq→≡ a b (less_total a b below above))) d_is_c h
      | inr other ↦ find-IsHome a c m hs (sym (ap pick other) ∙ e)
    ]

module _ (e : Epoll) (k : Sockets) where
  pub record IsSound (n : Net e k) : Type 0 where
    pub valid : IsValid n
    pub coherent : IsCoherent e n.poller

  -- A channel's operation that keeps the poller coherent and leaves the channel at its end point, or at
  -- none.
  abbrev pub Homed : Channel → Host e k → Type 0
  Homed c h = (h.channel.end_point ≡ c.end_point) ⊎ (h.channel.end_point ≡ none)

  pub put-IsSound :
      (a : Address) (c : Channel) (h : Host e k) (n : Net e k)
      → IsSound n
      → find a n.channel_map ≡ some c
      → IsCoherent e h.poller
      → Homed c h
      → IsSound (put e k a h n)
  put-IsSound a c h n s found coherent homed =
      let (routed, under) = find-IsHome a c n.channel_map s.valid.1 found in
      let kept : IsHome a h.channel = elim homed [
        | inl same ↦ (routed, rw same under)
        | inr gone ↦ (routed, rw gone tt)
      ] in
      record {
        valid = (
          insert-IsOrdered a h.channel n.channel_map s.valid.0,
          insert-AllHome a h.channel n.channel_map kept s.valid.1,
        );
        coherent = coherent;
      }

  -- The destruction of a channel.
  abbrev pub Ends : Host e k → Host e k → Type 0
  Ends h h' = (IsCoherent e h.poller → IsCoherent e h'.poller) × Homed h.channel h'

  stop_recv-IsCoherent :
      (h : Host e k)
      → Ensures (λ h'. IsCoherent e h.poller → IsCoherent e h'.poller) (stop_recv e k h)
  unfolding stop_recv
  stop_recv-IsCoherent h =
      let P : Host e k → Type 0 = λ h'. IsCoherent e h.poller → IsCoherent e h'.poller in
      if_cases (Ensures P) (not h.channel.flags.recving) (λ t c. c)
        (λ t.
          Ensures-bind P (end_point_of h.channel) _
            (λ p u c. deregister_for_read-IsCoherent e p.socket h.poller c))

  leave-Ends : (h : Host e k) → Ensures (Ends h) (leave e k h)
  unfolding leave clear_bundle
  leave-Ends h = Ensures-bind (Ends h) (stop_send e k h) _ (λ h1 t.
      let cleared : Host e k = with_channel (clear_bundle h1.channel) h1 in
      Ensures-bind (Ends h) (stop_recv e k cleared) _ (λ h2 u. (
        λ c.
            Ensures-ok (λ h'. IsCoherent e cleared.poller → IsCoherent e h'.poller)
              (stop_recv e k cleared) h2 u (stop_recv-IsCoherent cleared)
              ((Ensures-ok (IsTame e k h) (stop_send e k h) h1 t (stop_send-IsTame e k h)).coherent
                c),
        inr refl,
      )))

  clear_state-Ends : (now : ℕ) (h : Host e k) → Ensures (Ends h) (clear_state e k now h)
  unfolding clear_state clear_counters
  clear_state-Ends now h =
      Ensures-bind (Ends h) (c_str h.channel) _ (λ u t. by_end h.channel.end_point)
    where
      cleared : Option EndPoint → Outcome (Host e k)
      cleared o = elim o [ none ↦ ok h | some p ↦ leave e k h ] >>= λ left.
          ok (with_channel (clear_counters e k now left.channel) left)

      by_end : (o : Option EndPoint) → Ensures (Ends h) (cleared o)
      by_end none = (λ c. c, inl refl)
      by_end (some p) =
          Ensures-bind (Ends h) (leave e k h) _
            (λ left u. Ensures-ok (Ends h) (leave e k h) left u (leave-Ends h))

  pub destroy-Ends : (now : ℕ) (h : Host e k) → Ensures (Ends h) (destroy e k now h)
  unfolding destroy
  destroy-Ends now h =
      if_cases (Ensures (Ends h)) h.channel.flags.destroyed
        (λ t. Ensures-bind (Ends h) (c_str h.channel) _ (λ u v. (λ c. c, inl refl)))
        (λ t.
          Ensures-bind (Ends h) (clear_state e k now h) _
            (λ h' u. Ensures-ok (Ends h) (clear_state e k now h) h' u (clear_state-Ends now h)))
