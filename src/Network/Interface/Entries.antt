-- ===== src/Network/Interface/Entries.antt =====
-- Registering, removing and finding channels in libs/network/network_interface.cpp.
use x_kbengine.Prelude.{
  ◌≡◌, refl, sym, subst, ap, ◌∙◌, Bool, true, false, none, some, List, [], ◌∷◌, ◌==◌, if◌then◌else◌,
  if_cases, arith, ok,
}
use x_kbengine.Network.Address.{Address, eq, less}
use x_kbengine.Network.Address.Order.{eq→≡, less_total}
use x_kbengine.Network.Registry.{same_key, find, insert, erase}
use x_kbengine.Network.Registry.Laws.{
  IsOrdered, insert-IsOrdered, erase-IsOrdered, find-insert, find-erase, erase-insert, erase-find,
}
use x_kbengine.Network.Poller.{Epoll, is_some}
use x_kbengine.Network.EndPoint.{EndPoint, Sockets}
use x_kbengine.Network.Channel.State.{Channel}
use x_kbengine.Network.Interface.{
  NetworkInterface, Net, find_channel, register_channel, deregister_channel, note_deregistered,
}

-- A channel under its own address. One that was destroyed has no end point any more.
abbrev pub IsHome : Address → Channel → Type 0
IsHome a c = ((a.ip == 0) ≡ false) × elim c.end_point [ none ↦ Unit {0} | some p ↦ p.address ≡ a ]

abbrev pub AllHome : List (Address × Channel) → Type 0
AllHome [] = Unit
AllHome ((a, c) ∷ entries) = IsHome a c × AllHome entries

abbrev pub IsValid : {K S : Type 0} → NetworkInterface K S → Type 0
IsValid n = IsOrdered n.channel_map × AllHome n.channel_map

pub insert-AllHome :
    (a : Address) (c : Channel) (m : List (Address × Channel))
    → IsHome a c
    → AllHome m
    → AllHome (insert a c m)
unfolding insert
insert-AllHome a c [] h k = (h, tt)
insert-AllHome a c ((b, d) ∷ m) h (k, ks) =
    if_cases AllHome (less a b) (λ _. (h, (k, ks)))
      (λ x.
        if_cases AllHome (less b a) (λ _. (k, insert-AllHome a c m h ks))
          (λ y. (subst (λ z. IsHome z c) (eq→≡ a b (less_total a b x y)) h, ks)))

pub erase-AllHome : (a : Address) (m : List (Address × Channel)) → AllHome m → AllHome (erase a m).1
unfolding erase
erase-AllHome a [] k = tt
erase-AllHome a ((b, d) ∷ m) (k, ks) =
    if_cases (λ (r : Bool × List (Address × Channel)). AllHome r.1) (same_key a b) (λ _. ks)
      (λ _. (k, erase-AllHome a m ks))

module _ (e : Epoll) (k : Sockets) where
  -- Registering under an address that no channel has.
  pub register_new :
      (c : Channel) (p : EndPoint) (n : Net e k)
      → c.end_point ≡ some p
      → (p.address.ip == 0) ≡ false
      → find p.address n.channel_map ≡ none
      → register_channel e k c n
        ≡ ok (true, record n { channel_map = insert p.address c n.channel_map })
  unfolding register_channel
  register_new c p n there routed absent = rw (there, routed, absent) refl

  pub register_known :
      (c d : Channel) (p : EndPoint) (n : Net e k)
      → c.end_point ≡ some p
      → (p.address.ip == 0) ≡ false
      → find p.address n.channel_map ≡ some d
      → register_channel e k c n ≡ ok (false, n)
  unfolding register_channel
  register_known c d p n there routed known = rw (there, routed, known) refl

  pub deregister_here :
      (c : Channel) (p : EndPoint) (n : Net e k) (found : Bool) (rest : List (Address × Channel))
      → c.end_point ≡ some p
      → erase p.address n.channel_map ≡ (found, rest)
      → deregister_channel e k c n
        ≡ ok (
          found,
          if found
              then note_deregistered e k c (record n { channel_map = rest })
              else record n { channel_map = rest },
        )
  unfolding deregister_channel
  deregister_here c p n found rest there gone = rw (there, gone) refl

  note_deregistered-channel_map :
      (c : Channel) (n : Net e k) (found : Bool)
      → (if found then note_deregistered e k c n else n).channel_map ≡ n.channel_map
  note_deregistered-channel_map c n found = ground arith

  pub home :
      (c : Channel) (p : EndPoint)
      → c.end_point ≡ some p
      → (p.address.ip == 0) ≡ false
      → IsHome p.address c
  home c p there routed = (routed, rw there refl)

  pub find_channel-find :
      (a : Address) (n : Net e k)
      → (a.ip == 0) ≡ false
      → find_channel e k a n ≡ find a n.channel_map
  unfolding find_channel
  find_channel-find a n routed = rw routed refl

  -- A channel is registered under an address that no channel has, in a network interface whose entries
  -- are in order and under their channels' addresses, and the address is not 0. Then it is found under
  -- that address, each other look-up is as before, the entries stay in order, and removing the channel
  -- again leaves the interface as it was, but for the note that the handler was called.
  pub register_channel-find_channel :
      (c : Channel) (p : EndPoint) (n : Net e k)
      → IsValid n
      → c.end_point ≡ some p
      → (p.address.ip == 0) ≡ false
      → find_channel e k p.address n ≡ none
      → (n' : Net e k) × (register_channel e k c n ≡ ok (true, n'))
        × IsValid n'
        × ((b : Address)
            → find_channel e k b n' ≡ (if eq b p.address then some c else find_channel e k b n))
        × (deregister_channel e k c n' ≡ ok (true, note_deregistered e k c n))
  unfolding find_channel eq
  register_channel-find_channel c p n (o, h) there routed absent =
      let new = sym (find_channel-find p.address n routed) ∙ absent in
      (
        record n { channel_map = insert p.address c n.channel_map },
        register_new c p n there routed new,
        (
          insert-IsOrdered p.address c n.channel_map o,
          insert-AllHome p.address c n.channel_map (home c p there routed) h,
        ),
        λ b. ground (arith, find-insert p.address b c n.channel_map, routed),
        deregister_here c p (record n { channel_map = insert p.address c n.channel_map }) true
            n.channel_map there (erase-insert p.address c n.channel_map new),
      )

  -- Removing a channel that has an end point, from such an interface: the result says whether a
  -- channel was found under its address, none is found there afterwards, and each other look-up is as
  -- before.
  pub deregister_channel-find_channel :
      (c : Channel) (p : EndPoint) (n : Net e k)
      → IsValid n
      → c.end_point ≡ some p
      → (p.address.ip == 0) ≡ false
      → (n' : Net e k) × (deregister_channel e k c n
          ≡ ok (is_some (find_channel e k p.address n), n'))
        × IsValid n'
        × ((b : Address)
            → find_channel e k b n' ≡ (if eq b p.address then none else find_channel e k b n))
  unfolding find_channel eq
  deregister_channel-find_channel c p n (o, h) there routed =
      let m = n.channel_map in
      let gone = erase p.address m in
      let left : Net e k = record n { channel_map = gone.1 } in
      let same : is_some (find_channel e k p.address n) ≡ gone.0 =
        ap is_some (find_channel-find p.address n routed) ∙ sym (erase-find p.address m) in
      let kept : (if gone.0 then note_deregistered e k c left else left).channel_map ≡ gone.1 =
        note_deregistered-channel_map c left gone.0 in
      let result : Net e k = if gone.0 then note_deregistered e k c left else left in
      (
        result,
        deregister_here c p n gone.0 gone.1 there refl ∙ ap (λ b. ok (b, result)) (sym same),
        (
          subst IsOrdered (sym kept) (erase-IsOrdered p.address m o),
          subst AllHome (sym kept) (erase-AllHome p.address m h),
        ),
        λ b. rw kept (ground (arith, find-erase p.address b m o)),
      )
