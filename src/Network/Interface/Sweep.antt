-- ===== src/Network/Interface/Sweep.antt =====
-- `processChannels` of libs/network/network_interface.cpp, and a description that goes over the entries
-- once, in their order.
use x_kbengine.Prelude.{
  ◌≡◌, refl, sym, subst, ap, ◌∙◌, Bool, true, false, ◌||◌, Option, none, some, List, [], ◌∷◌, ◌++◌,
  map, if◌then◌else◌, arith, Outcome, ok, fail, assertion, undefined, bind_cong, bind_map, ◌>>=◌,
  append_assoc,
}
use x_kbengine.Network.Address.{Address}
use x_kbengine.Network.Registry.{find, insert, erase}
use x_kbengine.Network.Registry.Laws.{IsOrdered, middle, without-IsOrdered, with-IsOrdered}
use x_kbengine.Network.Packet.{Packet}
use x_kbengine.Network.Poller.{Epoll}
use x_kbengine.Network.EndPoint.{EndPoint, Sockets}
use x_kbengine.Network.Channel.State.{Channel, Host, is_condemn, is_destroyed}
use x_kbengine.Network.Channel.Receiver.{process_packets}
use x_kbengine.Network.Interface.{
  Net, node_of, after, note_deregistered, deregister_channel, process_channel, process_keys,
  process_channels,
}
use x_kbengine.Network.Interface.Entries.{AllHome, IsValid, deregister_here}

module _ (e : Epoll) (k : Sockets)
    (handle : Host e k → Packet → Outcome (Bool × Host e k × Packet)) where
  -- The entries in their order, `kept` those that were gone over. A channel that is destroyed or
  -- condemned is dropped, with the note that the handler was called, and fails the assertion if it has
  -- no end point any more; any other stays, after its packets were processed.
  unfoldable pub sweep :
      List (Address × Channel) → List (Address × Channel) → Net e k → Outcome (Net e k)
  sweep kept [] n = ok n
  sweep kept ((a, c) ∷ entries) n =
      if is_destroyed c || is_condemn c
      then elim c.end_point [
        | none ↦ fail assertion
        | some p ↦
            sweep kept entries
              (note_deregistered e k c (record n { channel_map = kept ++ entries }))
      ]
      else process_packets e k handle (node_of e k c n) >>= λ h.
          sweep (kept ++ (a, h.channel) ∷ []) entries
            (record (after e k h n) { channel_map = kept ++ (a, h.channel) ∷ entries })

  note-channel_map :
      (c : Channel) (n : Net e k) → (note_deregistered e k c n).channel_map ≡ n.channel_map
  note-channel_map c n = ground arith

  dropped :
      (front back : List (Address × Channel)) (a : Address) (c : Channel) (p : EndPoint)
      (n : Net e k)
      → (is_destroyed c || is_condemn c) ≡ true
      → IsOrdered (front ++ (a, c) ∷ back)
      → n.channel_map ≡ front ++ (a, c) ∷ back
      → c.end_point ≡ some p
      → p.address ≡ a
      → process_channel e k handle a c n
        ≡ ok (note_deregistered e k c (record n { channel_map = front ++ back }))
  unfolding process_channel
  dropped front back a c p n dead o same there under =
      let (f, gone, put) = middle front back a c o in
      let found : erase p.address n.channel_map ≡ (true, front ++ back) =
        ap (λ b. erase b n.channel_map) under ∙ ap (erase a) same ∙ gone in
      rw dead
        (ap (λ o'. o' >>= λ r. ok r.1) (deregister_here e k c p n true (front ++ back) there found))

  pub stuck :
      (a : Address) (c : Channel) (n : Net e k)
      → (is_destroyed c || is_condemn c) ≡ true
      → c.end_point ≡ none
      → process_channel e k handle a c n ≡ fail assertion
  unfolding process_channel deregister_channel
  stuck a c n dead bare = rw (dead, bare) refl

  stays :
      (front back : List (Address × Channel)) (a : Address) (c : Channel) (n : Net e k)
      → (is_destroyed c || is_condemn c) ≡ false
      → IsOrdered (front ++ (a, c) ∷ back)
      → n.channel_map ≡ front ++ (a, c) ∷ back
      → process_channel e k handle a c n ≡ (
          process_packets e k handle (node_of e k c n) >>= λ h.
          ok (record (after e k h n) { channel_map = front ++ (a, h.channel) ∷ back }))
  unfolding process_channel
  stays front back a c n live o same =
      let (f, gone, put) = middle front back a c o in
      rw live (
        bind_cong (process_packets e k handle (node_of e k c n)) (λ h.
          ap (λ (m : List (Address × Channel)). ok (record (after e k h n) { channel_map = m }))
            (ap (insert a h.channel) same ∙ put h.channel)))

  process_keys-sweep :
      (front entries : List (Address × Channel)) (n : Net e k)
      → IsOrdered (front ++ entries)
      → AllHome entries
      → n.channel_map ≡ front ++ entries
      → process_keys e k handle (map (λ entry. entry.0) entries) n ≡ sweep front entries n
  unfolding sweep process_keys
  process_keys-sweep front [] n o h same = refl
  process_keys-sweep front ((a, c) ∷ entries) n o (h, hs) same =
      let found : find a n.channel_map ≡ some c =
        ap (find a) same ∙ (middle front entries a c o).0 in
      ap
        (λ o'. elim o' [
          | none ↦ fail undefined
          | some d ↦ process_channel e k handle a d n >>= keys
        ])
        found
      ∙ by_dead (is_destroyed c || is_condemn c) refl
          (λ front' n' o' same'. process_keys-sweep front' entries n' o' hs same')
    where
      keys : Net e k → Outcome (Net e k)
      keys = process_keys e k handle (map (λ entry. entry.0) entries)

      Rest : Type 0
      Rest =
          (front' : List (Address × Channel)) (n' : Net e k)
          → IsOrdered (front' ++ entries)
          → n'.channel_map ≡ front' ++ entries
          → keys n' ≡ sweep front' entries n'

      left : Net e k
      left = note_deregistered e k c (record n { channel_map = front ++ entries })

      by_end :
          (q : Option EndPoint)
          → c.end_point ≡ q
          → (is_destroyed c || is_condemn c) ≡ true
          → Rest
          → (process_channel e k handle a c n >>= keys)
            ≡ elim q [ none ↦ fail assertion | some p ↦ sweep front entries left ]
      by_end none there dead rest = ap (λ m. m >>= keys) (stuck a c n dead there)
      by_end (some p) there dead rest =
          ap (λ m. m >>= keys)
            (dropped front entries a c p n dead o same there
              (subst (λ q. elim q [ none ↦ Unit {0} | some p' ↦ p'.address ≡ a ]) there h.1))
          ∙ rest front left (without-IsOrdered front entries a c o) (note-channel_map c _)

      by_dead :
          (b : Bool)
          → (is_destroyed c || is_condemn c) ≡ b
          → Rest
          → (process_channel e k handle a c n >>= keys) ≡ (
              if b
              then elim c.end_point [ none ↦ fail assertion | some p ↦ sweep front entries left ]
              else process_packets e k handle (node_of e k c n) >>= λ h'.
                  sweep
                    (front ++ (a, h'.channel) ∷ [])
                    entries
                    (record (after e k h' n) { channel_map = front ++ (a, h'.channel) ∷ entries }))
      by_dead true dead rest = by_end c.end_point refl dead rest
      by_dead false live rest =
          ap (λ m. m >>= keys) (stays front entries a c n live o same)
          ∙ bind_map (process_packets e k handle (node_of e k c n)) keys (λ h'.
            let same' = append_assoc front ((a, h'.channel) ∷ []) entries in
            rest (front ++ (a, h'.channel) ∷ []) _
              (subst IsOrdered (sym same') (with-IsOrdered front entries a c h'.channel o))
              (sym same'))

  -- On an interface whose entries are in order and under their channels' addresses, `processChannels`
  -- does what the description over the entries says.
  pub process_channels-sweep :
      (n : Net e k) → IsValid n → process_channels e k handle n ≡ sweep [] n.channel_map n
  unfolding process_channels
  process_channels-sweep n (o, h) = process_keys-sweep [] n.channel_map n o h refl
