-- ===== src/Network/Interface/Leftover.antt =====
-- What is left of a channel that `processChannels` of libs/network/network_interface.cpp drops.
use x_kbengine.Prelude.{
  ℕ, ◌≡◌, ap, ◌∙◌, Bool, true, ◌||◌, none, some, List, [], ◌∷◌, if◌then◌else◌, arith, Outcome, ok,
  fail, assertion, ◌>>=◌,
}
use x_kbengine.Network.Address.{Address}
use x_kbengine.Network.Packet.{Packet}
use x_kbengine.Network.Poller.{Epoll}
use x_kbengine.Network.EndPoint.{EndPoint, Sockets, Received}
use x_kbengine.Network.Channel.State.{Channel, Host, Limits, is_condemn, is_destroyed}
use x_kbengine.Network.Channel.Receiver.{process_packets, handle_input_notification}
use x_kbengine.Network.Channel.Condemned.{notified, recv_loop_condemned}
use x_kbengine.Network.Interface.{Net, node_of, after, note_deregistered, process_channels}
use x_kbengine.Network.Interface.Entries.{IsValid}
use x_kbengine.Network.Interface.Sweep.{sweep, process_channels-sweep}

module _ (e : Epoll) (k : Sockets) (limits : Limits) where
  -- The only channel of an interface is condemned, has an end point, and is under its address. It is
  -- dropped by `processChannels`, and the poller is left as it is, with the channel's registrations;
  -- an event for the channel's descriptor afterwards takes no byte from the socket and changes nothing.
  pub process_channels-handle_input_notification :
      (handle : Host e k → Packet → Outcome (Bool × Host e k × Packet)) (now : ℕ)
      (answers : List Received) (a : Address) (c : Channel) (p : EndPoint) (n : Net e k)
      → n.channel_map ≡ (a, c) ∷ []
      → c.flags.condemned ≡ true
      → c.end_point ≡ some p
      → IsValid n
      → (n' : Net e k) × (process_channels e k handle n ≡ ok n')
        × (n'.channel_map ≡ [])
        × (n'.poller ≡ n.poller)
        × (handle_input_notification e k limits p.socket now answers (node_of e k c n')
            ≡ ok (node_of e k c n'))
  unfolding sweep is_destroyed is_condemn
  process_channels-handle_input_notification handle now answers a c p n only condemned there v =
      let left : Net e k = record n { channel_map = [] } in
      let n' = note_deregistered e k c left in
      let dead : (is_destroyed c || is_condemn c) ≡ true = ground (arith, condemned) in
      (
        n',
        process_channels-sweep e k handle n v
            ∙ ap (λ m. sweep e k handle [] m n) only
            ∙ ap
                (λ b.
                  if b
                  then elim c.end_point [ none ↦ fail assertion | some q ↦ ok n' ]
                  else process_packets e k handle (node_of e k c n) >>= λ h.
                      ok (record (after e k h n) { channel_map = (a, h.channel) ∷ [] }))
                dead
            ∙ ap (λ q. elim q [ none ↦ fail assertion | some q' ↦ ok n' ]) there,
        ground arith,
        ground arith,
        notified e k limits p now answers (node_of e k c n') there
            ∙ recv_loop_condemned e k limits now answers (node_of e k c n') condemned,
      )
