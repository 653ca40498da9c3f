-- ===== src/Network/Interface/Tests.antt =====
-- The network interface at concrete inputs.
use x_kbengine.Prelude.{
  ℕ, ◌≡◌, refl, Bool, true, false, none, some, [], ◌∷◌, if◌then◌else◌, Outcome, ok, fail, assertion,
}
use x_kbengine.Network.Address.{Address, unset, eq, less}
use x_kbengine.Network.Packet.{Packet}
use x_kbengine.Network.Registry.{find}
use x_kbengine.Network.Poller.{Fd, is_some}
use x_kbengine.Network.Poller
use x_kbengine.Network.Poller.Tests.{table, watching_none}
use x_kbengine.Network.EndPoint.{EndPoint, accepted_one, accept_failed, try_again, received}
use x_kbengine.Network.Channel.State.{
  Channel, Host, protocol_tcp, no_stats, no_flags, default_limits,
}
use x_kbengine.Network.Channel.State
use x_kbengine.Network.Channel.Lifecycle.{destroy, clear_state, leave, stop_recv, clear_counters}
use x_kbengine.Network.Channel.Sender.{stop_send}
use x_kbengine.Network.Channel.Tests.{narrow}
use x_kbengine.Network.Interface.{
  Net, node_of, after, init, find_channel, register_channel, deregister_channel, note_deregistered,
  process_channels,
}
use x_kbengine.Network.Interface
use x_kbengine.Network.Interface.Entries.{
  IsValid, register_channel-find_channel, deregister_channel-find_channel,
}
use x_kbengine.Network.Interface.Sweep.{sweep, process_channels-sweep}
use x_kbengine.Network.Interface.Doors.{accept_loop-find_channel}
use x_kbengine.Network.Interface.Listener.{accept_loop}
use x_kbengine.Network.Channel.Receiver.{handle_input_notification}
use x_kbengine.Network.Interface.Leftover.{process_channels-handle_input_notification}
use x_kbengine.Network.Interface.Faults.{initialize-initialize, destroy-process_channels}

abbrev at_port : ℕ → Address
at_port n = record { ip = 16777343; port = n }

abbrev peer_at : ℕ → EndPoint
peer_at n = record { socket = some n; address = at_port n }

abbrev channel_at : ℕ → Channel
channel_at n = State.init n 0 (some (peer_at n)) protocol_tcp

-- One channel is registered, and the interface listens on the socket 3.
abbrev busy : Net table narrow
busy = record {
  channel_map = (at_port 5, channel_at 5) ∷ [];
  end_point = some (record { socket = some 3; address = unset });
  has_deregister_handler = true;
  deregistered = [];
  strays = [];
  fresh = 6;
  poller = Poller.init watching_none;
  stats = no_stats;
  sockets = [];
}

busy-IsValid : IsValid busy
unfolding State.init
busy-IsValid = ((tt, tt), ((refl, refl), tt))

other_absent : find_channel table narrow (at_port 7) busy ≡ none
unfolding find_channel find less
other_absent = refl

five_known : find_channel table narrow (at_port 5) busy ≡ some (channel_at 5)
unfolding find_channel find less
five_known = refl

register_channel-find_channel_example :
    (n' : Net table narrow) × (register_channel table narrow (channel_at 7) busy ≡ ok (true, n'))
    × IsValid n'
    × ((b : Address)
        → find_channel table narrow b n'
          ≡ (if eq b (at_port 7) then some (channel_at 7) else find_channel table narrow b busy))
    × (deregister_channel table narrow (channel_at 7) n'
        ≡ ok (true, note_deregistered table narrow (channel_at 7) busy))
unfolding State.init
register_channel-find_channel_example =
    register_channel-find_channel table narrow (channel_at 7) (peer_at 7) busy busy-IsValid refl
      refl other_absent

deregister_channel-find_channel_example :
    (n' : Net table narrow) × (deregister_channel table narrow (channel_at 5) busy
      ≡ ok (is_some (find_channel table narrow (at_port 5) busy), n'))
    × IsValid n'
    × ((b : Address)
        → find_channel table narrow b n'
          ≡ (if eq b (at_port 5) then none else find_channel table narrow b busy))
unfolding State.init
deregister_channel-find_channel_example =
    deregister_channel-find_channel table narrow (channel_at 5) (peer_at 5) busy busy-IsValid refl
      refl

abbrev accept_all : Host table narrow → Packet → Outcome (Bool × Host table narrow × Packet)
accept_all h p = ok (true, h, p)

process_channels-sweep_example :
    process_channels table narrow accept_all busy
    ≡ sweep table narrow accept_all [] busy.channel_map busy
process_channels-sweep_example = process_channels-sweep table narrow accept_all busy busy-IsValid

accept_loop-find_channel_example :
    (n' : Net table narrow) × (accept_loop table narrow true 1
        (accepted_one 8 (at_port 8) ∷ accepted_one 9 (at_port 5) ∷ accept_failed try_again ∷ [])
        busy
      ≡ ok n')
    × IsValid n'
    × (find_channel table narrow (at_port 5) n' ≡ some (channel_at 5))
accept_loop-find_channel_example =
    accept_loop-find_channel table narrow true 1
      (accepted_one 8 (at_port 8) ∷ accepted_one 9 (at_port 5) ∷ accept_failed try_again ∷ []) busy
      (record { socket = some 3; address = unset }) (at_port 5) (channel_at 5) busy-IsValid
      (refl, (refl, tt)) refl five_known

abbrev idle : Net table narrow
idle = record busy { end_point = none; channel_map = [] }

initialize-initialize_example :
    (n1 : Net table narrow) × (n2 : Net table narrow) × (Interface.initialize table narrow
        (some 3)
        true
        is_some
        (at_port 80)
        idle
      ≡ (true, n1))
    × (Interface.initialize table narrow (some 4) true is_some (at_port 81) n1 ≡ (false, n2))
    × (n2.end_point ≡ some (record { socket = none; address = at_port 81 }))
initialize-initialize_example =
    initialize-initialize table narrow 3 (some 4) is_some (at_port 80) (at_port 81) idle refl refl
      refl

abbrev gone : Host table narrow
gone = record (node_of table narrow (channel_at 5) busy) {
  channel = record (channel_at 5) {
    flags = record no_flags { destroyed = true };
    end_point = none;
    last_received_time = 4;
  };
}

destroyed_five : destroy table narrow 4 (node_of table narrow (channel_at 5) busy) ≡ ok gone
unfolding destroy clear_state leave stop_send stop_recv clear_counters State.init State.c_str
destroyed_five = refl

destroy-process_channels_example :
    process_channels table narrow accept_all
      (record (after table narrow gone busy) { channel_map = (at_port 5, gone.channel) ∷ [] })
    ≡ fail assertion
unfolding State.init
destroy-process_channels_example =
    destroy-process_channels table narrow accept_all 4 (at_port 5) (channel_at 5) [] busy gone refl
      destroyed_five

abbrev condemned_five : Channel
condemned_five = record (channel_at 5) { flags = record no_flags { condemned = true } }

abbrev doomed : Net table narrow
doomed = record busy { channel_map = (at_port 5, condemned_five) ∷ [] }

doomed-IsValid : IsValid doomed
unfolding State.init
doomed-IsValid = ((tt, tt), ((refl, refl), tt))

process_channels-handle_input_notification_example :
    (n' : Net table narrow) × (process_channels table narrow accept_all doomed ≡ ok n')
    × (n'.channel_map ≡ [])
    × (n'.poller ≡ doomed.poller)
    × (handle_input_notification table narrow default_limits
          (some 5)
          2
          (received (1 ∷ []) ∷ [])
          (node_of table narrow condemned_five n')
        ≡ ok (node_of table narrow condemned_five n'))
unfolding State.init
process_channels-handle_input_notification_example =
    process_channels-handle_input_notification table narrow default_limits accept_all 2
      (received (1 ∷ []) ∷ []) (at_port 5) condemned_five (peer_at 5) doomed refl refl refl
      doomed-IsValid
