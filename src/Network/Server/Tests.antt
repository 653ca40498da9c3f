-- ===== src/Network/Server/Tests.antt =====
-- A server that listens and accepts a connection.
use x_kbengine.Prelude.{ℕ, ◌≡◌, refl, Bool, true, some, [], ◌∷◌, Outcome, ok, fail, Ensures}
use x_kbengine.Stream.{data_resize}
use x_kbengine.Network.Address.{Address, less}
use x_kbengine.Network.Registry.{find, insert}
use x_kbengine.Network.Registry.Laws.{IsOrdered}
use x_kbengine.Network.Packet.{Packet}
use x_kbengine.Network.Packet
use x_kbengine.Network.Poller.{Fd, is_some, register_for_read, do_register, request, is_registered}
use x_kbengine.Network.Poller
use x_kbengine.Network.Poller.Coherent.{wanted}
use x_kbengine.Network.Poller.Tests.{table, watching_none}
use x_kbengine.Network.EndPoint.{accepted_one, good, open_socket, set_file_descriptor}
use x_kbengine.Network.Channel.State.{Channel, Host, no_stats, default_limits, c_str}
use x_kbengine.Network.Channel.State
use x_kbengine.Network.Channel.Lifecycle.{initialize, ensure_reader, choose_receiver}
use x_kbengine.Network.Channel.Tests.{narrow}
use x_kbengine.Network.Reader
use x_kbengine.Network.Interface.{Net, register_channel, process_channels, listen_at}
use x_kbengine.Network.Interface
use x_kbengine.Network.Interface.Entries.{IsHome}
use x_kbengine.Network.Interface.Listener.{accept_loop, accept_channel}
use x_kbengine.Network.Server.{Reachable, made, turned, accepts, starts_again}
use x_kbengine.Network.Server.Tame.{IsTame, IsTame-refl}
use x_kbengine.Network.Server.Turns.{Reachable-IsSound}

abbrev at_port : ℕ → Address
at_port n = record { ip = 16777343; port = n }

abbrev accept_all : Host table narrow → Packet → Outcome (Bool × Host table narrow × Packet)
accept_all h p = ok (true, h, p)

accept_all-IsTame :
    (h : Host table narrow) (p : Packet)
    → Ensures
        (λ (r : Bool × Host table narrow × Packet). IsTame table narrow h r.1)
        (accept_all h p)
accept_all-IsTame h p = IsTame-refl table narrow h

abbrev value : {A : Type 0} → A → Outcome A → A
value a (ok b) = b
value a (fail err) = a

abbrev new : Net table narrow
new = Interface.init table narrow (Poller.init watching_none) no_stats []

abbrev listening : Net table narrow
listening = (Interface.initialize table narrow (some 3) true is_some (at_port 80) new).1

abbrev connected : Net table narrow
connected =
    value listening (accept_loop table narrow true 1 (accepted_one 8 (at_port 8) ∷ []) listening)

accepted :
    accept_loop table narrow true 1 (accepted_one 8 (at_port 8) ∷ []) listening ≡ ok connected
unfolding accept_loop accept_channel initialize ensure_reader choose_receiver Reader.init
    Packet.init data_resize State.init c_str register_channel find insert less Interface.initialize
    Interface.init listen_at open_socket set_file_descriptor good register_for_read do_register
    request is_registered
accepted = refl

connected-Reachable : Reachable table narrow default_limits accept_all connected
unfolding Interface.initialize Interface.init listen_at open_socket set_file_descriptor good
connected-Reachable =
    turned
      (turned (made watching_none no_stats [] (λ fd. refl) refl)
        (starts_again (some 3) true is_some (at_port 80) refl))
      (accepts true 1 (accepted_one 8 (at_port 8) ∷ []) _ refl (refl, tt) accepted)

Reachable-IsSound_example :
    IsOrdered connected.channel_map
    × ((a : Address) (c : Channel) → find a connected.channel_map ≡ some c → IsHome a c)
    × ((fd : Fd)
        → table.interest connected.poller.kernel fd
          ≡ wanted
              (is_some (connected.poller.read_handlers fd))
              (is_some (connected.poller.write_handlers fd)))
Reachable-IsSound_example =
    Reachable-IsSound table narrow default_limits accept_all accept_all-IsTame connected
      connected-Reachable
