-- ===== src/Network/Channel/Tests.antt =====
-- Runs of a channel on a socket that takes at most three bytes a call.
use x_kbengine.Prelude.{
  ℕ, ◌≤◌, ◌<◌, ◌^◌, ◌≡◌, refl, Bool, true, false, some, List, [], ◌∷◌, ◌++◌, arith, length, take,
  ok, length-take, ap, sym,
}
use x_kbengine.Network.Address.{unset}
use x_kbengine.Network.Packet.{Packet}
use x_kbengine.Network.Poller.{Fd, Poller}
use x_kbengine.Network.Poller
use x_kbengine.Network.Poller.Tests.{table, watching_none}
use x_kbengine.Network.EndPoint.{EndPoint, Sockets, Sent, sent, failed, try_again}
use x_kbengine.Network.Channel.State.{
  Channel, Node, Host, default_limits, no_stats, protocol_tcp, no_flags,
}
use x_kbengine.Network.Channel.State
use x_kbengine.Network.EndPoint.{Received, received}
use x_kbengine.Network.Channel.Receiver.{recv_loop}
use x_kbengine.Network.Reader.Delivery.{bytes_of}
use x_kbengine.Network.Channel.Arrival.{payloads, Stops, recv_loop-payloads}
use x_kbengine.Network.Channel.State.{InputHandler, OutputHandler, no_flags}
use x_kbengine.Network.Poller.{register_for_write, do_register, request, is_registered}
use x_kbengine.Network.Poller.Coherent.{IsCoherent, register_for_write-IsCoherent}
use x_kbengine.Network.Channel.Lifecycle.{destroy}
use x_kbengine.Network.Channel.Departure.{IsSettled, destroy-IsCoherent}
use x_kbengine.Prelude.{fail, undefined, none}
use x_kbengine.Network.Channel.Sender.{process_send}
use x_kbengine.Network.Channel.Pending.{IsSendable, AllSendable, pending_all}
use x_kbengine.Network.Channel.Conservation.{process_send-pending}

abbrev pub take_three : List ℕ → Fd → List ℕ → List ℕ × Sent
take_three s fd l = (s ++ take 3 l, sent (length (take 3 l)))

three : (l : List ℕ) → take (length (take 3 l)) l ≡ take 3 l
three [] = refl
three (a ∷ []) = refl
three (a ∷ b ∷ []) = refl
three (a ∷ b ∷ c ∷ l) = refl

pub take_three-done :
    (s : List ℕ) (fd : Fd) (l : List ℕ) (n : ℕ)
    → (take_three s fd l).1 ≡ sent n
    → (n ≤ length l) × ((take_three s fd l).0 ≡ s ++ take n l)
take_three-done s fd l n h =
    let e : length (take 3 l) ≡ n = cc h in
    rw⁻¹ e (omega (arith, length-take 3 l), ap (λ k. s ++ k) (sym (three l)))

pub take_three-failed :
    (s : List ℕ) (fd : Fd) (l : List ℕ) → (take_three s fd l).1 ≡ failed → (take_three s fd l).0 ≡ s
take_three-failed s fd l h = cc

abbrev pub narrow : Sockets
narrow = record {
  State = List ℕ;
  send_bytes = take_three;
  accepted = λ s. s;
  errno = λ s. try_again;
  send_done = take_three-done;
  send_failed = take_three-failed;
}

-- Two packets of four and one bytes; of the first, a byte is sent.
abbrev packet : List ℕ → ℕ → Packet
packet l n = record {
  stream = record { rpos = 0; wpos = length l; bytes = l };
  is_tcp_packet = true;
  sent_size = n;
}

abbrev peer : EndPoint
peer = record { socket = some 3; address = unset }

abbrev queue : List Packet
queue = packet (1 ∷ 2 ∷ 3 ∷ 4 ∷ []) 1 ∷ packet (5 ∷ []) 0 ∷ []

abbrev host : Host table narrow
host = record {
  channel = record (State.init 7 0 (some peer) protocol_tcp) { bundles = queue };
  poller = Poller.init watching_none;
  stats = no_stats;
  sockets = 1 ∷ [];
}

whole : (l : List ℕ) (n : ℕ) → n ≤ length l → length l < 2 ^ 32 → IsSendable (packet l n)
whole l n h k = record { from_start = refl; sent_within = h; within = omega arith; small = k }

process_send-pending_example :
    (done : Bool) × (h' : Host table narrow) × (process_send table narrow default_limits false host
      ≡ ok (done, h'))
    × (h'.sockets ++ pending_all h'.channel.bundles ≡ 1 ∷ 2 ∷ 3 ∷ 4 ∷ 5 ∷ [])
    × AllSendable h'.channel.bundles
    × (done ≡ true → h'.channel.bundles ≡ [])
    × (h'.channel.end_point ≡ some peer)
unfolding State.init
process_send-pending_example =
    process_send-pending table narrow default_limits false host peer refl
      (whole _ 1 (omega arith) (omega arith), (whole _ 0 (omega arith) (omega arith), tt)) (λ e. cc)

-- The same channel, with its sender registered on a poller that is new otherwise.
abbrev registered : Host table narrow
registered = record host {
  channel = record host.channel { flags = record no_flags { sending = true } };
  poller =
      (register_for_write table (some 3) 7
        (Poller.init {I = InputHandler} {O = OutputHandler} watching_none)).0;
}

registered-IsSettled : IsSettled table narrow (some 3) registered
unfolding register_for_write do_register request is_registered
registered-IsSettled = record {
  coherent =
      register_for_write-IsCoherent table (some 3) 7
        (Poller.init {I = InputHandler} {O = OutputHandler} watching_none) (λ fd. refl);
  not_sending = λ t. cc;
  not_recving = λ t. refl;
}

destroy-IsCoherent_example :
    (h' : Host table narrow) × (destroy table narrow 5 registered ≡ ok h')
    × (table.interest h'.poller.kernel (some 3) ≡ none)
    × IsCoherent table h'.poller
    × (h'.channel.flags.destroyed ≡ true)
    × (h'.channel.bundles ≡ [])
    × (h'.channel.buffered_receives ≡ [])
    × (destroy table narrow 6 h' ≡ fail undefined)
unfolding State.init
destroy-IsCoherent_example =
    destroy-IsCoherent table narrow peer 5 6 registered refl registered-IsSettled refl

-- Two packets arrive, and the socket is drained.
recv_loop-payloads_example :
    (h' : Host table narrow) × (taken : List Received) × (rest : List Received) × (recv_loop table
        narrow default_limits 5
        (received (1 ∷ 2 ∷ []) ∷ received (3 ∷ []) ∷ [])
        host
      ≡ ok h')
    × (received (1 ∷ 2 ∷ []) ∷ received (3 ∷ []) ∷ [] ≡ taken ++ rest)
    × (bytes_of h'.channel.buffered_receives ≡ payloads taken)
    × Stops table narrow default_limits peer rest h'.channel
unfolding State.init
recv_loop-payloads_example =
    recv_loop-payloads table narrow default_limits peer 5
      (received (1 ∷ 2 ∷ []) ∷ received (3 ∷ []) ∷ []) host refl
