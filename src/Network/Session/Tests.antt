-- ===== src/Network/Session/Tests.antt =====
-- A message of two bytes on its way: the sender's socket takes three bytes a call, and the receiver gets
-- them in three pieces and two rounds.
use x_kbengine.Prelude.{
  ℕ, ◌≤◌, ◌≡◌, refl, Bool, true, false, some, List, [], ◌∷◌, ◌++◌, arith, length, take, replicate,
  Outcome, ok,
}
use x_kbengine.Network.Address.{unset}
use x_kbengine.Network.Packet.{Packet}
use x_kbengine.Network.Poller.{
  Fd, register_for_write, deregister_for_write, do_register, request, is_registered,
}
use x_kbengine.Network.Poller
use x_kbengine.Network.Poller.Tests.{table, watching_none}
use x_kbengine.Network.EndPoint.{EndPoint, Sockets, sent, failed, refused, send}
use x_kbengine.Network.Framing.{idle}
use x_kbengine.Network.Reader.{unknow}
use x_kbengine.Network.Reader.Holds.{message, reader, at_start}
use x_kbengine.Network.Channel.State.{
  Host, default_limits, no_stats, protocol_tcp, condemn, c_str, bundles_length, on_packet_sent,
}
use x_kbengine.Network.Channel.State
use x_kbengine.Network.Channel.Sender.{
  send_packet, send_now, process_send, send_loop, do_send, sent_part, sent_all, on_send_completed,
  stop_send, check_send_window, reason_of, reason_of_errno,
}
use x_kbengine.Stream.{unread_length}
use x_kbengine.Network.Channel.Pending.{pending_all}
use x_kbengine.Network.Channel.Tests.{narrow}
use x_kbengine.Network.Session.{Arrivals, receive_rounds, transmit, send_rounds}
use x_kbengine.Network.Session.Log.{Messages}
use x_kbengine.Network.Session.Tick.{Handler}
use x_kbengine.Network.Session.Rounds.{arrived, IsReady}
use x_kbengine.Network.Session.Outflow.{IsSending}
use x_kbengine.Network.Session.Wire.{accepted_by, transmit-receive_rounds}

-- Sockets that take nothing, with the messages that a handler noted.
deaf_done :
    (s : Messages) (fd : Fd) (l : List ℕ) (n : ℕ)
    → failed ≡ sent n
    → (n ≤ length l) × ([] ≡ [] ++ take n l)
deaf_done s fd l n h = absurd cc

abbrev deaf : Sockets
deaf = record {
  State = Messages;
  send_bytes = λ s fd l. (s, failed);
  accepted = λ s. [];
  errno = λ s. refused;
  send_done = deaf_done;
  send_failed = λ s fd l h. refl;
}

abbrev noting : Host table deaf → Packet → Outcome (Bool × Host table deaf × Packet)
noting h c = ok (true, record h { sockets = h.sockets ++ take c.wpos c.bytes ∷ [] }, c)

abbrev handler : Handler table deaf noting
handler = record {
  seen = λ s. s;
  deliver = λ h m. record h { sockets = h.sockets ++ m ∷ [] };
  handles = λ h c. (c, refl, refl);
  sees = λ h m. refl;
  flags = λ h m. refl;
  end_point = λ h m. refl;
  window = λ h m. refl;
}

abbrev peer : EndPoint
peer = record { socket = some 3; address = unset }

abbrev sender : Host table narrow
sender = record {
  channel = record (State.init 7 0 (some peer) protocol_tcp) {
    bundles =
        record {
          stream = record { rpos = 0; wpos = 4; bytes = 0 ∷ 4 ∷ 7 ∷ 8 ∷ [] };
          is_tcp_packet = true;
          sent_size = 0;
        }
        ∷ [];
  };
  poller = Poller.init watching_none;
  stats = no_stats;
  sockets = [];
}

abbrev receiver : Host table deaf
receiver = record {
  channel = record (State.init 8 0 (some peer) protocol_tcp) {
    packet_reader = some (reader unknow (message 0 0 (replicate 200 0) true 0));
  };
  poller = Poller.init watching_none;
  stats = no_stats;
  sockets = [];
}

abbrev rounds : List Arrivals
rounds = (5, (0 ∷ []) ∷ (4 ∷ 7 ∷ []) ∷ []) ∷ (6, (8 ∷ []) ∷ []) ∷ []

abbrev nothing_later : List ℕ
nothing_later = []

sender-IsSending : IsSending table narrow default_limits peer sender
unfolding State.init
sender-IsSending = record {
  has_end_point = refl;
  sendable = (
    record {
      from_start = refl;
      sent_within = omega arith;
      within = omega arith;
      small = omega arith;
    },
    tt,
  );
}

receiver-IsReady : IsReady table deaf default_limits noting handler peer idle receiver
unfolding State.init
receiver-IsReady = record {
  reader = _;
  has_reader = refl;
  holds = at_start (replicate 200 0) true 0 (omega arith) (omega arith);
  has_end_point = refl;
  here = refl;
  live = refl;
  empty = refl;
}

took :
    accepted_by table narrow (transmit table narrow default_limits 1 sender)
    ≡ [] ++ (arrived rounds ++ nothing_later)
unfolding transmit send_packet send_rounds send_now process_send send_loop do_send sent_part
    sent_all on_send_completed stop_send check_send_window on_packet_sent condemn c_str send
    reason_of reason_of_errno bundles_length State.init register_for_write do_register request
    is_registered deregister_for_write unread_length
took = refl

transmit-receive_rounds_example :
    (s' : Host table narrow) × (h' : Host table deaf) × (got : Messages) × (more : Messages)
    × (transmit table narrow default_limits 1 sender ≡ ok s')
    × (receive_rounds table deaf default_limits noting (some 3) rounds receiver ≡ ok h')
    × ((7 ∷ 8 ∷ []) ∷ [] ≡ got ++ more)
    × (h'.sockets ≡ got)
    × (pending_all s'.channel.bundles ≡ []
        → nothing_later ≡ []
        → h'.channel.flags.condemned ≡ false
        → more ≡ [])
unfolding State.init
transmit-receive_rounds_example =
    transmit-receive_rounds table table deaf narrow default_limits default_limits noting handler
      peer peer ((7 ∷ 8 ∷ []) ∷ []) 1 sender rounds nothing_later receiver sender-IsSending refl
      refl refl (omega arith, omega arith, tt) (omega arith, tt) receiver-IsReady took
