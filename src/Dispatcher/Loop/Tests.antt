-- ===== src/Dispatcher/Loop/Tests.antt =====
-- A loop with one task, which counts down and then stops the loop.
use x_kbengine.Prelude.{
  ℕ, zero, suc, ◌≡◌, refl, Bool, true, none, some, List, [], ◌∷◌, Outcome, ok, arith, if◌then◌else◌,
  ◌==◌,
}
use x_kbengine.Prelude.Int.{ℤ, pos}
use x_kbengine.Network.Poller.{Fd}
use x_kbengine.Network.Poller
use x_kbengine.Network.Poller.Dispatch.{Site, Waited, waited, wait_failed, process_pending_events}
use x_kbengine.Network.Poller.Dispatch
use x_kbengine.Dispatcher.Tasks
use x_kbengine.Dispatcher.Timers.{Timer, Action, Top, time_pending, next_exp, process_loop}
use x_kbengine.Dispatcher.Loop.{
  Shared, EventDispatcher, Tick, Status, status_running, status_break_processing, resume,
  process_tasks, process_timers, process_network, process_once, rounds, process_until_break,
  calculate_wait,
}
use x_kbengine.Dispatcher.Loop.Wait.{calculate_wait-negative, is_negative}

abbrev Place : Type 0
Place = Site ℕ ℕ ℕ (Shared ℕ)

abbrev at_count : Status → ℕ → Place
at_count st n = record {
  poller = Poller.init 0;
  world = record { break_processing = st; rest = n };
}

abbrev count_down : Place → ℕ → Place × Bool
count_down s t = elim s.world.rest [
  | zero ↦
      (record s { world = record { break_processing = status_break_processing; rest = 0 } }, true)
  | suc n ↦ (record s { world = record s.world { rest = n } }, true)
]

abbrev top : List Timer → Top
top [] = none
top (t ∷ ts) = some ([], t, ts)

abbrev on_time : Place → Timer → Place × List Action
on_time s t = (s, [])

abbrev on_ready : ℕ → Fd → Place → Outcome Place
on_ready h fd s = ok s

abbrev quiet : ℕ → Tick ℕ ℕ ℕ
quiet i = record { now = i; later = i; timer_rounds = 1; wait = λ p w. (0, waited []) }

abbrev loop_at : Status → ℕ → EventDispatcher ℕ ℕ ℕ ℕ
loop_at st n = record {
  site = at_count st n;
  tasks = 0 ∷ [];
  timers = record { queue = []; fresh = 0; registered = λ h. pos 0 };
  max_wait = some (pos 5);
  num_timer_calls = 0;
}

-- Three rounds count down, and the fourth stops the loop.
process_until_break_test :
    process_until_break count_down top on_time on_ready on_ready 4 quiet (loop_at status_running 3)
    ≡ ok (loop_at status_break_processing 0)
unfolding process_until_break rounds process_once resume process_tasks process_timers
    process_network Tasks.process Tasks.process_loop process_loop calculate_wait
    process_pending_events Dispatch.process_events
process_until_break_test = refl

abbrev due : ℕ → Timer
due t = record { id = 0; time = t; interval = 0; handler = some 7; state = time_pending }

-- The timer is due in 3 seconds.
abbrev soon : EventDispatcher ℕ ℕ ℕ ℕ
soon = record (loop_at status_running 0) {
  timers = record {
    queue = due 3000000000 ∷ [];
    fresh = 1;
    registered = λ h. if h == 7 then pos 1 else pos 0;
  };
}

calculate_wait-negative_example :
    (w : ℤ) × (calculate_wait top 0 soon ≡ ok w) × (is_negative w ≡ true)
unfolding next_exp
calculate_wait-negative_example =
    calculate_wait-negative top 0 (pos 5) (due 3000000000) [] soon refl refl (omega arith)
      (omega arith)
