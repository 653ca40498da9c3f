-- ===== src/Dispatcher/Loop.antt =====
-- libs/dispatcher/event_dispatcher.h and event_dispatcher.cpp: the loop over tasks, timers and the
-- network. What tasks, timers and the poller's handlers do is a parameter; they may stop the loop.
pub mod Wait
pub mod Life
mod Tests
use x_kbengine.Prelude.{
  ℕ, zero, suc, ◌+◌, ◌*◌, ◌%◌, ◌^◌, Bool, true, false, not, Option, none, some, List, [], ◌∷◌, ◌==◌,
  if◌then◌else◌, Outcome, ok, fail, no_fuel, undefined, assertion, ◌>>=◌, ltb,
}
use x_kbengine.Prelude.Int.{ℤ, pos, negsuc, of_pattern}
use x_kbengine.Network.Poller.{Fd, Poller}
use x_kbengine.Network.Poller.Dispatch.{Site, Waited, process_pending_events}
use x_kbengine.Dispatcher.Tasks
use x_kbengine.Dispatcher.Timers.{Timer, Timers, Action, Top, next_exp}
use x_kbengine.Dispatcher.Timers

pub data Status : Type 0 where
  status_running status_waiting_break_processing status_break_processing : Status

abbrev pub is_break : Status → Bool
is_break status_break_processing = true
is_break status_running = false
is_break status_waiting_break_processing = false

-- What tasks and handlers reach besides the poller: the status, and all that they do elsewhere.
pub record Shared (W : Type 0) : Type 0 where
  pub break_processing : Status
  pub rest : W

-- `max_wait` is `none` until it is set: the constructor leaves it without a value.
pub record EventDispatcher (K I O W : Type 0) : Type 0 where
  pub site : Site K I O (Shared W)
  pub tasks : List ℕ
  pub timers : Timers
  pub max_wait : Option ℤ
  pub num_timer_calls : ℕ

-- The conversion of a `long` to an `int`.
unfoldable pub int_of : ℕ → ℤ
int_of n = of_pattern 32 (n % 2 ^ 32)

unfoldable pub at_most : ℤ → ℤ → Bool
at_most (pos a) (pos b) = not (ltb b a)
at_most (pos a) (negsuc b) = false
at_most (negsuc a) (pos b) = true
at_most (negsuc a) (negsuc b) = not (ltb a b)

-- `std::min`
unfoldable pub int_min : ℤ → ℤ → ℤ
unfolding at_most
int_min a b = if at_most a b then a else b

module _ {K I O W : Type 0} where
  abbrev pub status_of : EventDispatcher K I O W → Status
  status_of d = d.site.world.break_processing

  abbrev pub with_status : Status → EventDispatcher K I O W → EventDispatcher K I O W
  with_status st d = record d {
    site = record d.site { world = record d.site.world { break_processing = st } };
  }

  unfoldable pub break_processing : Bool → EventDispatcher K I O W → EventDispatcher K I O W
  break_processing b d =
      if b then with_status status_break_processing d else with_status status_running d

  unfoldable pub has_break_processing : EventDispatcher K I O W → Bool
  has_break_processing d = is_break (status_of d)

  unfoldable pub set_wait_break_processing : EventDispatcher K I O W → EventDispatcher K I O W
  set_wait_break_processing d = with_status status_waiting_break_processing d

  unfoldable pub waiting_break_processing : EventDispatcher K I O W → Bool
  waiting_break_processing d = elim (status_of d) [
    | status_waiting_break_processing ↦ true
    | status_running ↦ false
    | status_break_processing ↦ false
  ]

  -- The start of `processOnce` and of `processUntilBreak`.
  unfoldable pub resume : EventDispatcher K I O W → EventDispatcher K I O W
  resume d = if is_break (status_of d) then d else with_status status_running d

  -- The interval is in milliseconds, and the clock's ticks are nanoseconds.
  -- The result is a handle, which is not set for an interval of 0.
  unfoldable pub add_timer :
      ℕ
      → ℕ
      → Option ℕ
      → Bool
      → EventDispatcher K I O W
      → Outcome (Option ℕ × EventDispatcher K I O W)
  add_timer now interval handler repeat d = elim handler [
    | none ↦ fail assertion
    | some h ↦
        let ticks = interval * 1000000 in
        let timers = Timers.add (now + ticks) (if repeat then ticks else 0) h d.timers in
        if interval == 0
        then ok (none, d)
        else ok (some d.timers.fresh, record d { timers = timers })
  ]

  unfoldable pub calculate_wait : (List Timer → Top) → ℕ → EventDispatcher K I O W → Outcome ℤ
  calculate_wait first now d = elim d.max_wait [
    | none ↦ fail undefined
    | some m ↦ elim d.timers.queue [
      | [] ↦ ok m
      | t ∷ ts ↦ ok (int_min m (int_of (next_exp first now d.timers)))
    ]
  ]

-- What a round finds: the two readings of the clock, the time that the wait took and its answer, which
-- may depend on how long it was to wait, and a number of rounds that is enough for the timers.
pub record Tick (K I O : Type 0) : Type 0 where
  pub now : ℕ
  pub later : ℕ
  pub timer_rounds : ℕ
  pub wait : Poller K I O → ℤ → ℕ × Waited

module _ {K I O W : Type 0} (run : Site K I O (Shared W) → ℕ → Site K I O (Shared W) × Bool)
    (first : List Timer → Top)
    (on_time : Site K I O (Shared W) → Timer → Site K I O (Shared W) × List Action)
    (on_input : I → Fd → Site K I O (Shared W) → Outcome (Site K I O (Shared W)))
    (on_output : O → Fd → Site K I O (Shared W) → Outcome (Site K I O (Shared W))) where
  unfoldable pub process_tasks : EventDispatcher K I O W → Outcome (EventDispatcher K I O W)
  process_tasks d =
      Tasks.process run d.site d.tasks >>= λ r. ok (record d { site = r.0; tasks = r.1 })

  unfoldable pub process_timers :
      Tick K I O → EventDispatcher K I O W → Outcome (EventDispatcher K I O W)
  process_timers tick d =
      Timers.process_loop first on_time tick.timer_rounds tick.now d.site d.timers 0 >>= λ r.
      ok (record d {
        site = r.0;
        timers = r.1;
        num_timer_calls = (d.num_timer_calls + r.2) % 2 ^ 32;
      })

  -- Without idling the wait is -1.
  unfoldable pub process_network :
      Bool → Tick K I O → EventDispatcher K I O W → Outcome (ℤ × EventDispatcher K I O W)
  process_network should_idle tick d =
      (if should_idle then calculate_wait first tick.later d else ok (negsuc 0)) >>= λ milliseconds.
      let found = tick.wait d.site.poller milliseconds in
      process_pending_events on_input on_output found.0 found.1 d.site >>= λ r.
      ok (r.0, record d { site = r.1 })

  unfoldable pub process_once :
      Bool → Tick K I O → EventDispatcher K I O W → Outcome (ℤ × EventDispatcher K I O W)
  process_once should_idle tick d =
      process_tasks (resume d)
      >>= (λ d1. if is_break (status_of d1) then ok d1 else process_timers tick d1)
      >>= (λ d2.
          if is_break (status_of d2) then ok (pos 0, d2) else process_network should_idle tick d2)

  -- `while (…) processOnce(true)`
  unfoldable pub rounds :
      ℕ → (ℕ → Tick K I O) → EventDispatcher K I O W → Outcome (EventDispatcher K I O W)
  rounds zero ticks d = if is_break (status_of d) then ok d else fail no_fuel
  rounds (suc fuel) ticks d =
      if is_break (status_of d)
      then ok d
      else process_once true (ticks 0) d >>= λ r. rounds fuel (λ i. ticks (i + 1)) r.1

  unfoldable pub process_until_break :
      ℕ → (ℕ → Tick K I O) → EventDispatcher K I O W → Outcome (EventDispatcher K I O W)
  process_until_break fuel ticks d = rounds fuel ticks (resume d)
