-- ===== src/Dispatcher/Timers.antt =====
-- libs/common/timer.h and timer.cpp, libs/dispatcher/timers.h and timers.cpp. Times are ticks of the
-- clock. A timer that is neither in the queue nor executing has no more effect, so that the timers are
-- kept where they lie: a handle is the identity of its timer.
--
-- `std::priority_queue` is a list with a parameter that picks a timer of it that is due first: which
-- of several is not said. `TimerHandler` is virtual, so it is a parameter as well: what a time-out does
-- to the world, and the timers that it cancels and adds; its `onRelease` does nothing, as by default.
pub mod Process
pub mod Counts
mod Tests
use x_kbengine.Prelude.Int.{ℤ, increment, decrement, is_zero}
use x_kbengine.Prelude.{
  ℕ, zero, suc, ◌+◌, ◌-◌, ◌≤◌, ◌≡◌, Bool, true, false, not, ◌&&◌, ◌||◌, Option, none, some, List,
  [], ◌∷◌, ◌++◌, map, leb, ltb, ◌==◌, if◌then◌else◌, Outcome, ok, fail, no_fuel, assertion,
}

pub data TimeState : Type 0 where
  time_pending time_executing time_cancelled : TimeState

-- `handler` is `pHandler_`, `none` for a null pointer.
pub record Timer : Type 0 where
  pub id : ℕ
  pub time : ℕ
  pub interval : ℕ
  pub handler : Option ℕ
  pub state : TimeState

abbrev pub is_cancelled_state : TimeState → Bool
is_cancelled_state time_cancelled = true
is_cancelled_state _ = false

unfoldable pub is_cancelled : Timer → Bool
is_cancelled t = is_cancelled_state t.state

-- `Timer::cancel`
unfoldable pub cancel : Timer → Timer
unfolding is_cancelled
cancel t = if is_cancelled t then t else record t { state = time_cancelled; handler = none }

-- What a handler may ask for: `TimerHandle::cancel`, and `Timers::add`.
pub data Action : Type 0 where
  cancel_timer : ℕ → Action
  add_timer : ℕ → ℕ → ℕ → Action

-- `registered` is `numTimesRegistered_` of each handler.
pub record Timers : Type 0 where
  pub queue : List Timer
  pub fresh : ℕ
  pub registered : ℕ → ℤ

-- `incTimerRegisterCount` and `decTimerRegisterCount`
unfoldable pub inc_timer_register_count : ℕ → (ℕ → ℤ) → ℕ → ℤ
inc_timer_register_count handler counts h = if h == handler then increment (counts h) else counts h

unfoldable pub dec_timer_register_count : ℕ → (ℕ → ℤ) → ℕ → ℤ
dec_timer_register_count handler counts h = if h == handler then decrement (counts h) else counts h

-- `~TimerHandler()`
unfoldable pub destroy_handler : ℕ → (ℕ → ℤ) → Outcome (Unit {0})
destroy_handler handler counts = if is_zero (counts handler) then ok tt else fail assertion

-- What `Timer::cancel` does to the count of the timer's handler: `TimerHandler::release`, once.
unfoldable pub release : Timer → (ℕ → ℤ) → ℕ → ℤ
unfolding is_cancelled dec_timer_register_count
release t counts =
    if is_cancelled t
    then counts
    else elim t.handler [ none ↦ counts | some h ↦ dec_timer_register_count h counts ]

-- `Timers::add`
unfoldable pub add : ℕ → ℕ → ℕ → Timers → Timers
unfolding inc_timer_register_count
add start interval handler s = record {
  queue =
      (record {
        id = s.fresh;
        time = start;
        interval = interval;
        handler = some handler;
        state = time_pending;
      })
      ∷ s.queue;
  fresh = s.fresh + 1;
  registered = inc_timer_register_count handler s.registered;
}

unfoldable pub release_all : List Timer → (ℕ → ℤ) → ℕ → ℤ
unfolding release
release_all [] counts = counts
release_all (t ∷ ts) counts = release_all ts (release t counts)

-- `Timers::clear`: each timer leaves the queue, cancelled, so that nothing of it is left.
unfoldable pub clear : Timers → Timers
unfolding release_all
clear s = record s { queue = []; registered = release_all s.queue s.registered }

-- `TimerHandle::cancel` on a timer, if it is the handle's.
unfoldable pub cancel_if : ℕ → Timer → Timer
cancel_if id t = if t.id == id then cancel t else t

-- The counts after it, over the timers that may be the handle's.
unfoldable pub release_if : ℕ → List Timer → (ℕ → ℤ) → ℕ → ℤ
unfolding release
release_if id [] counts = counts
release_if id (t ∷ ts) counts = release_if id ts (if t.id == id then release t counts else counts)

-- An action reaches the queue and the timer that executes.
unfoldable pub act : Action → Timers → Timer → Timers × Timer
act (cancel_timer id) s t = (
  record s {
    queue = map (cancel_if id) s.queue;
    registered = release_if id (t ∷ s.queue) s.registered;
  },
  cancel_if id t,
)
act (add_timer start interval handler) s t = (add start interval handler s, t)

unfoldable pub act_all : List Action → Timers → Timer → Timers × Timer
act_all [] s t = (s, t)
act_all (a ∷ rest) s t = let (s', t') = act a s t in act_all rest s' t'

-- The end of `Timer::triggerTimer`, after the time-out: a timer without an interval is cancelled, and
-- one that goes on gets its next time.
unfoldable pub finish_trigger : Timer → Timer
finish_trigger t =
    let u = if t.interval == 0 && not (is_cancelled t) then cancel t else t in
    if is_cancelled u then u else record u { time = u.time + u.interval; state = time_pending }

-- The counts after it: the timer was cancelled if it has no interval.
unfoldable pub finish_counts : Timer → (ℕ → ℤ) → ℕ → ℤ
unfolding release
finish_counts t counts =
    if t.interval == 0 && not (is_cancelled t) then release t counts else counts

-- `timeQueue_.top()` and `pop()`: the timers before and behind it in the list.
abbrev pub Top : Type 0
Top = Option (List Timer × Timer × List Timer)

-- `Timers::nextExp`
unfoldable pub next_exp : (List Timer → Top) → ℕ → Timers → ℕ
next_exp first now s = elim (first s.queue) [
  | none ↦ 0
  | some (front, t, back) ↦ if ltb t.time now then 0 else t.time - now
]

module _ {W : Type 0} (first : List Timer → Top) (handle : W → Timer → W × List Action) where
  -- One round for the timer that was taken from the queue; the last result counts those that fired.
  unfoldable pub fire : W → Timers → Timer → W × Timers × ℕ
  fire w s t =
      if is_cancelled t
      then (w, s, 0)
      else let (w', actions) = handle w (record t { state = time_executing }) in
        let (s', t') = act_all actions s (record t { state = time_executing }) in
        let u = finish_trigger t' in
        let s'' = record s' { registered = finish_counts t' s'.registered } in
        (w', if is_cancelled u then s'' else record s'' { queue = u ∷ s''.queue }, 1)

  -- `Timers::process`. Without a bound on what handlers add there is none for the rounds: fuel.
  unfoldable pub process_loop : ℕ → ℕ → W → Timers → ℕ → Outcome (W × Timers × ℕ)
  process_loop zero now w s fired = fail no_fuel
  process_loop (suc fuel) now w s fired = elim (first s.queue) [
    | none ↦ ok (w, s, fired)
    | some (front, t, back) ↦ elim (leb t.time now || is_cancelled t) [
      | false ↦ ok (w, s, fired)
      | true ↦
          let (w', s', n) = fire w (record s { queue = front ++ back }) t in
          process_loop fuel now w' s' (fired + n)
    ]
  ]
