-- ===== src/Dispatcher/Timers/Tests.antt =====
-- A tick on three timers: one is behind, one is cancelled by it, one is for later.
use x_kbengine.Prelude.Int.{pos}
use x_kbengine.Prelude.{
  ℕ, ◌≡◌, refl, sym, ap, subst, none, some, List, [], ◌∷◌, ◌++◌, arith, leb, ◌==◌, if◌then◌else◌,
  Bool-cases, inl, inr, ok,
}
use x_kbengine.Dispatcher.Timers.{
  Timer, Timers, time_pending, Action, cancel_timer, add_timer, Top, process_loop, is_cancelled,
  destroy_handler, clear,
}
use x_kbengine.Dispatcher.Timers.Counts.{IsCounted, live_one, process_loop-destroy_handler}
use x_kbengine.Dispatcher.Timers.Process.{Picks, AllFrom, rest-AllFrom, process_loop-AllFrom}

-- The first of those that are due first.
abbrev earlier : Timer → List Timer → Top → Top
earlier t l none = some ([], t, [])
earlier t l (some (front, u, back)) =
    if leb t.time u.time then some ([], t, l) else some (t ∷ front, u, back)

abbrev first : List Timer → Top
first [] = none
first (t ∷ l) = earlier t l (first l)

earlier-Picks : (t : Timer) (l : List Timer) (o : Top) → Picks l o → Picks (t ∷ l) (earlier t l o)
earlier-Picks t l none p = (ap (◌∷◌ t) p, tt, tt)
earlier-Picks t l (some (front, u, back)) (cut, f, b) = elim (Bool-cases (leb t.time u.time)) [
  | inl below ↦ rw below (
    refl,
    tt,
    subst (AllFrom t.time) (sym cut) (rest-AllFrom t.time front back u (ground (arith, below)) f b),
  )
  | inr above ↦ rw above (ap (◌∷◌ t) cut, (ground (arith, above), f), b)
]

first-Picks : (l : List Timer) → Picks l (first l)
first-Picks [] = refl
first-Picks (t ∷ l) = earlier-Picks t l (first l) (first-Picks l)

-- The time-out of timer 0 cancels timer 1, and adds one for time 100.
abbrev handle : List ℕ → Timer → List ℕ × List Action
handle w t = (w ++ t.id ∷ [], cancel_timer 1 ∷ add_timer 100 0 7 ∷ [])

abbrev timer : ℕ → ℕ → ℕ → Timer
timer id time interval = record {
  id = id;
  time = time;
  interval = interval;
  handler = some 7;
  state = time_pending;
}

abbrev timers : Timers
timers = record {
  queue = timer 0 3 5 ∷ timer 1 9 0 ∷ timer 2 20 0 ∷ [];
  fresh = 3;
  registered = λ h. if h == 7 then pos 3 else pos 0;
}

process_loop-AllFrom_example :
    (fuel : ℕ) × (w' : List ℕ) × (s' : Timers) × (fired : ℕ) × (process_loop first handle fuel 10 []
        timers 0
      ≡ ok (w', s', fired))
    × AllFrom 11 s'.queue
process_loop-AllFrom_example =
    process_loop-AllFrom first handle first-Picks 10 (λ w t. (omega arith, tt)) [] timers

timers-IsCounted : IsCounted timers
unfolding live_one is_cancelled
timers-IsCounted h = ground arith

process_loop-destroy_handler_example :
    (fuel : ℕ) × (w' : List ℕ) × (s' : Timers) × (fired : ℕ) × (process_loop first handle fuel 10 []
        timers 0
      ≡ ok (w', s', fired))
    × IsCounted s'
    × ((h : ℕ) → destroy_handler h (clear s').registered ≡ ok tt)
process_loop-destroy_handler_example =
    process_loop-destroy_handler first handle first-Picks 10 (λ w t. (omega arith, tt)) [] timers
      timers-IsCounted
