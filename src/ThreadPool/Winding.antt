-- ===== src/ThreadPool/Winding.antt =====
-- The threads of libs/threadpool/threadpool.cpp once the flag of destruction is set.
use x_kbengine.Prelude.{ℕ, ◌*◌, ◌≤◌, ◌<◌, ◌≡◌, ap, ◌∙◌, Bool, true, List, [], ◌∷◌, length, arith}
use x_kbengine.ThreadPool.{Pool, fetch_task, more_idle, less_idle, leave}
use x_kbengine.ThreadPool.Steps.{
  Place, testing, fetching, running, unoccupied, waiting, notified, leaving, ended, Worker, System,
  Move, go_on, stop, fetch, find_none, process, sleep, wake, time_out, time_out_notified, finish,
  by_worker, Step, work,
}
use x_kbengine.ThreadPool.Census.{sum_of, sum_of-middle}

-- How many steps a thread has at most before it ends or waits for a wake-up that does not come.
abbrev pub steps_left : Place → ℕ
steps_left fetching = 6
steps_left unoccupied = 5
steps_left waiting = 4
steps_left (running t) = 3
steps_left notified = 3
steps_left testing = 2
steps_left leaving = 1
steps_left ended = 0

abbrev pub left_of : Worker → ℕ
left_of w = steps_left w.place

fetch_flag : (p : Pool) → (fetch_task p).1.is_destroyed ≡ p.is_destroyed
unfolding fetch_task
fetch_flag p = ground arith

Move-steps_left :
    {raced : Bool} {p : Pool} {id idle : ℕ} {place : Place} {p' : Pool} {place' : Place}
    {got done : List ℕ}
    → Move raced p id idle place p' place' got done
    → p.is_destroyed ≡ true
    → (steps_left place' < steps_left place) × (p'.is_destroyed ≡ true)
unfolding more_idle less_idle leave
Move-steps_left (go_on h) d = ground (arith, h)
Move-steps_left (stop h) d = (omega arith, d)
Move-steps_left {p = p} (fetch t h) d = (omega arith, fetch_flag p ∙ d)
Move-steps_left {p = p} (find_none h) d = (omega arith, fetch_flag p ∙ d)
Move-steps_left (process t) d = (omega arith, d)
Move-steps_left (sleep n c) d = (omega arith, d)
Move-steps_left (wake n c) d = (omega arith, d)
Move-steps_left (time_out n c h) d = (omega arith, d)
Move-steps_left (time_out_notified n c h) d = (omega arith, d)
Move-steps_left finish d = (omega arith, d)

sum_of-6 : (ws : List Worker) → sum_of left_of ws ≤ 6 * length ws
unfolding sum_of
sum_of-6 [] = omega arith
sum_of-6 (w ∷ ws) = omega (arith, at_most_6 w.place, sum_of-6 ws)
  where
    at_most_6 : (place : Place) → steps_left place ≤ 6
    at_most_6 place = ground arith

-- The flag of destruction is set. A step of a thread lowers the number of steps that the threads have
-- left, which is at most six a thread, and leaves the flag set.
pub Step-sum_of :
    (s t : System)
    → s.pool.is_destroyed ≡ true
    → Step s by_worker t
    → (sum_of left_of t.workers < sum_of left_of s.workers)
      × (sum_of left_of s.workers ≤ 6 * length s.workers)
      × (t.pool.is_destroyed ≡ true)
Step-sum_of s t d (work front back id idle place place' p got done e m) =
    let (less, flag) = Move-steps_left m d in
    let w : Worker = record { id = id; idle = idle; place = place } in
    let w' : Worker = record { id = id; idle = idle; place = place' } in
    (
      omega (
        arith,
        less,
        ap (sum_of left_of) e,
        sum_of-middle left_of front back w,
        sum_of-middle left_of front back w',
      ),
      sum_of-6 s.workers,
      flag,
    )
