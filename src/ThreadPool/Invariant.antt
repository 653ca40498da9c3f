-- ===== src/ThreadPool/Invariant.antt =====
-- The states that the pool of libs/threadpool/threadpool.cpp reaches.
use x_kbengine.Prelude.{ℕ, ◌≤◌, refl, inr, true, ◌∷◌, ◌++◌, map, arith}
use x_kbengine.ThreadPool.{add_threads, recycle, init}
use x_kbengine.ThreadPool.Steps.{
  System, pushed, flagged, awaiting, returned, Label, Step, work, wake_up, submit, look, notify_one,
  notify_none, refuse, expand, tidy, set_flag, notify_all, all_left, clean_up, drained, Reachable,
  started, next, initialize, notify_worker,
}
use x_kbengine.ThreadPool.Census.{
  sum_of-map, count, is_idle, is_live, is_live_at, holds, new_workers-census, holds-new_workers,
  is_live_at-new_workers, notify_worker-census,
}
use x_kbengine.ThreadPool.Accounts.{
  IsAccounted, moved, roused, worked, tidied, expanded, queued, unlocked, aside,
}

Step-IsAccounted :
    {grow max : ℕ} {s t : System} {l : Label}
    → IsAccounted grow max s
    → Step s l t
    → IsAccounted grow max t
unfolding recycle
Step-IsAccounted a (work front back id idle place place' p got done e m) =
    worked a front back id idle place place' p got done e m
Step-IsAccounted a (wake_up front back id idle e) = roused a front back id idle e
Step-IsAccounted {s = s} a (submit t) = queued a t (pushed ∷ s.callers)
Step-IsAccounted {s = s} a (look front back found e h) =
    aside a (front ++ found ∷ back) s.destroyer s.pool.is_destroyed
Step-IsAccounted {s = s} a (notify_one callers callers' front back id idle c e) =
    unlocked (roused a front back id idle e) (callers ++ callers')
Step-IsAccounted a (notify_none callers callers' c e) = unlocked a (callers ++ callers')
Step-IsAccounted {s = s} a (refuse front back c h) =
    aside a (front ++ back) s.destroyer s.pool.is_destroyed
Step-IsAccounted a (expand front back c h) = expanded a (front ++ back) h
Step-IsAccounted a tidy = tidied a
Step-IsAccounted {s = s} a (set_flag d) = aside a s.callers flagged true
Step-IsAccounted {s = s} a (notify_all d) =
    aside
      (moved a (map notify_worker s.workers)
        (sum_of-map is_idle notify_worker (λ w. (notify_worker-census 0 w).0) s.workers)
        (sum_of-map is_live notify_worker (λ w. (notify_worker-census 0 w).1) s.workers)
        (λ n. sum_of-map (is_live_at n) notify_worker (λ w. (notify_worker-census n w).2) s.workers)
        (λ n. sum_of-map (holds n) notify_worker (λ w. (notify_worker-census n w).3) s.workers))
      s.callers awaiting s.pool.is_destroyed
Step-IsAccounted {s = s} a (all_left d h) = aside a s.callers drained s.pool.is_destroyed
Step-IsAccounted {s = s} a (clean_up d) = aside (tidied a) s.callers returned s.pool.is_destroyed

initialize-IsAccounted :
    (initial grow max timeout : ℕ)
    → initial ≤ max
    → IsAccounted grow max (initialize initial grow max timeout)
unfolding initialize init add_threads count
initialize-IsAccounted initial grow max timeout h =
    let (l, i, n) = new_workers-census 0 0 initial in
    record {
      order = refl;
      tally = λ m. omega (arith, holds-new_workers m 0 0 initial);
      idle = inr (omega (arith, i));
      live = omega (arith, l, n);
      each = λ m. omega (arith, is_live_at-new_workers m 0 0 initial);
      room = omega (arith, n, h);
      same_max = refl;
      same_grow = refl;
    }

-- In every state that the pool, its threads and its callers can reach, in any interleaving: the tasks
-- are fetched in the order in which they were handed to `execute`, and those not fetched are in the
-- queue in that order; each fetched task has been processed or is with exactly one thread, so that
-- none is processed twice; `idles_` is the number of threads that wait or were just woken, as far as a
-- `uint32_t` goes, as long as no call of `execute` found an idle thread and so unlocked `stats_lock_` a
-- second time; the list of threads holds those that run and those to recycle, and is at most the
-- maximum and, where the pool grows, one step of growth less one thread. Condition: the initial number
-- is not above the maximum.
pub Reachable-IsAccounted :
    {initial grow max timeout : ℕ} {s : System}
    → initial ≤ max
    → Reachable initial grow max timeout s
    → IsAccounted grow max s
Reachable-IsAccounted {initial} {grow} {max} {timeout} h started =
    initialize-IsAccounted initial grow max timeout h
Reachable-IsAccounted h (next r st) = Step-IsAccounted (Reachable-IsAccounted h r) st
