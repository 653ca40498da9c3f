-- ===== src/ThreadPool/Tests.antt =====
-- The thread pool at concrete inputs.
use x_kbengine.Prelude.{◌≡◌, ◌⊎◌, inr, refl, true, false, [], ◌∷◌, length, arith, ◌==◌}
use x_kbengine.ThreadPool.{fetch_task, push_task, init, add_threads, thread_ids, recycle, is_full}
use x_kbengine.ThreadPool.Steps.{
  testing, fetching, running, notified, System, busy, not_called, awaiting, spurious, go_on, fetch,
  process, work, wake_up, submit, look, expand, Reachable, started, next, initialize, new_workers,
}
use x_kbengine.ThreadPool.Census.{sum_of, is_live}
use x_kbengine.ThreadPool.Accounts.{IsAccounted}
use x_kbengine.Prelude.{◌*◌, ◌<◌, ◌≤◌}
use x_kbengine.ThreadPool.Steps.{leaving, stop, work}
use x_kbengine.ThreadPool.Winding.{left_of, Step-sum_of}
use x_kbengine.ThreadPool.Invariant.{Reachable-IsAccounted}
use x_kbengine.ThreadPool.Shutdown.{stranded, stranded-Step, is_outside, all_ended, recycle-live}

-- A pool of two threads at most, one at first. Task 7 is handed in and found to need a new thread; the
-- first thread fetches and processes it.
abbrev worked : System
worked = record {
  pool = record {
    initial = 1;
    grow = 1;
    max = 2;
    timeout = 60;
    idles = 0;
    is_destroyed = false;
    tasks = [];
    threads = 0 ∷ 1 ∷ [];
    recycled = [];
  };
  workers =
      record { id = 0; idle = 0; place = testing }
      ∷ record { id = 1; idle = 60; place = testing }
      ∷ [];
  callers = [];
  destroyer = not_called;
  raced = false;
  submitted = 7 ∷ [];
  fetched = 7 ∷ [];
  processed = 7 ∷ [];
  fresh = 2;
}

worked-Reachable : Reachable 1 1 2 60 worked
unfolding initialize new_workers init add_threads thread_ids push_task fetch_task is_full
worked-Reachable =
    next
      (next
        (next
          (next (next (next started (submit 7)) (look [] [] busy refl (inr (refl, refl))))
            (expand [] [] refl refl))
          (work [] _ 0 0 testing fetching _ [] [] refl (go_on refl)))
        (work [] _ 0 0 fetching (running 7) _ (7 ∷ []) [] refl (fetch 7 refl)))
      (work [] _ 0 0 (running 7) testing _ [] (7 ∷ []) refl (process 7))

Reachable-IsAccounted_example : IsAccounted 1 2 worked
Reachable-IsAccounted_example = Reachable-IsAccounted (omega arith) worked-Reachable

recycle-live_example :
    ((length worked.pool.recycled == length worked.pool.threads) ≡ all_ended worked.workers)
    × (length (recycle worked.pool).threads ≡ sum_of is_live worked.workers)
recycle-live_example = recycle-live (omega arith) worked-Reachable

abbrev woken : System
woken = record (stranded 1 2 60) { workers = record { id = 0; idle = 0; place = notified } ∷ [] }

stranded-Step_example :
    Reachable 1 1 2 60 (stranded 1 2 60)
    × ((stranded 1 2 60).destroyer ≡ awaiting)
    × ((is_outside spurious ≡ true) ⊎ (woken ≡ stranded 1 2 60))
stranded-Step_example = stranded-Step 1 2 60 (wake_up [] [] 0 0 refl)

-- The first thread of a pool that is being destroyed sees the flag.
abbrev flagged_pool : System
flagged_pool = record worked { pool = record worked.pool { is_destroyed = true } }

abbrev left_loop : System
left_loop = record flagged_pool {
  workers =
      record { id = 0; idle = 0; place = leaving }
      ∷ record { id = 1; idle = 60; place = testing }
      ∷ [];
}

Step-sum_of_example :
    (sum_of left_of left_loop.workers < sum_of left_of flagged_pool.workers)
    × (sum_of left_of flagged_pool.workers ≤ 6 * length flagged_pool.workers)
    × (left_loop.pool.is_destroyed ≡ true)
Step-sum_of_example = Step-sum_of flagged_pool left_loop refl (
    work [] (record { id = 1; idle = 60; place = testing } ∷ []) 0 0 testing leaving
      flagged_pool.pool [] [] refl (stop refl))
