-- ===== src/ThreadPool/Steps.antt =====
-- libs/threadpool/threadpool.cpp: the threads of the pool, its callers and its destruction, as steps that
-- interleave in any order. A step is what a thread does under one lock, or one access to an atomic flag.
--
-- `execute` calls the destructor of its guard, whose second run unlocks `stats_lock_` once more. That may
-- take the lock from a thread that holds it, so that from then on changes of `idles_` can meet, and what
-- it becomes is not determined. `raced` says that this can have happened.
use x_kbengine.Prelude.{
  ℕ, zero, suc, ◌+◌, ◌<◌, ◌≡◌, ◌⊎◌, Bool, none, some, true, false, List, [], ◌∷◌, ◌++◌, map, length,
}
use x_kbengine.ThreadPool.{
  Pool, init, push_task, fetch_task, is_full, more_idle, less_idle, leave, add_threads, recycle,
}

-- Where a thread stands in `worker`.
pub data Place : Type 0 where
  testing : Place  -- the condition of the loop
  fetching : Place  -- before `fetchTask`
  running : ℕ → Place  -- before `pTask->process()`
  unoccupied : Place  -- without a task, before the lock of `stats_lock_`
  waiting : Place  -- in `cv_task_.wait` or `wait_for`
  notified : Place  -- woken, before `--idles_`
  leaving : Place  -- behind the loop
  ended : Place

-- `idle` is the argument of `worker`.
pub record Worker : Type 0 where
  pub id : ℕ
  pub idle : ℕ
  pub place : Place

-- Where a call of `execute` stands, its task in the queue: before it looks at `idles_`, and then
-- before `notify_one` or before it looks for room for more threads.
pub data Caller : Type 0 where
  pushed granted busy : Caller

-- Where `destroy` stands: not called, the flag set, waiting for `cv_recycle_`,
-- behind that wait, returned.
pub data Destroyer : Type 0 where
  not_called flagged awaiting drained returned : Destroyer

-- Beside the pool and the threads: the tasks that were handed to `execute`, those that were fetched, and
-- those that were processed, each in order, and the next thread's identity.
pub record System : Type 0 where
  pub pool : Pool
  pub workers : List Worker
  pub callers : List Caller
  pub destroyer : Destroyer
  pub raced : Bool
  pub submitted : List ℕ
  pub fetched : List ℕ
  pub processed : List ℕ
  pub fresh : ℕ

-- New threads start at the head of `worker`.
unfoldable pub new_workers : ℕ → ℕ → ℕ → List Worker
new_workers fresh idle zero = []
new_workers fresh idle (suc n) =
    (record { id = fresh; idle = idle; place = testing }) ∷ new_workers (fresh + 1) idle n

-- After `initialize`.
unfoldable pub initialize : ℕ → ℕ → ℕ → ℕ → System
initialize initial grow max timeout = record {
  pool = add_threads 0 initial (init initial grow max timeout);
  workers = new_workers 0 0 initial;
  callers = [];
  destroyer = not_called;
  raced = false;
  submitted = [];
  fetched = [];
  processed = [];
  fresh = initial;
}

-- `notify_all`
unfoldable pub notify_worker : Worker → Worker
notify_worker w = elim w.place [
  | waiting ↦ record w { place = notified }
  | testing ↦ w
  | fetching ↦ w
  | running t ↦ w
  | unoccupied ↦ w
  | notified ↦ w
  | leaving ↦ w
  | ended ↦ w
]

-- What `idles_` may become by a change that gives `n` where no other meets it.
abbrev pub Counted : Bool → ℕ → ℕ → Type 0
Counted raced n idles = (raced ≡ true) ⊎ (idles ≡ n)

-- One move of a thread: the pool and the place afterwards, and the tasks fetched and processed.
pub data Move (raced : Bool) (p : Pool) (id idle : ℕ)
    : Place → Pool → Place → List ℕ → List ℕ → Type 0 where
  go_on : p.is_destroyed ≡ false → Move raced p id idle testing p fetching [] []
  stop : p.is_destroyed ≡ true → Move raced p id idle testing p leaving [] []
  fetch :
      (t : ℕ)
      → (fetch_task p).0 ≡ some t
      → Move raced p id idle fetching (fetch_task p).1 (running t) (t ∷ []) []
  find_none :
      (fetch_task p).0 ≡ none → Move raced p id idle fetching (fetch_task p).1 unoccupied [] []
  process : (t : ℕ) → Move raced p id idle (running t) p testing [] (t ∷ [])
  sleep :
      (n : ℕ)
      → Counted raced (more_idle p).idles n
      → Move raced p id idle unoccupied (record p { idles = n }) waiting [] []
  wake :
      (n : ℕ)
      → Counted raced (less_idle p).idles n
      → Move raced p id idle notified (record p { idles = n }) testing [] []
  time_out :
      (n : ℕ)
      → Counted raced (less_idle p).idles n
      → 0 < idle
      → Move raced p id idle waiting (record p { idles = n }) leaving [] []
  -- The time was over before a notified thread had the lock again.
  time_out_notified :
      (n : ℕ)
      → Counted raced (less_idle p).idles n
      → 0 < idle
      → Move raced p id idle notified (record p { idles = n }) leaving [] []
  finish : Move raced p id idle leaving (leave id p) ended [] []

-- Who makes a step. A wait on a condition variable may end without a notification.
pub data Label : Type 0 where
  by_worker spurious new_call by_caller by_user by_destroyer : Label

pub data Step (s : System) : Label → System → Type 0 where
  work :
      (front back : List Worker) (id idle : ℕ) (place place' : Place) (p : Pool) (got done : List ℕ)
      → s.workers ≡ front ++ record { id = id; idle = idle; place = place } ∷ back
      → Move s.raced s.pool id idle place p place' got done
      → Step s by_worker (record s {
        pool = p;
        workers = front ++ record { id = id; idle = idle; place = place' } ∷ back;
        fetched = s.fetched ++ got;
        processed = s.processed ++ done;
      })
  wake_up :
      (front back : List Worker) (id idle : ℕ)
      → s.workers ≡ front ++ record { id = id; idle = idle; place = waiting } ∷ back
      → Step s spurious
          (record s { workers = front ++ record { id = id; idle = idle; place = notified } ∷ back })
  submit :
      (t : ℕ)
      → Step s new_call (record s {
        pool = push_task t s.pool;
        callers = pushed ∷ s.callers;
        submitted = s.submitted ++ t ∷ [];
      })
  look :
      (front back : List Caller) (found : Caller)
      → s.callers ≡ front ++ pushed ∷ back
      → ((0 < s.pool.idles) × (found ≡ granted)) ⊎ ((s.pool.idles ≡ 0) × (found ≡ busy))
      → Step s by_caller (record s { callers = front ++ found ∷ back })
  notify_one :
      (callers callers' : List Caller) (front back : List Worker) (id idle : ℕ)
      → s.callers ≡ callers ++ granted ∷ callers'
      → s.workers ≡ front ++ record { id = id; idle = idle; place = waiting } ∷ back
      → Step s by_caller (record s {
        callers = callers ++ callers';
        raced = true;
        workers = front ++ record { id = id; idle = idle; place = notified } ∷ back;
      })
  notify_none :
      (callers callers' : List Caller)
      → s.callers ≡ callers ++ granted ∷ callers'
      → map notify_worker s.workers ≡ s.workers
      → Step s by_caller (record s { callers = callers ++ callers'; raced = true })
  refuse :
      (front back : List Caller)
      → s.callers ≡ front ++ busy ∷ back
      → is_full s.pool ≡ true
      → Step s by_caller (record s { callers = front ++ back })
  expand :
      (front back : List Caller)
      → s.callers ≡ front ++ busy ∷ back
      → is_full s.pool ≡ false
      → Step s by_caller (record s {
        pool = add_threads s.fresh s.pool.grow s.pool;
        workers = s.workers ++ new_workers s.fresh s.pool.timeout s.pool.grow;
        callers = front ++ back;
        fresh = s.fresh + s.pool.grow;
      })
  tidy : Step s by_user (record s { pool = recycle s.pool })
  set_flag :
      s.destroyer ≡ not_called
      → Step s by_destroyer
          (record s { pool = record s.pool { is_destroyed = true }; destroyer = flagged })
  notify_all :
      s.destroyer ≡ flagged
      → Step s by_destroyer
          (record s { workers = map notify_worker s.workers; destroyer = awaiting })
  all_left :
      s.destroyer ≡ awaiting
      → length s.pool.recycled ≡ length s.pool.threads
      → Step s by_destroyer (record s { destroyer = drained })
  clean_up :
      s.destroyer ≡ drained
      → Step s by_destroyer (record s { pool = recycle s.pool; destroyer = returned })

pub data Reachable (initial grow max timeout : ℕ) : System → Type 0 where
  started : Reachable initial grow max timeout (initialize initial grow max timeout)
  next :
      {s t : System} {l : Label}
      → Reachable initial grow max timeout s
      → Step s l t
      → Reachable initial grow max timeout t
