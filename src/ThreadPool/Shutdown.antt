-- ===== src/ThreadPool/Shutdown.antt =====
-- `destroy` of libs/threadpool/threadpool.cpp: the condition that it waits for, and a state in which it
-- waits.
use x_kbengine.Prelude.{
  ℕ, ◌≤◌, ◌<◌, ◌≡◌, ◌⊎◌, inl, inr, refl, sym, ap, Bool, true, false, List, [], ◌∷◌, ◌++◌, arith,
  length, length-append, ◌==◌, if◌then◌else◌,
}
use x_kbengine.ThreadPool.{
  Pool, fetch_task, more_idle, erase_threads, recycle, init, add_threads, thread_ids,
}
use x_kbengine.ThreadPool.Steps.{
  Place, testing, fetching, unoccupied, waiting, Worker, System, pushed, granted, busy, awaiting,
  Move, go_on, stop, fetch, find_none, process, sleep, wake, time_out, time_out_notified, finish,
  Label, by_worker, spurious, new_call, by_caller, by_user, by_destroyer, Step, work, wake_up,
  submit, look, notify_one, notify_none, refuse, expand, tidy, set_flag, notify_all, all_left,
  clean_up, Reachable, started, next, initialize, new_workers, notify_worker,
}
use x_kbengine.ThreadPool.Census.{sum_of, is_live, live_place, length-erase_threads}
use x_kbengine.ThreadPool.Invariant.{Reachable-IsAccounted}

abbrev pub all_ended : List Worker → Bool
all_ended [] = true
all_ended (w ∷ ws) = if live_place w.place == 0 then all_ended ws else false

all_ended-live : (ws : List Worker) → all_ended ws ≡ (sum_of is_live ws == 0)
unfolding sum_of
all_ended-live [] = refl
all_ended-live (w ∷ ws) = ground (arith, all_ended-live ws)

-- In every state that the pool can reach from an initial number not above the maximum, the condition
-- that `destroy` waits for holds exactly if every thread has ended, and `recycle` leaves as many threads
-- on the list as have not ended.
pub recycle-live :
    {initial grow max timeout : ℕ} {s : System}
    → initial ≤ max
    → Reachable initial grow max timeout s
    → ((length s.pool.recycled == length s.pool.threads) ≡ all_ended s.workers)
      × (length (recycle s.pool).threads ≡ sum_of is_live s.workers)
unfolding recycle
recycle-live {s = s} h r =
    let a = Reachable-IsAccounted h r in
    (
      ground (arith, a.live, all_ended-live s.workers),
      omega (
        arith,
        a.live,
        length-erase_threads s.pool.recycled s.pool.threads (λ n. omega (arith, a.each n)),
      ),
    )

-- A pool with one thread, in which `destroy` set the flag and notified after the thread had tested the
-- flag and before it began to wait.
abbrev pub stranded : ℕ → ℕ → ℕ → System
stranded grow max timeout = record {
  pool = record {
    initial = 1;
    grow = grow;
    max = max;
    timeout = timeout;
    idles = 1;
    is_destroyed = true;
    tasks = [];
    threads = 0 ∷ [];
    recycled = [];
  };
  workers = record { id = 0; idle = 0; place = waiting } ∷ [];
  callers = [];
  destroyer = awaiting;
  raced = false;
  submitted = [];
  fetched = [];
  processed = [];
  fresh = 1;
}

stranded-Reachable :
    (grow max timeout : ℕ) → Reachable 1 grow max timeout (stranded grow max timeout)
unfolding initialize new_workers notify_worker fetch_task more_idle init add_threads thread_ids
stranded-Reachable grow max timeout =
    next
      (next
        (next
          (next (next started (work [] [] 0 0 testing fetching _ [] [] refl (go_on refl)))
            (work [] [] 0 0 fetching unoccupied _ [] [] refl (find_none refl)))
          (set_flag refl))
        (notify_all refl))
      (work [] [] 0 0 unoccupied waiting _ [] [] refl (sleep 1 (inr refl)))

-- What happens without the pool's own threads: a wake-up that no one asked for, or a new task.
abbrev pub is_outside : Label → Bool
is_outside spurious = true
is_outside new_call = true
is_outside by_worker = false
is_outside by_caller = false
is_outside by_user = false
is_outside by_destroyer = false

no_middle : {A : Type 0} (front back : List A) (x : A) → [] ≡ front ++ x ∷ back → ⊥
no_middle front back x e = omega (arith, ap length e, length-append front (x ∷ back))

only_middle : {A : Type 0} (front back : List A) (x y : A) → x ∷ [] ≡ front ++ y ∷ back → x ≡ y
only_middle [] back x y e = cc
only_middle (z ∷ front) back x y e =
    absurd (omega (arith, ap length e, length-append front (y ∷ back)))

Move-waiting :
    {raced : Bool} {p : Pool} {id idle : ℕ} {p' : Pool} {place place' : Place} {got done : List ℕ}
    → Move raced p id idle place p' place' got done
    → place ≡ waiting
    → 0 < idle
Move-waiting (go_on h) e = ground arith
Move-waiting (stop h) e = ground arith
Move-waiting (fetch t h) e = ground arith
Move-waiting (find_none h) e = ground arith
Move-waiting (process t) e = ground arith
Move-waiting (sleep n c) e = ground arith
Move-waiting (wake n c) e = ground arith
Move-waiting (time_out n c h) e = h
Move-waiting (time_out_notified n c h) e = h
Move-waiting finish e = ground arith

stranded-kept :
    (grow max timeout : ℕ) {l : Label} {t : System}
    → Step (stranded grow max timeout) l t
    → (is_outside l ≡ true) ⊎ (t ≡ stranded grow max timeout)
unfolding recycle erase_threads
stranded-kept grow max timeout (work front back id idle place place' p got done e m) =
    let same = only_middle front back _ _ e in
    absurd (omega (arith, Move-waiting m (sym (ap (λ w. w.place) same)), ap (λ w. w.idle) same))
stranded-kept grow max timeout (wake_up front back id idle e) = inl refl
stranded-kept grow max timeout (submit t) = inl refl
stranded-kept grow max timeout (look front back found e h) = absurd (no_middle front back pushed e)
stranded-kept grow max timeout (notify_one cs cs' front back id idle c e) =
    absurd (no_middle cs cs' granted c)
stranded-kept grow max timeout (notify_none cs cs' c e) = absurd (no_middle cs cs' granted c)
stranded-kept grow max timeout (refuse front back c h) = absurd (no_middle front back busy c)
stranded-kept grow max timeout (expand front back c h) = absurd (no_middle front back busy c)
stranded-kept grow max timeout tidy = inr refl
stranded-kept grow max timeout (set_flag d) = ground arith
stranded-kept grow max timeout (notify_all d) = ground arith
stranded-kept grow max timeout (all_left d h) = ground (arith, h)
stranded-kept grow max timeout (clean_up d) = ground arith

-- The pool can reach the state `stranded`, for every growth, maximum and timeout. There `destroy` waits,
-- and each step that can be made is a spurious wake-up or a new task, or changes nothing: `destroy`
-- does not return by the pool's own steps.
pub stranded-Step :
    (grow max timeout : ℕ) {l : Label} {t : System}
    → Step (stranded grow max timeout) l t
    → Reachable 1 grow max timeout (stranded grow max timeout)
      × ((stranded grow max timeout).destroyer ≡ awaiting)
      × ((is_outside l ≡ true) ⊎ (t ≡ stranded grow max timeout))
stranded-Step grow max timeout {l} {t} st =
    (stranded-Reachable grow max timeout, refl, stranded-kept grow max timeout st)
