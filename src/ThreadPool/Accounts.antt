-- ===== src/ThreadPool/Accounts.antt =====
-- libs/threadpool/threadpool.cpp: the tasks' order and number and the counts of threads, one lemma per
-- kind of step.
use x_kbengine.Prelude.{
  ℕ, ◌+◌, ◌-◌, ◌%◌, ◌^◌, ◌≤◌, ◌<◌, ◌≡◌, refl, sym, ap, ◌∙◌, ◌⊎◌, inl, inr, Bool, true, false, List,
  [], ◌∷◌, ◌++◌, arith, length, length-append, append_assoc,
}
use x_kbengine.ThreadPool.{
  Pool, push_task, erase_threads, add_threads, thread_ids, is_full, recycle,
}
use x_kbengine.ThreadPool.Steps.{
  Place, waiting, notified, Worker, System, Caller, Destroyer, Move, new_workers,
}
use x_kbengine.ThreadPool.Census.{
  sum_of, sum_of-replace, sum_of-append, sum_of-middle, count, count-append, is_idle, is_live,
  is_live_at, holds, new_workers-census, holds-new_workers, is_live_at-new_workers,
  count-erase_threads, length-erase_threads,
}
use x_kbengine.ThreadPool.Moves.{Move-Effect, counted}

-- The accounts of the whole system, for a pool of such a growth and maximum.
pub record IsAccounted (grow max : ℕ) (s : System) : Type 0 where
  pub order : s.fetched ++ s.pool.tasks ≡ s.submitted
  pub tally : (n : ℕ) → count n s.processed + sum_of (holds n) s.workers ≡ count n s.fetched
  pub idle : (s.raced ≡ true) ⊎ (s.pool.idles ≡ sum_of is_idle s.workers % 2 ^ 32)
  pub live : length s.pool.threads ≡ sum_of is_live s.workers + length s.pool.recycled
  pub each :
      (n : ℕ) → count n s.pool.threads ≡ sum_of (is_live_at n) s.workers + count n s.pool.recycled
  pub room : length s.pool.threads ≤ max + (grow - 1)
  pub same_max : s.pool.max ≡ max
  pub same_grow : s.pool.grow ≡ grow

module _ {grow max : ℕ} {s : System} (a : IsAccounted grow max s) where
  -- The threads replaced by others with the same sums.
  pub moved :
      (ws : List Worker)
      → sum_of is_idle ws ≡ sum_of is_idle s.workers
      → sum_of is_live ws ≡ sum_of is_live s.workers
      → ((n : ℕ) → sum_of (is_live_at n) ws ≡ sum_of (is_live_at n) s.workers)
      → ((n : ℕ) → sum_of (holds n) ws ≡ sum_of (holds n) s.workers)
      → IsAccounted grow max (record s { workers = ws })
  moved ws i l e h = record {
    order = a.order;
    tally = λ n. omega (arith, a.tally n, h n);
    idle = counted a.idle (inr i) (λ b c. b ∙ ap (λ k. k % 2 ^ 32) (sym c));
    live = omega (arith, a.live, l);
    each = λ n. omega (arith, a.each n, e n);
    room = a.room;
    same_max = a.same_max;
    same_grow = a.same_grow;
  }

  -- One thread is notified.
  pub roused :
      (front back : List Worker) (id idle : ℕ)
      → s.workers ≡ front ++ record { id = id; idle = idle; place = waiting } ∷ back
      → IsAccounted grow max
          (record s { workers = front ++ record { id = id; idle = idle; place = notified } ∷ back })
  roused front back id idle e =
      let w : Worker = record { id = id; idle = idle; place = waiting } in
      let w' : Worker = record { id = id; idle = idle; place = notified } in
      let same = λ (f : Worker → ℕ) (h : f w ≡ f w').
        sum_of-replace f front back w w' h ∙ sym (ap (sum_of f) e) in
      moved (front ++ w' ∷ back) (same is_idle refl) (same is_live refl)
        (λ n. same (is_live_at n) refl) (λ n. same (holds n) refl)

  pub worked :
      (front back : List Worker) (id idle : ℕ) (place place' : Place) (p : Pool) (got done : List ℕ)
      → s.workers ≡ front ++ record { id = id; idle = idle; place = place } ∷ back
      → Move s.raced s.pool id idle place p place' got done
      → IsAccounted grow max (record s {
        pool = p;
        workers = front ++ record { id = id; idle = idle; place = place' } ∷ back;
        fetched = s.fetched ++ got;
        processed = s.processed ++ done;
      })
  worked front back id idle place place' p got done e m =
      let x = Move-Effect m in
      let w : Worker = record { id = id; idle = idle; place = place } in
      let w' : Worker = record { id = id; idle = idle; place = place' } in
      let was = λ (f : Worker → ℕ). ap (sum_of f) e ∙ sum_of-middle f front back w in
      let now = λ (f : Worker → ℕ). sum_of-middle f front back w' in
      record {
        order = append_assoc s.fetched got p.tasks ∙ ap (λ l. s.fetched ++ l) x.order ∙ a.order;
        tally = λ n. omega (
          arith,
          a.tally n,
          x.tally n,
          was (holds n),
          now (holds n),
          count-append n s.fetched got,
          count-append n s.processed done,
        );
        idle =
            counted
              (x.idle (sum_of is_idle front + sum_of is_idle back)
                (counted a.idle (inr (was is_idle)) (λ b c. omega (arith, b, c))))
              (inr (now is_idle)) (λ b c. omega (arith, b, c));
        live = omega (arith, a.live, x.live, was is_live, now is_live, ap length x.same_threads);
        each = λ n. omega (
          arith,
          a.each n,
          x.each n,
          was (is_live_at n),
          now (is_live_at n),
          ap (count n) x.same_threads,
        );
        room = omega (arith, a.room, ap length x.same_threads);
        same_max = x.same_max ∙ a.same_max;
        same_grow = x.same_grow ∙ a.same_grow;
      }

  -- The threads that have ended are taken off the list of threads.
  pub tidied : IsAccounted grow max (record s { pool = recycle s.pool })
  unfolding recycle count
  tidied =
      let short : length (erase_threads s.pool.recycled s.pool.threads) + length s.pool.recycled
          ≡ length s.pool.threads =
        length-erase_threads s.pool.recycled s.pool.threads (λ n. omega (arith, a.each n)) in
      record {
        order = a.order;
        tally = a.tally;
        idle = a.idle;
        live = omega (arith, a.live, short);
        each = λ n. omega (arith, a.each n, count-erase_threads n s.pool.recycled s.pool.threads);
        room = omega (arith, a.room, short);
        same_max = a.same_max;
        same_grow = a.same_grow;
      }

  pub expanded :
      (callers : List Caller)
      → is_full s.pool ≡ false
      → IsAccounted grow max (record s {
        pool = add_threads s.fresh s.pool.grow s.pool;
        workers = s.workers ++ new_workers s.fresh s.pool.timeout s.pool.grow;
        callers = callers;
        fresh = s.fresh + s.pool.grow;
      })
  unfolding add_threads is_full
  expanded callers h =
      let fresh_ones : List Worker = new_workers s.fresh s.pool.timeout s.pool.grow in
      let (l, i, n) = new_workers-census s.fresh s.pool.timeout s.pool.grow in
      let long = length-append s.pool.threads (thread_ids s.fresh s.pool.grow) in
      let below : length s.pool.threads < s.pool.max = ground (arith, h) in
      record {
        order = a.order;
        tally = λ m. omega (
          arith,
          a.tally m,
          sum_of-append (holds m) s.workers fresh_ones,
          holds-new_workers m s.fresh s.pool.timeout s.pool.grow,
        );
        idle =
            counted a.idle (inr (sum_of-append is_idle s.workers fresh_ones))
              (λ b c. b ∙ ap (λ k. k % 2 ^ 32) (omega (arith, c, i)));
        live = omega (arith, a.live, sum_of-append is_live s.workers fresh_ones, l, n, long);
        each = λ m. omega (
          arith,
          a.each m,
          sum_of-append (is_live_at m) s.workers fresh_ones,
          is_live_at-new_workers m s.fresh s.pool.timeout s.pool.grow,
          count-append m s.pool.threads (thread_ids s.fresh s.pool.grow),
        );
        room = omega (arith, below, long, n, a.same_max, a.same_grow);
        same_max = a.same_max;
        same_grow = a.same_grow;
      }

  -- A task is queued.
  pub queued :
      (t : ℕ) (callers : List Caller)
      → IsAccounted grow max (record s {
        pool = push_task t s.pool;
        callers = callers;
        submitted = s.submitted ++ t ∷ [];
      })
  unfolding push_task
  queued t callers = record {
    order = sym (append_assoc s.fetched s.pool.tasks (t ∷ [])) ∙ ap (λ l. l ++ t ∷ []) a.order;
    tally = a.tally;
    idle = a.idle;
    live = a.live;
    each = a.each;
    room = a.room;
    same_max = a.same_max;
    same_grow = a.same_grow;
  }

  -- A caller unlocks twice.
  pub unlocked :
      (callers : List Caller) → IsAccounted grow max (record s { callers = callers; raced = true })
  unlocked callers = record {
    order = a.order;
    tally = a.tally;
    idle = inl refl;
    live = a.live;
    each = a.each;
    room = a.room;
    same_max = a.same_max;
    same_grow = a.same_grow;
  }

  -- What the accounts do not look at.
  pub aside :
      (callers : List Caller) (d : Destroyer) (b : Bool)
      → IsAccounted grow max
          (record s { pool = record s.pool { is_destroyed = b }; callers = callers; destroyer = d })
  aside callers d b = record {
    order = a.order;
    tally = a.tally;
    idle = a.idle;
    live = a.live;
    each = a.each;
    room = a.room;
    same_max = a.same_max;
    same_grow = a.same_grow;
  }
