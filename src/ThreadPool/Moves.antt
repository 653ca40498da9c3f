-- ===== src/ThreadPool/Moves.antt =====
-- libs/threadpool/threadpool.cpp: what one move of a thread does to the queue and to the counts.
use x_kbengine.Prelude.{
  ℕ, ◌+◌, ◌%◌, ◌^◌, ◌≡◌, refl, sym, ap, ◌∙◌, ◌⊎◌, inl, inr, Bool, true, none, some, List, [], ◌∷◌,
  ◌++◌, arith, length, length-append, ◌==◌, if◌then◌else◌,
}
use x_kbengine.ThreadPool.{Pool, fetch_task, more_idle, less_idle, leave}
use x_kbengine.ThreadPool.Steps.{
  Place, Move, go_on, stop, fetch, find_none, process, sleep, wake, time_out, time_out_notified,
  finish, Counted,
}
use x_kbengine.ThreadPool.Census.{count, count-append, idle_place, live_place, held_place}

-- What follows where neither count met another change.
pub counted {ℓ} :
    {raced : Bool} {A : Type ℓ} {m n m' n' : ℕ}
    → Counted raced m n
    → Counted raced m' n'
    → (n ≡ m → n' ≡ m' → A)
    → (raced ≡ true) ⊎ A
counted (inl r) d f = inl r
counted (inr e) (inl r) f = inl r
counted (inr e) (inr e') f = inr (f e e')

-- What a move of one thread does to the sums.
pub record Effect (raced : Bool) (p : Pool) (id : ℕ) (place : Place) (p' : Pool) (place' : Place)
    (got done : List ℕ) : Type 0 where
  pub order : got ++ p'.tasks ≡ p.tasks
  pub tally : (n : ℕ) → count n done + held_place n place' ≡ count n got + held_place n place
  pub idle :
      (k : ℕ)
      → Counted raced ((k + idle_place place) % 2 ^ 32) p.idles
      → Counted raced ((k + idle_place place') % 2 ^ 32) p'.idles
  pub live : live_place place + length p.recycled ≡ live_place place' + length p'.recycled
  pub each :
      (n : ℕ)
      → (if n == id then live_place place else 0) + count n p.recycled
        ≡ (if n == id then live_place place' else 0) + count n p'.recycled
  pub same_threads : p'.threads ≡ p.threads
  pub same_max : p'.max ≡ p.max
  pub same_grow : p'.grow ≡ p.grow

fetched_some : (p : Pool) (t : ℕ) → (fetch_task p).0 ≡ some t → t ∷ (fetch_task p).1.tasks ≡ p.tasks
unfolding fetch_task
fetched_some p t e = ground arith

fetched_none : (p : Pool) → (fetch_task p).0 ≡ none → (fetch_task p).1.tasks ≡ p.tasks
unfolding fetch_task
fetched_none p e = ground arith

fetch_rest :
    (p : Pool)
    → ((fetch_task p).1.idles ≡ p.idles)
      × ((fetch_task p).1.recycled ≡ p.recycled)
      × ((fetch_task p).1.threads ≡ p.threads)
      × ((fetch_task p).1.max ≡ p.max)
      × ((fetch_task p).1.grow ≡ p.grow)
unfolding fetch_task
fetch_rest p = ground arith

pub Move-Effect :
    {raced : Bool} {p p' : Pool} {id idle : ℕ} {place place' : Place} {got done : List ℕ}
    → Move raced p id idle place p' place' got done
    → Effect raced p id place p' place' got done
unfolding count more_idle less_idle leave
Move-Effect (go_on h) = record {
  order = refl;
  tally = λ n. refl;
  idle = λ k e. e;
  live = refl;
  each = λ n. refl;
  same_threads = refl;
  same_max = refl;
  same_grow = refl;
}
Move-Effect (stop h) = record {
  order = refl;
  tally = λ n. refl;
  idle = λ k e. e;
  live = refl;
  each = λ n. refl;
  same_threads = refl;
  same_max = refl;
  same_grow = refl;
}
Move-Effect {p = p} {id = id} (fetch t h) =
    let (i, r, ts, m, g) = fetch_rest p in
    record {
      order = fetched_some p t h;
      tally = λ n. ground arith;
      idle = λ k e. counted e (inr i) (λ a b. b ∙ a);
      live = ap (λ l. 1 + length l) (sym r);
      each = λ n. ap (λ l. (if n == id then 1 else 0) + count n l) (sym r);
      same_threads = ts;
      same_max = m;
      same_grow = g;
    }
Move-Effect {p = p} {id = id} (find_none h) =
    let (i, r, ts, m, g) = fetch_rest p in
    record {
      order = fetched_none p h;
      tally = λ n. refl;
      idle = λ k e. counted e (inr i) (λ a b. b ∙ a);
      live = ap (λ l. 1 + length l) (sym r);
      each = λ n. ap (λ l. (if n == id then 1 else 0) + count n l) (sym r);
      same_threads = ts;
      same_max = m;
      same_grow = g;
    }
Move-Effect (process t) = record {
  order = refl;
  tally = λ n. ground arith;
  idle = λ k e. e;
  live = refl;
  each = λ n. refl;
  same_threads = refl;
  same_max = refl;
  same_grow = refl;
}
Move-Effect (sleep m c) = record {
  order = refl;
  tally = λ n. refl;
  idle = λ k e. counted e c (λ a b. omega (arith, a, b));
  live = refl;
  each = λ n. refl;
  same_threads = refl;
  same_max = refl;
  same_grow = refl;
}
Move-Effect (wake m c) = record {
  order = refl;
  tally = λ n. refl;
  idle = λ k e. counted e c (λ a b. omega (arith, a, b));
  live = refl;
  each = λ n. refl;
  same_threads = refl;
  same_max = refl;
  same_grow = refl;
}
Move-Effect (time_out m c h) = record {
  order = refl;
  tally = λ n. refl;
  idle = λ k e. counted e c (λ a b. omega (arith, a, b));
  live = refl;
  each = λ n. refl;
  same_threads = refl;
  same_max = refl;
  same_grow = refl;
}
Move-Effect (time_out_notified m c h) = record {
  order = refl;
  tally = λ n. refl;
  idle = λ k e. counted e c (λ a b. omega (arith, a, b));
  live = refl;
  each = λ n. refl;
  same_threads = refl;
  same_max = refl;
  same_grow = refl;
}
Move-Effect {p = p} {id = id} finish = record {
  order = refl;
  tally = λ n. refl;
  idle = λ k e. e;
  live = omega (arith, length-append p.recycled (id ∷ []));
  each = λ n. ground (arith, count-append n p.recycled (id ∷ []));
  same_threads = refl;
  same_max = refl;
  same_grow = refl;
}
