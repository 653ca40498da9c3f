-- ===== src/ThreadPool/Census.antt =====
-- Sums over the threads of libs/threadpool/threadpool.cpp, which the invariants count with.
use x_kbengine.Prelude.{
  ℕ, zero, suc, ◌+◌, ◌-◌, ◌≤◌, ◌<◌, ◌≡◌, refl, Bool, true, false, List, [], ◌∷◌, ◌++◌, map, arith,
  length, ◌==◌, if◌then◌else◌,
}
use x_kbengine.ThreadPool.{thread_ids, erase_thread, erase_threads}
use x_kbengine.ThreadPool.Steps.{
  Place, testing, fetching, running, unoccupied, waiting, notified, leaving, ended, Worker,
  new_workers, notify_worker,
}

unfoldable pub sum_of : (Worker → ℕ) → List Worker → ℕ
sum_of f [] = 0
sum_of f (w ∷ ws) = f w + sum_of f ws

pub sum_of-append :
    (f : Worker → ℕ) (front back : List Worker)
    → sum_of f (front ++ back) ≡ sum_of f front + sum_of f back
unfolding sum_of
sum_of-append f [] back = omega arith
sum_of-append f (w ∷ front) back = omega (arith, sum_of-append f front back)

pub sum_of-middle :
    (f : Worker → ℕ) (front back : List Worker) (w : Worker)
    → sum_of f (front ++ w ∷ back) ≡ sum_of f front + (f w + sum_of f back)
unfolding sum_of
sum_of-middle f front back w = sum_of-append f front (w ∷ back)

pub sum_of-map :
    (f : Worker → ℕ) (g : Worker → Worker)
    → ((w : Worker) → f (g w) ≡ f w)
    → (ws : List Worker) → sum_of f (map g ws) ≡ sum_of f ws
unfolding sum_of
sum_of-map f g h [] = refl
sum_of-map f g h (w ∷ ws) = omega (arith, h w, sum_of-map f g h ws)

-- How often a number is in a list.
unfoldable pub count : ℕ → List ℕ → ℕ
count n [] = 0
count n (x ∷ xs) = if n == x then suc (count n xs) else count n xs

pub count-append : (n : ℕ) (xs ys : List ℕ) → count n (xs ++ ys) ≡ count n xs + count n ys
unfolding count
count-append n [] ys = omega arith
count-append n (x ∷ xs) ys = ground (arith, count-append n xs ys)

abbrev pub one_if : Bool → ℕ
one_if true = 1
one_if false = 0

-- 1 for a thread that is counted in `idles_`.
abbrev pub idle_place : Place → ℕ
idle_place waiting = 1
idle_place notified = 1
idle_place testing = 0
idle_place fetching = 0
idle_place (running t) = 0
idle_place unoccupied = 0
idle_place leaving = 0
idle_place ended = 0

abbrev pub is_idle : Worker → ℕ
is_idle w = idle_place w.place

-- 1 for a thread that has not put itself on the list of those to recycle.
abbrev pub live_place : Place → ℕ
live_place ended = 0
live_place waiting = 1
live_place notified = 1
live_place testing = 1
live_place fetching = 1
live_place (running t) = 1
live_place unoccupied = 1
live_place leaving = 1

abbrev pub is_live : Worker → ℕ
is_live w = live_place w.place

-- 1 for a live thread of the identity.
abbrev pub is_live_at : ℕ → Worker → ℕ
is_live_at n w = if n == w.id then live_place w.place else 0

-- 1 for a thread that has the task, fetched and not yet processed.
abbrev pub held_place : ℕ → Place → ℕ
held_place n (running t) = if n == t then 1 else 0
held_place n testing = 0
held_place n fetching = 0
held_place n unoccupied = 0
held_place n waiting = 0
held_place n notified = 0
held_place n leaving = 0
held_place n ended = 0

abbrev pub holds : ℕ → Worker → ℕ
holds n w = held_place n w.place

-- New threads are live, and not idle.
pub new_workers-census :
    (fresh idle n : ℕ)
    → (sum_of is_live (new_workers fresh idle n) ≡ n)
      × (sum_of is_idle (new_workers fresh idle n) ≡ 0)
      × (length (thread_ids fresh n) ≡ n)
unfolding sum_of new_workers thread_ids
new_workers-census fresh idle zero = (refl, refl, refl)
new_workers-census fresh idle (suc n) =
    let (a, b, c) = new_workers-census (fresh + 1) idle n in
    (omega (arith, a), omega (arith, b), omega (arith, c))

pub holds-new_workers : (m fresh idle n : ℕ) → sum_of (holds m) (new_workers fresh idle n) ≡ 0
unfolding sum_of new_workers
holds-new_workers m fresh idle zero = refl
holds-new_workers m fresh idle (suc n) = omega (arith, holds-new_workers m (fresh + 1) idle n)

pub is_live_at-new_workers :
    (m fresh idle n : ℕ)
    → sum_of (is_live_at m) (new_workers fresh idle n) ≡ count m (thread_ids fresh n)
unfolding sum_of new_workers thread_ids count
is_live_at-new_workers m fresh idle zero = refl
is_live_at-new_workers m fresh idle (suc n) =
    ground (arith, is_live_at-new_workers m (fresh + 1) idle n)

-- A notification changes none of the sums.
pub notify_worker-census :
    (m : ℕ) (w : Worker)
    → (is_idle (notify_worker w) ≡ is_idle w)
      × (is_live (notify_worker w) ≡ is_live w)
      × (is_live_at m (notify_worker w) ≡ is_live_at m w)
      × (holds m (notify_worker w) ≡ holds m w)
unfolding notify_worker
notify_worker-census m w = ground arith

-- What is erased is taken off the counts.
count-erase_thread :
    (n id : ℕ) (ts : List ℕ)
    → count n (erase_thread id ts) ≡ count n ts - (if n == id then 1 else 0)
unfolding count erase_thread
count-erase_thread n id [] = ground arith
count-erase_thread n id (t ∷ ts) = ground (arith, count-erase_thread n id ts)

pub count-erase_threads :
    (n : ℕ) (ids ts : List ℕ) → count n (erase_threads ids ts) ≡ count n ts - count n ids
unfolding count erase_threads
count-erase_threads n [] ts = omega arith
count-erase_threads n (id ∷ ids) ts =
    ground (arith, count-erase_threads n ids (erase_thread id ts), count-erase_thread n id ts)

length-erase_thread :
    (id : ℕ) (ts : List ℕ) → 0 < count id ts → length (erase_thread id ts) + 1 ≡ length ts
unfolding count erase_thread
length-erase_thread id [] h = omega (arith, h)
length-erase_thread id (t ∷ ts) h = ground (arith, length-erase_thread id ts)

pub length-erase_threads :
    (ids ts : List ℕ)
    → ((n : ℕ) → count n ids ≤ count n ts)
    → length (erase_threads ids ts) + length ids ≡ length ts
unfolding count erase_threads
length-erase_threads [] ts h = omega arith
length-erase_threads (id ∷ ids) ts h =
    let there : 0 < count id ts = ground (arith, h id) in
    let fewer = length-erase_thread id ts there in
    omega (
      arith,
      fewer,
      length-erase_threads ids (erase_thread id ts)
          (λ n. ground (arith, h n, count-erase_thread n id ts)),
    )

pub sum_of-replace :
    (f : Worker → ℕ) (front back : List Worker) (w w' : Worker)
    → f w ≡ f w'
    → sum_of f (front ++ w' ∷ back) ≡ sum_of f (front ++ w ∷ back)
sum_of-replace f front back w w' h =
    omega (arith, h, sum_of-middle f front back w, sum_of-middle f front back w')
