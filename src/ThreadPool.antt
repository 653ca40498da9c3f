-- ===== src/ThreadPool.antt =====
-- libs/threadpool/threadpool.h and threadpool.cpp: the state that the threads of the pool share, and
-- what they do under its locks. Tasks and threads are their identities. What the second unlocking that the
-- explicit call of the guard's destructor in `execute` leads to can do to `idles_` is in
-- ThreadPool.Steps. The sleeps are not modelled.
pub mod Steps
pub mod Census
pub mod Moves
pub mod Accounts
pub mod Invariant
pub mod Shutdown
pub mod Winding
mod Tests
use x_kbengine.Prelude.{
  ℕ, zero, suc, ◌+◌, ◌%◌, ◌^◌, Bool, true, false, Option, none, some, List, [], ◌∷◌, ◌++◌, length,
  ltb, ◌==◌, if◌then◌else◌,
}

pub record Pool : Type 0 where
  pub initial : ℕ
  pub grow : ℕ
  pub max : ℕ
  pub timeout : ℕ
  pub idles : ℕ
  pub is_destroyed : Bool
  pub tasks : List ℕ
  pub threads : List ℕ
  pub recycled : List ℕ

-- `ThreadPool(initial, grow, max)`, with the static `timeout`.
unfoldable pub init : ℕ → ℕ → ℕ → ℕ → Pool
init initial grow max timeout = record {
  initial = initial;
  grow = grow;
  max = max;
  timeout = timeout;
  idles = 0;
  is_destroyed = false;
  tasks = [];
  threads = [];
  recycled = [];
}

-- `tasks_.push(t)`
unfoldable pub push_task : ℕ → Pool → Pool
push_task t p = record p { tasks = p.tasks ++ t ∷ [] }

unfoldable pub fetch_task : Pool → Option ℕ × Pool
fetch_task p = elim p.tasks [ [] ↦ (none, p) | t ∷ ts ↦ (some t, record p { tasks = ts }) ]

-- `++idles_` and `--idles_` on a `uint32_t`.
unfoldable pub more_idle : Pool → Pool
more_idle p = record p { idles = (p.idles + 1) % 2 ^ 32 }

unfoldable pub less_idle : Pool → Pool
less_idle p = record p { idles = (p.idles + 4294967295) % 2 ^ 32 }

-- `recycle_.push_back(this_id)`
unfoldable pub leave : ℕ → Pool → Pool
leave id p = record p { recycled = p.recycled ++ id ∷ [] }

-- The new threads get the identities from `fresh` on.
unfoldable pub thread_ids : ℕ → ℕ → List ℕ
thread_ids fresh zero = []
thread_ids fresh (suc n) = fresh ∷ thread_ids (fresh + 1) n

-- The loops of `initialize` and `execute` that create threads.
unfoldable pub add_threads : ℕ → ℕ → Pool → Pool
add_threads fresh n p = record p { threads = p.threads ++ thread_ids fresh n }

unfoldable pub is_full : Pool → Bool
is_full p = if ltb (length p.threads) p.max then false else true

-- The loop over `threads_` for one identity: the first that fits is joined and erased.
unfoldable pub erase_thread : ℕ → List ℕ → List ℕ
erase_thread id [] = []
erase_thread id (t ∷ ts) = if t == id then ts else t ∷ erase_thread id ts

unfoldable pub erase_threads : List ℕ → List ℕ → List ℕ
erase_threads [] ts = ts
erase_threads (id ∷ ids) ts = erase_threads ids (erase_thread id ts)

unfoldable pub recycle : Pool → Pool
recycle p = record p { threads = erase_threads p.recycled p.threads; recycled = [] }
