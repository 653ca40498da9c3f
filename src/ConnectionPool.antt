-- ===== src/ConnectionPool.antt =====
-- libs/common/connection_pool.h: a stack of open connections, of at most `max` counted ones. Of a
-- connection its identity is modelled; the `n`-th one that `make_shared` opens has the identity `n`.
pub mod Ledger
mod Tests
use x_kbengine.Prelude.{
  ℕ, zero, suc, ◌+◌, Bool, true, false, Option, none, some, List, [], ◌∷◌, ltb, if◌then◌else◌, ◌%◌,
  ◌^◌, ◌==◌, Outcome, ok, fail, assertion,
}

-- `connections_` with its back first. `opened` counts the calls of `make_shared<T>`, and `closed` holds
-- the connections on which `close` was called.
pub record Pool : Type 0 where
  pub initial : ℕ
  pub max : ℕ
  pub nums : ℕ
  pub connections : List ℕ
  pub opened : ℕ
  pub closed : List ℕ

-- What `get` hands out: `force_` says that the connection is closed afterwards, and not given back.
pub record Connection : Type 0 where
  pub force : Bool
  pub connection : ℕ

-- `ConnectionPool(init, max, uri)`
abbrev pub init : ℕ → ℕ → Pool
init initial max = record {
  initial = initial;
  max = max;
  nums = 0;
  connections = [];
  opened = 0;
  closed = [];
}

-- `make_shared<T>(uri_)` and `push_back`, with `nums_++`.
unfoldable pub open_one : Pool → Pool
open_one p = record p {
  nums = p.nums + 1;
  connections = p.opened ∷ p.connections;
  opened = p.opened + 1;
}

unfoldable pub initialize_loop : ℕ → Pool → Pool
initialize_loop zero p = p
initialize_loop (suc n) p = if ltb p.nums p.initial then initialize_loop n (open_one p) else p

-- `for (; nums_ < init_; nums_++)`, at most `init_` rounds.
unfoldable pub initialize : Pool → Pool
initialize p = initialize_loop p.initial p

-- `back()` and `pop_back()`. The wrapper is made without `force`.
abbrev pub pop_back : Pool → Option Connection × Pool
pop_back p = elim p.connections [
  | [] ↦ (none, p)
  | c ∷ cs ↦ (some (record { force = false; connection = c }), record p { connections = cs })
]

unfoldable pub get : Bool → Pool → Option Connection × Pool
get force p = elim p.connections [
  | [] ↦
      if ltb p.nums p.max
      then pop_back (open_one p)
      else if force
      then (
        some (record { force = true; connection = p.opened }),
        record p { opened = p.opened + 1 },
      )
      else (none, p)
  | c ∷ cs ↦ pop_back p
]

unfoldable pub free : ℕ → Pool → Pool
free c p = record p { connections = c ∷ p.connections }

-- `~Connection()`
unfoldable pub drop_connection : Connection → Pool → Pool
drop_connection c p =
    if c.force then record p { closed = c.connection ∷ p.closed } else free c.connection p

-- The loop of the destructor: each connection of the pool is closed and no longer counted, on a
-- `size_t`.
unfoldable pub close_all : List ℕ → Pool → Pool
close_all [] p = p
close_all (c ∷ cs) p =
    close_all cs
      (record p { closed = c ∷ p.closed; nums = (p.nums + 18446744073709551615) % 2 ^ 64 })

-- `~ConnectionPool()`
unfoldable pub destroy : Pool → Outcome Pool
destroy p =
    let q = close_all p.connections p in
    if q.nums == 0 then ok (record q { connections = [] }) else fail assertion
