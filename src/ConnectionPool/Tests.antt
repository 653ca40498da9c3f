-- ===== src/ConnectionPool/Tests.antt =====
-- Two clients of a pool that may hold one connection: the second is forced.
use x_kbengine.Prelude.{◌≡◌, refl, true, false, [], ◌∷◌, arith, fail, assertion}
use x_kbengine.ConnectionPool.{
  Pool, Connection, initialize, initialize_loop, open_one, get, drop_connection, free, destroy,
}
use x_kbengine.ConnectionPool.Ledger.{
  step_get, step_drop, Reachable, started, next, IsBalanced, Reachable-IsBalanced, destroy-lent,
  lent,
}

abbrev first : Connection
first = record { force = false; connection = 0 }

abbrev second : Connection
second = record { force = true; connection = 1 }

abbrev both_out : Pool
both_out = record { initial = 1; max = 1; nums = 1; connections = []; opened = 2; closed = [] }

abbrev back_in : Pool
back_in = record { initial = 1; max = 1; nums = 1; connections = 0 ∷ []; opened = 2; closed = [] }

both_out-Reachable : Reachable 1 1 (both_out, second ∷ first ∷ [])
unfolding initialize initialize_loop open_one get
both_out-Reachable =
    next (next started (step_get false _ [] first refl)) (step_get true _ (first ∷ []) second refl)

back_in-Reachable : Reachable 1 1 (back_in, second ∷ [])
unfolding drop_connection free
back_in-Reachable = next both_out-Reachable (step_drop both_out (second ∷ []) [] first)

Reachable-IsBalanced_example : IsBalanced (back_in, second ∷ [])
Reachable-IsBalanced_example =
    Reachable-IsBalanced 1 1 (back_in, second ∷ []) (omega arith) back_in-Reachable

destroy-lent_example : destroy both_out ≡ fail assertion
unfolding lent
destroy-lent_example =
    destroy-lent 1 1 both_out (second ∷ first ∷ []) (omega arith) both_out-Reachable (omega arith)
