-- ===== src/Dispatcher/Tasks.antt =====
-- libs/dispatcher/tasks.h and tasks.cpp: the tasks that run once a tick. A task is its identity;
-- `Task::process` is virtual, so it is a parameter: what it does to the world, and whether the task
-- stays. A task that adds or cancels tasks while it runs is not modelled.
pub mod Sweep
mod Tests
use x_kbengine.Prelude.{
  ℕ, zero, suc, ◌+◌, Bool, true, false, Option, none, some, List, [], ◌∷◌, ◌++◌, length, take, drop,
  get_elem?, ◌==◌, if◌then◌else◌, Outcome, ok, fail, no_fuel, ◌>>=◌,
}

unfoldable pub add : ℕ → List ℕ → List ℕ
add task container = container ++ task ∷ []

-- `std::vector::erase` of the element at an index.
abbrev pub erase : ℕ → List ℕ → List ℕ
erase i container = take i container ++ drop (i + 1) container

-- `std::find` and `erase`: the first task that is equal is removed.
unfoldable pub cancel : ℕ → List ℕ → Bool × List ℕ
cancel task [] = (false, [])
cancel task (t ∷ container) =
    let (found, rest) = cancel task container in
    if t == task then (true, container) else (found, t ∷ rest)

module _ {W : Type 0} (run : W → ℕ → W × Bool) where
  -- `while (iter != container_.end())`, with the iterator as an index.
  unfoldable pub process_loop : ℕ → ℕ → W → List ℕ → Outcome (W × List ℕ)
  process_loop zero i w container = fail no_fuel
  process_loop (suc fuel) i w container = elim (get_elem? container i) [
    | none ↦ ok (w, container)
    | some task ↦
        let (w', keep) = run w task in
        elim keep [
          | true ↦ process_loop fuel (i + 1) w' container
          | false ↦ process_loop fuel i w' (erase i container)
        ]
  ]

  -- A round steps on or removes a task, so that one more round than there are tasks is enough.
  unfoldable pub process : W → List ℕ → Outcome (W × List ℕ)
  process w container = process_loop (length container + 1) 0 w container
