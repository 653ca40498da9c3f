-- ===== src/Dispatcher/Tasks/Tests.antt =====
-- A tick of three tasks, the odd ones of which stay.
use x_kbengine.Prelude.{ℕ, ◌≡◌, ◌%◌, Bool, List, [], ◌∷◌, ◌++◌, ok, ◌==◌}
use x_kbengine.Dispatcher.Tasks.{process}
use x_kbengine.Dispatcher.Tasks.Sweep.{sweep, process-sweep}

abbrev run : List ℕ → ℕ → List ℕ × Bool
run w task = (w ++ task ∷ [], task % 2 == 1)

process-sweep_example : process run [] (1 ∷ 2 ∷ 3 ∷ []) ≡ ok (1 ∷ 2 ∷ 3 ∷ [], 1 ∷ 3 ∷ [])
unfolding sweep
process-sweep_example = process-sweep run [] (1 ∷ 2 ∷ 3 ∷ [])
