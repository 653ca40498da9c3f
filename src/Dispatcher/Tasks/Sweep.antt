-- ===== src/Dispatcher/Tasks/Sweep.antt =====
-- The loop that erases while it iterates is a sweep over the tasks as they were.
use x_kbengine.Prelude.{
  ℕ, zero, suc, ◌+◌, ◌<◌, ◌≡◌, refl, sym, ap, ap₂, ◌∙◌, Bool, true, false, List, [], ◌∷◌, ◌++◌,
  arith, length, length-append, drop, get_elem?, ok, append_assoc, take-append_exact,
  drop-append_exact, if◌then◌else◌,
}
use x_kbengine.Dispatcher.Tasks.{process_loop, process, erase}

get_elem?-append : (kept ts : List ℕ) → get_elem? (kept ++ ts) (length kept) ≡ get_elem? ts 0
get_elem?-append [] ts = refl
get_elem?-append (k ∷ kept) ts = get_elem?-append kept ts

erase-append :
    (kept : List ℕ) (t : ℕ) (ts : List ℕ) → erase (length kept) (kept ++ t ∷ ts) ≡ kept ++ ts
erase-append kept t ts =
    ap₂ (λ l k. l ++ k) (take-append_exact (length kept) kept (t ∷ ts) refl)
      (ap (drop (length kept + 1)) (sym (append_assoc kept (t ∷ []) ts))
        ∙ drop-append_exact (length kept + 1) (kept ++ t ∷ []) ts
            (omega (arith, length-append kept (t ∷ []))))

module _ {W : Type 0} (run : W → ℕ → W × Bool) where
  -- Each task once, in order; those that ask for it stay.
  unfoldable pub sweep : W → List ℕ → W × List ℕ
  sweep w [] = (w, [])
  sweep w (t ∷ ts) =
      let (w', keep) = run w t in
      let (w'', rest) = sweep w' ts in (w'', if keep then t ∷ rest else rest)

  process_loop-sweep :
      (fuel : ℕ) (kept ts : List ℕ) (w : W)
      → length ts < fuel
      → process_loop run fuel (length kept) w (kept ++ ts)
        ≡ ok ((sweep w ts).0, kept ++ (sweep w ts).1)
  unfolding process_loop sweep
  process_loop-sweep zero kept ts w h = absurd (omega arith)
  process_loop-sweep (suc fuel) kept [] w h = rw (get_elem?-append kept [], process_loop) refl
  process_loop-sweep (suc fuel) kept (t ∷ ts) w h =
      rw (get_elem?-append kept (t ∷ ts), process_loop)
        (by_answer (run w t).1 (λ k v. process_loop-sweep fuel k ts v (omega arith)))
    where
      w' : W
      w' = (run w t).0

      by_answer :
          (b : Bool)
          → ((k : List ℕ) (v : W)
              → process_loop run fuel (length k) v (k ++ ts)
                ≡ ok ((sweep v ts).0, k ++ (sweep v ts).1))
          → (elim b [
            | true ↦ process_loop run fuel (length kept + 1) w' (kept ++ t ∷ ts)
            | false ↦ process_loop run fuel (length kept) w' (erase (length kept) (kept ++ t ∷ ts))
          ])
            ≡ ok ((sweep w' ts).0, kept ++ (if b then t ∷ (sweep w' ts).1 else (sweep w' ts).1))
      by_answer true on_from =
          let on : length kept + 1 ≡ length (kept ++ t ∷ []) = sym (length-append kept (t ∷ [])) in
          let cut : kept ++ t ∷ ts ≡ (kept ++ t ∷ []) ++ ts = sym (append_assoc kept (t ∷ []) ts) in
          ap₂ (λ n l. process_loop run fuel n w' l) on cut
          ∙ on_from (kept ++ t ∷ []) w'
          ∙ ap (λ l. ok ((sweep w' ts).0, l)) (append_assoc kept (t ∷ []) (sweep w' ts).1)
      by_answer false on_from =
          ap (process_loop run fuel (length kept) w') (erase-append kept t ts) ∙ on_from kept w'

  -- The loop, which erases from the vector that it iterates over, ends, and runs each task exactly once,
  -- in the order of the vector; afterwards the vector holds, in that order, the tasks that asked to stay.
  -- Tasks are taken not to change the container while they run.
  pub process-sweep :
      (w : W) (container : List ℕ) → process run w container ≡ ok (sweep w container)
  unfolding process
  process-sweep w container = process_loop-sweep (length container + 1) [] container w (omega arith)
