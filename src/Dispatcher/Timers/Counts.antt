-- ===== src/Dispatcher/Timers/Counts.antt =====
-- `numTimesRegistered_` of libs/common/timer.h: it counts the handler's timers that are not cancelled, so
-- that its destructor's assertion holds once the timers are cleared.
use x_kbengine.Prelude.{
  ℕ, zero, suc, ◌+◌, ◌≡◌, refl, ap, ◌∙◌, true, false, ◌||◌, none, some, List, [], ◌∷◌, ◌++◌, map,
  arith, ◌==◌, leb, if◌then◌else◌, ok, Ensures, Ensures-ok, Bool-cases, inl, inr,
}
use x_kbengine.Prelude.Int.{ℤ, pos}
use x_kbengine.Dispatcher.Timers.{
  Timer, Timers, time_executing, is_cancelled, cancel, Action, cancel_timer, add_timer, add, clear,
  inc_timer_register_count, dec_timer_register_count, release, release_all, release_if,
  destroy_handler, cancel_if, act, act_all, finish_trigger, finish_counts, Top, fire, process_loop,
}
use x_kbengine.Dispatcher.Timers.Process.{Picks, AllAfter, process_loop-AllFrom}

-- Whether a timer is one of the handler's, and not cancelled.
unfoldable pub live_one : ℕ → Timer → ℕ
unfolding is_cancelled
live_one h t =
    if is_cancelled t then 0 else elim t.handler [ none ↦ 0 | some g ↦ if h == g then 1 else 0 ]

abbrev pub live : ℕ → List Timer → ℕ
live h [] = 0
live h (t ∷ ts) = live_one h t + live h ts

-- Each count is the number of the handler's timers.
abbrev pub IsCounted : Timers → Type 0
IsCounted s = (h : ℕ) → s.registered h ≡ pos (live h s.queue)

live-append : (h : ℕ) (l m : List Timer) → live h (l ++ m) ≡ live h l + live h m
live-append h [] m = omega arith
live-append h (t ∷ l) m = omega (arith, live-append h l m)

release_lem :
    (h n : ℕ) (t : Timer) (counts : ℕ → ℤ)
    → counts h ≡ pos (live_one h t + n)
    → release t counts h ≡ pos n
unfolding release dec_timer_register_count live_one is_cancelled
release_lem h n t counts e = ground arith

live-cancel : (h : ℕ) (t : Timer) → live_one h (cancel t) ≡ 0
unfolding live_one cancel is_cancelled
live-cancel h t = ground arith

release_if_lem :
    (h id n : ℕ) (l : List Timer) (counts : ℕ → ℤ)
    → counts h ≡ pos (live h l + n)
    → release_if id l counts h ≡ pos (live h (map (cancel_if id) l) + n)
unfolding release_if cancel_if
release_if_lem h id n [] counts e = e
release_if_lem h id n (t ∷ l) counts e = elim (Bool-cases (t.id == id)) [
  | inl own ↦ rw own (
      release_if_lem h id n l (release t counts)
        (release_lem h (live h l + n) t counts (e ∙ ap pos (omega arith)))
      ∙ ap pos (omega (arith, live-cancel h t)))
  | inr other ↦ rw other (
      release_if_lem h id (live_one h t + n) l counts (e ∙ ap pos (omega arith))
      ∙ ap pos (omega arith))
]

release_all_lem :
    (h n : ℕ) (l : List Timer) (counts : ℕ → ℤ)
    → counts h ≡ pos (live h l + n)
    → release_all l counts h ≡ pos n
unfolding release_all
release_all_lem h n [] counts e = e ∙ ap pos (omega arith)
release_all_lem h n (t ∷ l) counts e =
    release_all_lem h n l (release t counts)
      (release_lem h (live h l + n) t counts (e ∙ ap pos (omega arith)))

finish_counts_lem :
    (h n : ℕ) (t : Timer) (counts : ℕ → ℤ)
    → counts h ≡ pos (live_one h t + n)
    → finish_counts t counts h ≡ pos (live_one h (finish_trigger t) + n)
unfolding finish_counts finish_trigger live_one cancel release is_cancelled dec_timer_register_count
finish_counts_lem h n t counts e = ground arith

-- One action, with the timer that executes: each count stays that of the queue and of this timer.
act_lem :
    (h : ℕ) (a : Action) (s : Timers) (t : Timer)
    → s.registered h ≡ pos (live h (t ∷ s.queue))
    → (act a s t).0.registered h ≡ pos (live h ((act a s t).1 ∷ (act a s t).0.queue))
unfolding act add inc_timer_register_count live_one is_cancelled
act_lem h (cancel_timer id) s t e =
    release_if_lem h id 0 (t ∷ s.queue) s.registered (e ∙ ap pos (omega arith))
    ∙ ap pos (omega arith)
act_lem h (add_timer start interval handler) s t e = ground (arith, e)

act_all_lem :
    (h : ℕ) (rest : List Action) (s : Timers) (t : Timer)
    → s.registered h ≡ pos (live h (t ∷ s.queue))
    → (act_all rest s t).0.registered h
      ≡ pos (live h ((act_all rest s t).1 ∷ (act_all rest s t).0.queue))
unfolding act_all
act_all_lem h [] s t e = e
act_all_lem h (a ∷ rest) s t e = act_all_lem h rest (act a s t).0 (act a s t).1 (act_lem h a s t e)

-- A timer that executes counts as before, and a cancelled one not at all.
live-executing :
    (h : ℕ) (t : Timer)
    → is_cancelled t ≡ false
    → live_one h (record t { state = time_executing }) ≡ live_one h t
unfolding live_one is_cancelled
live-executing h t alive = ground arith

live_cancelled : (h : ℕ) (t : Timer) → is_cancelled t ≡ true → live_one h t ≡ 0
unfolding live_one
live_cancelled h t gone = rw gone

module _ {W : Type 0} (first : List Timer → Top) (handle : W → Timer → W × List Action) where
  fire_lem :
      (h : ℕ) (w : W) (s : Timers) (t : Timer)
      → s.registered h ≡ pos (live h (t ∷ s.queue))
      → (fire first handle w s t).1.registered h ≡ pos (live h (fire first handle w s t).1.queue)
  unfolding fire
  fire_lem h w s t e = elim (Bool-cases (is_cancelled t)) [
    | inl gone ↦ rw gone (e ∙ ap pos (omega (arith, live_cancelled h t gone)))
    | inr alive ↦
        let x : Timer = record t { state = time_executing } in
        let r = act_all (handle w x).1 s x in
        let u : Timer = finish_trigger r.1 in
        let acted : r.0.registered h ≡ pos (live h (r.1 ∷ r.0.queue)) =
          act_all_lem h (handle w x).1 s x (e ∙ ap pos (omega (arith, live-executing h t alive))) in
        let counted : finish_counts r.1 r.0.registered h ≡ pos (live_one h u + live h r.0.queue) =
          finish_counts_lem h (live h r.0.queue) r.1 r.0.registered acted in
        rw alive (elim (Bool-cases (is_cancelled u)) [
          | inl over ↦ rw over (counted ∙ ap pos (omega (arith, live_cancelled h u over)))
          | inr on ↦ rw on counted
        ])
  ]

  process_loop_lem :
      (picks : (l : List Timer) → Picks l (first l)) (fuel now : ℕ) (w : W) (s : Timers) (fired : ℕ)
      → IsCounted s
      → Ensures
          (λ (r : W × Timers × ℕ). IsCounted r.1)
          (process_loop first handle fuel now w s fired)
  unfolding process_loop
  process_loop_lem picks zero now w s fired c = tt
  process_loop_lem picks (suc fuel) now w s fired c =
      by_top (λ w' s' n c'. process_loop_lem picks fuel now w' s' n c') (first s.queue)
        (picks s.queue)
    where
      by_top :
          ((w' : W) (s' : Timers) (n : ℕ)
            → IsCounted s'
            → Ensures
                (λ (r : W × Timers × ℕ). IsCounted r.1)
                (process_loop first handle fuel now w' s' n))
          → (o : Top) → Picks s.queue o
          → Ensures
              (λ (r : W × Timers × ℕ). IsCounted r.1)
              (elim o [
                | none ↦ ok (w, s, fired)
                | some (front, t, back) ↦ elim (leb t.time now || is_cancelled t) [
                  | false ↦ ok (w, s, fired)
                  | true ↦
                      let (w', s', n) =
                        fire first handle w (record s { queue = front ++ back }) t in
                      process_loop first handle fuel now w' s' (fired + n)
                ]
              ])
      by_top again none p = c
      by_top again (some (front, t, back)) (cut, f, b) =
          let left : Timers = record s { queue = front ++ back } in
          elim (leb t.time now || is_cancelled t)
            as (λ go.
              Ensures (λ (r : W × Timers × ℕ). IsCounted r.1)
                (elim go [
                  | false ↦ ok (w, s, fired)
                  | true ↦
                      let (w', s', n) = fire first handle w left t in
                      process_loop first handle fuel now w' s' (fired + n)
                ])) [
                  | false ↦ c
                  | true ↦
                      let r = fire first handle w left t in
                      again r.0 r.1 (fired + r.2) (λ h. fire_lem h w left t (
                        c h
                        ∙ ap pos (
                            ap (live h) cut
                            ∙ live-append h front (t ∷ back)
                            ∙ omega (arith, live-append h front back))))
                ]

  -- Timers whose handlers count them are processed, and the loop ends; then each handler's count is the
  -- number of its timers in the queue that are not cancelled, and once the queue is cleared each handler
  -- can be destroyed: its assertion holds. Conditions: `top()` gives a timer that no other precedes, and
  -- handlers add timers for times after now only; they may cancel any timer.
  pub process_loop-destroy_handler :
      (picks : (l : List Timer) → Picks l (first l)) (now : ℕ)
      (future : (w : W) (t : Timer) → AllAfter now (handle w t).1) (w : W) (s : Timers)
      → IsCounted s
      → (fuel : ℕ) × (w' : W) × (s' : Timers) × (fired : ℕ) × (process_loop first handle fuel now w
            s 0
          ≡ ok (w', s', fired))
        × IsCounted s'
        × ((h : ℕ) → destroy_handler h (clear s').registered ≡ ok tt)
  unfolding destroy_handler clear
  process_loop-destroy_handler picks now future w s c =
      let (fuel, w', s', fired, result, later) =
        process_loop-AllFrom first handle picks now future w s in
      let counted : IsCounted s' =
        Ensures-ok (λ (r : W × Timers × ℕ). IsCounted r.1)
          (process_loop first handle fuel now w s 0) (w', s', fired) result
          (process_loop_lem picks fuel now w s 0 c) in
      (
        fuel,
        w',
        s',
        fired,
        result,
        counted,
        λ h.
            rw (release_all_lem h 0 s'.queue s'.registered (counted h ∙ ap pos (omega arith))) refl,
      )
