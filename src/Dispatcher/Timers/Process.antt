-- ===== src/Dispatcher/Timers/Process.antt =====
-- `process` ends, and leaves no timer that is due.
use x_kbengine.Prelude.{
  ℕ, zero, suc, ◌+◌, ◌-◌, ◌≤◌, ◌<◌, ◌≡◌, refl, sym, ap, subst, ◌∙◌, true, false, ◌||◌, none, some,
  List, [], ◌∷◌, ◌++◌, map, arith, length, length-append, leb, if◌then◌else◌, ok, Bool-cases, inl,
  inr,
}
use x_kbengine.Dispatcher.Timers.{
  Timer, Timers, time_executing, is_cancelled, cancel, Action, cancel_timer, add_timer, add,
  cancel_if, act, act_all, finish_trigger, Top, fire, process_loop,
}

abbrev pub AllFrom : ℕ → List Timer → Type 0
AllFrom k [] = Unit {0}
AllFrom k (t ∷ ts) = (k ≤ t.time) × AllFrom k ts

-- `top()` of a queue: none of an empty one, and otherwise one that no other precedes.
abbrev pub Picks : List Timer → Top → Type 0
Picks l none = l ≡ []
Picks l (some (front, t, back)) =
    (l ≡ front ++ t ∷ back) × AllFrom t.time front × AllFrom t.time back

-- Timers are added for times after now.
abbrev pub AllAfter : ℕ → List Action → Type 0
AllAfter now [] = Unit {0}
AllAfter now (cancel_timer id ∷ rest) = AllAfter now rest
AllAfter now (add_timer start interval handler ∷ rest) = (now < start) × AllAfter now rest

-- How far a timer is behind, and all those of a queue together.
weight : ℕ → Timer → ℕ
weight now t = if is_cancelled t then 0 else (now + 1) - t.time

weights : ℕ → List Timer → ℕ
weights now [] = 0
weights now (t ∷ ts) = weight now t + weights now ts

weights-append :
    (now : ℕ) (l : List Timer) (m : List Timer)
    → weights now (l ++ m) ≡ weights now l + weights now m
unfolding weights
weights-append now [] m = omega arith
weights-append now (t ∷ l) m = omega (arith, weights-append now l m)

weight-cancel_if : (now id : ℕ) (t : Timer) → weight now (cancel_if id t) ≤ weight now t
unfolding weight cancel_if cancel is_cancelled
weight-cancel_if now id t = ground arith

weights-map : (now id : ℕ) (l : List Timer) → weights now (map (cancel_if id) l) ≤ weights now l
unfolding weights
weights-map now id [] = omega arith
weights-map now id (t ∷ l) = omega (arith, weight-cancel_if now id t, weights-map now id l)

time-cancel_if :
    (id : ℕ) (t : Timer)
    → ((cancel_if id t).time ≡ t.time) × ((cancel_if id t).interval ≡ t.interval)
unfolding cancel_if cancel is_cancelled
time-cancel_if id t = ground arith

-- What actions do: they do not add to the weights.
act_all-weights :
    (now : ℕ) (rest : List Action) (s : Timers) (t : Timer)
    → AllAfter now rest
    → (weights now (act_all rest s t).0.queue ≤ weights now s.queue)
      × (weight now (act_all rest s t).1 ≤ weight now t)
      × ((act_all rest s t).1.time ≡ t.time)
      × ((act_all rest s t).1.interval ≡ t.interval)
unfolding act_all act add weights weight is_cancelled
act_all-weights now [] s t h = (omega arith, omega arith, refl, refl)
act_all-weights now (cancel_timer id ∷ rest) s t h =
    let (q, e, time, interval) =
      act_all-weights now rest (act (cancel_timer id) s t).0 (cancel_if id t) h in
    let (same_time, same_interval) = time-cancel_if id t in
    (
      omega (arith, q, weights-map now id s.queue),
      omega (arith, e, weight-cancel_if now id t),
      time ∙ same_time,
      interval ∙ same_interval,
    )
act_all-weights now (add_timer start interval handler ∷ rest) s t h =
    let (q, e, time, same) = act_all-weights now rest (add start interval handler s) t h.1 in
    (omega (arith, q, h.0), e, time, same)

-- A timer that goes on has its next time, later than the one before.
finish_trigger-weight :
    (now : ℕ) (t : Timer) → t.time ≤ now → weight now (finish_trigger t) ≤ now - t.time
unfolding weight finish_trigger cancel is_cancelled
finish_trigger-weight now t h = ground arith

AllFrom-from : (k m : ℕ) (l : List Timer) → k ≤ m → AllFrom m l → AllFrom k l
AllFrom-from k m [] h a = tt
AllFrom-from k m (t ∷ l) h a = (omega (arith, a.0), AllFrom-from k m l h a.1)

pub rest-AllFrom :
    (k : ℕ) (front back : List Timer) (t : Timer)
    → k ≤ t.time
    → AllFrom t.time front
    → AllFrom t.time back
    → AllFrom k (front ++ t ∷ back)
rest-AllFrom k [] back t h f b = (h, AllFrom-from k t.time back h b)
rest-AllFrom k (u ∷ front) back t h f b = (omega (arith, f.0), rest-AllFrom k front back t h f.1 b)

module _ {W : Type 0} (first : List Timer → Top) (handle : W → Timer → W × List Action) where
  fire-weights :
      (now : ℕ) (w : W) (s : Timers) (t : Timer)
      → AllAfter now (handle w (record t { state = time_executing })).1
      → is_cancelled t ≡ false
      → t.time ≤ now
      → weights now (fire first handle w s t).1.queue ≤ weights now s.queue + (now - t.time)
  unfolding fire
  fire-weights now w s t h alive due =
      let x : Timer = record t { state = time_executing } in
      let actions : List Action = (handle w x).1 in
      let (q, e, time, same) = act_all-weights now actions s x h in
      let u : Timer = finish_trigger (act_all actions s x).1 in
      let last : weight now u ≤ now - t.time =
        omega
          (arith, finish_trigger-weight now (act_all actions s x).1 (omega (arith, time)), time) in
      rw alive (elim (Bool-cases (is_cancelled u)) [
        | inl gone ↦ rw gone (omega (arith, q))
        | inr on ↦ rw on (unfold weights in omega (arith, q, last))
      ])

  -- A run that ends, with nothing due left.
  record Ends (now : ℕ) (w : W) (s : Timers) (fired : ℕ) : Type 0 where
    fuel : ℕ
    world : W
    after : Timers
    total : ℕ
    result : process_loop first handle fuel now w s fired ≡ ok (world, after, total)
    later : AllFrom (now + 1) after.queue
    counted : fired ≤ total

  module _ (picks : (l : List Timer) → Picks l (first l)) (now : ℕ)
      (future : (w : W) (t : Timer) → AllAfter now (handle w t).1) where
    -- What a round that takes its timer goes on from.
    onward :
        (w : W) (s : Timers) (fired : ℕ) (front back : List Timer) (t : Timer)
        → first s.queue ≡ some (front, t, back)
        → (leb t.time now || is_cancelled t) ≡ true
        → (let (w', s', n) = fire first handle w (record s { queue = front ++ back }) t in
            Ends now w' s' (fired + n))
        → Ends now w s fired
    onward w s fired front back t e go g = record {
      fuel = suc g.fuel;
      world = g.world;
      after = g.after;
      total = g.total;
      result = unfold process_loop in rw (e, process_loop) (rw (go, process_loop) g.result);
      later = g.later;
      counted = omega (arith, g.counted);
    }

    round :
        (d n : ℕ)
        → ((w : W) (s : Timers) (fired : ℕ) → weights now s.queue < d → Ends now w s fired)
        → ((w : W) (s : Timers) (fired : ℕ)
            → weights now s.queue ≤ d
            → length s.queue < n
            → Ends now w s fired)
        → (w : W) (s : Timers) (fired : ℕ) → weights now s.queue ≤ d
        → length s.queue ≤ n
        → Ends now w s fired
    unfolding process_loop weights
    round d n behind fewer w s fired hd hn = by_top (first s.queue) refl (picks s.queue)
      where
        taken :
            (front back : List Timer) (t : Timer)
            → first s.queue ≡ some (front, t, back)
            → s.queue ≡ front ++ t ∷ back
            → (leb t.time now || is_cancelled t) ≡ true
            → Ends now w s fired
        taken front back t e cut go = onward w s fired front back t e go (
            let parts : weights now s.queue
                ≡ weights now front + (weight now t + weights now back) =
              ap (weights now) cut ∙ weights-append now front (t ∷ back) in
            let size : length s.queue ≡ length front + suc (length back) =
              ap length cut ∙ length-append front (t ∷ back) in
            elim (Bool-cases (is_cancelled t)) [
              | inl gone ↦
                  let sum : weights now (front ++ back) ≡ weights now front + weights now back =
                    weights-append now front back in
                  unfold fire in
                  rw gone (
                    fewer w (record s { queue = front ++ back }) (fired + 0)
                      (omega (arith, parts, sum)) (omega (arith, size, length-append front back)))
              | inr alive ↦
                  let due : t.time ≤ now = ground (arith, go, alive) in
                  let sum : weights now (front ++ back) ≡ weights now front + weights now back =
                    weights-append now front back in
                  let own : weight now t ≡ (now + 1) - t.time = unfold weight in rw alive in
                  let left = record s { queue = front ++ back } in
                  let down =
                    fire-weights now w left t (future w (record t { state = time_executing })) alive
                      due in
                  behind (fire first handle w left t).0 (fire first handle w left t).1
                    (fired + (fire first handle w left t).2) (omega (arith, parts, sum, own, down))
            ])

        by_top : (o : Top) → first s.queue ≡ o → Picks s.queue o → Ends now w s fired
        by_top none e p = record {
          fuel = 1;
          world = w;
          after = s;
          total = fired;
          result = rw (e, process_loop) refl;
          later = subst (AllFrom (now + 1)) (sym p) tt;
          counted = omega arith;
        }
        by_top (some (front, t, back)) e (cut, f, b) =
            elim (Bool-cases (leb t.time now || is_cancelled t)) [
              | inl go ↦ taken front back t e cut go
              | inr stop ↦ record {
                fuel = 1;
                world = w;
                after = s;
                total = fired;
                result = rw (e, process_loop) (rw (stop, process_loop) refl);
                later =
                    subst (AllFrom (now + 1)) (sym cut)
                      (rest-AllFrom (now + 1) front back t (ground (arith, stop)) f b);
                counted = omega arith;
              }
            ]

    by_length :
        (d : ℕ)
        → ((w : W) (s : Timers) (fired : ℕ) → weights now s.queue < d → Ends now w s fired)
        → (n : ℕ) (w : W) (s : Timers) (fired : ℕ) → weights now s.queue ≤ d
        → length s.queue ≤ n
        → Ends now w s fired
    by_length d behind zero = round d zero behind (λ w s fired hd hn. absurd (omega (arith, hn)))
    by_length d behind (suc n) =
        round d (suc n) behind
          (λ w s fired hd hn. by_length d behind n w s fired hd (omega (arith, hn)))

    by_weight :
        (d : ℕ) (w : W) (s : Timers) (fired : ℕ) → weights now s.queue ≤ d → Ends now w s fired
    by_weight zero w s fired hd =
        by_length zero (λ v r k h. absurd (omega (arith, h))) (length s.queue) w s fired hd
          (omega arith)
    by_weight (suc d) w s fired hd =
        by_length (suc d) (λ v r k h. by_weight d v r k (omega (arith, h))) (length s.queue) w s
          fired hd (omega arith)

    -- `process` ends, whatever the queue holds: a number of rounds is enough, and afterwards every timer of
    -- the queue, one that is cancelled included, is for a time after now. Conditions: `top()` gives a
    -- timer that no other precedes, and handlers add timers for times after now only, as `addTimer` does;
    -- they may cancel any timer, the executing one included.
    pub process_loop-AllFrom :
        (w : W) (s : Timers)
        → (fuel : ℕ) × (w' : W) × (s' : Timers) × (fired : ℕ) × (process_loop first handle fuel now
              w s 0
            ≡ ok (w', s', fired))
          × AllFrom (now + 1) s'.queue
    process_loop-AllFrom w s =
        let g = by_weight (weights now s.queue) w s 0 (omega arith) in
        (g.fuel, g.world, g.after, g.total, g.result, g.later)
