-- ===== src/Dispatcher/Loop/Wait.antt =====
-- `calculateWait` of libs/dispatcher/event_dispatcher.cpp.
use x_kbengine.Prelude.{
  ℕ, ◌^◌, ◌≤◌, ◌<◌, ◌≡◌, refl, ap₂, fail, undefined, Bool, true, false, Option, none, some, List,
  [], ◌∷◌, Outcome, ok, arith,
}
use x_kbengine.Prelude.Int.{ℤ, pos, negsuc}
use x_kbengine.Dispatcher.Timers.{Timer, Top, next_exp}
use x_kbengine.Dispatcher.Loop.{EventDispatcher, int_of, int_min, at_most, calculate_wait}

abbrev pub is_negative : ℤ → Bool
is_negative (pos n) = false
is_negative (negsuc n) = true

at_most_refl : (a : ℤ) → at_most a a ≡ true
unfolding at_most
at_most_refl (pos a) = ground arith
at_most_refl (negsuc a) = ground arith

int_min-at_most : (a b : ℤ) → at_most (int_min a b) a ≡ true
unfolding int_min at_most
int_min-at_most (pos a) (pos b) = ground arith
int_min-at_most (pos a) (negsuc b) = ground arith
int_min-at_most (negsuc a) (pos b) = ground arith
int_min-at_most (negsuc a) (negsuc b) = ground arith

int_min-negative : (a b : ℤ) → is_negative b ≡ true → is_negative (int_min a b) ≡ true
unfolding int_min at_most
int_min-negative (pos a) (pos b) h = ground (arith, h)
int_min-negative (pos a) (negsuc b) h = ground arith
int_min-negative (negsuc a) (pos b) h = ground arith
int_min-negative (negsuc a) (negsuc b) h = ground arith

int_of-negative : (n : ℕ) → 2 ^ 31 ≤ n → n < 2 ^ 32 → is_negative (int_of n) ≡ true
unfolding int_of
int_of-negative n low high = ground arith

module _ {K I O W : Type 0} (first : List Timer → Top) where
  -- The wait that the loop calculates is never above the maximum, once that is set.
  pub calculate_wait-at_most :
      (now : ℕ) (m : ℤ) (d : EventDispatcher K I O W)
      → d.max_wait ≡ some m
      → (w : ℤ) × (calculate_wait first now d ≡ ok w) × (at_most w m ≡ true)
  unfolding calculate_wait
  calculate_wait-at_most now m d set = by_queue d.timers.queue refl
    where
      waits : Option ℤ → List Timer → Outcome ℤ
      waits q l = elim q [
        | none ↦ fail undefined
        | some m' ↦ elim l [
          | [] ↦ ok m'
          | t ∷ ts ↦ ok (int_min m' (int_of (next_exp first now d.timers)))
        ]
      ]

      by_queue :
          (l : List Timer)
          → d.timers.queue ≡ l
          → (w : ℤ) × (waits d.max_wait d.timers.queue ≡ ok w) × (at_most w m ≡ true)
      by_queue [] e = (m, ap₂ waits set e, at_most_refl m)
      by_queue (t ∷ ts) e = (
        int_min m (int_of (next_exp first now d.timers)),
        ap₂ waits set e,
        int_min-at_most m (int_of (next_exp first now d.timers)),
      )

  -- A timer is in the queue, and the next is due in at least 2^31 and less than 2^32 ticks of the clock,
  -- which are two to four seconds. Then the wait is negative, whatever the maximum.
  pub calculate_wait-negative :
      (now : ℕ) (m : ℤ) (t : Timer) (ts : List Timer) (d : EventDispatcher K I O W)
      → d.max_wait ≡ some m
      → d.timers.queue ≡ t ∷ ts
      → 2 ^ 31 ≤ next_exp first now d.timers
      → next_exp first now d.timers < 2 ^ 32
      → (w : ℤ) × (calculate_wait first now d ≡ ok w) × (is_negative w ≡ true)
  unfolding calculate_wait
  calculate_wait-negative now m t ts d set some_ low high = (
    int_min m (int_of (next_exp first now d.timers)),
    ap₂
        (λ q l. elim q [
          | none ↦ fail undefined
          | some m' ↦ elim l [
            | [] ↦ ok m'
            | t' ∷ ts' ↦ ok (int_min m' (int_of (next_exp first now d.timers)))
          ]
        ])
        set some_,
    int_min-negative m (int_of (next_exp first now d.timers))
        (int_of-negative (next_exp first now d.timers) low high),
  )
