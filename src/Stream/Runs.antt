-- ===== src/Stream/Runs.antt =====
-- Any sequence of the operations of libs/common/memorystream.cpp on one stream, against a queue of bytes.
use x_kbengine.Prelude.{
  ℕ, ◌+◌, ◌≤◌, ◌<◌, ◌≡◌, refl, sym, ap, subst, if_cases, ◌∙◌, Bool, true, Option, none, some, List,
  [], ◌∷◌, ◌++◌, arith, length, take, drop, drop_all, ltb, if◌then◌else◌, Outcome, ok, fail,
  out_of_range, ◌>>=◌,
}
use x_kbengine.Stream.{Stream, size, append, read, read_skip, done, clear, unread_length, max_size}
use x_kbengine.Stream.Queue.{
  IsValid, unread, unread_length_lem, append-Leaves, read-ok, read_skip-ok, advanced,
  advanced-IsValid, unread-advanced,
}

pub data Operation : Type 0 where
  put : List ℕ → Operation
  get : ℕ → Operation
  skip : ℕ → Operation
  finish : Operation
  wipe : Bool → Operation

-- What the operation gives, and the stream afterwards.
unfoldable pub step : Operation → Stream → Outcome (List (List ℕ) × Stream)
step (put v) s = append s v >>= λ t. ok ([], t)
step (get n) s = read n s >>= λ (v, t). ok (v ∷ [], t)
step (skip n) s = read_skip n s >>= λ t. ok ([], t)
step finish s = done s >>= λ t. ok ([], t)
step (wipe data_too) s = ok ([], clear data_too s)

unfoldable pub run : List Operation → Stream → Outcome (List (List ℕ) × Stream)
run [] s = ok ([], s)
run (o ∷ ops) s = step o s >>= λ (v, t). run ops t >>= λ (vs, u). ok (v ++ vs, u)

-- The same on a queue, where a look for more than there is ends the sequence.
abbrev pub queue_step : Operation → List ℕ → Option (List (List ℕ) × List ℕ)
queue_step (put v) q = some ([], q ++ v)
queue_step (get n) q = if ltb (length q) n then none else some (take n q ∷ [], drop n q)
queue_step (skip n) q = if ltb (length q) n then none else some ([], drop n q)
queue_step finish q = some ([], [])
queue_step (wipe data_too) q = some ([], [])

abbrev pub go_on : List (List ℕ) → Option (List (List ℕ) × List ℕ) → Option (List (List ℕ) × List ℕ)
go_on v none = none
go_on v (some (vs, q)) = some (v ++ vs, q)

abbrev pub queue_run : List Operation → List ℕ → Option (List (List ℕ) × List ℕ)
queue_run [] q = some ([], q)
queue_run (o ∷ ops) q = elim (queue_step o q) [
  | none ↦ none
  | some (v, r) ↦ go_on v (queue_run ops r)
]

-- The stream gives what the queue gives and holds what it holds, or throws where the queue has too
-- little.
abbrev pub Refines : Option (List (List ℕ) × List ℕ) → Outcome (List (List ℕ) × Stream) → Type 0
Refines none r = r ≡ fail out_of_range
Refines (some (vs, q)) r = (t : Stream) × (r ≡ ok (vs, t)) × IsValid t × (unread t ≡ q)

-- How much is written at most.
abbrev cost : Operation → ℕ
cost (put v) = length v
cost _ = 0

abbrev pub total : List Operation → ℕ
total [] = 0
total (o ∷ ops) = cost o + total ops

-- One operation, with the growth of the vector.
abbrev Steps : Stream → Operation → Option (List (List ℕ) × List ℕ) → Type 0
Steps s o none = step o s ≡ fail out_of_range
Steps s o (some (v, q)) =
    (t : Stream) × (step o s ≡ ok (v, t)) × IsValid t × (unread t ≡ q) × (size t ≤ size s + cost o)

read_short :
    (n : ℕ) (s : Stream)
    → IsValid s
    → ltb (length (unread s)) n ≡ true
    → read n s ≡ fail out_of_range
unfolding read
read_short n s valid short = rw (unread_length_lem s valid, short) refl

read_skip_short :
    (n : ℕ) (s : Stream)
    → IsValid s
    → ltb (length (unread s)) n ≡ true
    → read_skip n s ≡ fail out_of_range
unfolding read_skip
read_skip_short n s valid short = rw (unread_length_lem s valid, short) refl

done-ok :
    (s : Stream) (valid : IsValid s)
    → unread_length s ≤ length (unread s)
    → done s ≡ ok (advanced s valid (unread_length s))
unfolding done
done-ok s valid h = read_skip-ok s valid (unread_length s) h

skipped :
    (n : ℕ) (s : Stream)
    → IsValid s
    → n ≤ length (unread s)
    → Steps s (skip n) (some ([], drop n (unread s)))
unfolding step
skipped n s valid h = (
  advanced s valid n,
  ap (λ o. o >>= λ t. ok ([], t)) (read_skip-ok s valid n h),
  advanced-IsValid s valid n h,
  unread-advanced s valid n,
  omega arith,
)

step-Steps :
    (o : Operation) (s : Stream)
    → IsValid s
    → size s < max_size
    → Steps s o (queue_step o (unread s))
unfolding step
step-Steps (put v) s valid small =
    let (t, e, w, u, b) = append-Leaves s v valid small in
    (t, ap (λ o. o >>= λ t. ok ([], t)) e, w, u, b)
step-Steps (get n) s valid small =
    if_cases (Steps s (get n)) (ltb (length (unread s)) n)
      (λ short. ap (λ o. o >>= λ (v, t). ok (v ∷ [], t)) (read_short n s valid short))
      (λ enough.
        let h : n ≤ length (unread s) = ground (arith, enough) in
        (
          advanced s valid n,
          ap (λ o. o >>= λ (v, t). ok (v ∷ [], t)) (read-ok s valid n h),
          advanced-IsValid s valid n h,
          unread-advanced s valid n,
          omega arith,
        ))
step-Steps (skip n) s valid small =
    if_cases (Steps s (skip n)) (ltb (length (unread s)) n)
      (λ short. ap (λ o. o >>= λ t. ok ([], t)) (read_skip_short n s valid short))
      (λ enough. skipped n s valid (ground (arith, enough)))
step-Steps finish s valid small =
    let n : ℕ = unread_length s in
    let h : n ≤ length (unread s) = omega (arith, unread_length_lem s valid) in
    (
      advanced s valid n,
      ap (λ o. o >>= λ t. ok ([], t)) (done-ok s valid h),
      advanced-IsValid s valid n h,
      unread-advanced s valid n ∙ drop_all n (unread s) (omega (arith, unread_length_lem s valid)),
      omega arith,
    )
step-Steps (wipe data_too) s valid small =
    unfold clear in
    (
      _,
      refl,
      record { ordered = omega arith; within = omega arith },
      refl,
      if_cases (λ (l : List ℕ). length l ≤ length s.bytes + 0) data_too (λ t. omega arith)
          (λ t. omega arith),
    )

further :
    (v : List (List ℕ)) (spec : Option (List (List ℕ) × List ℕ))
    (r : Outcome (List (List ℕ) × Stream))
    → Refines spec r
    → Refines (go_on v spec) (r >>= λ (vs, u). ok (v ++ vs, u))
further v none r e = ap (λ o. o >>= λ (vs, u). ok (v ++ vs, u)) e
further v (some (vs, q)) r (t, e, w, u) = (t, ap (λ o. o >>= λ (vs, u). ok (v ++ vs, u)) e, w, u)

-- Any sequence of writes, reads, skips and the two ways of dropping what is left, on a valid stream whose
-- vector stays below the size limit with all that is written, gives what the same sequence gives on a
-- queue of bytes that starts as the unread ones: the same results in order, and the unread bytes are the
-- queue's in the end. It throws `out_of_range` just if some read or skip wants more than the queue has.
pub run-queue_run :
    (ops : List Operation) (s : Stream)
    → IsValid s
    → size s + total ops < max_size
    → Refines (queue_run ops (unread s)) (run ops s)
unfolding run
run-queue_run [] s valid small = (s, refl, valid, refl)
run-queue_run (o ∷ ops) s valid small =
    by_step
      (λ t q w u b.
        subst (λ q. Refines (queue_run ops q) (run ops t)) u
          (run-queue_run ops t w (omega (arith, b))))
      (queue_step o (unread s)) (step-Steps o s valid (omega arith))
  where
    rest : List (List ℕ) × Stream → Outcome (List (List ℕ) × Stream)
    rest (v, t) = run ops t >>= λ (vs, u). ok (v ++ vs, u)

    by_step :
        ((t : Stream) (q : List ℕ)
          → IsValid t
          → unread t ≡ q
          → size t ≤ size s + cost o
          → Refines (queue_run ops q) (run ops t))
        → (spec : Option (List (List ℕ) × List ℕ)) → Steps s o spec
        → Refines
            (elim spec [ none ↦ none | some (v, r) ↦ go_on v (queue_run ops r) ])
            (step o s >>= rest)
    by_step more none e = ap (λ r. r >>= rest) e
    by_step more (some (v, q)) (t, e, w, u, b) =
        subst (Refines (go_on v (queue_run ops q))) (sym (ap (λ r. r >>= rest) e))
          (further v (queue_run ops q) (run ops t) (more t q w u b))
