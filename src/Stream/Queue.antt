-- ===== src/Stream/Queue.antt =====
-- What a `MemoryStream` promises: the bytes between the two positions are a queue. Writing appends at
-- its end, reading takes from its front, and reading more than there is throws.
use mathlib.Core.Bool.{and-false}
use x_kbengine.Prelude.{
  ℕ, ◌+◌, ◌-◌, ◌≤◌, ◌<◌, ◌≡◌, refl, sym, ap, ◌∙◌, inl, inr, false, Option, none, some, List, [],
  ◌∷◌, ◌++◌, arith, length, take, drop, replicate, ltb, if◌then◌else◌, append-nil, append_assoc,
  length-append, length-take, length-drop, length-replicate, take_all, take-append, drop-append,
  take-append_exact, drop-append_exact, take-take_le, drop-take, drop-drop, suc→==, lt→ltb, le→ltb,
  Bool-cases, Outcome, ok, fail, out_of_range,
}
use x_kbengine.Stream.{
  Stream, size, append, read, read_skip, unread_length, max_size, overwrite, vector_resize,
}

-- Both positions lie in the vector, in order.
pub record IsValid (s : Stream) : Type 0 where
  pub ordered : s.rpos ≤ s.wpos
  pub within : s.wpos ≤ length s.bytes

abbrev pub unread : Stream → List ℕ
unread s = drop s.rpos (take s.wpos s.bytes)

pub length-unread : (s : Stream) → IsValid s → length (unread s) ≡ s.wpos - s.rpos
length-unread s v =
    omega (arith, length-drop s.rpos (take s.wpos s.bytes), length-take s.wpos s.bytes)

pub unread_length_lem : (s : Stream) → IsValid s → unread_length s ≡ length (unread s)
unfolding unread_length
unread_length_lem s v = rw (length-unread s v) (ground arith)

pub take-overwrite :
    (xs v : List ℕ) (w : ℕ)
    → w ≤ length xs
    → take (w + length v) (overwrite xs w v) ≡ take w xs ++ v
take-overwrite xs v w h = rw (← append_assoc) (
    take-append_exact (w + length v) (take w xs ++ v) (drop (w + length v) xs)
      (omega (arith, length-append (take w xs) v, length-take w xs)))

pub length-overwrite :
    (xs v : List ℕ) (w : ℕ) → w ≤ length xs → w + length v ≤ length (overwrite xs w v)
length-overwrite xs v w h = omega (
  arith,
  length-append (take w xs) (v ++ drop (w + length v) xs),
  length-append v (drop (w + length v) xs),
  length-take w xs,
)

-- The vector that `append` writes into.
abbrev pub grown : Stream → List ℕ → List ℕ
grown s v =
    if ltb (size s) (s.wpos + length v) then vector_resize (s.wpos + length v) s.bytes else s.bytes

grown_long : (s : Stream) (v : List ℕ) → IsValid s → s.wpos ≤ length (grown s v)
grown_long s v h = elim (Bool-cases (ltb (size s) (s.wpos + length v))) [
  | inl up ↦ rw up (
      omega (
        arith,
        length-append (take (s.wpos + length v) s.bytes)
            (replicate (s.wpos + length v - length s.bytes) 0),
        length-take (s.wpos + length v) s.bytes,
        length-replicate {A = ℕ} (s.wpos + length v - length s.bytes) 0,
      ))
  | inr same ↦ rw same h.within
]

take-grown : (s : Stream) (v : List ℕ) → IsValid s → take s.wpos (grown s v) ≡ take s.wpos s.bytes
take-grown s v h = elim (Bool-cases (ltb (size s) (s.wpos + length v))) [
  | inl up ↦
      rw (up, take_all (s.wpos + length v) s.bytes (ground arith))
        (take-append s.wpos s.bytes _ h.within)
  | inr same ↦ rw same
]

-- The stream after a write.
abbrev pub written : Stream → List ℕ → Stream
written s v = record s { wpos = s.wpos + length v; bytes = overwrite (grown s v) s.wpos v }

written-IsValid : (s : Stream) (v : List ℕ) → IsValid s → IsValid (written s v)
written-IsValid s v h = record {
  ordered = omega arith;
  within = length-overwrite (grown s v) v s.wpos (grown_long s v h);
}

unread-written : (s : Stream) (v : List ℕ) → IsValid s → unread (written s v) ≡ unread s ++ v
unread-written s v h =
    ap (drop s.rpos)
      (take-overwrite (grown s v) v s.wpos (grown_long s v h) ∙ ap (λ l. l ++ v) (take-grown s v h))
    ∙ drop-append s.rpos (take s.wpos s.bytes) v (omega (arith, length-take s.wpos s.bytes))

length-written : (s : Stream) (v : List ℕ) → IsValid s → size (written s v) ≤ size s + length v
length-written s v h = elim (Bool-cases (ltb (size s) (s.wpos + length v))) [
  | inl up ↦ rw up (
      omega (
        arith,
        length-append (take s.wpos l) (v ++ drop (s.wpos + length v) l),
        length-append v (drop (s.wpos + length v) l),
        length-take s.wpos l,
        length-drop (s.wpos + length v) l,
        length-append (take (s.wpos + length v) s.bytes)
            (replicate (s.wpos + length v - length s.bytes) 0),
        length-take (s.wpos + length v) s.bytes,
        length-replicate {A = ℕ} (s.wpos + length v - length s.bytes) 0,
        h.within,
      ))
  | inr same ↦ rw same (
      omega (
        arith,
        length-append (take s.wpos s.bytes) (v ++ drop (s.wpos + length v) s.bytes),
        length-append v (drop (s.wpos + length v) s.bytes),
        length-take s.wpos s.bytes,
        length-drop (s.wpos + length v) s.bytes,
        h.within,
      ))
]
  where
    l : List ℕ
    l = vector_resize (s.wpos + length v) s.bytes

pub append-written :
    (s : Stream) (x : ℕ) (xs : List ℕ)
    → size s < max_size
    → append s (x ∷ xs) ≡ ok (written s (x ∷ xs))
unfolding append
append-written s x xs small = rw (suc→==, lt→ltb _ _ small)

-- The operation succeeds, and leaves a valid stream with the given bytes unread, in a vector no
-- longer than the bound.
abbrev pub Leaves : List ℕ → ℕ → Outcome Stream → Type 0
Leaves rest bound r = (t : Stream) × (r ≡ ok t) × IsValid t × (unread t ≡ rest) × (size t ≤ bound)

-- Writing to a valid stream below the size limit succeeds, keeps it valid, and appends exactly the
-- given bytes to the unread ones; the vector grows by no more than their number.
pub append-Leaves :
    (s : Stream) (v : List ℕ)
    → IsValid s
    → size s < max_size
    → Leaves (unread s ++ v) (size s + length v) (append s v)
unfolding append
append-Leaves s [] h small = (s, refl, h, sym (append-nil (unread s)), omega arith)
append-Leaves s (x ∷ xs) h small =
    let v : List ℕ = x ∷ xs in
    (
      written s v,
      rw (suc→==, lt→ltb _ _ small),
      written-IsValid s v h,
      unread-written s v h,
      length-written s v h,
    )

-- The queue that a reader sees: the first `n` bytes and the rest, if there are `n`.
unfoldable pub dequeue : ℕ → List ℕ → Option (List ℕ × List ℕ)
dequeue n xs = if ltb (length xs) n then none else some (take n xs, drop n xs)

-- A read gives what the queue gives, moving the read position alone, and throws where the queue has
-- too little.
abbrev pub Answers : Stream → Option (List ℕ × List ℕ) → Outcome (List ℕ × Stream) → Type 0
Answers s none r = r ≡ fail out_of_range
Answers s (some (v, rest)) r =
    (t : Stream) × (r ≡ ok (v, t))
    × IsValid t
    × (unread t ≡ rest)
    × (t.bytes ≡ s.bytes)
    × (t.wpos ≡ s.wpos)

module _ (s : Stream) (v : IsValid s) where
  unread-take : unread s ≡ take (s.wpos - s.rpos) (drop s.rpos s.bytes)
  unread-take =
      let e : s.wpos ≡ s.rpos + (s.wpos - s.rpos) = omega (arith, v.ordered) in
      ap (λ k. drop s.rpos (take k s.bytes)) e ∙ drop-take s.rpos (s.wpos - s.rpos) s.bytes

  pub take-unread :
      (n : ℕ) → n ≤ length (unread s) → take n (drop s.rpos s.bytes) ≡ take n (unread s)
  take-unread n h = sym (
      ap (take n) unread-take
      ∙ take-take_le n (s.wpos - s.rpos) (drop s.rpos s.bytes) (omega (arith, length-unread s v)))

  -- The stream after a read of `n` bytes.
  abbrev pub advanced : ℕ → Stream
  advanced n = record s { rpos = s.rpos + n }

  pub read-ok : (n : ℕ) → n ≤ length (unread s) → read n s ≡ ok (take n (unread s), advanced n)
  unfolding read
  read-ok n h =
      let fits : ltb (size s) (s.rpos + n) ≡ false =
        le→ltb _ _ (omega (arith, length-unread s v, v.within, v.ordered)) in
      rw (unread_length_lem s v, le→ltb _ _ h, fits, and-false, take-unread n h)

  pub advanced-IsValid : (n : ℕ) → n ≤ length (unread s) → IsValid (advanced n)
  advanced-IsValid n h = record {
    ordered = omega (arith, length-unread s v, v.ordered);
    within = v.within;
  }

  pub unread-advanced : (n : ℕ) → unread (advanced n) ≡ drop n (unread s)
  unread-advanced n = sym (drop-drop s.rpos n (take s.wpos s.bytes))

  -- Reading from a valid stream is taking from the front of its queue of unread bytes: the bytes
  -- asked for, and the rest stays; it throws `out_of_range` exactly where the queue is too short.
  pub read-dequeue : (n : ℕ) → Answers s (dequeue n (unread s)) (read n s)
  unfolding dequeue
  read-dequeue n = elim (Bool-cases (ltb (length (unread s)) n)) [
    | inl short ↦ rw short (unfold read in rw (unread_length_lem s v, short))
    | inr enough ↦
        let h : n ≤ length (unread s) = ground arith in
        rw enough (advanced n, read-ok n h, advanced-IsValid n h, unread-advanced n, refl, refl)
  ]

  pub read_skip-ok : (n : ℕ) → n ≤ length (unread s) → read_skip n s ≡ ok (advanced n)
  unfolding read_skip
  read_skip-ok n h = rw (unread_length_lem s v, le→ltb _ _ h)

  -- A reader that asks for as many bytes as the front holds gets the front.
  pub read-front :
      (front rest : List ℕ)
      → unread s ≡ front ++ rest
      → (t : Stream) × (read (length front) s ≡ ok (front, t)) × IsValid t × (unread t ≡ rest)
  read-front front rest e =
      let n : ℕ = length front in
      let h : n ≤ length (unread s) = omega (arith, ap length e, length-append front rest) in
      (
        advanced n,
        read-ok n h
            ∙ ap (λ l. ok (l, advanced n)) (ap (take n) e ∙ take-append_exact n front rest refl),
        advanced-IsValid n h,
        unread-advanced n ∙ ap (drop n) e ∙ drop-append_exact n front rest refl,
      )
