-- ===== src/Network/Framing.antt =====
-- The protocol that the reader of libs/network/packet_reader.cpp follows, as a machine that takes one
-- byte at a time: two bytes of size, the high one first, then a body of two bytes less than the size.
-- It is the specification to which the reader is held.
use x_kbengine.Prelude.{
  ℕ, ◌+◌, ◌*◌, ◌/◌, ◌%◌, ◌≤◌, ◌<◌, ◌≡◌, ◌≢◌, true, refl, sym, ap, ◌∙◌, List, [], ◌∷◌, ◌++◌, arith,
  length, length-append, append_assoc, append-nil, ◌==◌, if◌then◌else◌, ne→==,
}

pub data Phase : Type 0 where
  idle : Phase
  half : ℕ → Phase
  collecting : ℕ → List ℕ → Phase

-- The size of the body that a header announces; the subtraction is one on 16 bits.
abbrev pub body_size : ℕ → ℕ → ℕ
body_size hi lo = (hi * 256 + lo + 65534) % 65536

unfoldable pub next_phase : Phase → ℕ → Phase
next_phase idle b = half b
next_phase (half hi) b = if body_size hi b == 0 then idle else collecting (body_size hi b) []
next_phase (collecting n got) b = if length got + 1 == n then idle else collecting n (got ++ b ∷ [])

-- A message with its header.
abbrev pub encode : List ℕ → List ℕ
encode m = ((length m + 2) / 256) ∷ ((length m + 2) % 256) ∷ m

abbrev pub encode_all : List (List ℕ) → List ℕ
encode_all [] = []
encode_all (m ∷ ms) = encode m ++ encode_all ms

abbrev pub AllShort : List (List ℕ) → Type 0
AllShort [] = Unit {0}
AllShort (m ∷ ms) = (length m < 65534) × AllShort ms

module _ {W : Type 0} (deliver : W → List ℕ → W) where
  unfoldable pub effect : W → Phase → ℕ → W
  effect w idle b = w
  effect w (half hi) b = if body_size hi b == 0 then deliver w [] else w
  effect w (collecting n got) b = if length got + 1 == n then deliver w (got ++ b ∷ []) else w

  unfoldable pub feed : W × Phase → List ℕ → W × Phase
  unfolding next_phase effect
  feed (w, ph) [] = (w, ph)
  feed (w, ph) (b ∷ bs) = feed (effect w ph b, next_phase ph b) bs

  pub feed-append : (m : W × Phase) (xs ys : List ℕ) → feed m (xs ++ ys) ≡ feed (feed m xs) ys
  unfolding feed
  feed-append (w, ph) [] ys = refl
  feed-append (w, ph) (x ∷ xs) ys = feed-append (effect w ph x, next_phase ph x) xs ys

  pub feed-collect :
      (w : W) (n : ℕ) (got xs : List ℕ)
      → length got + length xs < n
      → feed (w, collecting n got) xs ≡ (w, collecting n (got ++ xs))
  unfolding feed
  feed-collect w n got [] h = ap (λ l. (w, collecting n l)) (sym (append-nil got))
  feed-collect w n got (x ∷ xs) h = rw (ne→== (length got + 1) n (omega arith)) (
      feed-collect w n (got ++ x ∷ []) xs (omega (arith, length-append got (x ∷ [])))
      ∙ ap (λ l. (w, collecting n l)) (append_assoc got (x ∷ []) xs))

  pub feed_complete :
      (w : W) (n : ℕ) (got : List ℕ) (x : ℕ) (xs : List ℕ)
      → length got + length (x ∷ xs) ≡ n
      → feed (w, collecting n got) (x ∷ xs) ≡ (deliver w (got ++ x ∷ xs), idle)
  unfolding feed
  feed_complete w n got x [] h = let e : (length got + 1 == n) ≡ true = ground arith in rw e
  feed_complete w n got x (y ∷ ys) h = rw (ne→== (length got + 1) n (omega arith)) (
      feed_complete w n (got ++ x ∷ []) y ys (omega (arith, length-append got (x ∷ [])))
      ∙ ap (λ l. (deliver w l, idle)) (append_assoc got (x ∷ []) (y ∷ ys)))

  abbrev pub deliver_all : W → List (List ℕ) → W
  deliver_all w [] = w
  deliver_all w (m ∷ ms) = deliver_all (deliver w m) ms

  pub feed_complete_all :
      (w : W) (n : ℕ) (got xs : List ℕ)
      → length got < n
      → length got + length xs ≡ n
      → feed (w, collecting n got) xs ≡ (deliver w (got ++ xs), idle)
  feed_complete_all w n got [] l h = absurd (omega arith)
  feed_complete_all w n got (x ∷ xs) l h = feed_complete w n got x xs h

  feed-encode :
      (w : W) (m : List ℕ) → length m < 65534 → feed (w, idle) (encode m) ≡ (deliver w m, idle)
  unfolding feed
  feed-encode w [] h = refl
  feed-encode w (x ∷ xs) h =
      let n : ℕ = length (x ∷ xs) in
      let e : body_size ((n + 2) / 256) ((n + 2) % 256) ≡ n = omega arith in
      rw (e, ne→== n 0 (omega arith)) (feed_complete w n [] x xs (omega arith))

  -- The machine takes a sequence of encoded messages apart into just these messages, in order.
  pub feed-encode_all :
      (w : W) (ms : List (List ℕ))
      → AllShort ms
      → feed (w, idle) (encode_all ms) ≡ (deliver_all w ms, idle)
  feed-encode_all w [] h = unfold feed in refl
  feed-encode_all w (m ∷ ms) h =
      feed-append (w, idle) (encode m) (encode_all ms)
      ∙ ap (λ s. feed s (encode_all ms)) (feed-encode w m h.0)
      ∙ feed-encode_all (deliver w m) ms h.1

-- No header on the way announces an empty body.
abbrev pub Opens : Phase → ℕ → Type 0
Opens idle b = Unit {0}
Opens (half hi) b = body_size hi b ≢ 0
Opens (collecting n got) b = Unit {0}

abbrev pub AllOpen : Phase → List ℕ → Type 0
AllOpen ph [] = Unit {0}
AllOpen ph (b ∷ bs) = Opens ph b × AllOpen (next_phase ph b) bs

AllOpen-append :
    {W : Type 0} (deliver : W → List ℕ → W) (w : W) (ph : Phase) (xs ys : List ℕ)
    → AllOpen ph xs
    → AllOpen (feed deliver (w, ph) xs).1 ys
    → AllOpen ph (xs ++ ys)
unfolding feed
AllOpen-append deliver w ph [] ys h k = k
AllOpen-append deliver w ph (x ∷ xs) ys h k =
    (h.0, AllOpen-append deliver (effect deliver w ph x) (next_phase ph x) xs ys h.1 k)

AllOpen-collect :
    (n : ℕ) (got xs : List ℕ) → length got + length xs ≤ n → AllOpen (collecting n got) xs
unfolding next_phase
AllOpen-collect n got [] h = tt
AllOpen-collect n got (x ∷ []) h = (tt, tt)
AllOpen-collect n got (x ∷ y ∷ ys) h = (
  tt,
  rw (ne→== (length got + 1) n (omega arith))
      (AllOpen-collect n (got ++ x ∷ []) (y ∷ ys) (omega (arith, length-append got (x ∷ [])))),
)

-- Messages with a body, which fit in the 16 bits of the size.
abbrev pub AllFull : List (List ℕ) → Type 0
AllFull [] = Unit {0}
AllFull (m ∷ ms) = (0 < length m) × (length m < 65534) × AllFull ms

pub AllFull-AllShort : (ms : List (List ℕ)) → AllFull ms → AllShort ms
AllFull-AllShort [] h = tt
AllFull-AllShort (m ∷ ms) h = (h.1, AllFull-AllShort ms h.2)

pub AllOpen-encode_all : (ms : List (List ℕ)) → AllFull ms → AllOpen idle (encode_all ms)
unfolding next_phase
AllOpen-encode_all [] h = tt
AllOpen-encode_all (m ∷ ms) h =
    let deliver : Unit {0} → List ℕ → Unit {0} = λ u l. u in
    let e : body_size ((length m + 2) / 256) ((length m + 2) % 256) ≡ length m =
      omega (arith, h.1) in
    let whole : AllOpen idle (encode m) = (
      tt,
      (
        rw e (omega (arith, h.0)),
        rw (e, ne→== (length m) 0 (omega (arith, h.0)))
            (AllOpen-collect (length m) [] m (omega arith)),
      ),
    ) in
    let back : feed deliver (tt, idle) (encode m) ≡ (tt, idle) = feed-encode deliver tt m h.1 in
    AllOpen-append deliver tt idle (encode m) (encode_all ms) whole
      (rw back (AllOpen-encode_all ms h.2))

pub AllOpen-feed :
    {W : Type 0} (deliver : W → List ℕ → W) (w : W) (ph : Phase) (xs ys : List ℕ)
    → AllOpen ph (xs ++ ys)
    → AllOpen (feed deliver (w, ph) xs).1 ys
unfolding feed
AllOpen-feed deliver w ph [] ys h = h
AllOpen-feed deliver w ph (x ∷ xs) ys h =
    AllOpen-feed deliver (effect deliver w ph x) (next_phase ph x) xs ys h.1
