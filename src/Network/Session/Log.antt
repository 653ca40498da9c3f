-- ===== src/Network/Session/Log.antt =====
-- The framing machine with a list of messages as the world behind it: what it notes is in order, and of
-- a part of a stream it notes a part.
use x_kbengine.Prelude.{
  ℕ, ◌+◌, ◌≡◌, refl, sym, ap, ◌∙◌, true, false, List, [], ◌∷◌, ◌++◌, length, append_assoc,
  append-nil, drop, drop-append_exact, ◌==◌, if◌then◌else◌,
}
use x_kbengine.Network.Framing.{
  Phase, idle, half, collecting, body_size, next_phase, effect, feed, feed-append, encode_all,
  deliver_all, feed-encode_all, AllShort,
}

abbrev pub Messages : Type 0
Messages = List (List ℕ)

abbrev pub note : Messages → List ℕ → Messages
note v m = v ++ m ∷ []

-- Two worlds that a relation joins stay joined, whatever the machine delivers to both.
module _ {W V : Type 0} (deliver : W → List ℕ → W) (deliver' : V → List ℕ → V) (R : W → V → Type 0)
    (step : (w : W) (v : V) (m : List ℕ) → R w v → R (deliver w m) (deliver' v m)) where
  effect-joins :
      (w : W) (v : V) (ph : Phase) (b : ℕ)
      → R w v
      → R (effect deliver w ph b) (effect deliver' v ph b)
  unfolding effect
  effect-joins w v idle b r = r
  effect-joins w v (half hi) b r =
      elim (body_size hi b == 0)
        as (λ t. R (if t then deliver w [] else w) (if t then deliver' v [] else v)) [
          | true ↦ step w v [] r
          | false ↦ r
        ]
  effect-joins w v (collecting n got) b r =
      elim (length got + 1 == n)
        as (λ t.
          R (if t then deliver w (got ++ b ∷ []) else w)
            (if t then deliver' v (got ++ b ∷ []) else v)) [
              | true ↦ step w v (got ++ b ∷ []) r
              | false ↦ r
            ]

  pub feed-joins :
      (w : W) (v : V) (ph : Phase) (xs : List ℕ)
      → R w v
      → R (feed deliver (w, ph) xs).0 (feed deliver' (v, ph) xs).0
        × ((feed deliver (w, ph) xs).1 ≡ (feed deliver' (v, ph) xs).1)
  unfolding feed
  feed-joins w v ph [] r = (r, refl)
  feed-joins w v ph (x ∷ xs) r =
      feed-joins (effect deliver w ph x) (effect deliver' v ph x) (next_phase ph x) xs
        (effect-joins w v ph x r)

deliver_all-note : (v ms : Messages) → deliver_all note v ms ≡ v ++ ms
deliver_all-note v [] = sym (append-nil v)
deliver_all-note v (m ∷ ms) = deliver_all-note (v ++ m ∷ []) ms ∙ append_assoc v (m ∷ []) ms

-- What the machine noted stays.
feed_grows :
    (v : Messages) (ph : Phase) (xs : List ℕ)
    → (more : Messages) × ((feed note (v, ph) xs).0 ≡ v ++ more)
feed_grows v ph xs =
    (feed-joins note note (λ a b. (more : Messages) × (a ≡ v ++ more))
      (λ a b m (more, e). (more ++ m ∷ [], ap (λ l. note l m) e ∙ append_assoc v more (m ∷ []))) v v
      ph xs ([], sym (append-nil v))).0

append-cancel : (v xs ys : Messages) → v ++ xs ≡ v ++ ys → xs ≡ ys
append-cancel v xs ys e =
    sym (drop-append_exact (length v) v xs refl)
    ∙ ap (drop (length v)) e
    ∙ drop-append_exact (length v) v ys refl

-- Of the front of a stream of encoded messages, the machine notes the first of these messages; of the
-- whole stream it notes all.
pub feed-front :
    (v ms : Messages) (front rest : List ℕ)
    → AllShort ms
    → front ++ rest ≡ encode_all ms
    → (got : Messages) × (more : Messages) × (ms ≡ got ++ more)
      × ((feed note (v, idle) front).0 ≡ v ++ got)
      × (rest ≡ [] → more ≡ [])
feed-front v ms front rest short e =
    let (got, noted) = feed_grows v idle front in
    let (more, later) =
      feed_grows (feed note (v, idle) front).0 (feed note (v, idle) front).1 rest in
    let total : (feed note (v, idle) (front ++ rest)).0 ≡ v ++ ms =
      ap (λ l. (feed note (v, idle) l).0) e
      ∙ ap (λ m. m.0) (feed-encode_all note v ms short)
      ∙ deliver_all-note v ms in
    let split : v ++ (got ++ more) ≡ v ++ ms =
      sym (append_assoc v got more)
      ∙ ap (λ l. l ++ more) (sym noted)
      ∙ sym later
      ∙ ap (λ m. m.0) (sym (feed-append note (v, idle) front rest))
      ∙ total in
    let whole : ms ≡ got ++ more = sym (append-cancel v (got ++ more) ms split) in
    (
      got,
      more,
      whole,
      noted,
      λ none_left.
          let all : front ≡ encode_all ms =
            sym (append-nil front) ∙ ap (λ l. front ++ l) (sym none_left) ∙ e in
          let same : v ++ got ≡ v ++ ms =
            sym noted
            ∙ ap (λ l. (feed note (v, idle) l).0) all
            ∙ ap (λ m. m.0) (feed-encode_all note v ms short)
            ∙ deliver_all-note v ms in
          sym (append-cancel got [] more (append-nil got ∙ append-cancel v got ms same ∙ whole)),
    )
