-- ===== src/Stream/Codec/Types.antt =====
-- The types of what the `>>` operators of libs/common/memorystream.cpp read.
use x_kbengine.Prelude.{
  ℕ, zero, suc, ◌+◌, ◌^◌, ◌≤◌, ◌<◌, ◌≡◌, refl, sym, ap₂, subst, ◌∙◌, Bool, true, false, ◌&&◌, List,
  [], ◌∷◌, ◌++◌, map, arith, length, take, drop, length-take, ltb, ◌==◌, if_cases, Outcome, ok,
  fail, ◌>>=◌,
}
use mathlib.Core.List.{reverse}
use native.Mathlib.Nat.{pow-suc}
use x_kbengine.Stream.{Stream, read, size, unread_length}
use x_kbengine.Stream.Bytes.{
  AllBytes, host_value, host_bytes, swap_bytes, AllBytes-reverse, AllBytes-host_bytes,
  length-reverse, length-host_bytes,
}
use x_kbengine.Stream.Codec.{
  read_uint8, read_swapped, read_uint16, read_uint32, read_float, read_double, read_bool,
  read_string, char_loop, next_char, is_text,
}
use x_kbengine.Stream.Codec.Text.{AllText}
use x_kbengine.Stream.Codec.Values.{
  Value, uint8, uint16, uint32, float, double, bool, text, Kind, kind_uint8, kind_uint16,
  kind_uint32, kind_float, kind_double, kind_bool, kind_text, kind, read_value, read_all,
}

-- The range of each type. A text is ASCII characters without a zero, and a zero at its end.
abbrev pub InRange : Value → Type 0
InRange (uint8 n) = n < 2 ^ 8
InRange (uint16 n) = n < 2 ^ 16
InRange (uint32 n) = n < 2 ^ 32
InRange (float n) = n < 2 ^ 32
InRange (double n) = n < 2 ^ 64
InRange (bool b) = Unit {0}
InRange (text cs) = (l : List ℕ) × (cs ≡ l ++ 0 ∷ []) × AllText l

abbrev pub AllInRange : List Value → Type 0
AllInRange [] = Unit {0}
AllInRange (v ∷ vs) = InRange v × AllInRange vs

-- What holds of a result, if there is one.
abbrev Gives : {A : Type 0} → (A → Type 0) → Outcome A → Type 0
Gives P (ok a) = P a
Gives P (fail e) = Unit {0}

Gives-next :
    {A B : Type 0} (P : A → Type 0) (Q : B → Type 0) (m : Outcome A) (f : A → Outcome B)
    → Gives P m
    → ((a : A) → P a → Gives Q (f a))
    → Gives Q (m >>= f)
Gives-next P Q (ok a) f h k = k a h
Gives-next P Q (fail e) f h k = tt

AllBytes-take : (n : ℕ) (xs : List ℕ) → AllBytes xs → AllBytes (take n xs)
AllBytes-take zero xs h = tt
AllBytes-take (suc n) [] h = tt
AllBytes-take (suc n) (x ∷ xs) (h, hs) = (h, AllBytes-take n xs hs)

AllBytes-drop : (n : ℕ) (xs : List ℕ) → AllBytes xs → AllBytes (drop n xs)
AllBytes-drop zero xs h = h
AllBytes-drop (suc n) [] h = tt
AllBytes-drop (suc n) (x ∷ xs) (h, hs) = AllBytes-drop n xs hs

host_value-length : (bs : List ℕ) → AllBytes bs → host_value bs < 256 ^ length bs
unfolding host_value
host_value-length [] h = omega arith
host_value-length (b ∷ bs) (h, hs) = rw pow-suc (omega (arith, h, host_value-length bs hs))

swap_bytes-length : (n v : ℕ) → swap_bytes n v < 256 ^ n
unfolding swap_bytes
swap_bytes-length n v =
    let r : List ℕ = reverse (host_bytes n v) in
    subst (λ k. host_value r < 256 ^ k) (length-reverse (host_bytes n v) ∙ length-host_bytes n v)
      (host_value-length r (AllBytes-reverse (host_bytes n v) (AllBytes-host_bytes n v)))

-- The bytes that are read, few enough, from a memory that stays.
abbrev Front : ℕ → Stream → List ℕ × Stream → Type 0
Front n s (bs, t) = AllBytes bs × (length bs ≤ n) × (t.bytes ≡ s.bytes)

read-Front : (n : ℕ) (s : Stream) → AllBytes s.bytes → Gives (Front n s) (read n s)
unfolding read
read-Front n s h =
    if_cases (Gives (Front n s)) (ltb (unread_length s) n) (λ _. tt)
      (λ _.
        if_cases (Gives (Front n s)) (ltb 0 n && ltb (size s) (s.rpos + n)) (λ _. tt)
          (λ _. (
            AllBytes-take n (drop s.rpos s.bytes) (AllBytes-drop s.rpos s.bytes h),
            omega (arith, length-take n (drop s.rpos s.bytes)),
            refl,
          )))

read_swapped-Gives :
    (n : ℕ) (s : Stream)
    → AllBytes s.bytes
    → Gives (λ r. (r.0 < 256 ^ n) × (r.1.bytes ≡ s.bytes)) (read_swapped n s)
unfolding read_swapped
read_swapped-Gives n s h =
    Gives-next (Front n s) (λ r. (r.0 < 256 ^ n) × (r.1.bytes ≡ s.bytes)) (read n s) _
      (read-Front n s h) (λ r f. (swap_bytes-length n (host_value r.0), f.2))

one_byte : (bs : List ℕ) → AllBytes bs → length bs ≤ 1 → host_value bs < 256
one_byte bs h short = by_length bs h short (host_value-length bs h)
  where
    by_length :
        (l : List ℕ)
        → AllBytes l
        → length l ≤ 1
        → host_value bs < 256 ^ length l
        → host_value bs < 256
    by_length [] h' k b = omega (arith, b)
    by_length (x ∷ []) h' k b = b
    by_length (x ∷ y ∷ l) h' k b = absurd (omega (arith, k))

read_uint8-Gives :
    (s : Stream)
    → AllBytes s.bytes
    → Gives (λ r. (r.0 < 256) × (r.1.bytes ≡ s.bytes)) (read_uint8 s)
unfolding read_uint8
read_uint8-Gives s h =
    Gives-next (Front 1 s) (λ r. (r.0 < 256) × (r.1.bytes ≡ s.bytes)) (read 1 s) _
      (read-Front 1 s h) (λ r f. (one_byte r.0 f.0 f.1, f.2))

-- A character that was read goes before the text that follows.
abbrev Text : Stream → List ℕ × Stream → Type 0
Text s (cs, t) = AllText cs × (t.bytes ≡ s.bytes)

char_loop-Text : (fuel : ℕ) (s : Stream) → AllBytes s.bytes → Gives (Text s) (char_loop fuel s)
unfolding char_loop is_text
char_loop-Text zero s h = tt
char_loop-Text (suc fuel) s h =
    by_length (unread_length s == 0) (λ t e. char_loop-Text fuel t (subst AllBytes (sym e) h))
  where
    by_char :
        (bs : List ℕ) (t : Stream)
        → t.bytes ≡ s.bytes
        → Gives (Text t) (char_loop fuel t)
        → Gives (Text s) (next_char (char_loop fuel) (bs, t))
    by_char bs t e rest =
        if_cases (Gives (Text s)) (is_text (host_value bs))
          (λ yes_.
            Gives-next (Text t) (Text s) (char_loop fuel t) _ rest
              (λ r f. ((ground (arith, yes_), ground (arith, yes_), f.0), f.1 ∙ e)))
          (λ _. (tt, e))

    by_length :
        (b : Bool)
        → ((t : Stream) → t.bytes ≡ s.bytes → Gives (Text t) (char_loop fuel t))
        → Gives
            (Text s)
            (elim b [ true ↦ ok ([], s) | false ↦ read 1 s >>= next_char (char_loop fuel) ])
    by_length true rest = (tt, refl)
    by_length false rest =
        Gives-next (Front 1 s) (Text s) (read 1 s) (next_char (char_loop fuel)) (read-Front 1 s h)
          (λ r f. by_char r.0 r.1 f.2 (rest r.1 f.2))

-- A value of the kind that was asked for, in its range.
abbrev Typed : Kind → Stream → Value × Stream → Type 0
Typed k s (v, t) = (kind v ≡ k) × InRange v × (t.bytes ≡ s.bytes)

value-Typed : (k : Kind) (s : Stream) → AllBytes s.bytes → Gives (Typed k s) (read_value k s)
unfolding read_value read_uint8 read_uint16 read_uint32 read_float read_double read_bool read_string
value-Typed kind_uint8 s h =
    Gives-next _ (Typed kind_uint8 s) (read_uint8 s) _ (read_uint8-Gives s h)
      (λ r f. (refl, f.0, f.1))
value-Typed kind_uint16 s h =
    Gives-next _ (Typed kind_uint16 s) (read_swapped 2 s) _ (read_swapped-Gives 2 s h)
      (λ r f. (refl, f.0, f.1))
value-Typed kind_uint32 s h =
    Gives-next _ (Typed kind_uint32 s) (read_swapped 4 s) _ (read_swapped-Gives 4 s h)
      (λ r f. (refl, f.0, f.1))
value-Typed kind_float s h =
    Gives-next _ (Typed kind_float s) (read_swapped 4 s) _ (read_swapped-Gives 4 s h)
      (λ r f. (refl, f.0, f.1))
value-Typed kind_double s h =
    Gives-next _ (Typed kind_double s) (read_swapped 8 s) _ (read_swapped-Gives 8 s h)
      (λ r f. (refl, f.0, f.1))
value-Typed kind_bool s h =
    Gives-next (λ (r : Bool × Stream). r.1.bytes ≡ s.bytes) (Typed kind_bool s) (read_bool s) _
      (Gives-next (Front 1 s) (λ (r : Bool × Stream). r.1.bytes ≡ s.bytes) (read 1 s) _
        (read-Front 1 s h) (λ r f. f.2))
      (λ r f. (refl, tt, f))
value-Typed kind_text s h =
    Gives-next (λ (r : List ℕ × Stream). InRange (text r.0) × (r.1.bytes ≡ s.bytes))
      (Typed kind_text s) (read_string s) _
      (Gives-next (Text s) (λ (r : List ℕ × Stream). InRange (text r.0) × (r.1.bytes ≡ s.bytes))
        (char_loop (unread_length s + 1) s) _ (char_loop-Text (unread_length s + 1) s h)
        (λ r f. ((r.0, refl, f.0), f.1)))
      (λ r f. (refl, f.0, f.1))

all-Typed :
    (ks : List Kind) (s : Stream)
    → AllBytes s.bytes
    → Gives (λ r. (map kind r.0 ≡ ks) × AllInRange r.0) (read_all ks s)
unfolding read_all
all-Typed [] s h = (refl, tt)
all-Typed (k ∷ ks) s h =
    Gives-next (Typed k s) (λ r. (map kind r.0 ≡ k ∷ ks) × AllInRange r.0) (read_value k s) _
      (value-Typed k s h)
      (λ r f.
        Gives-next (λ q. (map kind q.0 ≡ ks) × AllInRange q.0)
          (λ q. (map kind q.0 ≡ k ∷ ks) × AllInRange q.0) (read_all ks r.1) _
          (all-Typed ks r.1 (subst AllBytes (sym f.2) h))
          (λ q g. (ap₂ (λ a b. a ∷ b) f.0 g.0, (f.1, g.1))))

-- Values of some types are read from a stream whose memory holds bytes, whatever they are, and no read
-- throws. Then what was read is of these types, in this order, and each value is in the range of its
-- type; each text is ASCII characters without a zero, and a zero at the end.
pub read_all-AllInRange :
    (ks : List Kind) (vs : List Value) (s t : Stream)
    → AllBytes s.bytes
    → read_all ks s ≡ ok (vs, t)
    → (map kind vs ≡ ks) × AllInRange vs
read_all-AllInRange ks vs s t h done =
    subst (Gives (λ r. (map kind r.0 ≡ ks) × AllInRange r.0)) done (all-Typed ks s h)
