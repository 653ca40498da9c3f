-- ===== src/Stream/Codec/Text.antt =====
-- Texts on the wire: the characters and a zero byte. The reader stops at the zero, and hands on one
-- character more than was written.
use x_kbengine.Prelude.{
  ℕ, zero, suc, ◌+◌, ◌<◌, ◌≡◌, refl, ap, ◌∙◌, true, false, List, [], ◌∷◌, ◌++◌, arith, length,
  length-append, append_assoc, ◌==◌, suc→==, lt→ltb, ne→==, ◌*◌,
}
use x_kbengine.Stream.{Stream, size, max_size, unread_length}
use x_kbengine.Stream.Bytes.{host_value}
use x_kbengine.Stream.Queue.{IsValid, unread, Leaves, append-Leaves, read-front, unread_length_lem}
use x_kbengine.Stream.Codec.{write_string, read_string, is_text, char_loop}
use x_kbengine.Stream.Codec.Numbers.{Reads, write_uint8-Leaves}

-- ASCII characters, none of them zero.
abbrev pub AllText : List ℕ → Type 0
AllText [] = Unit {0}
AllText (c ∷ cs) = (0 < c) × (c < 128) × AllText cs

is_text_lem : (c : ℕ) → 0 < c → c < 128 → is_text c ≡ true
unfolding is_text
is_text_lem c lo hi = rw (ne→== c 0 (omega arith), lt→ltb c 128 hi)

not_drained :
    (s : Stream) (c : ℕ) (l : List ℕ)
    → IsValid s
    → unread s ≡ c ∷ l
    → (unread_length s == 0) ≡ false
not_drained s c l h e = rw (unread_length_lem s h, e) (suc→== (length l))

pub char_loop-Reads :
    (fuel : ℕ) (s : Stream) (cs rest : List ℕ)
    → IsValid s
    → AllText cs
    → unread s ≡ cs ++ 0 ∷ rest
    → length cs < fuel
    → Reads cs rest (char_loop fuel s)
unfolding char_loop host_value is_text
char_loop-Reads zero s cs rest h a e m = absurd (omega arith)
char_loop-Reads (suc fuel) s [] rest h a e m =
    let (t, got, v, u) = read-front s h (0 ∷ []) rest e in
    rw (not_drained s 0 rest h e, char_loop, got) (t, refl, v, u)
char_loop-Reads (suc fuel) s (c ∷ cs) rest h a e m =
    let (t, got, v, u) = read-front s h (c ∷ []) (cs ++ 0 ∷ rest) e in
    let (w, more, v', u') = char_loop-Reads fuel t cs rest v a.2 u (omega arith) in
    let value : c + 256 * 0 ≡ c = omega arith in
    rw (not_drained s c (cs ++ 0 ∷ rest) h e, char_loop, got, value, is_text_lem c a.0 a.1, more)
      (w, refl, v', u')

module _ (s : Stream) (h : IsValid s) (cs : List ℕ) where
  pub write_string-Leaves :
      size s + length cs < max_size
      → Leaves (unread s ++ (cs ++ 0 ∷ [])) (size s + (length cs + 1)) (write_string cs s)
  unfolding write_string
  write_string-Leaves room =
      let (t, e, v, u, b) = append-Leaves s cs h (omega arith) in
      let (t', e', v', u', b') = write_uint8-Leaves t v 0 (omega arith) (omega arith) in
      (
        t',
        rw (e, e'),
        v',
        u' ∙ ap (λ l. l ++ 0 ∷ []) u ∙ append_assoc (unread s) cs (0 ∷ []),
        omega arith,
      )

  pub read_string-Reads :
      (rest : List ℕ)
      → AllText cs
      → unread s ≡ cs ++ 0 ∷ rest
      → Reads (cs ++ 0 ∷ []) rest (read_string s)
  unfolding read_string
  read_string-Reads rest a e =
      let enough : length cs < unread_length s + 1 =
        omega (arith, unread_length_lem s h, ap length e, length-append cs (0 ∷ rest)) in
      let (t, got, v, u) = char_loop-Reads (unread_length s + 1) s cs rest h a e enough in
      (t, rw got, v, u)
