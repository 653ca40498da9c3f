-- ===== src/Stream/Codec/Values.antt =====
-- Values of several types, written with `<<` one after another and read with `>>` in the same order.
use x_kbengine.Prelude.{
  ℕ, ◌+◌, ◌^◌, ◌≤◌, ◌<◌, ◌≡◌, refl, sym, ap, ◌∙◌, Bool, true, false, List, [], ◌∷◌, ◌++◌, map,
  arith, length, length-append, append_assoc, append-nil, if◌then◌else◌, Outcome, ok, ◌>>=◌, subst,
}
use x_kbengine.Stream.{Stream, size, max_size}
use x_kbengine.Stream.Bytes.{network_bytes, length-network_bytes, host_value}
use x_kbengine.Stream.Queue.{IsValid, unread, Leaves, read-front}
use x_kbengine.Stream.Codec.{
  write_swapped, write_uint8, write_uint16, write_uint32, write_float, write_double, write_bool,
  write_string, read_uint8, read_uint16, read_uint32, read_float, read_double, read_bool,
  read_string,
}
use x_kbengine.Stream.Codec.Numbers.{
  Reads, write_swapped-Leaves, read_swapped-Reads, write_uint8-Leaves, read_uint8-Reads,
}
use x_kbengine.Stream.Codec.Text.{AllText, write_string-Leaves, read_string-Reads}

pub data Value : Type 0 where
  uint8 uint16 uint32 float double : ℕ → Value
  bool : Bool → Value
  text : List ℕ → Value

-- The type of a value, by which the reader picks its operator.
pub data Kind : Type 0 where
  kind_uint8 kind_uint16 kind_uint32 kind_float kind_double kind_bool kind_text : Kind

abbrev pub kind : Value → Kind
kind (uint8 n) = kind_uint8
kind (uint16 n) = kind_uint16
kind (uint32 n) = kind_uint32
kind (float n) = kind_float
kind (double n) = kind_double
kind (bool b) = kind_bool
kind (text cs) = kind_text

-- The values that the types hold; texts are of ASCII characters without a zero.
abbrev pub Fits : Value → Type 0
Fits (uint8 n) = n < 256
Fits (uint16 n) = n < 256 ^ 2
Fits (uint32 n) = n < 256 ^ 4
Fits (float n) = n < 256 ^ 4
Fits (double n) = n < 256 ^ 8
Fits (bool b) = Unit {0}
Fits (text cs) = AllText cs

unfoldable pub write_value : Value → Stream → Outcome Stream
write_value (uint8 n) = write_uint8 n
write_value (uint16 n) = write_uint16 n
write_value (uint32 n) = write_uint32 n
write_value (float n) = write_float n
write_value (double n) = write_double n
write_value (bool b) = write_bool b
write_value (text cs) = write_string cs

-- A result with the constructor of its type.
abbrev tag : {A : Type 0} → (A → Value) → Outcome (A × Stream) → Outcome (Value × Stream)
tag make o = o >>= λ (a, s). ok (make a, s)

unfoldable pub read_value : Kind → Stream → Outcome (Value × Stream)
read_value kind_uint8 s = tag uint8 (read_uint8 s)
read_value kind_uint16 s = tag uint16 (read_uint16 s)
read_value kind_uint32 s = tag uint32 (read_uint32 s)
read_value kind_float s = tag float (read_float s)
read_value kind_double s = tag double (read_double s)
read_value kind_bool s = tag bool (read_bool s)
read_value kind_text s = tag text (read_string s)

unfoldable pub write_all : List Value → Stream → Outcome Stream
write_all [] s = ok s
write_all (v ∷ vs) s = write_value v s >>= write_all vs

unfoldable pub read_all : List Kind → Stream → Outcome (List Value × Stream)
read_all [] s = ok ([], s)
read_all (k ∷ ks) s = do (v, t) ← read_value k s; (vs, u) ← read_all ks t; ok (v ∷ vs, u)

-- What arrives: a text has a zero more than was written.
abbrev pub arrived : Value → Value
arrived (text cs) = text (cs ++ 0 ∷ [])
arrived v = v

-- The bytes of a value on the wire.
abbrev pub wire : Value → List ℕ
wire (uint8 n) = n ∷ []
wire (uint16 n) = network_bytes 2 n
wire (uint32 n) = network_bytes 4 n
wire (float n) = network_bytes 4 n
wire (double n) = network_bytes 8 n
wire (bool b) = (if b then 1 else 0) ∷ []
wire (text cs) = cs ++ 0 ∷ []

abbrev pub wire_all : List Value → List ℕ
wire_all [] = []
wire_all (v ∷ vs) = wire v ++ wire_all vs

abbrev pub AllFit : List Value → Type 0
AllFit [] = Unit {0}
AllFit (v ∷ vs) = Fits v × AllFit vs

swapped-Leaves :
    (n value : ℕ) (s : Stream)
    → 0 < n
    → IsValid s
    → size s + length (network_bytes n value) ≤ max_size
    → Leaves
        (unread s ++ network_bytes n value)
        (size s + length (network_bytes n value))
        (write_swapped n value s)
swapped-Leaves n value s more h room =
    let e : length (network_bytes n value) ≡ n = length-network_bytes n value in
    subst (λ k. Leaves (unread s ++ network_bytes n value) (size s + k) (write_swapped n value s))
      (sym e) (write_swapped-Leaves s h n value (omega (arith, e)))

write_value-Leaves :
    (v : Value) (s : Stream)
    → Fits v
    → IsValid s
    → size s + length (wire v) ≤ max_size
    → Leaves (unread s ++ wire v) (size s + length (wire v)) (write_value v s)
unfolding write_value write_uint16 write_uint32 write_float write_double write_bool
write_value-Leaves (uint8 n) s f h room = write_uint8-Leaves s h n f (omega arith)
write_value-Leaves (uint16 n) s f h room = swapped-Leaves 2 n s (omega arith) h room
write_value-Leaves (uint32 n) s f h room = swapped-Leaves 4 n s (omega arith) h room
write_value-Leaves (float n) s f h room = swapped-Leaves 4 n s (omega arith) h room
write_value-Leaves (double n) s f h room = swapped-Leaves 8 n s (omega arith) h room
write_value-Leaves (bool true) s f h room = write_uint8-Leaves s h 1 (omega arith) (omega arith)
write_value-Leaves (bool false) s f h room = write_uint8-Leaves s h 0 (omega arith) (omega arith)
write_value-Leaves (text cs) s f h room =
    let e : length (cs ++ 0 ∷ []) ≡ length cs + 1 = length-append cs (0 ∷ []) in
    subst (λ k. Leaves (unread s ++ (cs ++ 0 ∷ [])) (size s + k) (write_string cs s)) (sym e)
      (write_string-Leaves s h cs (omega (arith, e)))

module _ (s : Stream) (h : IsValid s) (rest : List ℕ) where
  tag-Reads :
      {A : Type 0} (make : A → Value) (a : A) (o : Outcome (A × Stream))
      → Reads a rest o
      → Reads (make a) rest (tag make o)
  tag-Reads make a o (t, got, v, u) = (t, rw got, v, u)

  bool-Reads : (b : Bool) → unread s ≡ (if b then 1 else 0) ∷ rest → Reads b rest (read_bool s)
  unfolding read_bool host_value
  bool-Reads true e = let (t, got, v, u) = read-front s h (1 ∷ []) rest e in (t, rw got refl, v, u)
  bool-Reads false e = let (t, got, v, u) = read-front s h (0 ∷ []) rest e in (t, rw got refl, v, u)

  read_value-Reads :
      (v : Value)
      → Fits v
      → unread s ≡ wire v ++ rest
      → Reads (arrived v) rest (read_value (kind v) s)
  unfolding read_value read_uint16 read_uint32 read_float read_double
  read_value-Reads (uint8 n) f e = tag-Reads uint8 n _ (read_uint8-Reads s h n rest f e)
  read_value-Reads (uint16 n) f e = tag-Reads uint16 n _ (read_swapped-Reads s h 2 n rest f e)
  read_value-Reads (uint32 n) f e = tag-Reads uint32 n _ (read_swapped-Reads s h 4 n rest f e)
  read_value-Reads (float n) f e = tag-Reads float n _ (read_swapped-Reads s h 4 n rest f e)
  read_value-Reads (double n) f e = tag-Reads double n _ (read_swapped-Reads s h 8 n rest f e)
  read_value-Reads (bool b) f e = tag-Reads bool b _ (bool-Reads b e)
  read_value-Reads (text cs) f e =
      tag-Reads text (cs ++ 0 ∷ []) _
        (read_string-Reads s h cs rest f (e ∙ append_assoc cs (0 ∷ []) rest))

write_all-Leaves :
    (vs : List Value) (s : Stream)
    → AllFit vs
    → IsValid s
    → size s + length (wire_all vs) ≤ max_size
    → Leaves (unread s ++ wire_all vs) (size s + length (wire_all vs)) (write_all vs s)
unfolding write_all
write_all-Leaves [] s f h room = (s, refl, h, sym (append-nil (unread s)), omega arith)
write_all-Leaves (v ∷ vs) s f h room =
    let total : length (wire v ++ wire_all vs) ≡ length (wire v) + length (wire_all vs) =
      length-append (wire v) (wire_all vs) in
    let (t, e, ht, u, b) = write_value-Leaves v s f.0 h (omega (arith, total)) in
    let (t', e', h', u', b') = write_all-Leaves vs t f.1 ht (omega (arith, total)) in
    (
      t',
      rw (e, e'),
      h',
      u' ∙ ap (λ l. l ++ wire_all vs) u ∙ append_assoc (unread s) (wire v) (wire_all vs),
      omega (arith, total),
    )

read_all-Reads :
    (vs : List Value) (s : Stream) (rest : List ℕ)
    → AllFit vs
    → IsValid s
    → unread s ≡ wire_all vs ++ rest
    → Reads (map arrived vs) rest (read_all (map kind vs) s)
unfolding read_all
read_all-Reads [] s rest f h e = (s, refl, h, e)
read_all-Reads (v ∷ vs) s rest f h e =
    let (t, got, ht, u) =
      read_value-Reads s h (wire_all vs ++ rest) v f.0
        (e ∙ append_assoc (wire v) (wire_all vs) rest) in
    let (t', got', h', u') = read_all-Reads vs t rest f.1 ht u in (t', rw (got, got'), h', u')

-- Values written one after another to a drained stream, and read back by the operators of the same
-- types in the same order, arrive unchanged, but for a zero at the end of each text, and leave the
-- stream drained. The types are the unsigned integers up to 32 bits, `float`, `double`, `bool` and
-- `std::string`; the texts are ASCII without a zero, and the bytes fit below the size limit.
pub read_all-write_all :
    (vs : List Value) (s : Stream)
    → AllFit vs
    → IsValid s
    → unread s ≡ []
    → size s + length (wire_all vs) ≤ max_size
    → Reads (map arrived vs) [] (write_all vs s >>= read_all (map kind vs))
read_all-write_all vs s f h drained room =
    let (t, e, ht, u, b) = write_all-Leaves vs s f h room in
    let all : unread t ≡ wire_all vs ++ [] =
      u ∙ ap (λ l. l ++ wire_all vs) drained ∙ sym (append-nil (wire_all vs)) in
    rw e (read_all-Reads vs t [] f ht all)
