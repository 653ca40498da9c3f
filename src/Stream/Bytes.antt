-- ===== src/Stream/Bytes.antt =====
-- The memory of unsigned integers: on a little-endian host a value lies with its low byte first, and
-- `htobe16`, `htobe32` and `htobe64`, with their inverses, reverse its bytes.
use mathlib.Core.List.{reverse, reverse-cons, reverse-reverse}
use native.Mathlib.Nat.{pow-suc}
use x_kbengine.Prelude.{
  subst, ℕ, zero, suc, ◌+◌, ◌*◌, ◌/◌, ◌%◌, ◌^◌, ◌<◌, ◌≡◌, refl, ap, ◌∙◌, List, [], ◌∷◌, ◌++◌, arith,
  length, length-append,
}

-- The `n` bytes of a value as they lie in the host's memory.
unfoldable pub host_bytes : ℕ → ℕ → List ℕ
host_bytes zero v = []
host_bytes (suc n) v = (v % 256) ∷ host_bytes n (v / 256)

-- The value whose bytes lie in memory so.
unfoldable pub host_value : List ℕ → ℕ
host_value [] = 0
host_value (b ∷ bs) = b + 256 * host_value bs

-- `htobe16`, `htobe32`, `htobe64` and `be16toh`, `be32toh`, `be64toh`, for 2, 4 and 8 bytes.
unfoldable pub swap_bytes : ℕ → ℕ → ℕ
unfolding host_bytes host_value
swap_bytes n v = host_value (reverse (host_bytes n v))

-- The network's order: the high byte first.
unfoldable pub network_bytes : ℕ → ℕ → List ℕ
unfolding host_bytes
network_bytes n v = reverse (host_bytes n v)

abbrev pub AllBytes : List ℕ → Type 0
AllBytes [] = Unit {0}
AllBytes (b ∷ bs) = (b < 256) × AllBytes bs

pub AllBytes-append : (xs ys : List ℕ) → AllBytes xs → AllBytes ys → AllBytes (xs ++ ys)
AllBytes-append [] ys hx hy = hy
AllBytes-append (x ∷ xs) ys hx hy = (hx.0, AllBytes-append xs ys hx.1 hy)

pub AllBytes-reverse : (xs : List ℕ) → AllBytes xs → AllBytes (reverse xs)
AllBytes-reverse [] h = tt
AllBytes-reverse (x ∷ xs) h =
    rw (reverse-cons x xs)
      (AllBytes-append (reverse xs) (x ∷ []) (AllBytes-reverse xs h.1) (h.0, tt))

pub AllBytes-host_bytes : (n v : ℕ) → AllBytes (host_bytes n v)
unfolding host_bytes
AllBytes-host_bytes zero v = tt
AllBytes-host_bytes (suc n) v = (omega arith, AllBytes-host_bytes n (v / 256))

pub length-host_bytes : (n v : ℕ) → length (host_bytes n v) ≡ n
unfolding host_bytes
length-host_bytes zero v = refl
length-host_bytes (suc n) v = ap suc (length-host_bytes n (v / 256))

pub length-reverse : (xs : List ℕ) → length (reverse xs) ≡ length xs
length-reverse [] = refl
length-reverse (x ∷ xs) =
    ap length (reverse-cons x xs)
    ∙ omega (arith, length-append (reverse xs) (x ∷ []), length-reverse xs)

pub length-network_bytes : (n v : ℕ) → length (network_bytes n v) ≡ n
unfolding network_bytes
length-network_bytes n v = length-reverse (host_bytes n v) ∙ length-host_bytes n v

host_value-host_bytes : (n v : ℕ) → v < 256 ^ n → host_value (host_bytes n v) ≡ v
unfolding host_bytes host_value
host_value-host_bytes zero v h = omega arith
host_value-host_bytes (suc n) v h =
    let h' : v < 256 ^ n * 256 = rw pow-suc at h in
    omega (arith, host_value-host_bytes n (v / 256) (omega arith))

host_bytes-host_value : (bs : List ℕ) → AllBytes bs → host_bytes (length bs) (host_value bs) ≡ bs
unfolding host_bytes host_value
host_bytes-host_value [] h = refl
host_bytes-host_value (b ∷ bs) h =
    let low : (b + 256 * host_value bs) % 256 ≡ b = omega (arith, h.0) in
    let high : (b + 256 * host_value bs) / 256 ≡ host_value bs = omega (arith, h.0) in
    rw (low, high) (ap (◌∷◌ b) (host_bytes-host_value bs h.1))

pub host_bytes-swap_bytes : (n v : ℕ) → host_bytes n (swap_bytes n v) ≡ network_bytes n v
unfolding swap_bytes network_bytes
host_bytes-swap_bytes n v =
    let r : List ℕ = reverse (host_bytes n v) in
    let e : length r ≡ n = length-reverse (host_bytes n v) ∙ length-host_bytes n v in
    subst (λ k. host_bytes k (host_value r) ≡ r) e
      (host_bytes-host_value r (AllBytes-reverse (host_bytes n v) (AllBytes-host_bytes n v)))

pub swap_bytes-host_value :
    (n v : ℕ) → v < 256 ^ n → swap_bytes n (host_value (network_bytes n v)) ≡ v
unfolding swap_bytes network_bytes
swap_bytes-host_value n v h =
    ap (λ l. host_value (reverse l)) (host_bytes-swap_bytes n v)
    ∙ ap host_value (reverse-reverse (host_bytes n v))
    ∙ host_value-host_bytes n v h

host_value-below : (bytes : List ℕ) → AllBytes bytes → host_value bytes < 256 ^ length bytes
unfolding host_value
host_value-below [] h = omega arith
host_value-below (b ∷ bytes) h =
    let rest = host_value-below bytes h.1 in rw pow-suc (omega (arith, rest, h.0))

pub swap_bytes-below : (n v : ℕ) → swap_bytes n v < 256 ^ n
unfolding swap_bytes
swap_bytes-below n v =
    let r = reverse (host_bytes n v) in
    let e : length r ≡ n = length-reverse (host_bytes n v) ∙ length-host_bytes n v in
    subst (λ k. host_value r < 256 ^ k) e
      (host_value-below r (AllBytes-reverse (host_bytes n v) (AllBytes-host_bytes n v)))
