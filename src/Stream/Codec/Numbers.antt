-- ===== src/Stream/Codec/Numbers.antt =====
-- Numbers on the wire: each operator writes the network bytes of its value, and its counterpart reads
-- the value back. The 64-bit integers are the exception.
use x_kbengine.Prelude.{
  ℕ, ◌+◌, ◌*◌, ◌%◌, ◌^◌, ◌<◌, ◌≡◌, sym, ap, ◌∙◌, List, [], ◌∷◌, ◌++◌, arith, length, take,
  length-take, length-append, lt→ltb, Outcome, ok, fail, out_of_range, ◌>>=◌,
}
use x_kbengine.Stream.{Stream, read, size, max_size}
use x_kbengine.Stream.Bytes.{
  host_bytes, host_value, swap_bytes, network_bytes, length-network_bytes, host_bytes-swap_bytes,
  swap_bytes-host_value,
}
use x_kbengine.Stream.Queue.{
  IsValid, unread, Leaves, append-Leaves, read-front, read-dequeue, dequeue, Answers,
}
use x_kbengine.Stream.Codec.{
  write_swapped, read_swapped, write_uint8, read_uint8, write_uint64, read_uint64, read_uint16,
}

-- The read succeeds with the value, and leaves a valid stream with the rest unread.
abbrev pub Reads {ℓ} : {A : Type ℓ} → A → List ℕ → Outcome (A × Stream) → Type ℓ
Reads a rest r = (t : Stream) × (r ≡ ok (a, t)) × IsValid t × (unread t ≡ rest)

low_half : (x : ℕ) → host_bytes 4 (x % 2 ^ 32) ≡ take 4 (host_bytes 8 x)
unfolding host_bytes
low_half x = ground arith

two_bytes : (hi lo : ℕ) → hi < 256 → lo < 256 → network_bytes 2 (hi * 256 + lo) ≡ hi ∷ lo ∷ []
unfolding network_bytes host_bytes
two_bytes hi lo a b = ground arith

module _ (s : Stream) (h : IsValid s) where
  pub write_swapped-Leaves :
      (n value : ℕ)
      → size s < max_size
      → Leaves (unread s ++ network_bytes n value) (size s + n) (write_swapped n value s)
  unfolding write_swapped
  write_swapped-Leaves n value small = rw (host_bytes-swap_bytes n value) (
      let (t, e, v, u, b) = append-Leaves s (network_bytes n value) h small in
      (t, e, v, u, omega (arith, length-network_bytes n value)))

  pub read_swapped-Reads :
      (n value : ℕ) (rest : List ℕ)
      → value < 256 ^ n
      → unread s ≡ network_bytes n value ++ rest
      → Reads value rest (read_swapped n s)
  unfolding read_swapped
  read_swapped-Reads n value rest small e =
      let (t, got, v, u) = read-front s h (network_bytes n value) rest e in
      let got' : read n s ≡ ok (network_bytes n value, t) =
        rw (length-network_bytes n value) at got in
      (t, rw got' (ap (λ k. ok (k, t)) (swap_bytes-host_value n value small)), v, u)

  pub read_uint16-Reads :
      (hi lo : ℕ) (rest : List ℕ)
      → hi < 256
      → lo < 256
      → unread s ≡ hi ∷ lo ∷ rest
      → Reads (hi * 256 + lo) rest (read_uint16 s)
  unfolding read_uint16
  read_uint16-Reads hi lo rest a b e =
      read_swapped-Reads 2 (hi * 256 + lo) rest (omega arith)
        (e ∙ ap (λ l. l ++ rest) (sym (two_bytes hi lo a b)))

  pub read_uint8-Reads :
      (value : ℕ) (rest : List ℕ)
      → value < 256
      → unread s ≡ value ∷ rest
      → Reads value rest (read_uint8 s)
  unfolding read_uint8 host_value
  read_uint8-Reads value rest small e =
      let (t, got, v, u) = read-front s h (value ∷ []) rest e in
      (t, rw got (ap (λ k. ok (k, t)) (omega arith)), v, u)

  pub write_uint8-Leaves :
      (value : ℕ)
      → value < 256
      → size s < max_size
      → Leaves (unread s ++ value ∷ []) (size s + 1) (write_uint8 value s)
  unfolding write_uint8 host_bytes
  write_uint8-Leaves value small room =
      let low : value % 256 ≡ value = omega arith in rw low (append-Leaves s (value ∷ []) h room)

  -- A 64-bit integer loses its low half: four bytes are written, those of the high half.
  pub write_uint64-Leaves :
      (value : ℕ)
      → size s < max_size
      → Leaves (unread s ++ take 4 (network_bytes 8 value)) (size s + 4) (write_uint64 value s)
  unfolding write_uint64
  write_uint64-Leaves value small =
      let e : host_bytes 4 (swap_bytes 8 value % 2 ^ 32) ≡ take 4 (network_bytes 8 value) =
        low_half (swap_bytes 8 value) ∙ ap (take 4) (host_bytes-swap_bytes 8 value) in
      rw e (
        let (t, w, v, u, b) = append-Leaves s (take 4 (network_bytes 8 value)) h small in
        (t, w, v, u, omega (arith, length-take 4 (network_bytes 8 value))))

-- So the reader of the same type does not find the eight bytes that it wants: on a drained stream a
-- 64-bit integer of any value is written without an error, and the read of it throws.
pub read_uint64-write_uint64 :
    (s : Stream) (value : ℕ)
    → IsValid s
    → unread s ≡ []
    → size s < max_size
    → (write_uint64 value s >>= read_uint64) ≡ fail out_of_range
unfolding read_uint64 dequeue
read_uint64-write_uint64 s value h e small =
    let (t, w, v, u, b) = write_uint64-Leaves s h value small in
    let short : length (unread t) < 8 = omega (
      arith,
      ap length u,
      ap length e,
      length-append (unread s) (take 4 (network_bytes 8 value)),
      length-take 4 (network_bytes 8 value),
    ) in
    let threw : Answers t (dequeue 8 (unread t)) (read 8 t) = read-dequeue t v 8 in
    let threw' : read 8 t ≡ fail out_of_range = rw (lt→ltb _ _ short) at threw in rw (w, threw')
