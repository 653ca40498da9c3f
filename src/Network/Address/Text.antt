-- ===== src/Network/Address/Text.antt =====
-- The text of an address: `Address::c_str` and the constructor from a text, of
-- libs/network/address.cpp, as codes of characters.
use native.Mathlib.Nat.{pow-suc}
use x_kbengine.Prelude.{
  ℕ, zero, suc, ◌+◌, ◌-◌, ◌*◌, ◌/◌, ◌%◌, ◌^◌, ◌≤◌, ◌<◌, ◌≡◌, refl, sym, ap, ap₂, ◌∙◌, Bool, true,
  false, Bool-cases, inl, inr, Option, none, some, List, [], ◌∷◌, ◌++◌, append-nil, append_assoc,
  length, length-append, take, take_all, drop, ltb, ◌&&◌, if◌then◌else◌, arith,
}
use x_kbengine.Stream.Bytes.{swap_bytes, network_bytes, swap_bytes-host_value, swap_bytes-below}
use x_kbengine.Network.Address.{Address}

-- `%d` of a number with at most so many digits.
unfoldable pub decimal : ℕ → ℕ → List ℕ
decimal zero n = []
decimal (suc i) n =
    let tens = decimal i (n / 10) in if ltb n 10 then (48 + n) ∷ [] else tens ++ (48 + n % 10) ∷ []

-- What `snprintf` is to write, and what fits in before the terminating zero.
abbrev pub formatted : ℕ → ℕ → List ℕ
formatted hip hport =
    decimal 10 (hip / 2 ^ 24 % 256)
    ++ (46 ∷ decimal 10 (hip / 2 ^ 16 % 256)
        ++ (46 ∷ decimal 10 (hip / 2 ^ 8 % 256)
            ++ (46 ∷ decimal 10 (hip % 256) ++ (58 ∷ decimal 10 hport))))

unfoldable pub c_str : Address → List ℕ
c_str a = take 31 (formatted (swap_bytes 4 a.ip) (swap_bytes 2 a.port))

-- `Address(const char *, uint16_t)`, over `inet_pton`, which answers nothing for a text that is no
-- address. `none` stands for an address whose `ip` is left without a value.
unfoldable pub of_text : (List ℕ → Option ℕ) → Option (List ℕ) → ℕ → Option Address
of_text inet_pton none port = none
of_text inet_pton (some text) port = elim (inet_pton text) [
  | none ↦ none
  | some ip ↦ some (record { ip = ip; port = port })
]

-- Reading back: a number, up to what is no digit.
abbrev digit : ℕ → Bool
digit c = ltb 47 c && ltb c 58

unfoldable pub read_number : ℕ → List ℕ → ℕ × List ℕ
read_number n [] = (n, [])
read_number n (c ∷ text) =
    let more = read_number (n * 10 + (c - 48)) text in if digit c then more else (n, c ∷ text)

unfoldable pub read_address : List ℕ → Address
read_address text =
    let (a, text1) = read_number 0 text in
    let (b, text2) = read_number 0 (drop 1 text1) in
    let (c, text3) = read_number 0 (drop 1 text2) in
    let (d, text4) = read_number 0 (drop 1 text3) in
    let (port, text5) = read_number 0 (drop 1 text4) in
    record { ip = swap_bytes 4 (((a * 256 + b) * 256 + c) * 256 + d); port = swap_bytes 2 port }

read_number-digit :
    (n d : ℕ) (text : List ℕ)
    → d < 10
    → read_number n ((48 + d) ∷ text) ≡ read_number (n * 10 + d) text
unfolding read_number
read_number-digit n d text h =
    let e0 : digit (48 + d) ≡ true = ground arith in
    let e1 : 48 + d - 48 ≡ d = omega arith in rw (e0, e1) refl

read_number-decimal :
    (i n : ℕ) (text : List ℕ)
    → n < 10 ^ i
    → read_number 0 (decimal i n ++ text) ≡ read_number n text
unfolding decimal
read_number-decimal zero n text h = ap (λ m. read_number m text) (omega arith)
read_number-decimal (suc i) n text h = elim (Bool-cases (ltb n 10)) [
  | inl small ↦
      rw small
        (read_number-digit 0 n text (ground arith) ∙ ap (λ m. read_number m text) (omega arith))
  | inr large ↦
      let h' : n < 10 ^ i * 10 = rw pow-suc at h in
      let e : n / 10 * 10 + n % 10 ≡ n = omega arith in
      rw large (
        ap (read_number 0) (append_assoc (decimal i (n / 10)) ((48 + n % 10) ∷ []) text)
        ∙ read_number-decimal i (n / 10) ((48 + n % 10) ∷ text) (omega arith)
        ∙ read_number-digit (n / 10) (n % 10) text (omega arith)
        ∙ ap (λ m. read_number m text) e)
]

length-decimal : (i m n : ℕ) → 1 ≤ m → n < 10 ^ m → length (decimal i n) ≤ m
unfolding decimal
length-decimal zero m n l h = omega arith
length-decimal (suc i) zero n l h = absurd (omega arith)
length-decimal (suc i) (suc zero) n l h =
    let e : ltb n 10 ≡ true = ground arith in rw e (omega arith)
length-decimal (suc i) (suc (suc m)) n l h =
    let h' : n < 10 ^ suc m * 10 = rw pow-suc at h in
    let shorter = length-decimal i (suc m) (n / 10) (omega arith) (omega arith) in
    elim (Bool-cases (ltb n 10)) [
      | inl small ↦ rw small (omega arith)
      | inr large ↦
          rw (large, length-append (decimal i (n / 10)) ((48 + n % 10) ∷ []))
            (omega (arith, shorter))
    ]

-- Between two numbers stands a character that is no digit.
read_number-stop :
    (i n c : ℕ) (text : List ℕ)
    → n < 10 ^ i
    → digit c ≡ false
    → read_number 0 (decimal i n ++ c ∷ text) ≡ (n, c ∷ text)
unfolding read_number
read_number-stop i n c text h e = read_number-decimal i n (c ∷ text) h ∙ rw e refl

read_number-end : (i n : ℕ) → n < 10 ^ i → read_number 0 (decimal i n) ≡ (n, [])
unfolding read_number
read_number-end i n h =
    ap (read_number 0) (sym (append-nil (decimal i n))) ∙ read_number-decimal i n [] h

swap_twice : (n v : ℕ) → v < 256 ^ n → swap_bytes n (swap_bytes n v) ≡ v
unfolding swap_bytes network_bytes
swap_twice n v h = swap_bytes-host_value n v h

length-formatted : (hip hport : ℕ) → hport < 65_536 → length (formatted hip hport) ≤ 31
length-formatted hip hport h =
    let d1 = length-decimal 10 3 (hip / 2 ^ 24 % 256) (omega arith) (omega arith) in
    let d2 = length-decimal 10 3 (hip / 2 ^ 16 % 256) (omega arith) (omega arith) in
    let d3 = length-decimal 10 3 (hip / 2 ^ 8 % 256) (omega arith) (omega arith) in
    let d4 = length-decimal 10 3 (hip % 256) (omega arith) (omega arith) in
    let d5 = length-decimal 10 5 hport (omega arith) (omega arith) in
    rw (length-append, length-append, length-append, length-append)
      (omega (arith, d1, d2, d3, d4, d5))

read_address-read_number :
    (text text1 text2 text3 text4 : List ℕ) (a b c d port s1 s2 s3 s4 : ℕ)
    → read_number 0 text ≡ (a, s1 ∷ text1)
    → read_number 0 text1 ≡ (b, s2 ∷ text2)
    → read_number 0 text2 ≡ (c, s3 ∷ text3)
    → read_number 0 text3 ≡ (d, s4 ∷ text4)
    → read_number 0 text4 ≡ (port, [])
    → read_address text
      ≡ record { ip = swap_bytes 4 (((a * 256 + b) * 256 + c) * 256 + d); port = swap_bytes 2 port }
unfolding read_address
read_address-read_number text text1 text2 text3 text4 a b c d port s1 s2 s3 s4 e1 e2 e3 e4 e5 =
    rw (e1, e2, e3, e4, e5) refl

read_address-formatted :
    (hip hport : ℕ)
    → hip < 2 ^ 32
    → hport < 65_536
    → read_address (formatted hip hport)
      ≡ record { ip = swap_bytes 4 hip; port = swap_bytes 2 hport }
read_address-formatted hip hport h h' =
    let a = hip / 2 ^ 24 % 256 in
    let b = hip / 2 ^ 16 % 256 in
    let c = hip / 2 ^ 8 % 256 in
    let d = hip % 256 in
    let whole : ((a * 256 + b) * 256 + c) * 256 + d ≡ hip = omega arith in
    let t4 = decimal 10 d ++ 58 ∷ decimal 10 hport in
    let t3 = decimal 10 c ++ 46 ∷ t4 in
    let t2 = decimal 10 b ++ 46 ∷ t3 in
    read_address-read_number (formatted hip hport) t2 t3 t4 (decimal 10 hport) a b c d hport 46 46
      46 58 (read_number-stop 10 a 46 t2 (omega arith) refl)
      (read_number-stop 10 b 46 t3 (omega arith) refl)
      (read_number-stop 10 c 46 t4 (omega arith) refl)
      (read_number-stop 10 d 58 (decimal 10 hport) (omega arith) refl)
      (read_number-end 10 hport (omega arith))
    ∙ ap (λ (v : ℕ). record { ip = swap_bytes 4 v; port = swap_bytes 2 hport }) whole

-- The text of an address is that of its four octets and its port in decimal: reading the numbers back
-- gives the address. All of it fits in the buffer. The address and the port are below their
-- types' bounds.
pub read_address-c_str :
    (a : Address)
    → a.ip < 2 ^ 32
    → a.port < 2 ^ 16
    → (read_address (c_str a) ≡ a) × (c_str a ≡ formatted (swap_bytes 4 a.ip) (swap_bytes 2 a.port))
unfolding c_str
read_address-c_str a h h' =
    let small = swap_bytes-below 4 a.ip in
    let small' = swap_bytes-below 2 a.port in
    let fits =
      take_all 31 (formatted (swap_bytes 4 a.ip) (swap_bytes 2 a.port))
        (length-formatted (swap_bytes 4 a.ip) (swap_bytes 2 a.port) small') in
    (
      ap read_address fits
          ∙ read_address-formatted (swap_bytes 4 a.ip) (swap_bytes 2 a.port) small small'
          ∙ ap₂ (λ (v w : ℕ). record { ip = v; port = w }) (swap_twice 4 a.ip h)
              (swap_twice 2 a.port h'),
      fits,
    )
