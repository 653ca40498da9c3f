-- ===== src/Stream/Dump.antt =====
-- `MemoryStream::toString` of libs/common/memorystream.cpp, as codes of characters.
use x_kbengine.Prelude.{
  ℕ, zero, suc, ◌+◌, ◌-◌, ◌/◌, ◌%◌, Bool, ◌&&◌, List, [], ◌∷◌, ◌++◌, length, drop, ltb, ◌==◌,
  if◌then◌else◌, Outcome, ok, fail, undefined, ◌>>=◌,
}
use x_kbengine.Stream.{Stream, unread_length}

-- `data_[k]`
abbrev first : List ℕ → Outcome ℕ
first [] = fail undefined
first (b ∷ rest) = ok b

abbrev pub byte_at : List ℕ → ℕ → Outcome ℕ
byte_at data_ k = first (drop k data_)

abbrev hex_digit : ℕ → ℕ
hex_digit d = if ltb d 10 then 48 + d else 87 + d

-- The last digits of a number.
abbrev hex_digits : ℕ → ℕ → List ℕ
hex_digits zero n = []
hex_digits (suc i) n = hex_digits i (n / 16) ++ hex_digit (n % 16) ∷ []

-- Zeros at the front go while there are more digits than the width.
abbrev strip_zeros : ℕ → List ℕ → List ℕ
strip_zeros width [] = []
strip_zeros width (c ∷ digits) =
    let rest = strip_zeros width digits in
    if (c == 48) && ltb width (suc (length digits)) then rest else c ∷ digits

-- `setfill('0') << setw(width) << hex`, of an `int`.
unfoldable pub hex : ℕ → ℕ → List ℕ
hex width n = strip_zeros width (hex_digits 8 n)

-- "0x…: " and "0x… "
abbrev pub offset : ℕ → List ℕ
offset k = 48 ∷ 120 ∷ hex 4 k ++ 58 ∷ 32 ∷ []

abbrev pub cell : ℕ → List ℕ
cell b = 48 ∷ 120 ∷ hex 2 b ++ 32 ∷ []

-- A `char` of 128 or more is negative; "." stands for what is not printed.
abbrev pub printable : ℕ → ℕ
printable c = if ltb 31 c && ltb c 128 then c else 46

-- The characters of so many bytes from a position.
unfoldable pub ascii_run : ℕ → List ℕ → ℕ → Outcome (List ℕ)
ascii_run zero data_ m = ok []
ascii_run (suc n) data_ m =
    byte_at data_ m >>= λ c. ascii_run n data_ (suc m) >>= λ text. ok (printable c ∷ text)

abbrev pub gap : List ℕ
gap = 32 ∷ 32 ∷ 32 ∷ []

-- What was written before the rest.
abbrev pub emit : List ℕ → Outcome (List ℕ) → Outcome (List ℕ)
emit text (ok rest) = ok (text ++ rest)
emit text (fail e) = fail e

-- What follows the byte at `k`, which was the `j`th of its row.
unfoldable pub row_end : List ℕ → ℕ → ℕ → Outcome (List ℕ)
row_end data_ k j =
    if j == 16
    then ascii_run 16 data_ (k - 15) >>= (λ text. ok (gap ++ (text ++ 10 ∷ [])))
    else ok []

-- The loop for as many rounds as `k` is below `len`.
unfoldable pub dump_loop : ℕ → List ℕ → ℕ → ℕ → Outcome (List ℕ)
dump_loop zero data_ k j = ok []
dump_loop (suc n) data_ k j = byte_at data_ k >>= λ b. row_end data_ k (suc j) >>= λ text.
    emit (if j % 16 == 0 then offset k else [])
      (emit (cell b) (emit text (dump_loop n data_ (suc k) (if suc j == 16 then 0 else suc j))))

abbrev pub blanks : ℕ → List ℕ
blanks zero = []
blanks (suc n) = 32 ∷ 32 ∷ 32 ∷ 32 ∷ 32 ∷ blanks n

-- The end of a row of fewer than 16 bytes.
unfoldable pub last_row : List ℕ → ℕ → Outcome (List ℕ)
last_row data_ len =
    let last = len % 16 in
    if last == 0
    then ok []
    else ascii_run last data_ (len - last) >>= λ text.
        ok (blanks (16 - last) ++ (gap ++ (text ++ 10 ∷ [])))

unfoldable pub to_string : Bool → Stream → Outcome (List ℕ)
to_string total s =
    let k = if total then 0 else s.rpos in
    let len = if total then s.wpos else unread_length s in
    dump_loop (len - k) s.bytes k 0 >>= λ out. emit out (last_row s.bytes len)
