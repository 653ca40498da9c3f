-- ===== src/Stream/Codec.antt =====
-- The `<<` and `>>` operators of memorystream.cpp. A signed value is an integer, a `float` or a
-- `double` its bit pattern (the code only moves the bits), and a text its character codes.
pub mod Numbers
pub mod Text
pub mod Values
pub mod Types
use x_kbengine.Prelude.{
  ℕ, zero, suc, ◌+◌, ◌%◌, ◌^◌, Bool, true, false, not, ◌&&◌, Option, none, some, List, [], ◌∷◌,
  ◌++◌, ltb, ◌==◌, if◌then◌else◌, Outcome, ok, fail, no_fuel, ◌>>=◌,
}
use x_kbengine.Prelude.Int.{ℤ, to_pattern, of_pattern}
use x_kbengine.Stream.{Stream, append, read, unread_length}
use x_kbengine.Stream.Bytes.{host_bytes, host_value, swap_bytes}

unfoldable pub write_uint8 : ℕ → Stream → Outcome Stream
write_uint8 value s = append s (host_bytes 1 value)

-- `nvalue = htobe..(value)` of `n` bytes, and `append(&nvalue, n)`.
unfoldable pub write_swapped : ℕ → ℕ → Stream → Outcome Stream
write_swapped n value s = append s (host_bytes n (swap_bytes n value))

unfoldable pub write_uint16 : ℕ → Stream → Outcome Stream
unfolding write_swapped
write_uint16 value = write_swapped 2 value

unfoldable pub write_uint32 : ℕ → Stream → Outcome Stream
unfolding write_swapped
write_uint32 value = write_swapped 4 value

-- `uint32_t nvalue = htobe64(value)`: the swapped value is cut to 32 bits.
unfoldable pub write_uint64 : ℕ → Stream → Outcome Stream
write_uint64 value s = append s (host_bytes 4 (swap_bytes 8 value % 2 ^ 32))

unfoldable pub write_int8 : ℤ → Stream → Outcome Stream
write_int8 value s = append s (host_bytes 1 (to_pattern 8 value))

unfoldable pub write_int16 : ℤ → Stream → Outcome Stream
unfolding write_swapped
write_int16 value = write_swapped 2 (to_pattern 16 value)

unfoldable pub write_int32 : ℤ → Stream → Outcome Stream
unfolding write_swapped
write_int32 value = write_swapped 4 (to_pattern 32 value)

-- Cut to 32 bits like `write_uint64`.
unfoldable pub write_int64 : ℤ → Stream → Outcome Stream
write_int64 value s = append s (host_bytes 4 (swap_bytes 8 (to_pattern 64 value) % 2 ^ 32))

unfoldable pub write_float : ℕ → Stream → Outcome Stream
unfolding write_swapped
write_float bits = write_swapped 4 bits

unfoldable pub write_double : ℕ → Stream → Outcome Stream
unfolding write_swapped
write_double bits = write_swapped 8 bits

unfoldable pub write_bool : Bool → Stream → Outcome Stream
unfolding write_uint8
write_bool value = write_uint8 (if value then 1 else 0)

-- `operator<<(const std::string&)`
unfoldable pub write_string : List ℕ → Stream → Outcome Stream
unfolding write_uint8
write_string value s = append s value >>= write_uint8 0

-- `operator<<(const char*)`: the characters before the terminator, or a null pointer.
unfoldable pub write_chars : Option (List ℕ) → Stream → Outcome Stream
unfolding write_uint8
write_chars none s = append s [] >>= write_uint8 0
write_chars (some value) s = append s value >>= write_uint8 0

unfoldable pub read_uint8 : Stream → Outcome (ℕ × Stream)
read_uint8 s = do (nvalue, t) ← read 1 s; ok (host_value nvalue, t)

unfoldable pub read_swapped : ℕ → Stream → Outcome (ℕ × Stream)
read_swapped n s = do (nvalue, t) ← read n s; ok (swap_bytes n (host_value nvalue), t)

unfoldable pub read_uint16 : Stream → Outcome (ℕ × Stream)
unfolding read_swapped
read_uint16 = read_swapped 2

unfoldable pub read_uint32 : Stream → Outcome (ℕ × Stream)
unfolding read_swapped
read_uint32 = read_swapped 4

unfoldable pub read_uint64 : Stream → Outcome (ℕ × Stream)
unfolding read_swapped
read_uint64 = read_swapped 8

unfoldable pub read_int8 : Stream → Outcome (ℤ × Stream)
read_int8 s = do (nvalue, t) ← read 1 s; ok (of_pattern 8 (host_value nvalue), t)

unfoldable pub read_int16 : Stream → Outcome (ℤ × Stream)
unfolding read_swapped
read_int16 s = do (nvalue, t) ← read_swapped 2 s; ok (of_pattern 16 nvalue, t)

unfoldable pub read_int32 : Stream → Outcome (ℤ × Stream)
unfolding read_swapped
read_int32 s = do (nvalue, t) ← read_swapped 4 s; ok (of_pattern 32 nvalue, t)

unfoldable pub read_int64 : Stream → Outcome (ℤ × Stream)
unfolding read_swapped
read_int64 s = do (nvalue, t) ← read_swapped 8 s; ok (of_pattern 64 nvalue, t)

unfoldable pub read_float : Stream → Outcome (ℕ × Stream)
unfolding read_swapped
read_float = read_swapped 4

unfoldable pub read_double : Stream → Outcome (ℕ × Stream)
unfolding read_swapped
read_double = read_swapped 8

unfoldable pub read_bool : Stream → Outcome (Bool × Stream)
read_bool s = do (nvalue, t) ← read 1 s; ok (host_value nvalue == 1, t)

-- The test that keeps the loops below going: not the terminator, and `isascii`.
unfoldable pub is_text : ℕ → Bool
is_text c = not (c == 0) && ltb c 128

-- One round: the character that was read, and the rest of the loop.
abbrev pub next_char :
    (Stream → Outcome (List ℕ × Stream)) → List ℕ × Stream → Outcome (List ℕ × Stream)
next_char rest (bytes, t) =
    let c = host_value bytes in
    let more = rest t >>= λ (cs, u). ok (c ∷ cs, u) in if is_text c then more else ok ([], t)

-- `while (length() > 0)`, a character a round. Each round reads a byte, so `length() + 1` rounds of
-- fuel are enough.
unfoldable pub char_loop : ℕ → Stream → Outcome (List ℕ × Stream)
char_loop zero s = fail no_fuel
char_loop (suc fuel) s = elim (unread_length s == 0) [
  | true ↦ ok ([], s)
  | false ↦ read 1 s >>= next_char (char_loop fuel)
]

-- `operator>>(std::string&)`: the string gets the characters and, by `value += '\0'`, a zero.
unfoldable pub read_string : Stream → Outcome (List ℕ × Stream)
unfolding char_loop
read_string s = do (cs, t) ← char_loop (unread_length s + 1) s; ok (cs ++ 0 ∷ [], t)

-- `operator>>(char*)`: the characters that are stored at the pointer, the terminator last.
unfoldable pub read_chars : Stream → Outcome (List ℕ × Stream)
unfolding char_loop
read_chars s = do (cs, t) ← char_loop (unread_length s + 1) s; ok (cs ++ 0 ∷ [], t)
