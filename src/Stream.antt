-- ===== src/Stream.antt =====
-- libs/common/memorystream.h and memorystream.cpp: the byte buffer with a read and a write position.
-- `bytes` is the vector `data_`; a byte is a number below 256. Positions are `size_t` values of at
-- most a few million, so their additions are written without wrap-around.
pub mod Bytes
pub mod Codec
pub mod Queue
pub mod Runs
pub mod Dump
pub mod Rows
pub mod Listing
mod Tests
use x_kbengine.Prelude.{
  ℕ, zero, suc, ◌+◌, ◌-◌, Bool, true, false, List, [], ◌∷◌, ◌++◌, length, take, drop, replicate,
  ◌*◌, ◌%◌, ◌^◌, ltb, leb, ◌&&◌, if◌then◌else◌, ◌==◌, Outcome, ok, fail, out_of_range, assertion,
  undefined,
}

pub record Stream : Type 0 where
  pub rpos : ℕ
  pub wpos : ℕ
  pub bytes : List ℕ

abbrev pub max_size : ℕ
max_size = 10_000_000

-- The bound that `data_resize`, `reserve` and `resize` assert.
abbrev pub resize_limit : ℕ
resize_limit = 1_310_700

-- `std::vector::resize`: cut, or fill with zeros.
abbrev pub vector_resize : ℕ → List ℕ → List ℕ
vector_resize n xs = take n xs ++ replicate (n - length xs) 0

-- `memcpy` into a vector at an offset.
abbrev pub overwrite : List ℕ → ℕ → List ℕ → List ℕ
overwrite xs at_ v = take at_ xs ++ (v ++ drop (at_ + length v) xs)

-- `MemoryStream()` and `MemoryStream(size_t res)`: only the capacity, which is not modelled, differs.
abbrev pub init : Stream
init = record { rpos = 0; wpos = 0; bytes = [] }

-- The copy constructor.
unfoldable pub copy : Stream → Stream
copy buf = record { rpos = buf.rpos; wpos = buf.wpos; bytes = buf.bytes }

-- `rpos(n)` and `wpos(n)`
abbrev pub set_rpos : ℕ → Stream → Stream
set_rpos n s = record s { rpos = n }

abbrev pub set_wpos : ℕ → Stream → Stream
set_wpos n s = record s { wpos = n }

abbrev pub size : Stream → ℕ
size s = length s.bytes

unfoldable pub unread_length : Stream → ℕ
unread_length s = if leb s.wpos s.rpos then 0 else s.wpos - s.rpos

unfoldable pub space : Stream → ℕ
space s = if leb (size s) s.wpos then 0 else size s - s.wpos

unfoldable pub empty : Stream → Bool
empty s = size s == 0

unfoldable pub append : Stream → List ℕ → Outcome Stream
append s value =
    let cnt = length value in
    let grown =
      if ltb (size s) (s.wpos + cnt) then vector_resize (s.wpos + cnt) s.bytes else s.bytes in
    if cnt == 0
    then ok s
    else if ltb (size s) max_size
    then ok (record s { wpos = s.wpos + cnt; bytes = overwrite grown s.wpos value })
    else fail assertion

-- `memcpy` reads past the vector if the write position was set behind its end; of no bytes it reads
-- nothing.
unfoldable pub read : ℕ → Stream → Outcome (List ℕ × Stream)
unfolding unread_length
read cnt s =
    if ltb (unread_length s) cnt
    then fail out_of_range
    else if ltb 0 cnt && ltb (size s) (s.rpos + cnt)
    then fail undefined
    else ok (take cnt (drop s.rpos s.bytes), record s { rpos = s.rpos + cnt })

unfoldable pub read_skip : ℕ → Stream → Outcome Stream
unfolding unread_length
read_skip skip s =
    if ltb (unread_length s) skip then fail out_of_range else ok (record s { rpos = s.rpos + skip })

-- `done()` drops what is left.
unfoldable pub done : Stream → Outcome Stream
unfolding read_skip unread_length
done s = read_skip (unread_length s) s

unfoldable pub clear : Bool → Stream → Stream
clear clear_data s = record { rpos = 0; wpos = 0; bytes = if clear_data then [] else s.bytes }

-- The write position follows a vector that got shorter; the read position stays.
unfoldable pub data_resize : ℕ → Stream → Outcome Stream
data_resize newsize s =
    let moved = if ltb newsize s.wpos then newsize else s.wpos in
    if leb newsize resize_limit
    then ok (record s { wpos = moved; bytes = vector_resize newsize s.bytes })
    else fail assertion

unfoldable pub resize : ℕ → Stream → Outcome Stream
resize newsize s =
    let moved = if ltb newsize s.wpos then newsize else s.wpos in
    if leb newsize resize_limit
    then ok (record { rpos = 0; wpos = moved; bytes = vector_resize newsize s.bytes })
    else fail assertion

-- `reserve` changes the capacity at most.
unfoldable pub reserve : ℕ → Stream → Outcome Stream
reserve ressize s = if leb ressize resize_limit then ok s else fail assertion

-- `(int) pos`, passed on as a `size_t`.
abbrev pub int_cast : ℕ → ℕ
int_cast pos = let low = pos % 2 ^ 32 in if ltb low (2 ^ 31) then low else low + (2 ^ 64 - 2 ^ 32)

-- `this->swap(s)`: the streams `this` and `s` afterwards. The positions that go to `s` pass through
-- an `int`.
unfoldable pub swap : Stream → Stream → Stream × Stream
swap this s = (
  record { rpos = s.rpos; wpos = s.wpos; bytes = s.bytes },
  record { rpos = int_cast this.rpos; wpos = int_cast this.wpos; bytes = this.bytes },
)
