-- ===== src/Stream/Tests.antt =====
-- Runs of the stream and its operators.
use x_kbengine.Prelude.{
  ◌≡◌, refl, true, false, List, [], ◌∷◌, ◌++◌, arith, length-append, map, ok, fail, out_of_range,
  ◌>>=◌,
}
use x_kbengine.Stream.{Stream, read, init, unread_length}
use x_kbengine.Stream.Dump.{to_string, blanks, dump_loop, last_row, ascii_run}
use x_kbengine.Stream.Rows.{dump}
use x_kbengine.Stream.Listing.{to_string-dump}
use x_kbengine.Stream.Bytes.{network_bytes, length-network_bytes}
use x_kbengine.Stream.Runs.{put, get, skip, finish, wipe, run, queue_run, Refines, run-queue_run}
use x_kbengine.Stream.Queue.{IsValid}
use x_kbengine.Stream.Codec.{write_uint64, read_uint64}
use x_kbengine.Stream.Codec.Numbers.{Reads, read_uint64-write_uint64}
use x_kbengine.Stream.Codec.Types.{AllInRange, read_all-AllInRange}
use x_kbengine.Stream.Codec.{read_uint8, read_uint16, read_string, is_text}
use x_kbengine.Stream.Bytes.{swap_bytes}
use x_kbengine.Stream.Codec.Values.{kind_uint8, kind_uint16, kind_text, read_value}
use x_kbengine.Stream.Codec.Values.{
  Value, uint8, uint16, bool, text, kind, write_all, read_all, read_all-write_all,
}

-- Two bytes are unread, of four.
abbrev used : Stream
used = record { rpos = 1; wpos = 3; bytes = 1 ∷ 2 ∷ 3 ∷ 4 ∷ [] }

used-IsValid : IsValid used
used-IsValid = record { ordered = omega arith; within = omega arith }

init-IsValid : IsValid init
init-IsValid = record { ordered = omega arith; within = omega arith }

run-queue_run_example :
    Refines
      (queue_run
        (put (5 ∷ 6 ∷ 7 ∷ []) ∷ get 3 ∷ skip 1 ∷ wipe true ∷ put (8 ∷ []) ∷ finish ∷ get 1 ∷ [])
        (2 ∷ 3 ∷ []))
      (run
        (put (5 ∷ 6 ∷ 7 ∷ []) ∷ get 3 ∷ skip 1 ∷ wipe true ∷ put (8 ∷ []) ∷ finish ∷ get 1 ∷ [])
        used)
run-queue_run_example =
    run-queue_run
      (put (5 ∷ 6 ∷ 7 ∷ []) ∷ get 3 ∷ skip 1 ∷ wipe true ∷ put (8 ∷ []) ∷ finish ∷ get 1 ∷ []) used
      used-IsValid (omega arith)

read_uint64-write_uint64_example : (write_uint64 7 init >>= read_uint64) ≡ fail out_of_range
read_uint64-write_uint64_example = read_uint64-write_uint64 init 7 init-IsValid refl (omega arith)

abbrev values : List Value
values = uint8 5 ∷ uint16 513 ∷ bool true ∷ text (72 ∷ 105 ∷ []) ∷ []

read_all-write_all_example :
    Reads
      (uint8 5 ∷ uint16 513 ∷ bool true ∷ text (72 ∷ 105 ∷ 0 ∷ []) ∷ [])
      []
      (write_all values init >>= read_all (map kind values))
read_all-write_all_example =
    read_all-write_all values init
      (
        omega arith,
        (omega arith, (tt, ((omega arith, omega arith, (omega arith, omega arith, tt)), tt))),
      )
      init-IsValid refl
      (omega (
        arith,
        length-append (network_bytes 2 513) (1 ∷ 72 ∷ 105 ∷ 0 ∷ []),
        length-network_bytes 2 513,
      ))

-- Bytes that were not written as values of these types.
abbrev foreign : Stream
foreign = record { rpos = 1; wpos = 6; bytes = 9 ∷ 255 ∷ 1 ∷ 72 ∷ 200 ∷ 3 ∷ [] }

read_all-AllInRange_example :
    (map kind (uint16 65281 ∷ text (72 ∷ 0 ∷ []) ∷ uint8 3 ∷ [])
      ≡ kind_uint16 ∷ kind_text ∷ kind_uint8 ∷ [])
    × AllInRange (uint16 65281 ∷ text (72 ∷ 0 ∷ []) ∷ uint8 3 ∷ [])
unfolding read_all read_value read_uint8 read_uint16 read_string read is_text swap_bytes
read_all-AllInRange_example =
    read_all-AllInRange (kind_uint16 ∷ kind_text ∷ kind_uint8 ∷ [])
      (uint16 65281 ∷ text (72 ∷ 0 ∷ []) ∷ uint8 3 ∷ []) foreign (record foreign { rpos = 6 })
      (omega arith, (omega arith, (omega arith, (omega arith, (omega arith, (omega arith, tt))))))
      refl

abbrev greeting : Stream
greeting = record { rpos = 2; wpos = 4; bytes = 65 ∷ 66 ∷ 7 ∷ 68 ∷ 0 ∷ [] }

to_string-dump_example : to_string true greeting ≡ ok (dump 1 0 (65 ∷ 66 ∷ 7 ∷ 68 ∷ []))
to_string-dump_example = to_string-dump greeting (omega arith)

-- Two bytes are unread, but the characters are those of the two that were read.
to_string-unread : to_string false greeting ≡ ok (blanks 14 ++ (32 ∷ 32 ∷ 32 ∷ 65 ∷ 66 ∷ 10 ∷ []))
unfolding to_string unread_length dump_loop last_row ascii_run
to_string-unread = refl
