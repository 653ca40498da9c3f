-- ===== src/Network/Reader/Fragments.antt =====
-- One copy from a packet into the message that is being joined.
use x_kbengine.Prelude.{
  ℕ, ◌+◌, ◌%◌, ◌^◌, ◌≤◌, ◌<◌, ◌≡◌, refl, ap, ◌∙◌, List, ◌++◌, arith, length, length-append,
  length-take, length-drop, take, drop, take-append_exact, drop-append_exact, le→ltb, ok,
}
use x_kbengine.Stream.{overwrite}
use x_kbengine.Stream.Queue.{
  IsValid, unread, take-unread, advanced-IsValid, unread-advanced, read_skip-ok, length-unread,
}
use x_kbengine.Network.Packet.{Packet}
use x_kbengine.Network.Reader.{Reader, Fragment, copy_bytes, write_fragment_message}

-- The message with the bytes `v` added behind its write position.
abbrev pub joined : Packet → List ℕ → Packet
joined c v = record c {
  stream = record c.stream { bytes = overwrite c.bytes c.wpos v; wpos = c.wpos + length v };
}

abbrev pub after_read : Packet → ℕ → Packet
after_read p n = record p { stream = record p.stream { rpos = p.rpos + n } }

pub length-overwrite_within :
    (xs v : List ℕ) (w : ℕ) → w + length v ≤ length xs → length (overwrite xs w v) ≡ length xs
length-overwrite_within xs v w h = omega (
  arith,
  length-append (take w xs) (v ++ drop (w + length v) xs),
  length-append v (drop (w + length v) xs),
  length-take w xs,
  length-drop (w + length v) xs,
)

module _ (r : Reader) (p : Packet) (front rest : List ℕ) (v : IsValid p.stream)
    (e : unread p.stream ≡ front ++ rest) where
  front_fits : length front ≤ length (unread p.stream)
  front_fits = omega (arith, ap length e, length-append front rest)

  -- The bytes from the packet's front go to the message, and the packet's read position moves on.
  pub write_fragment_message-ok :
      (flag : Fragment)
      → r.curr_packet.wpos + length front ≤ length r.curr_packet.bytes
      → length front < 2 ^ 32
      → write_fragment_message flag p (length front) r
        ≡ ok (
          record { curr_packet = joined r.curr_packet front; fragment = flag },
          after_read p (length front),
        )
  unfolding write_fragment_message copy_bytes
  write_fragment_message-ok flag room small =
      let n : ℕ = length front in
      let low : n % 2 ^ 32 ≡ n = omega arith in
      let inside : p.rpos + n ≤ length p.bytes =
        omega (arith, front_fits, length-unread p.stream v, v.within, v.ordered) in
      let same : take n (drop p.rpos p.bytes) ≡ front =
        take-unread p.stream v n front_fits ∙ ap (take n) e ∙ take-append_exact n front rest refl in
      rw (low, le→ltb _ _ room, le→ltb _ _ inside, same, read_skip-ok p.stream v n front_fits)

  pub after_read-IsValid : IsValid (after_read p (length front)).stream
  after_read-IsValid = advanced-IsValid p.stream v (length front) front_fits

  pub unread-after_read : unread (after_read p (length front)).stream ≡ rest
  unread-after_read =
      unread-advanced p.stream v (length front)
      ∙ ap (drop (length front)) e
      ∙ drop-append_exact (length front) front rest refl
