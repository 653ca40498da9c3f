-- ===== src/Network/Reader/Bodies.antt =====
-- The part of a round that reads a message's body.
use x_kbengine.Prelude.{
  ℕ, ◌+◌, ◌-◌, ◌%◌, ◌≤◌, ◌<◌, ◌≡◌, refl, sym, subst, ap, ◌∙◌, inl, inr, Bool, true, List, [], ◌++◌,
  arith, length, length-append, length-take, length-replicate, take, drop, replicate,
  take-append-drop, append-nil, ltb, le→ltb, lt→ltb, lt→leb, le→leb, Bool-cases, Outcome, ok,
}
use x_kbengine.Stream.{data_resize, unread_length, space, vector_resize, overwrite}
use x_kbengine.Stream.Queue.{IsValid, unread, unread_length_lem, take-overwrite}
use x_kbengine.Network.Packet.{Packet, clear}
use x_kbengine.Network.Framing.{idle, collecting, feed-collect, feed_complete_all}
use x_kbengine.Network.Reader.{Fragment, message_body, again, leave, start_body, read_body, reset}
use x_kbengine.Network.Reader.Fragments.{
  joined, after_read, write_fragment_message-ok, after_read-IsValid, unread-after_read,
  length-overwrite_within,
}
use x_kbengine.Network.Reader.Holds.{message, reader, Holds, at_start, in_body, Round}

pub length-vector_resize : (n : ℕ) (xs : List ℕ) → length (vector_resize n xs) ≡ n
length-vector_resize n xs = omega (
  arith,
  length-append (take n xs) (replicate (n - length xs) 0),
  length-take n xs,
  length-replicate {A = ℕ} (n - length xs) 0,
)

-- The body starts in a vector of just its size; the read position stays where it was.
pub start_body-ok :
    (flag : Fragment) (m rp wp : ℕ) (bytes : List ℕ) (tcp : Bool) (sent : ℕ)
    → start_body m (reader flag (message rp wp bytes tcp sent))
      ≡ ok (reader flag (message rp 0 (vector_resize ((m + 65534) % 65536) bytes) tcp sent))
unfolding start_body data_resize
start_body-ok flag m rp wp bytes tcp sent =
    rw (le→leb ((m + 65534) % 65536) 1_310_700 (omega arith))

in_body_at :
    (rp wp n : ℕ) (got bytes : List ℕ) (tcp : Bool) (sent : ℕ)
    → wp ≡ length got
    → length bytes ≡ n
    → take (length got) bytes ≡ got
    → length got < n
    → n ≤ 65535
    → Holds (reader message_body (message rp wp bytes tcp sent)) (collecting n got)
in_body_at rp wp n got bytes tcp sent at_ size kept open_ small =
    rw (at_, ← size) (in_body rp got bytes tcp sent kept (omega arith) (omega arith))

module _ {W : Type 0} (handle : W → Packet → Outcome (Bool × W × Packet)) (deliver : W → List ℕ → W)
    (contract : (w : W) (c : Packet)
      → (q : Packet) × (handle w c ≡ ok (true, deliver w (take c.wpos c.bytes), q))
        × (q.bytes ≡ c.bytes)) where
  module _ (w : W) (flag : Fragment) (rp : ℕ) (got bytes : List ℕ) (tcp : Bool) (sent : ℕ)
      (kept : take (length got) bytes ≡ got) (open_ : length got < length bytes)
      (small : length bytes ≤ 65535) (p : Packet) (v : IsValid p.stream) where
    abbrev current : Packet
    current = message rp (length got) bytes tcp sent

    space_lem : space current.stream ≡ length bytes - length got
    unfolding space
    space_lem = rw (lt→leb (length bytes) (length got) open_)

    take-joined :
        (front : List ℕ)
        → take (length got + length front) (overwrite bytes (length got) front) ≡ got ++ front
    take-joined front =
        take-overwrite bytes front (length got) (omega arith) ∙ ap (λ l. l ++ front) kept

    body-Holds :
        (xs : List ℕ)
        → length got + length xs < length bytes
        → Holds (reader message_body (joined current xs)) (collecting (length bytes) (got ++ xs))
    body-Holds xs less =
        let grown : length (got ++ xs) ≡ length got + length xs = length-append got xs in
        in_body_at rp (length got + length xs) (length bytes) (got ++ xs)
          (overwrite bytes (length got) xs) tcp sent (sym grown)
          (length-overwrite_within bytes xs (length got) (omega arith)) (rw grown (take-joined xs))
          (omega arith) small

    body_partial :
        (xs : List ℕ)
        → unread p.stream ≡ xs
        → length got + length xs < length bytes
        → Round deliver
            (w, collecting (length bytes) got)
            xs
            (read_body handle w (reader flag current) p)
    unfolding read_body
    body_partial xs e less =
        let front : unread p.stream ≡ xs ++ [] = e ∙ sym (append-nil xs) in
        let size : unread_length p.stream ≡ length xs =
          unread_length_lem p.stream v ∙ ap length e in
        let c : Packet = joined current xs in
        let same : length (overwrite bytes (length got) xs) ≡ length bytes =
          length-overwrite_within bytes xs (length got) (omega arith) in
        let grown : length (got ++ xs) ≡ length got + length xs = length-append got xs in
        record {
          turn = leave;
          world = w;
          after = reader message_body c;
          packet = after_read p (length xs);
          phase = collecting (length bytes) (got ++ xs);
          front = xs;
          rest = [];
          result = rw (
            space_lem,
            size,
            lt→ltb (length xs) (length bytes - length got) (omega arith),
            write_fragment_message-ok (reader flag current) p xs [] v front message_body
                (omega arith) (omega arith),
          );
          split = sym (append-nil xs);
          fed = feed-collect deliver w (length bytes) got xs less;
          holds = body-Holds xs less;
          valid = after_read-IsValid (reader flag current) p xs [] v front;
          left = unread-after_read (reader flag current) p xs [] v front;
          shorter = omega arith;
          ends = refl;
        }

    body_complete :
        (f rest : List ℕ)
        → unread p.stream ≡ f ++ rest
        → length f ≡ length bytes - length got
        → Round deliver
            (w, collecting (length bytes) got)
            (f ++ rest)
            (read_body handle w (reader flag current) p)
    unfolding read_body reset clear
    body_complete f rest e len =
        let size : unread_length p.stream ≡ length f + length rest =
          unread_length_lem p.stream v ∙ ap length e ∙ length-append f rest in
        let c : Packet = joined current f in
        let (q, said, same) = contract w c in
        let body : take (length got + length f) (overwrite bytes (length got) f) ≡ got ++ f =
          take-joined f in
        let long : length q.bytes ≡ length bytes =
          ap length same ∙ length-overwrite_within bytes f (length got) (omega arith) in
        record {
          turn = again;
          world = deliver w (got ++ f);
          after = reset (reader message_body q);
          packet = after_read p (length f);
          phase = idle;
          front = f;
          rest = rest;
          result = rw (
            space_lem,
            size,
            le→ltb (length f + length rest) (length bytes - length got) (omega arith),
            ← len,
            write_fragment_message-ok (reader flag current) p f (rest) v e message_body
                (omega arith) (omega arith),
            said,
            body,
          );
          split = refl;
          fed = feed_complete_all deliver w (length bytes) got f open_ (omega arith);
          holds = at_start q.bytes q.is_tcp_packet 0 (omega arith) (omega arith);
          valid = after_read-IsValid (reader flag current) p f (rest) v e;
          left = unread-after_read (reader flag current) p f (rest) v e;
          shorter = omega (arith, length-append f rest);
          ends = tt;
        }

    -- With the header read, the round follows the machine through the body.
    pub body-Round :
        (xs : List ℕ)
        → unread p.stream ≡ xs
        → Round deliver
            (w, collecting (length bytes) got)
            xs
            (read_body handle w (reader flag current) p)
    body-Round xs e = elim (Bool-cases (ltb (length xs) (length bytes - length got))) [
      | inl less ↦ body_partial xs e (ground arith)
      | inr more ↦
          let k : ℕ = length bytes - length got in
          let parts : take k xs ++ drop k xs ≡ xs = take-append-drop k xs in
          subst
            (λ l.
              Round deliver (w, collecting (length bytes) got) l
                (read_body handle w (reader flag current) p))
            parts
            (body_complete (take k xs) (drop k xs) (e ∙ sym parts)
              (ground (arith, length-take k xs)))
    ]
