-- ===== src/Network/Reader/Rounds.antt =====
-- Each round of the loop of `processMessages` follows the framing machine.
use x_kbengine.Prelude.{
  ℕ, suc, ◌+◌, ◌*◌, ◌≤◌, ◌<◌, ◌≡◌, ◌≢◌, refl, sym, ap, ◌∙◌, Bool, true, List, [], ◌∷◌, ◌++◌, arith,
  length, length-append, take, append_assoc, ne→==, le→ltb, Outcome, ok,
}
use x_kbengine.Stream.{Stream, unread_length, vector_resize}
use x_kbengine.Stream.Bytes.{AllBytes}
use x_kbengine.Stream.Queue.{IsValid, unread, unread_length_lem}
use x_kbengine.Stream.Codec.Numbers.{read_uint8-Reads, read_uint16-Reads, write_uint8-Leaves}
use x_kbengine.Network.Packet.{Packet}
use x_kbengine.Network.Framing.{
  Phase, idle, half, collecting, feed, body_size, next_phase, effect, AllOpen, feed-append,
}
use x_kbengine.Network.Reader.{
  Turn, Reader, Fragment, unknow, message_length, message_body, leave, read_header, read_body,
  read_message,
}
use x_kbengine.Network.Reader.Fragments.{
  after_read, write_fragment_message-ok, after_read-IsValid, unread-after_read,
}
use x_kbengine.Network.Reader.Holds.{message, reader, Holds, at_start, in_header, in_body, Round}
use x_kbengine.Network.Reader.Bodies.{length-vector_resize, start_body-ok, body-Round}

module _ {W : Type 0} (handle : W → Packet → Outcome (Bool × W × Packet)) (deliver : W → List ℕ → W)
    (contract : (w : W) (c : Packet)
      → (q : Packet) × (handle w c ≡ ok (true, deliver w (take c.wpos c.bytes), q))
        × (q.bytes ≡ c.bytes)) where
  prepend :
      (m : W × Phase) (header ys : List ℕ) (o : Outcome (Turn × W × Reader × Packet))
      → 0 < length header
      → Round deliver (feed deliver m header) ys o
      → Round deliver m (header ++ ys) o
  prepend m header ys o some_ r = record {
    turn = r.turn;
    world = r.world;
    after = r.after;
    packet = r.packet;
    phase = r.phase;
    front = header ++ r.front;
    rest = r.rest;
    result = r.result;
    split = ap (◌++◌ header) r.split ∙ sym (append_assoc header r.front r.rest);
    fed = feed-append deliver m header r.front ∙ r.fed;
    holds = r.holds;
    valid = r.valid;
    left = r.left;
    shorter = omega (arith, length-append header ys, r.shorter);
    ends = r.ends;
  }

  -- A message whose header is complete goes on with its body.
  started :
      (w : W) (m : W × Phase) (header ys : List ℕ) (size rp : ℕ) (flag : Fragment) (bytes : List ℕ)
      (tcp : Bool) (sent : ℕ) (p : Packet)
      → IsValid p.stream
      → unread p.stream ≡ ys
      → 0 < length header
      → size ≢ 0
      → size ≤ 65535
      → feed deliver m header ≡ (w, collecting size [])
      → Round deliver m
          (header ++ ys)
          (read_body handle w (reader flag (message rp 0 (vector_resize size bytes) tcp sent)) p)
  started w m header ys size rp flag bytes tcp sent p v e some_ pos small fed =
      let long : length (vector_resize size bytes) ≡ size = length-vector_resize size bytes in
      let body =
        body-Round handle deliver contract w flag rp [] (vector_resize size bytes) tcp sent refl
          (omega arith) (omega arith) p v ys e in
      let at_size : feed deliver m header ≡ (w, collecting (length (vector_resize size bytes)) []) =
        fed ∙ ap (λ k. (w, collecting k [])) (sym long) in
      prepend m header ys _ some_ (rw at_size body)

  first_byte :
      (w : W) (b : ℕ) (bytes : List ℕ) (tcp : Bool) (sent : ℕ) (p : Packet)
      → IsValid p.stream
      → unread p.stream ≡ b ∷ []
      → b < 256
      → 0 < length bytes
      → length bytes ≤ 65535
      → Round deliver
          (w, idle)
          (b ∷ [])
          (read_message handle w (reader unknow (message 0 0 bytes tcp sent)) p)
  unfolding read_message read_header feed next_phase effect
  first_byte w b [] tcp sent p v e byte some_ small = absurd (omega arith)
  first_byte w b (x ∷ bytes) tcp sent p v e byte some_ small =
      let r : Reader = reader unknow (message 0 0 (x ∷ bytes) tcp sent) in
      let size : unread_length p.stream ≡ 1 = unread_length_lem p.stream v ∙ ap length e in
      record {
        turn = leave;
        world = w;
        after = reader message_length (message 0 1 (b ∷ bytes) tcp sent);
        packet = after_read p 1;
        phase = half b;
        front = b ∷ [];
        rest = [];
        result = rw (
          size,
          read_header,
          write_fragment_message-ok r p (b ∷ []) [] v e message_length (omega arith) (omega arith),
        );
        split = refl;
        fed = refl;
        holds = in_header b bytes tcp sent byte small;
        valid = after_read-IsValid r p (b ∷ []) [] v e;
        left = unread-after_read r p (b ∷ []) [] v e;
        shorter = omega arith;
        ends = refl;
      }

  -- Each round of the loop, in every state that the reader can be in.
  pub read_message-Round :
      {r : Reader} {ph : Phase} (w : W) (p : Packet) (xs : List ℕ)
      → Holds r ph
      → IsValid p.stream
      → unread p.stream ≡ xs
      → AllBytes xs
      → AllOpen ph xs
      → 0 < length xs
      → Round deliver (w, ph) xs (read_message handle w r p)
  unfolding read_message read_header feed next_phase effect
  read_message-Round w p [] (at_start bytes tcp sent some_ small) v e all open_ more =
      absurd (omega arith)
  read_message-Round w p (b ∷ []) (at_start bytes tcp sent some_ small) v e all open_ more =
      first_byte w b bytes tcp sent p v e all.0 some_ small
  read_message-Round w p (hi ∷ lo ∷ ys) (at_start bytes tcp sent some_ small) v e all open_ more =
      let (s, got, v', u) = read_uint16-Reads p.stream v hi lo ys all.0 all.1.0 e in
      let size : unread_length p.stream ≡ suc (suc (length ys)) =
        unread_length_lem p.stream v ∙ ap length e in
      rw
        (
          size,
          read_header,
          le→ltb (suc (suc (length ys))) 2 (omega arith),
          got,
          start_body-ok unknow (hi * 256 + lo) 0 0 bytes tcp sent,
        )
        (started w (w, idle) (hi ∷ lo ∷ []) ys (body_size hi lo) 0 unknow bytes tcp sent
          (record p { stream = s }) v' u (omega arith) open_.1.0 (omega arith)
          (rw (ne→== (body_size hi lo) 0 open_.1.0)))
  read_message-Round w p [] (in_header hi bytes tcp sent byte small) v e all open_ more =
      absurd (omega arith)
  read_message-Round w p (lo ∷ ys) (in_header hi bytes tcp sent byte small) v e all open_ more =
      let begun : Stream = record { rpos = 0; wpos = 1; bytes = hi ∷ bytes } in
      let fine : IsValid begun = record { ordered = omega arith; within = omega arith } in
      let (s, got, v', u) = read_uint8-Reads p.stream v lo ys all.0 e in
      let (j, put, vj, uj, _) = write_uint8-Leaves begun fine lo all.0 (omega arith) in
      let (t, size, vt, ut) = read_uint16-Reads j vj hi lo [] byte all.0 uj in
      rw
        (
          got,
          put,
          size,
          start_body-ok message_length (hi * 256 + lo) t.rpos t.wpos t.bytes tcp sent,
        )
        (started w (w, half hi) (lo ∷ []) ys (body_size hi lo) t.rpos message_length t.bytes tcp
          sent (record p { stream = s }) v' u (omega arith) open_.0 (omega arith)
          (rw (ne→== (body_size hi lo) 0 open_.0)))
  read_message-Round w p xs (in_body rp got bytes tcp sent kept open_ small) v e all _ more =
      body-Round handle deliver contract w message_body rp got bytes tcp sent kept open_ small p v
        xs e
