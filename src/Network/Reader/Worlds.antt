-- ===== src/Network/Reader/Worlds.antt =====
-- The reader touches the world behind the message handler by calling the handler alone: what each call of
-- the handler keeps, the whole reading of a packet keeps.
use x_kbengine.Prelude.{
  ℕ, zero, suc, ◌+◌, Bool, true, false, if_cases, ltb, ◌==◌, Outcome, ok, fail, ◌>>=◌, Ensures,
  Ensures-bind, Ensures-ok,
}
use x_kbengine.Stream.{unread_length, space}
use x_kbengine.Network.Packet.{Packet}
use x_kbengine.Network.Reader.{
  Reader, Turn, again, leave, threw, read_header, write_fragment_message, message_body, handled,
  read_body, read_message, go_on, message_loop, process_messages,
}

module _ {W : Type 0} (handle : W → Packet → Outcome (Bool × W × Packet)) (R : W → W → Type 0)
    (R-refl : (w : W) → R w w) (R-trans : (u v w : W) → R u v → R v w → R u w)
    (keeps : (w : W) (p : Packet) → Ensures (λ (r : Bool × W × Packet). R w r.1) (handle w p)) where
  abbrev Turned : W → Turn × W × Reader × Packet → Type 0
  Turned w t = R w t.1

  read_body_lem : (w : W) (r : Reader) (p : Packet) → Ensures (Turned w) (read_body handle w r p)
  unfolding read_body
  read_body_lem w r p =
      if_cases (Ensures (Turned w)) (ltb (unread_length p.stream) (space r.curr_packet.stream))
        (λ t.
          Ensures-bind (Turned w) (write_fragment_message message_body p (unread_length p.stream) r)
            _ (λ x u. R-refl w))
        (λ t.
          Ensures-bind (Turned w)
            (write_fragment_message message_body p (space r.curr_packet.stream) r) _
            (λ (r', p') u.
              Ensures-bind (Turned w) (handle w r'.curr_packet) (handled handle r' p') (λ x v.
                over r' p' x (
                  Ensures-ok (λ (r : Bool × W × Packet). R w r.1) (handle w r'.curr_packet) x v
                    (keeps w r'.curr_packet)))))
    where
      over :
          (r : Reader) (p : Packet) (x : Bool × W × Packet)
          → R w x.1
          → Ensures (Turned w) (handled handle r p x)
      over r p (true, v, lent) h = h
      over r p (false, v, lent) h = h

  read_message_lem :
      (w : W) (r : Reader) (p : Packet) → Ensures (Turned w) (read_message handle w r p)
  unfolding read_message
  read_message_lem w r p = Ensures-bind (Turned w) (read_header r p) _ (λ (complete, r', p') t.
      if_cases (Ensures (Turned w)) complete {y = ok (leave, w, r', p')}
        (λ u. read_body_lem w r' p') (λ u. R-refl w))

  abbrev pub Read : W → Bool × W × Reader × Packet → Type 0
  Read w x = R w x.1

  from :
      (w v : W) (o : Outcome (Bool × W × Reader × Packet))
      → R w v
      → Ensures (Read v) o
      → Ensures (Read w) o
  from w v (ok x) a b = R-trans w v x.1 a b
  from w v (fail err) a b = tt

  message_loop_lem :
      (fuel : ℕ) (w : W) (r : Reader) (p : Packet)
      → Ensures (Read w) (message_loop handle fuel w r p)
  unfolding message_loop
  message_loop_lem zero w r p = tt
  message_loop_lem (suc fuel) w r p =
      elim (unread_length p.stream == 0)
        as (λ b. Ensures (Read w) (elim b [
          | true ↦ ok (true, w, r, p)
          | false ↦ read_message handle w r p >>= go_on handle (message_loop handle fuel)
        ])) [
          | true ↦ R-refl w
          | false ↦
              Ensures-bind (Read w) (read_message handle w r p)
                (go_on handle (message_loop handle fuel))
                (λ x t.
                  on (λ v r' p'. message_loop_lem fuel v r' p') x
                    (Ensures-ok (Turned w) (read_message handle w r p) x t
                      (read_message_lem w r p)))
        ]
    where
      on :
          ((v : W) (r' : Reader) (p' : Packet)
            → Ensures (Read v) (message_loop handle fuel v r' p'))
          → (x : Turn × W × Reader × Packet) → Turned w x
          → Ensures (Read w) (go_on handle (message_loop handle fuel) x)
      on ih (again, v, r', p') h = from w v (message_loop handle fuel v r' p') h (ih v r' p')
      on ih (leave, v, r', p') h = h
      on ih (threw, v, r', p') h = h

  pub process_messages_lem :
      (w : W) (r : Reader) (p : Packet) → Ensures (Read w) (process_messages handle w r p)
  unfolding process_messages
  process_messages_lem w r p = message_loop_lem (unread_length p.stream + 1) w r p
