-- ===== src/Script/Writes.antt =====
-- What `onWrite` of libs/pyscript/scriptstdout.h passes on, and which writes `run_simpleString` of
-- libs/pyscript/script.cpp gets.
use x_kbengine.Prelude.{
  ℕ, ◌≡◌, refl, sym, ap, ◌∙◌, true, List, [], ◌∷◌, ◌++◌, map, append_assoc, append-nil, map-append,
  if◌then◌else◌, if_cases,
}
use x_kbengine.Script.{Stream, same_stream, Hook, Output, on_write, starts_line}

-- All messages in turn.
unfoldable pub write_all : (List ℕ → List ℕ) → List (List ℕ) → Hook → Output → Hook × Output
write_all narrow [] h out = (h, out)
write_all narrow (msg ∷ msgs) h out =
    let (h', out') = on_write narrow msg h out in write_all narrow msgs h' out'

abbrev pub joined : List (List ℕ) → List ℕ
joined [] = []
joined (l ∷ ls) = l ++ joined ls

joined-append : (xs ys : List (List ℕ)) → joined (xs ++ ys) ≡ joined xs ++ joined ys
joined-append [] ys = refl
joined-append (x ∷ xs) ys =
    ap (λ l. x ++ l) (joined-append xs ys) ∙ sym (append_assoc x (joined xs) (joined ys))

module _ (narrow : List ℕ → List ℕ) where
  -- The texts that went out, and what is held back.
  abbrev Passed : Hook → Output → List ℕ → Hook × Output → List (List ℕ) → Type 0
  Passed h out text r lines =
      (joined lines ++ r.0.wbuffer ≡ h.wbuffer ++ text)
      × (r.1.logged ≡ out.logged ++ map narrow lines)
      × (r.1.buffer ≡ out.buffer ++ joined (map narrow lines))

  on_write-Passed :
      (msg : List ℕ) (h : Hook) (out : Output)
      → h.has_buffer ≡ true
      → (lines : List (List ℕ)) × Passed h out msg (on_write narrow msg h out) lines
        × ((on_write narrow msg h out).0.has_buffer ≡ true)
  unfolding on_write
  on_write-Passed msg h out b =
      if_cases (λ r. (lines : List (List ℕ)) × Passed h out msg r lines × (r.0.has_buffer ≡ true))
        (starts_line msg)
        (λ _. (
          (h.wbuffer ++ msg) ∷ [],
          (
            append_assoc (h.wbuffer ++ msg) [] [] ∙ append-nil (h.wbuffer ++ msg),
            refl,
            ap (λ x. if x then out.buffer ++ narrow (h.wbuffer ++ msg) else out.buffer) b
                ∙ ap (λ l. out.buffer ++ l) (sym (append-nil (narrow (h.wbuffer ++ msg)))),
          ),
          b,
        ))
        (λ _. ([], (refl, sym (append-nil out.logged), sym (append-nil out.buffer)), b))

  -- A hook with a buffer receives messages. Nothing is lost or reordered: there are texts that, followed
  -- by what the hook still holds back, are what the hook held followed by the messages; the log gets
  -- each of these texts, converted, and the buffer gets them joined.
  pub write_all-joined :
      (msgs : List (List ℕ)) (h : Hook) (out : Output)
      → h.has_buffer ≡ true
      → (lines : List (List ℕ)) × (joined lines ++ (write_all narrow msgs h out).0.wbuffer
          ≡ h.wbuffer ++ joined msgs)
        × ((write_all narrow msgs h out).1.logged ≡ out.logged ++ map narrow lines)
        × ((write_all narrow msgs h out).1.buffer ≡ out.buffer ++ joined (map narrow lines))
  unfolding write_all
  write_all-joined [] h out b =
      ([], sym (append-nil h.wbuffer), sym (append-nil out.logged), sym (append-nil out.buffer))
  write_all-joined (msg ∷ msgs) h out b =
      let (now, (held, told, kept), b') = on_write-Passed msg h out b in
      let h' = (on_write narrow msg h out).0 in
      let out' = (on_write narrow msg h out).1 in
      let r = write_all narrow msgs h' out' in
      let (later, held', told', kept') = write_all-joined msgs h' out' b' in
      let split : map narrow (now ++ later) ≡ map narrow now ++ map narrow later =
        map-append narrow now later in
      (
        now ++ later,
        ap (λ l. l ++ r.0.wbuffer) (joined-append now later)
            ∙ append_assoc (joined now) (joined later) r.0.wbuffer
            ∙ ap (λ l. joined now ++ l) held'
            ∙ sym (append_assoc (joined now) h'.wbuffer (joined msgs))
            ∙ ap (λ l. l ++ joined msgs) held
            ∙ append_assoc h.wbuffer msg (joined msgs),
        told'
            ∙ ap (λ l. l ++ map narrow later) told
            ∙ append_assoc out.logged (map narrow now) (map narrow later)
            ∙ ap (λ l. out.logged ++ l) (sym split),
        kept'
            ∙ ap (λ l. l ++ joined (map narrow later)) kept
            ∙ append_assoc out.buffer (joined (map narrow now)) (joined (map narrow later))
            ∙ ap (λ l. out.buffer ++ l)
                (sym (joined-append (map narrow now) (map narrow later)) ∙ ap joined (sym split)),
      )

-- The writes to one stream.
abbrev pub only : Stream → List (Stream × List ℕ) → List (Stream × List ℕ)
only name [] = []
only name ((other, msg) ∷ writes) =
    if same_stream name other then (other, msg) ∷ only name writes else only name writes
