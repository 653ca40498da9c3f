-- ===== src/Stream/Listing.antt =====
-- What `MemoryStream::toString` of libs/common/memorystream.cpp gives for a whole stream.
use x_kbengine.Prelude.{
  ℕ, zero, suc, ◌+◌, ◌-◌, ◌*◌, ◌/◌, ◌%◌, ◌≤◌, ◌<◌, ◌≡◌, refl, sym, ap, ap₂, ◌∙◌, true, Bool-cases,
  List, [], ◌∷◌, ◌++◌, append-nil, append_assoc, length, length-take, length-drop, take, take_all,
  drop, drop-append_exact, drop-drop, take-append-drop, ltb, Outcome, ok, fail, ◌>>=◌, arith, inl,
  inr,
}
use x_kbengine.Stream.{Stream}
use x_kbengine.Stream.Dump.{offset, emit, dump_loop, last_row, to_string}
use x_kbengine.Stream.Rows.{
  cells, row_text, row_line, dump, dump_loop-row_line, dump_loop-part, last_row-part,
}

emit-bind :
    (line text : List ℕ) (m t : Outcome (List ℕ))
    → (m >>= λ out. emit out t) ≡ ok text
    → (emit line m >>= λ out. emit out t) ≡ ok (line ++ text)
emit-bind line text (ok out) (ok t) e = ap ok (append_assoc line out t) ∙ ap (λ r. emit line r) e
emit-bind line text (ok out) (fail f) e = ap (λ r. emit line r) e
emit-bind line text (fail f) t e = ap (λ r. emit line r) e

module _ (data_ : List ℕ) where
  abbrev Text : ℕ → List ℕ → Outcome (List ℕ)
  Text k bytes =
      dump_loop (length bytes) data_ k 0 >>= λ out. emit out (last_row data_ (k + length bytes))

  Text-nil : (k : ℕ) → k % 16 ≡ 0 → Text k [] ≡ ok []
  unfolding dump_loop last_row
  Text-nil k z = let e : k + 0 ≡ k = omega arith in rw (e, z) refl

  Text-part :
      (row more : List ℕ) (k : ℕ)
      → drop k data_ ≡ row ++ more
      → k % 16 ≡ 0
      → 0 < length row
      → length row < 16
      → Text k row ≡ ok (row_line k row)
  unfolding row_line
  Text-part [] more k e z l h = absurd (omega arith)
  Text-part (b ∷ row) more k e z l h =
      rw
        (
          dump_loop-part data_ b row more k e (omega arith),
          last_row-part data_ (b ∷ row) more k e z l h,
        )
        (ap ok (append_assoc (offset k) (cells (b ∷ row)) (row_text (b ∷ row))))

  dump-part :
      (n k : ℕ) (row : List ℕ) → length row < 16 → n ≡ 0 → row_line k row ≡ dump (suc n) k row
  unfolding dump
  dump-part n k row h e =
      sym (append-nil (row_line k row))
      ∙ ap₂ (λ r m. row_line k r ++ dump m (k + 16) (drop 16 row))
          (sym (take_all 16 row (omega arith))) (sym e)

  drop_row :
      (k : ℕ) (bytes more : List ℕ)
      → drop k data_ ≡ bytes ++ more
      → 16 ≤ length bytes
      → (drop k data_ ≡ take 16 bytes ++ (drop 16 bytes ++ more))
        × (drop (k + 16) data_ ≡ drop 16 bytes ++ more)
  drop_row k bytes more e h =
      let split : bytes ++ more ≡ take 16 bytes ++ (drop 16 bytes ++ more) =
        ap (λ l. l ++ more) (sym (take-append-drop 16 bytes))
        ∙ append_assoc (take 16 bytes) (drop 16 bytes) more in
      (
        e ∙ split,
        sym (drop-drop k 16 data_)
            ∙ ap (drop 16) (e ∙ split)
            ∙ drop-append_exact 16 (take 16 bytes) (drop 16 bytes ++ more)
                (omega (arith, length-take 16 bytes)),
      )

  Text-row :
      (k : ℕ) (bytes more text : List ℕ)
      → drop k data_ ≡ bytes ++ more
      → 16 ≤ length bytes
      → Text (k + 16) (drop 16 bytes) ≡ ok text
      → Text k bytes ≡ ok (row_line k (take 16 bytes) ++ text)
  Text-row k bytes more text e h next =
      let (here, later) = drop_row k bytes more e h in
      let rest = drop 16 bytes in
      let e1 : length bytes ≡ 16 + length rest = omega (arith, length-drop 16 bytes) in
      let e2 : k + length bytes ≡ k + 16 + length rest = omega (arith, e1) in
      ap₂ (λ m t. dump_loop m data_ k 0 >>= λ out. emit out (last_row data_ t)) e1 e2
      ∙ ap (λ m. m >>= λ out. emit out (last_row data_ (k + 16 + length rest)))
          (dump_loop-row_line data_ (take 16 bytes) (rest ++ more) (length rest) k here
            (omega (arith, length-take 16 bytes)))
      ∙ emit-bind (row_line k (take 16 bytes)) text (dump_loop (length rest) data_ (k + 16) 0)
          (last_row data_ (k + 16 + length rest)) next

  -- Rows are cut off the front until fewer than 16 bytes are left.
  Text-dump :
      (n k : ℕ) (bytes more : List ℕ)
      → drop k data_ ≡ bytes ++ more
      → k % 16 ≡ 0
      → length bytes ≤ 16 * n
      → 16 * n < length bytes + 16
      → Text k bytes ≡ ok (dump n k bytes)
  unfolding dump
  Text-dump zero k [] more e z l h = Text-nil k z
  Text-dump zero k (b ∷ bytes) more e z l h = absurd (omega arith)
  Text-dump (suc n) k bytes more e z l h = elim (Bool-cases (ltb (length bytes) 16)) [
    | inl short ↦
        Text-part bytes more k e z (omega arith) (ground arith)
        ∙ ap ok (dump-part n k bytes (ground arith) (ground arith))
    | inr long ↦
        let e1 : length (drop 16 bytes) ≡ length bytes - 16 = length-drop 16 bytes in
        let e2 : 16 ≤ length bytes = ground arith in
        Text-row k bytes more (dump n (k + 16) (drop 16 bytes)) e e2 (
          Text-dump n (k + 16) (drop 16 bytes) more (drop_row k bytes more e e2).1 (omega arith)
            (omega (arith, e1)) (omega (arith, e1)))
  ]

-- The whole of a stream is printed as its written bytes, in rows of 16 and a shorter one for those that
-- are left: in each row its offset, the bytes, and the characters. The write position does not lie
-- behind the end of the bytes.
pub to_string-dump :
    (s : Stream)
    → s.wpos ≤ length s.bytes
    → to_string true s ≡ ok (dump ((s.wpos + 15) / 16) 0 (take s.wpos s.bytes))
unfolding to_string
to_string-dump s h =
    let written = take s.wpos s.bytes in
    let e0 : length written ≡ s.wpos = omega (arith, length-take s.wpos s.bytes) in
    ap₂ (λ m t. dump_loop m s.bytes 0 0 >>= λ out. emit out (last_row s.bytes t))
      (omega (arith, e0)) (omega (arith, e0))
    ∙ Text-dump s.bytes ((s.wpos + 15) / 16) 0 written (drop s.wpos s.bytes)
        (sym (take-append-drop s.wpos s.bytes)) refl (omega (arith, e0)) (omega (arith, e0))
