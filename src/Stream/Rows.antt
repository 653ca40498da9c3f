-- ===== src/Stream/Rows.antt =====
-- The text of `MemoryStream::toString` of libs/common/memorystream.cpp, row by row.
use x_kbengine.Prelude.{
  ℕ, zero, suc, ◌+◌, ◌-◌, ◌%◌, ◌≤◌, ◌<◌, ◌≡◌, refl, sym, ap, ap₂, ◌∙◌, ◌≢◌, List, [], ◌∷◌, ◌++◌,
  map, append-nil, append_assoc, length, take, drop, drop-drop, ◌==◌, ne→==, if◌then◌else◌, Outcome,
  ok, fail, arith,
}
use x_kbengine.Stream.Dump.{
  offset, cell, printable, ascii_run, gap, emit, row_end, dump_loop, blanks, last_row,
}

abbrev pub cells : List ℕ → List ℕ
cells [] = []
cells (b ∷ bytes) = cell b ++ cells bytes

-- The characters of a row, in a column of their own.
abbrev pub row_text : List ℕ → List ℕ
row_text row = blanks (16 - length row) ++ (gap ++ (map printable row ++ 10 ∷ []))

-- A row: its offset, its bytes in two digits each, and its characters.
unfoldable pub row_line : ℕ → List ℕ → List ℕ
row_line k row = offset k ++ (cells row ++ row_text row)

-- So many rows of 16 bytes, the last of which may be shorter.
unfoldable pub dump : ℕ → ℕ → List ℕ → List ℕ
dump zero k bytes = []
dump (suc n) k bytes = row_line k (take 16 bytes) ++ dump n (k + 16) (drop 16 bytes)

emit-emit : (xs ys : List ℕ) (m : Outcome (List ℕ)) → emit xs (emit ys m) ≡ emit (xs ++ ys) m
emit-emit xs ys (ok rest) = ap ok (sym (append_assoc xs ys rest))
emit-emit xs ys (fail e) = refl

emit-nil : (m : Outcome (List ℕ)) → emit [] m ≡ m
emit-nil (ok rest) = refl
emit-nil (fail e) = refl

module _ (data_ : List ℕ) where
  drop_next : (k b : ℕ) (rest : List ℕ) → drop k data_ ≡ b ∷ rest → drop (suc k) data_ ≡ rest
  drop_next k b rest e =
      let next : suc k ≡ k + 1 = omega arith in
      ap (λ n. drop n data_) next ∙ sym (drop-drop k 1 data_) ∙ ap (drop 1) e

  ascii_run-map :
      (row more : List ℕ) (m : ℕ)
      → drop m data_ ≡ row ++ more
      → ascii_run (length row) data_ m ≡ ok (map printable row)
  unfolding ascii_run
  ascii_run-map [] more m e = refl
  ascii_run-map (c ∷ row) more m e =
      rw (e, ascii_run-map row more (suc m) (drop_next m c (row ++ more) e)) refl

  -- A byte that is not its row's last.
  dump_loop-byte :
      (n k j b : ℕ) (rest : List ℕ)
      → drop k data_ ≡ b ∷ rest
      → suc j ≢ 16
      → dump_loop (suc n) data_ k j
        ≡ emit
            (if j % 16 == 0 then offset k else [])
            (emit (cell b) (dump_loop n data_ (suc k) (suc j)))
  unfolding dump_loop row_end
  dump_loop-byte n k j b rest e h = rw (e, ne→== (suc j) 16 h, emit-nil) refl

  inside : (k j : ℕ) → 1 ≤ j → j ≤ 15 → (if j % 16 == 0 then offset k else []) ≡ []
  inside k j h h' = ap (λ b. if b then offset k else []) (ne→== (j % 16) 0 (omega arith))

  -- Bytes inside a row.
  dump_loop-cells :
      (row more : List ℕ) (n k j : ℕ)
      → drop k data_ ≡ row ++ more
      → 1 ≤ j
      → j + length row ≤ 15
      → dump_loop (length row + n) data_ k j
        ≡ emit (cells row) (dump_loop n data_ (k + length row) (j + length row))
  dump_loop-cells [] more n k j e h h' =
      let e0 : 0 + n ≡ n = omega arith in
      let e1 : k + 0 ≡ k = omega arith in
      let e2 : j + 0 ≡ j = omega arith in rw (e0, e1, e2, emit-nil) refl
  dump_loop-cells (b ∷ row) more n k j e h h' =
      let e0 : suc (length row) + n ≡ suc (length row + n) = omega arith in
      let e1 : suc k + length row ≡ k + suc (length row) = omega arith in
      let e2 : suc j + length row ≡ j + suc (length row) = omega arith in
      let later =
        dump_loop-cells row more n (suc k) (suc j) (drop_next k b (row ++ more) e) (omega arith)
          (omega arith) in
      ap (λ r. dump_loop r data_ k j) e0
      ∙ dump_loop-byte (length row + n) k j b (row ++ more) e (omega arith)
      ∙ ap (λ o. emit o (emit (cell b) (dump_loop (length row + n) data_ (suc k) (suc j))))
          (inside k j h (omega arith))
      ∙ emit-nil (emit (cell b) (dump_loop (length row + n) data_ (suc k) (suc j)))
      ∙ ap (emit (cell b)) later
      ∙ ap₂ (λ p q. emit (cell b) (emit (cells row) (dump_loop n data_ p q))) e1 e2
      ∙ emit-emit (cell b) (cells row)
          (dump_loop n data_ (k + suc (length row)) (j + suc (length row)))

  -- The bytes after the first of a full row, which began at `start`.
  dump_loop-full :
      (row more all after : List ℕ) (n k j start : ℕ)
      → drop k data_ ≡ row ++ more
      → 1 ≤ j
      → j ≤ 15
      → j + length row ≡ 16
      → start + 16 ≡ k + length row
      → drop start data_ ≡ all ++ after
      → length all ≡ 16
      → dump_loop (length row + n) data_ k j
        ≡ emit
            (cells row)
            (emit (gap ++ (map printable all ++ 10 ∷ [])) (dump_loop n data_ (start + 16) 0))
  unfolding dump_loop row_end
  dump_loop-full [] more all after n k j start e h h' l at_ e' l' = absurd (omega arith)
  dump_loop-full (b ∷ []) more all after n k j start e h h' l at_ e' l' =
      let e0 : 1 + n ≡ suc n = omega arith in
      let e1 : j ≡ 15 = omega arith in
      let e2 : k - 15 ≡ start = omega arith in
      let e3 : suc k ≡ start + 16 = omega arith in
      let text : ascii_run 16 data_ start ≡ ok (map printable all) =
        ap (λ m. ascii_run m data_ start) (sym l') ∙ ascii_run-map all after start e' in
      rw (e0, e, e1, e2, text, e3, emit-nil, append-nil) refl
  dump_loop-full (b ∷ c ∷ row) more all after n k j start e h h' l at_ e' l' =
      let e0 : suc (suc (length row)) + n ≡ suc (suc (length row) + n) = omega arith in
      let later =
        dump_loop-full (c ∷ row) more all after n (suc k) (suc j) start
          (drop_next k b (c ∷ row ++ more) e) (omega arith) (omega arith) (omega arith)
          (omega arith) e' l' in
      let rest = dump_loop (suc (length row) + n) data_ (suc k) (suc j) in
      let line = emit (gap ++ (map printable all ++ 10 ∷ [])) (dump_loop n data_ (start + 16) 0) in
      ap (λ r. dump_loop r data_ k j) e0
      ∙ dump_loop-byte (suc (length row) + n) k j b (c ∷ row ++ more) e (omega arith)
      ∙ ap (λ o. emit o (emit (cell b) rest)) (inside k j h h')
      ∙ emit-nil (emit (cell b) rest)
      ∙ ap (emit (cell b)) later
      ∙ emit-emit (cell b) (cells (c ∷ row)) line

  pub dump_loop-row_line :
      (row more : List ℕ) (n k : ℕ)
      → drop k data_ ≡ row ++ more
      → length row ≡ 16
      → dump_loop (16 + n) data_ k 0 ≡ emit (row_line k row) (dump_loop n data_ (k + 16) 0)
  unfolding row_line
  dump_loop-row_line [] more n k e l = absurd (omega arith)
  dump_loop-row_line (b ∷ row) more n k e l =
      let e0 : 16 + n ≡ suc (length row + n) = omega arith in
      let e1 : 16 - suc (length row) ≡ 0 = omega arith in
      let later =
        dump_loop-full row more (b ∷ row) more n (suc k) 1 k (drop_next k b (row ++ more) e)
          (omega arith) (omega arith) (omega arith) (omega arith) e l in
      let line = gap ++ (map printable (b ∷ row) ++ 10 ∷ []) in
      let rest = dump_loop n data_ (k + 16) 0 in
      ap (λ r. dump_loop r data_ k 0) e0
      ∙ dump_loop-byte (length row + n) k 0 b (row ++ more) e (omega arith)
      ∙ ap (λ o. emit (offset k) (emit (cell b) o)) later
      ∙ ap (emit (offset k)) (emit-emit (cell b) (cells row) (emit line rest))
      ∙ ap (emit (offset k)) (emit-emit (cells (b ∷ row)) line rest)
      ∙ emit-emit (offset k) (cells (b ∷ row) ++ line) rest
      ∙ ap (λ z. emit (offset k ++ (cells (b ∷ row) ++ (blanks z ++ line))) rest) (sym e1)

  pub dump_loop-part :
      (b : ℕ) (row more : List ℕ) (k : ℕ)
      → drop k data_ ≡ b ∷ row ++ more
      → length row < 15
      → dump_loop (suc (length row)) data_ k 0 ≡ ok (offset k ++ cells (b ∷ row))
  unfolding dump_loop
  dump_loop-part b row more k e l =
      let e0 : length row + 0 ≡ length row = omega arith in
      let later =
        dump_loop-cells row more 0 (suc k) 1 (drop_next k b (row ++ more) e) (omega arith)
          (omega arith) in
      dump_loop-byte (length row) k 0 b (row ++ more) e (omega arith)
      ∙ ap (λ n. emit (offset k) (emit (cell b) (dump_loop n data_ (suc k) 1))) (sym e0)
      ∙ ap (λ o. emit (offset k) (emit (cell b) o)) later
      ∙ ap (λ t. ok (offset k ++ (cell b ++ t))) (append-nil (cells row))

  pub last_row-part :
      (row more : List ℕ) (k : ℕ)
      → drop k data_ ≡ row ++ more
      → k % 16 ≡ 0
      → 0 < length row
      → length row < 16
      → last_row data_ (k + length row) ≡ ok (row_text row)
  unfolding last_row
  last_row-part row more k e z l h =
      let e0 : (k + length row) % 16 ≡ length row = omega arith in
      let e1 : k + length row - length row ≡ k = omega arith in
      rw (e0, ne→== (length row) 0 (omega arith), e1, ascii_run-map row more k e) refl
