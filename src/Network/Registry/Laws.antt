-- ===== src/Network/Registry/Laws.antt =====
-- The order of the entries of the channels' map, and its look-ups.
use x_kbengine.Prelude.{
  ◌≡◌, refl, subst, ap, ◌∙◌, Bool, true, false, ◌||◌, not, none, some, List, [], ◌∷◌, ◌++◌,
  if◌then◌else◌, if_cases, arith,
}
use x_kbengine.Network.Address.{Address, less, eq}
use x_kbengine.Network.Address.Order.{less_asym, less_irrefl, less_trans}
use x_kbengine.Network.Poller.{is_some}
use x_kbengine.Network.Registry.{same_key, find, insert, erase}

module _ {V : Type 0} where
  -- The address is below each key.
  abbrev pub IsBelow : Address → List (Address × V) → Type 0
  IsBelow a [] = Unit
  IsBelow a ((b, v) ∷ entries) = (less a b ≡ true) × IsBelow a entries

  abbrev pub IsOrdered : List (Address × V) → Type 0
  IsOrdered [] = Unit
  IsOrdered ((a, v) ∷ entries) = IsBelow a entries × IsOrdered entries

  pub IsBelow-trans :
      (a b : Address) (m : List (Address × V)) → less a b ≡ true → IsBelow b m → IsBelow a m
  IsBelow-trans a b [] h k = tt
  IsBelow-trans a b ((c, v) ∷ m) h (k, ks) = (less_trans a b c h k, IsBelow-trans a b m h ks)

  IsBelow-insert :
      (a b : Address) (v : V) (m : List (Address × V))
      → less a b ≡ true
      → IsBelow a m
      → IsBelow a (insert b v m)
  unfolding insert
  IsBelow-insert a b v [] h k = (h, tt)
  IsBelow-insert a b v ((c, w) ∷ m) h (k, ks) =
      if_cases (IsBelow a) (less b c) (λ _. (h, (k, ks)))
        (λ _.
          if_cases (IsBelow a) (less c b) (λ _. (k, IsBelow-insert a b v m h ks)) (λ _. (k, ks)))

  pub insert-IsOrdered :
      (a : Address) (v : V) (m : List (Address × V)) → IsOrdered m → IsOrdered (insert a v m)
  unfolding insert
  insert-IsOrdered a v [] h = (tt, tt)
  insert-IsOrdered a v ((b, w) ∷ m) (h, hs) =
      if_cases IsOrdered (less a b) (λ e. ((e, IsBelow-trans a b m e h), (h, hs)))
        (λ _.
          if_cases IsOrdered (less b a)
            (λ e. (IsBelow-insert b a v m e h, insert-IsOrdered a v m hs)) (λ _. (h, hs)))

  IsBelow-erase : (a b : Address) (m : List (Address × V)) → IsBelow a m → IsBelow a (erase b m).1
  unfolding erase
  IsBelow-erase a b [] k = tt
  IsBelow-erase a b ((c, w) ∷ m) (k, ks) =
      if_cases (λ (r : Bool × List (Address × V)). IsBelow a r.1) (same_key b c) (λ _. ks)
        (λ _. (k, IsBelow-erase a b m ks))

  pub erase-IsOrdered :
      (a : Address) (m : List (Address × V)) → IsOrdered m → IsOrdered (erase a m).1
  unfolding erase
  erase-IsOrdered a [] h = tt
  erase-IsOrdered a ((b, w) ∷ m) (h, hs) =
      if_cases (λ (r : Bool × List (Address × V)). IsOrdered r.1) (same_key a b) (λ _. hs)
        (λ _. (IsBelow-erase b a m h, erase-IsOrdered a m hs))

  find_below : (a : Address) (m : List (Address × V)) → IsBelow a m → find a m ≡ none
  unfolding find
  find_below a [] h = refl
  find_below a ((b, v) ∷ m) (h, hs) =
      ap (λ x. if not (x || less b a) then some v else find a m) h ∙ find_below a m hs

  -- A look-up after `map[a] = v`.
  pub find-insert :
      (a b : Address) (v : V) (m : List (Address × V))
      → find b (insert a v m) ≡ (if eq b a then some v else find b m)
  unfolding find insert eq less
  find-insert a b v [] = ground arith
  find-insert a b v ((c, w) ∷ m) = ground (arith, find-insert a b v m)

  -- A look-up after an entry was erased.
  pub find-erase :
      (a b : Address) (m : List (Address × V))
      → IsOrdered m
      → find b (erase a m).1 ≡ (if eq b a then none else find b m)
  unfolding find erase eq less
  find-erase a b [] h = ground arith
  find-erase a b ((c, w) ∷ m) (h, hs) = ground (arith, find-erase a b m hs, find_below c m h)

  -- What was put in for a new key is erased without a trace.
  pub erase-insert :
      (a : Address) (v : V) (m : List (Address × V))
      → find a m ≡ none
      → erase a (insert a v m) ≡ (true, m)
  unfolding find erase insert less
  erase-insert a v [] h = ground arith
  erase-insert a v ((b, w) ∷ m) h = ground (arith, erase-insert a v m)

  pub erase-find : (a : Address) (m : List (Address × V)) → (erase a m).0 ≡ is_some (find a m)
  unfolding find erase
  erase-find a [] = refl
  erase-find a ((b, w) ∷ m) = ground (arith, erase-find a m)

  -- An entry in the middle of the map: below the later ones, above the earlier ones.
  pub middle :
      (front back : List (Address × V)) (a : Address) (v : V)
      → IsOrdered (front ++ (a, v) ∷ back)
      → (find a (front ++ (a, v) ∷ back) ≡ some v)
        × (erase a (front ++ (a, v) ∷ back) ≡ (true, front ++ back))
        × ((w : V) → insert a w (front ++ (a, v) ∷ back) ≡ front ++ (a, w) ∷ back)
  unfolding find erase insert
  middle [] back a v h =
      let e = less_irrefl a in (ground (arith, e), ground (arith, e), λ w. ground (arith, e))
  middle ((b, u) ∷ front) back a v (h, hs) =
      let below : less b a ≡ true = in_middle front h in
      let above : less a b ≡ false = less_asym b a below in
      let (f, e, i) = middle front back a v hs in
      (ground (arith, f), ground (arith, e), λ w. ground (arith, i w))
    where
      in_middle : (l : List (Address × V)) → IsBelow b (l ++ (a, v) ∷ back) → less b a ≡ true
      in_middle [] (k, ks) = k
      in_middle (c ∷ l) (k, ks) = in_middle l ks

  pub without-IsOrdered :
      (front back : List (Address × V)) (a : Address) (v : V)
      → IsOrdered (front ++ (a, v) ∷ back)
      → IsOrdered (front ++ back)
  without-IsOrdered front back a v o =
      subst (λ r. IsOrdered r.1) (middle front back a v o).1
        (erase-IsOrdered a (front ++ (a, v) ∷ back) o)

  pub with-IsOrdered :
      (front back : List (Address × V)) (a : Address) (v w : V)
      → IsOrdered (front ++ (a, v) ∷ back)
      → IsOrdered (front ++ (a, w) ∷ back)
  with-IsOrdered front back a v w o =
      subst IsOrdered ((middle front back a v o).2 w)
        (insert-IsOrdered a w (front ++ (a, v) ∷ back) o)
