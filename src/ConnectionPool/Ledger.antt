-- ===== src/ConnectionPool/Ledger.antt =====
-- Where the pool's connections are: in the pool, in the hands of its clients, or closed.
use x_kbengine.Prelude.{
  ℕ, zero, suc, ◌+◌, ◌-◌, ◌≤◌, ◌<◌, ◌≡◌, refl, sym, ap, subst, ◌∙◌, Bool, none, some, List, [], ◌∷◌,
  ◌++◌, arith, length, ltb, ◌==◌, if◌then◌else◌, Bool-cases, inl, inr, ok, fail, assertion, ◌%◌,
  ◌^◌,
}
use x_kbengine.ConnectionPool.{
  Pool, Connection, init, open_one, initialize, initialize_loop, get, free, drop_connection,
  close_all, destroy,
}

-- The pool with the connections that clients hold.
abbrev pub System : Type 0
System = Pool × List Connection

-- A client gets a connection, or none; or one that is held, at any place, is dropped.
pub data Step : System → System → Type 0 where
  step_get :
      (force : Bool) (p : Pool) (held : List Connection) (c : Connection)
      → (get force p).0 ≡ some c
      → Step (p, held) ((get force p).1, c ∷ held)
  step_refused :
      (force : Bool) (p : Pool) (held : List Connection)
      → (get force p).0 ≡ none
      → Step (p, held) ((get force p).1, held)
  step_drop :
      (p : Pool) (front back : List Connection) (c : Connection)
      → Step (p, front ++ c ∷ back) (drop_connection c p, front ++ back)

-- What a pool, initialised once, and its clients come to.
pub data Reachable (initial max : ℕ) : System → Type 0 where
  started : Reachable initial max (initialize (init initial max), [])
  next : {s t : System} → Reachable initial max s → Step s t → Reachable initial max t

-- The connections that the pool counts among those held.
unfoldable pub lent : List Connection → ℕ
lent [] = 0
lent (c ∷ cs) = if c.force then lent cs else suc (lent cs)

unfoldable pub count : ℕ → List ℕ → ℕ
count n [] = 0
count n (x ∷ xs) = if n == x then suc (count n xs) else count n xs

unfoldable pub count_held : ℕ → List Connection → ℕ
count_held n [] = 0
count_held n (c ∷ cs) = if n == c.connection then suc (count_held n cs) else count_held n cs

-- The count is right and within the limit, and each connection that was opened is in one place.
pub record IsBalanced (s : System) : Type 0 where
  pub counted : s.0.nums ≡ length s.0.connections + lent s.1
  pub bounded : s.0.nums ≤ s.0.max
  pub once :
      (n : ℕ)
      → count n s.0.connections + count_held n s.1 + count n s.0.closed
        ≡ (if ltb n s.0.opened then 1 else 0)

abbrev pool : ℕ → ℕ → ℕ → List ℕ → ℕ → List ℕ → Pool
pool initial max nums l opened closed = record {
  initial = initial;
  max = max;
  nums = nums;
  connections = l;
  opened = opened;
  closed = closed;
}

lent-append :
    (front back : List Connection) (c : Connection)
    → lent (front ++ c ∷ back) ≡ lent (c ∷ front ++ back)
unfolding lent
lent-append [] back c = refl
lent-append (x ∷ front) back c = ground (arith, lent-append front back c)

count_held-append :
    (n : ℕ) (front back : List Connection) (c : Connection)
    → count_held n (front ++ c ∷ back) ≡ count_held n (c ∷ front ++ back)
unfolding count_held
count_held-append n [] back c = refl
count_held-append n (x ∷ front) back c = ground (arith, count_held-append n front back c)

-- `get` on a pool that is written out, so that it computes on the list.
get-IsBalanced :
    (force : Bool) (initial max nums : ℕ) (l : List ℕ) (opened : ℕ) (closed : List ℕ)
    (held : List Connection) (c : Connection)
    → IsBalanced (pool initial max nums l opened closed, held)
    → (get force (pool initial max nums l opened closed)).0 ≡ some c
    → IsBalanced ((get force (pool initial max nums l opened closed)).1, c ∷ held)
unfolding get open_one count count_held lent
get-IsBalanced force initial max nums [] opened closed held c b e = record {
  counted = ground (arith, b.counted, b.bounded);
  bounded = ground (arith, b.counted, b.bounded);
  once = λ n. ground (arith, b.once n);
}
get-IsBalanced force initial max nums (x ∷ l) opened closed held c b e = record {
  counted = ground (arith, b.counted, b.bounded);
  bounded = ground (arith, b.counted, b.bounded);
  once = λ n. ground (arith, b.once n);
}

refused-same :
    (force : Bool) (initial max nums : ℕ) (l : List ℕ) (opened : ℕ) (closed : List ℕ)
    → (get force (pool initial max nums l opened closed)).0 ≡ none
    → (get force (pool initial max nums l opened closed)).1 ≡ pool initial max nums l opened closed
unfolding get open_one
refused-same force initial max nums [] opened closed e = ground arith
refused-same force initial max nums (x ∷ l) opened closed e = cc

drop-IsBalanced :
    (p : Pool) (front back : List Connection) (c : Connection)
    → IsBalanced (p, front ++ c ∷ back)
    → IsBalanced (drop_connection c p, front ++ back)
unfolding drop_connection free count count_held lent
drop-IsBalanced p front back c b = record {
  counted = ground (arith, b.counted, lent-append front back c);
  bounded = ground (arith, b.bounded);
  once = λ n. ground (arith, b.once n, count_held-append n front back c);
}

init-IsBalanced :
    (fuel : ℕ) (p : Pool)
    → p.initial ≤ p.max
    → IsBalanced (p, [])
    → IsBalanced (initialize_loop fuel p, [])
unfolding initialize_loop open_one count count_held lent
init-IsBalanced zero p h b = b
init-IsBalanced (suc fuel) p h b = elim (Bool-cases (ltb p.nums p.initial)) [
  | inl more ↦
      rw (more, initialize_loop)
        (init-IsBalanced fuel (open_one p) h (record {
          counted = ground (arith, b.counted);
          bounded = ground (arith, b.bounded);
          once = λ n. ground (arith, b.once n);
        }))
  | inr full ↦ rw (full, initialize_loop) b
]

-- However clients get and drop connections, forced or not, the pool counts at most its maximum, the count
-- is that of the connections in the pool and of those lent, and each connection that was opened is in
-- exactly one place: in the pool, with one client, or closed. So no two clients hold the same one, and
-- none is lost. Condition: the pool starts with no more connections than its maximum.
pub Reachable-IsBalanced :
    (initial max : ℕ) (s : System) → initial ≤ max → Reachable initial max s → IsBalanced s
unfolding initialize
Reachable-IsBalanced initial max _ h started = init-IsBalanced initial (init initial max) h (
    unfold count count_held lent in
    record { counted = refl; bounded = omega arith; once = λ n. ground arith })
Reachable-IsBalanced initial max _ h (next r (step_get force p held c e)) =
    get-IsBalanced force p.initial p.max p.nums p.connections p.opened p.closed held c
      (Reachable-IsBalanced initial max (p, held) h r) e
Reachable-IsBalanced initial max _ h (next r (step_refused force p held e)) =
    subst (λ q. IsBalanced (q, held))
      (sym (refused-same force p.initial p.max p.nums p.connections p.opened p.closed e))
      (Reachable-IsBalanced initial max (p, held) h r)
Reachable-IsBalanced initial max _ h (next r (step_drop p front back c)) =
    drop-IsBalanced p front back c (Reachable-IsBalanced initial max (p, front ++ c ∷ back) h r)

close_all-nums :
    (l : List ℕ) (p : Pool)
    → length l ≤ p.nums
    → p.nums < 2 ^ 64
    → (close_all l p).nums ≡ p.nums - length l
unfolding close_all
close_all-nums [] p h k = omega arith
close_all-nums (c ∷ cs) p h k =
    let e : (p.nums + 18446744073709551615) % 2 ^ 64 ≡ p.nums - 1 = omega arith in
    close_all-nums cs
      (record p { closed = c ∷ p.closed; nums = (p.nums + 18446744073709551615) % 2 ^ 64 })
      (omega (arith, e)) (omega (arith, e))
    ∙ omega (arith, e)

-- The destructor's assertion holds just if no client holds a connection that is counted; if one does, the
-- destruction of the pool fails it. Conditions: the state is reachable, and the maximum a `size_t`.
pub destroy-lent :
    (initial max : ℕ) (p : Pool) (held : List Connection)
    → initial ≤ max
    → Reachable initial max (p, held)
    → p.max < 2 ^ 64
    → destroy p ≡ (
        if lent held == 0
        then ok (record (close_all p.connections p) { connections = [] })
        else fail assertion)
unfolding destroy
destroy-lent initial max p held h r small =
    let b = Reachable-IsBalanced initial max (p, held) h r in
    let e : (close_all p.connections p).nums ≡ lent held =
      close_all-nums p.connections p (omega (arith, b.counted)) (omega (arith, b.bounded))
      ∙ omega (arith, b.counted) in
    ap
      (λ n.
        if n == 0
        then ok (record (close_all p.connections p) { connections = [] })
        else fail assertion)
      e
