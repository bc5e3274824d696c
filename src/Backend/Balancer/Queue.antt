-- ===== src/Backend/Balancer/Queue.antt =====
-- `InitBalancer` gives every slave its share of the turns, whatever the random draws are.
use kingshard.Prelude.{
  ℕ, zero, suc, ◌+◌, ◌/◌, ◌%◌, ◌<◌, ℤ, pos, negsuc, +ℤ_parts, eq_of_parts, pos_part, ltb_ℤ, List,
  [], ◌∷◌, ◌++◌, All, Bool-cases, ◌≡◌, refl, ap, ◌∙◌, inl, inr, arith, if◌then◌else◌, ltb, ◌==◌,
  length, length-append, length-replicate, length-set, get_elem?, get_elem?_of_lt, set, replicate,
  some,
}
use kingshard.Outcome.{Panic, ok, panic}
use kingshard.Backend.Balancer.{
  gcd, quot, sum_turns, fill, read, swap, shuffle, mix, build_queue, Node, init_balancer,
}
use kingshard.Backend.Balancer.Gcd.{Positive}

-- How often an index stands in the queue.
unfoldable pub count : ℕ → List ℕ → ℕ
count i [] = 0
count i (j ∷ js) = (if j == i then 1 else 0) + count i js

count-append : (i : ℕ) (xs ys : List ℕ) → count i (xs ++ ys) ≡ count i xs + count i ys
unfolding count
count-append i [] ys = omega arith
count-append i (x ∷ xs) ys = omega (arith, count-append i xs ys)

count-replicate : (i j n : ℕ) → count i (replicate n j) ≡ (if j == i then n else 0)
unfolding count
count-replicate i j zero = ground arith
count-replicate i j (suc n) = ground (arith, count-replicate i j n)

-- A write takes one element out and puts one in.
count-set :
    (k i v old : ℕ) (q : List ℕ)
    → get_elem? q i ≡ some old
    → count k (set q i v) + (if old == k then 1 else 0) ≡ count k q + (if v == k then 1 else 0)
unfolding count
count-set k i v old [] e = cc
count-set k zero v old (x ∷ q) e = ground arith
count-set k (suc i) v old (x ∷ q) e = omega (arith, count-set k i v old q e)

-- Writing the value that stands at another position leaves that position alone.
get_elem?-set_same :
    (q : List ℕ) (i j v : ℕ) → get_elem? q j ≡ some v → get_elem? (set q i v) j ≡ some v
get_elem?-set_same [] i j v e = e
get_elem?-set_same (x ∷ q) zero zero v e = refl
get_elem?-set_same (x ∷ q) zero (suc j) v e = e
get_elem?-set_same (x ∷ q) (suc i) zero v e = e
get_elem?-set_same (x ∷ q) (suc i) (suc j) v e = get_elem?-set_same q i j v e

swapped : (q : List ℕ) (x y a b : ℕ) → List ℕ
swapped q x y a b = set (set q x b) y a

count-swapped :
    (k x y a b : ℕ) (q : List ℕ)
    → get_elem? q x ≡ some a
    → get_elem? q y ≡ some b
    → count k (swapped q x y a b) ≡ count k q
unfolding swapped
count-swapped k x y a b q ea eb =
    omega
      (arith, count-set k x b a q ea, count-set k y a b (set q x b) (get_elem?-set_same q x y b eb))

-- A round whose draw is below the number of turns swaps two elements.
swap-swapped :
    (n x : ℕ) (q : List ℕ)
    → length q ≡ n
    → x < n
    → (y a b : ℕ) × (get_elem? q x ≡ some a)
      × (get_elem? q y ≡ some b)
      × (swap n x q ≡ ok (swapped q x y a b))
unfolding swap swapped read
swap-swapped n x q e h =
    let y : ℕ = n % (x + 1) in
    let (a, ea) = get_elem?_of_lt q x (omega arith) in
    let (b, eb) = get_elem?_of_lt q y (omega arith) in
    (y, a, b, ea, eb, rw (ea, swap, read) (rw (eb, swap, read) refl))

shuffle-count :
    (draws q : List ℕ) (n : ℕ)
    → length q ≡ n
    → All (λ x. x < n) draws
    → (q' : List ℕ) × (shuffle n draws q ≡ ok q')
      × (length q' ≡ n)
      × ((k : ℕ) → count k q' ≡ count k q)
unfolding shuffle
shuffle-count [] q n e h = (q, refl, e, λ k. refl)
shuffle-count (x ∷ xs) q n e h =
    let (y, a, b, ea, eb, es) = swap-swapped n x q e h.0 in
    let (q', e', l, c) = shuffle-count xs (swapped q x y a b) n (len x y a b) h.1 in
    (q', rw es e', l, λ k. c k ∙ count-swapped k x y a b q ea eb)
  where
    len : (x y a b : ℕ) → length (swapped q x y a b) ≡ n
    len x y a b = unfold swapped in length-set (set q x b) y a ∙ length-set q x b ∙ e

-- The queue before the shuffle, in terms of the turns of each weight.
turns : ℤ → ℤ → ℕ
unfolding quot
turns g w = pos_part (quot w g)

-- The turns of the slave at a position: 0 past the end.
unfoldable pub turns_at : ℤ → List ℤ → ℕ → ℕ
unfolding turns
turns_at g [] i = 0
turns_at g (w ∷ ws) zero = turns g w
turns_at g (w ∷ ws) (suc i) = turns_at g ws i

count-fill : (g : ℤ) (ws : List ℤ) (s i : ℕ) → count (s + i) (fill s g ws) ≡ turns_at g ws i
unfolding fill turns_at count
count-fill g [] s i = refl
count-fill g (w ∷ ws) s zero = omega (
  arith,
  count-append (s + 0) (replicate (pos_part (quot w g)) s) (fill (suc s) g ws),
  self (s + 0) s (pos_part (quot w g)) (omega arith),
  absent g ws (suc s) (s + 0) (omega arith),
)
  where
    self : (k j n : ℕ) → j ≡ k → count k (replicate n j) ≡ n
    self k j n e = count-replicate k j n ∙ ground arith

    absent : (g : ℤ) (ws : List ℤ) (s k : ℕ) → k < s → count k (fill s g ws) ≡ 0
    absent g [] s k h = refl
    absent g (w ∷ ws) s k h = ground (
      arith,
      count-append k (replicate (pos_part (quot w g)) s) (fill (suc s) g ws),
      count-replicate k s (pos_part (quot w g)),
      absent g ws (suc s) k,
    )
count-fill g (w ∷ ws) s (suc i) = omega (
  arith,
  count-append (s + suc i) (replicate (pos_part (quot w g)) s) (fill (suc s) g ws),
  other (s + suc i) s (pos_part (quot w g)) (omega arith),
  ap (λ (k : ℕ). count k (fill (suc s) g ws)) (next s i),
  count-fill g ws (suc s) i,
)
  where
    other : (k j n : ℕ) → j < k → count k (replicate n j) ≡ 0
    other k j n e = count-replicate k j n ∙ ground arith

    next : (s i : ℕ) → s + suc i ≡ suc s + i
    next s i = omega arith

-- The total is the length of the queue, and is not negative.
length-fill :
    (g : ℕ) (ws : List ℤ) (s : ℕ)
    → Positive ws
    → sum_turns (pos g) ws ≡ pos (length (fill s (pos g) ws))
unfolding sum_turns fill
length-fill g [] s p = refl
length-fill g (pos w ∷ ws) s p = rw (length-fill g ws (suc s) p.1) (
    eq_of_parts _ _ (
      omega (
        arith,
        +ℤ_parts (pos (w / g)) (pos (length (fill (suc s) (pos g) ws))),
        length-append (replicate (w / g) s) (fill (suc s) (pos g) ws),
        length-replicate (w / g) s,
      )))
length-fill g (negsuc w ∷ ws) s p = absurd (omega arith)

mix-count :
    (draws : List ℕ) (ws : List ℤ) (q : List ℕ) (n : ℕ)
    → length q ≡ n
    → All (λ x. x < n) draws
    → (q' : List ℕ) × (mix draws ws n q ≡ ok q')
      × (length q' ≡ n)
      × ((k : ℕ) → count k q' ≡ count k q)
unfolding mix
mix-count draws ws q n e h = elim (Bool-cases (ltb 1 (length ws))) [
  | inl many ↦ rw many (shuffle-count draws q n e h)
  | inr few ↦ rw few (q, refl, e, λ k. refl)
]

-- The number of turns that positive weights come to under their greatest common divisor `g`.
abbrev pub total_turns : ℕ → List ℤ → ℕ
total_turns g ws = pos_part (sum_turns (pos g) ws)

-- With positive weights whose greatest common divisor is `g`, and random draws below the number of
-- turns, `InitBalancer` succeeds: it starts at the first turn, the queue is as long as the turns add
-- up to, and the slave at each position stands in it as often as its weight divided by `g`.
pub init_balancer_shares :
    (draws : List ℕ) (n : Node) (w : ℤ) (ws : List ℤ) (g : ℕ)
    → n.slave_weights ≡ w ∷ ws
    → Positive (w ∷ ws)
    → gcd (w ∷ ws) ≡ ok (pos g)
    → All (λ x. x < total_turns g (w ∷ ws)) draws
    → (q : List ℕ) × (init_balancer draws n
        ≡ ok (record n { last_slave_index = 0; round_robin_q = q }))
      × (length q ≡ total_turns g (w ∷ ws))
      × ((i : ℕ) → count i q ≡ turns_at (pos g) (w ∷ ws) i)
unfolding init_balancer
init_balancer_shares draws n w ws g e p eg h =
    let len = length-fill g (w ∷ ws) 0 p in
    let (q, em, l, c) =
      mix-count draws (w ∷ ws) (fill 0 (pos g) (w ∷ ws)) (total_turns g (w ∷ ws))
        (omega (arith, ap pos_part len)) h in
    (q, rw (e, init_balancer) (rw (built q em len) refl), l, λ i. c i ∙ start i)
  where
    start : (i : ℕ) → count i (fill 0 (pos g) (w ∷ ws)) ≡ turns_at (pos g) (w ∷ ws) i
    start i =
        ap (λ (k : ℕ). count k (fill 0 (pos g) (w ∷ ws))) (omega arith)
        ∙ count-fill (pos g) (w ∷ ws) 0 i

    enough :
        (vs : List ℤ) (q : List ℕ)
        → sum_turns (pos g) vs ≡ pos (length (fill 0 (pos g) vs))
        → mix draws vs (pos_part (sum_turns (pos g) vs)) (fill 0 (pos g) vs) ≡ ok q
        → (if ltb_ℤ (sum_turns (pos g) vs) (pos 0)
            then panic Panic.make_slice_len
            else mix draws vs (pos_part (sum_turns (pos g) vs)) (fill 0 (pos g) vs))
          ≡ ok q
    enough vs q len em = ground arith

    built :
        (q : List ℕ)
        → mix draws (w ∷ ws) (total_turns g (w ∷ ws)) (fill 0 (pos g) (w ∷ ws)) ≡ ok q
        → sum_turns (pos g) (w ∷ ws) ≡ pos (length (fill 0 (pos g) (w ∷ ws)))
        → build_queue draws (w ∷ ws) ≡ ok q
    built q em len = unfold build_queue in rw eg (enough (w ∷ ws) q len em)
