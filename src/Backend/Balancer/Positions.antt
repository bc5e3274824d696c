-- ===== src/Backend/Balancer/Positions.antt =====
-- The queue that the balancer makes of weights holds positions of them.
use kingshard.Prelude.{
  ℕ, zero, suc, ◌+◌, ◌<◌, ◌≤◌, ◌%◌, ℤ, pos, pos_part, List, [], ◌∷◌, All, All-append, length,
  get_elem?, set, replicate, Option, none, some, if_either, ◌≡◌, refl, ◌∙◌, subst, arith, ltb,
  ltb_ℤ,
}
use kingshard.Outcome.{Result, ok, panic, both_returned}
use kingshard.Outcome.Panic.{make_slice_len, index_out_of_range}
use kingshard.Backend.Balancer.{gcd, quot, sum_turns, fill, read, swap, shuffle, mix, build_queue}

abbrev pub Below : ℕ → List ℕ → Type 0
Below n q = All (λ i. i < n) q

Below-mono : (m n : ℕ) (q : List ℕ) → m ≤ n → Below m q → Below n q
Below-mono m n [] h b = tt
Below-mono m n (i ∷ q) h (a, b) = (omega arith, Below-mono m n q h b)

Below-replicate : (n k i : ℕ) → i < n → Below n (replicate k i)
Below-replicate n zero i h = tt
Below-replicate n (suc k) i h = (h, Below-replicate n k i h)

-- The queue holds positions of weights.
Below-fill : (i : ℕ) (g : ℤ) (ws : List ℤ) → Below (i + length ws) (fill i g ws)
unfolding fill
Below-fill i g [] = tt
Below-fill i g (w ∷ ws) =
    All-append (λ k. k < i + suc (length ws)) (replicate (pos_part (quot w g)) i)
      (fill (suc i) g ws)
      (Below-replicate (i + suc (length ws)) (pos_part (quot w g)) i (omega arith))
      (Below-mono (suc i + length ws) (i + suc (length ws)) (fill (suc i) g ws) (omega arith)
        (Below-fill (suc i) g ws))

Below-set : (n : ℕ) (q : List ℕ) (i v : ℕ) → v < n → Below n q → Below n (set q i v)
Below-set n [] i v h b = tt
Below-set n (x ∷ q) zero v h b = (h, b.1)
Below-set n (x ∷ q) (suc i) v h b = (b.0, Below-set n q i v h b.1)

Below-get : (n : ℕ) (q : List ℕ) (i v : ℕ) → get_elem? q i ≡ some v → Below n q → v < n
Below-get n [] i v e b = cc e
Below-get n (x ∷ q) zero v e b = ground (arith, b.0)
Below-get n (x ∷ q) (suc i) v e b = Below-get n q i v e b.1

Below-read : (n : ℕ) (q : List ℕ) (i v : ℕ) → read q i ≡ ok v → Below n q → v < n
unfolding read
Below-read n q i v e b = by_case (get_elem? q i) refl e
  where
    by_case :
        (o : Option ℕ)
        → get_elem? q i ≡ o
        → (elim o as (λ _. Result ℕ) [ none ↦ panic index_out_of_range | some w ↦ ok w ]) ≡ ok v
        → v < n
    by_case none p z = cc z
    by_case (some w) p z = Below-get n q i v (p ∙ cc z) b

pub same : {A : Type 0} {a b : A} → ok a ≡ ok b → a ≡ b
same q = cc

Below-swap : (n sum x : ℕ) (q q' : List ℕ) → swap sum x q ≡ ok q' → Below n q → Below n q'
unfolding swap
Below-swap n sum x q q' e b =
    let (temp, p, e1) = both_returned (read q x) _ e in
    let (moved, p', e2) = both_returned (read q (sum % (x + 1))) _ e1 in
    subst (Below n) (same e2) (
      Below-set n (set q x moved) (sum % (x + 1)) temp (Below-read n q x temp p b)
        (Below-set n q x moved (Below-read n q (sum % (x + 1)) moved p' b) b))

Below-shuffle : (n sum : ℕ) (xs q q' : List ℕ) → shuffle sum xs q ≡ ok q' → Below n q → Below n q'
unfolding shuffle
Below-shuffle n sum [] q q' e b = subst (Below n) (same e) b
Below-shuffle n sum (x ∷ xs) q q' e b =
    let (r, p, e') = both_returned (swap sum x q) _ e in
    Below-shuffle n sum xs r q' e' (Below-swap n sum x q r p b)

Below-mix :
    (n : ℕ) (draws : List ℕ) (ws : List ℤ) (sum : ℕ) (q q' : List ℕ)
    → mix draws ws sum q ≡ ok q'
    → Below n q
    → Below n q'
unfolding mix
Below-mix n draws ws sum q q' e b =
    if_either (λ (r : Result (List ℕ)). r ≡ ok q' → Below n q') (ltb 1 (length ws)) _ _
      (λ t z. Below-shuffle n sum draws q q' z b) (λ f z. subst (Below n) (same z) b) e

pub Below-build_queue :
    (draws : List ℕ) (ws : List ℤ) (q : List ℕ) → build_queue draws ws ≡ ok q → Below (length ws) q
unfolding build_queue
Below-build_queue draws ws q e =
    let (g, p, e') = both_returned (gcd ws) _ e in
    if_either (λ (r : Result (List ℕ)). r ≡ ok q → Below (length ws) q)
      (ltb_ℤ (sum_turns g ws) (pos 0)) (panic make_slice_len)
      (mix draws ws (pos_part (sum_turns g ws)) (fill 0 g ws)) (λ t z. cc z)
      (λ f z.
        Below-mix (length ws) draws ws (pos_part (sum_turns g ws)) (fill 0 g ws) q z
          (Below-mono (0 + length ws) (length ws) (fill 0 g ws) (omega arith) (Below-fill 0 g ws)))
      e'
