-- ===== src/Backend/Balancer/Gcd.antt =====
-- `Gcd` returns the greatest common divisor of positive weights.
use kingshard.Prelude.{
  ℕ, zero, suc, ◌%◌, ◌≤◌, ℤ, pos, negsuc, ◌<ℤ◌, List, [], ◌∷◌, In, All, true, false, Bool-cases,
  ◌≡◌, refl, sym, ap, ◌∙◌, ◌⊎◌, inl, inr, arith, ltb,
}
use kingshard.Outcome.{ok}
use kingshard.Backend.Balancer.{abs, is_common, minimum, gcd_down, gcd}

-- `d` leaves no remainder at any weight.
abbrev pub Common : ℕ → List ℤ → Type 0
Common d ws = All (λ w. abs w % d ≡ 0) ws

abbrev pub Positive : List ℤ → Type 0
Positive ws = All (λ w. pos 0 <ℤ w) ws

is_common→Common : (d : ℕ) (ws : List ℤ) → is_common d ws ≡ true → Common d ws
unfolding is_common
is_common→Common d [] h = tt
is_common→Common d (w ∷ ws) h = ground (arith, is_common→Common d ws)

Common-by_test : (d : ℕ) (ws : List ℤ) → Common d ws → is_common d ws ≡ true
unfolding is_common
Common-by_test d [] h = refl
Common-by_test d (w ∷ ws) h = ground (arith, Common-by_test d ws h.1)

Common-one : (ws : List ℤ) → Common 1 ws
Common-one [] = tt
Common-one (w ∷ ws) = (omega arith, Common-one ws)

-- What counting down from `n` arrives at.
abbrev Greatest : ℕ → List ℤ → ℕ → Type 0
Greatest n ws g = (1 ≤ g) × (g ≤ n) × Common g ws × ((d : ℕ) → d ≤ n → Common d ws → d ≤ g)

gcd_down-Greatest :
    (n : ℕ) (ws : List ℤ) → 1 ≤ n → (g : ℕ) × (gcd_down n ws ≡ pos g) × Greatest n ws g
unfolding gcd_down
gcd_down-Greatest zero ws h = elim h [ ]
gcd_down-Greatest (suc n) ws h = elim (Bool-cases (is_common (suc n) ws)) [
  | inl c ↦ (suc n, rw c, (omega arith, omega arith, is_common→Common (suc n) ws c, λ d b k. b))
  | inr c ↦ elim (below n) [
    | inl z ↦ cc (sym c ∙ Common-by_test (suc n) ws (one n z ws))
    | inr b ↦
        let (g, e, (lo, hi, k, top)) = gcd_down-Greatest n ws b in
        (
          g,
          rw (c, not_below n b) e,
          (lo, omega arith, k, λ d db dk. top d (smaller d n ws db dk c) dk),
        )
  ]
]
  where
    below : (n : ℕ) → (n ≡ 0) ⊎ (1 ≤ n)
    below n = omega arith

    not_below : (n : ℕ) → 1 ≤ n → ltb n 1 ≡ false
    not_below n b = ground arith

    one : (n : ℕ) → n ≡ 0 → (ws : List ℤ) → Common (suc n) ws
    one n z ws = rw z (Common-one ws)

    smaller :
        (d n : ℕ) (ws : List ℤ) → d ≤ suc n → Common d ws → is_common (suc n) ws ≡ false → d ≤ n
    smaller d n ws b k c = elim (at_most d n b) [
      | inl e ↦ cc (sym c ∙ Common-by_test (suc n) ws (rw (← e) k))
      | inr l ↦ l
    ]
      where
        at_most : (d n : ℕ) → d ≤ suc n → (d ≡ suc n) ⊎ (d ≤ n)
        at_most d n b = omega arith

minimum-In : (m : ℤ) (ws : List ℤ) → (minimum m ws ≡ m) ⊎ In (minimum m ws) ws
unfolding minimum
minimum-In m [] = inl refl
minimum-In m (w ∷ ws) = ground (arith, minimum-In m ws, minimum-In w ws)

divisor_le : (w : ℤ) (d : ℕ) → pos 0 <ℤ w → abs w % d ≡ 0 → d ≤ abs w
divisor_le w d h e = grind arith

In-All : (P : ℤ → Type 0) (w : ℤ) (ws : List ℤ) → All P ws → In w ws → P w
In-All P w [] a m = absurd m
In-All P w (x ∷ ws) a (inl e) = rw e a.0
In-All P w (x ∷ ws) a (inr m) = In-All P w ws a.1 m

-- For a non-empty list of positive weights `Gcd` returns a positive number that divides every
-- weight, and no number that divides every weight is greater.
pub gcd_greatest :
    (w : ℤ) (ws : List ℤ)
    → Positive (w ∷ ws)
    → (g : ℕ) × (gcd (w ∷ ws) ≡ ok (pos g))
      × (1 ≤ g)
      × Common g (w ∷ ws)
      × ((d : ℕ) → Common d (w ∷ ws) → d ≤ g)
unfolding gcd
gcd_greatest w ws p = at_minimum (minimum w (w ∷ ws)) refl
  where
    member : (z : ℤ) → minimum w (w ∷ ws) ≡ z → In z (w ∷ ws)
    member z e = ground (arith, minimum-In w (w ∷ ws))

    at_minimum :
        (z : ℤ)
        → minimum w (w ∷ ws) ≡ z
        → (g : ℕ) × (gcd (w ∷ ws) ≡ ok (pos g))
          × (1 ≤ g)
          × Common g (w ∷ ws)
          × ((d : ℕ) → Common d (w ∷ ws) → d ≤ g)
    at_minimum (pos zero) e =
        absurd (omega (arith, In-All (λ x. pos 0 <ℤ x) (pos zero) (w ∷ ws) p (member _ e)))
    at_minimum (negsuc n) e =
        absurd (omega (arith, In-All (λ x. pos 0 <ℤ x) (negsuc n) (w ∷ ws) p (member _ e)))
    at_minimum (pos (suc n)) e =
        let (g, q, (lo, hi, k, top)) = gcd_down-Greatest (suc n) (w ∷ ws) (omega arith) in
        (
          g,
          rw (e, gcd) (ap ok q),
          lo,
          k,
          λ d c.
              top d
                (omega (
                  arith,
                  divisor_le (pos (suc n)) d (omega arith)
                      (In-All (λ x. abs x % d ≡ 0) (pos (suc n)) (w ∷ ws) c (member _ e)),
                ))
                c,
        )
