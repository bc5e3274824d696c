-- ===== src/Tests/Turns.antt =====
-- The balancer at the weights 2 and 4.
use kingshard.Prelude.{ℕ, ◌≤◌, ℤ, ◌+ℤ◌, pos, List, [], ◌∷◌, length, ◌≡◌, refl, arith, some}
use kingshard.Outcome.{ok}
use kingshard.Backend.Balancer.{
  Node, gcd, minimum, gcd_down, is_common, sum_turns, quot, init_balancer,
}
use kingshard.Backend.Balancer.Gcd.{Common, gcd_greatest}
use kingshard.Backend.Balancer.Queue.{count, turns_at, total_turns, init_balancer_shares}
use kingshard.Backend.Balancer.Turns.{IsValid, serve, serve_round}

abbrev weights : List ℤ
weights = pos 2 ∷ pos 4 ∷ []

abbrev fresh : Node
fresh = record {
  slave = some 11 ∷ some 12 ∷ [];
  last_slave_index = 0;
  round_robin_q = [];
  slave_weights = weights;
}

abbrev ready : Node
ready = record fresh { round_robin_q = 1 ∷ 0 ∷ 1 ∷ [] }

gcd_greatest_example :
    (g : ℕ) × (gcd weights ≡ ok (pos g))
    × (1 ≤ g)
    × Common g weights
    × ((d : ℕ) → Common d weights → d ≤ g)
gcd_greatest_example = gcd_greatest (pos 2) (pos 4 ∷ []) (omega arith)

gcd_of_weights : gcd weights ≡ ok (pos 2)
unfolding gcd minimum gcd_down is_common
gcd_of_weights = refl

init_balancer_shares_example :
    (q : List ℕ) × (init_balancer (1 ∷ 2 ∷ 1 ∷ []) fresh
      ≡ ok (record fresh { last_slave_index = 0; round_robin_q = q }))
    × (length q ≡ total_turns 2 weights)
    × ((i : ℕ) → count i q ≡ turns_at (pos 2) weights i)
unfolding sum_turns ◌+ℤ◌ quot
init_balancer_shares_example =
    init_balancer_shares (1 ∷ 2 ∷ 1 ∷ []) fresh (pos 2) (pos 4 ∷ []) 2 refl (omega arith)
      gcd_of_weights (omega arith)

ready-IsValid : IsValid ready
ready-IsValid = record { in_range = omega arith; next = omega arith }

serve_round_example : serve 3 ready ≡ ok (some 12 ∷ some 11 ∷ some 12 ∷ [], ready)
serve_round_example = serve_round ready ready-IsValid refl
