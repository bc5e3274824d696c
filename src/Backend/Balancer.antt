-- ===== src/Backend/Balancer.antt =====
-- The weighted round robin over the slaves of a node: backend/balancer.go.
pub mod Gcd
pub mod Queue
pub mod Turns
pub mod Positions
use kingshard.Prelude.{
  ℕ, zero, suc, ◌+◌, ◌-◌, ◌*◌, ◌/◌, ◌%◌, ◌≤◌, ◌<◌, ℤ, pos, negsuc, ◌+ℤ◌, ◌-ℤ◌, pos_part, neg_part,
  ltb_ℤ, List, [], ◌∷◌, ◌++◌, Bool, true, false, ◌&&◌, if◌then◌else◌, ltb, leb, ◌==◌, length,
  get_elem?, set, replicate, Option, none, some,
}
use kingshard.Outcome.{Result, Error, Panic, ok, err, panic, ◌>>=◌}
use kingshard.Outcome.Error.{no_database}
use kingshard.Outcome.Panic.{index_out_of_range, make_slice_len, divide_by_zero}

abbrev pub abs : ℤ → ℕ
abs a = pos_part a + neg_part a

-- `a % b != 0` is false for all elements: no element leaves a remainder.
unfoldable pub is_common : ℕ → List ℤ → Bool
is_common d [] = true
is_common d (w ∷ ws) = (abs w % d) == 0 && is_common d ws

unfoldable pub minimum : ℤ → List ℤ → ℤ
minimum min [] = min
minimum min (w ∷ ws) = minimum (if ltb_ℤ w min then w else min) ws

-- The loop that counts `min` down, from a positive value.
unfoldable pub gcd_down : ℕ → List ℤ → ℤ
gcd_down zero ws = pos 0
gcd_down (suc n) ws =
    let rest = gcd_down n ws in
    if is_common (suc n) ws then pos (suc n) else if ltb n 1 then pos n else rest

-- `Gcd`, whose first round runs at any minimum: the remainder by 0 panics, and a negative minimum
-- is either common or counted down once.
unfoldable pub gcd : List ℤ → Result ℤ
gcd [] = panic index_out_of_range
gcd (w ∷ ws) = elim (minimum w (w ∷ ws)) [
  | pos zero ↦ panic divide_by_zero
  | pos (suc n) ↦ ok (gcd_down (suc n) (w ∷ ws))
  | negsuc n ↦ if is_common (suc n) (w ∷ ws) then ok (negsuc n) else ok (negsuc n -ℤ pos 1)
]

-- Go's quotient, which rounds towards 0.
unfoldable pub quot : ℤ → ℤ → ℤ
quot (pos a) (pos b) = pos (a / b)
quot (pos a) (negsuc b) = pos 0 -ℤ pos (a / suc b)
quot (negsuc a) (pos b) = pos 0 -ℤ pos (suc a / b)
quot (negsuc a) (negsuc b) = pos (suc a / suc b)

unfoldable pub sum_turns : ℤ → List ℤ → ℤ
unfolding quot
sum_turns g [] = pos 0
sum_turns g (w ∷ ws) = quot w g +ℤ sum_turns g ws

-- Each slave's index, as often as its turns; the weights stand from index `i` on.
unfoldable pub fill : ℕ → ℤ → List ℤ → List ℕ
unfolding quot
fill i g [] = []
fill i g (w ∷ ws) = replicate (pos_part (quot w g)) i ++ fill (suc i) g ws

unfoldable pub read : List ℕ → ℕ → Result ℕ
read q i = elim (get_elem? q i) [ none ↦ panic index_out_of_range | some v ↦ ok v ]

-- One round of the shuffle, for a draw `x` of the random source.
unfoldable pub swap : ℕ → ℕ → List ℕ → Result (List ℕ)
unfolding read
swap sum x q =
    let other = sum % (x + 1) in
    do temp ← read q x; moved ← read q other; ok (set (set q x moved) other temp)

-- The draws of `r.Intn(sum)`, one for each round.
unfoldable pub shuffle : ℕ → List ℕ → List ℕ → Result (List ℕ)
unfolding swap
shuffle sum [] q = ok q
shuffle sum (x ∷ xs) q = do q' ← swap sum x q; shuffle sum xs q'

pub record Node : Type 0 where
  pub slave : List (Option ℕ)
  pub last_slave_index : ℕ
  pub round_robin_q : List ℕ
  pub slave_weights : List ℤ

-- With one slave nothing is shuffled. `rand.Intn` panics unless its argument is positive, which
-- comes up only if the loop runs.
unfoldable pub mix : List ℕ → List ℤ → ℕ → List ℕ → Result (List ℕ)
unfolding shuffle
mix draws weights sum q = if ltb 1 (length weights) then shuffle sum draws q else ok q

-- The queue that `InitBalancer` makes of the weights.
unfoldable pub build_queue : List ℕ → List ℤ → Result (List ℕ)
unfolding sum_turns fill mix
build_queue draws weights = do
  g ← gcd weights
  let sum = sum_turns g weights
  if ltb_ℤ sum (pos 0)
      then panic make_slice_len
      else mix draws weights (pos_part sum) (fill 0 g weights)

unfoldable pub init_balancer : List ℕ → Node → Result Node
unfolding build_queue
init_balancer draws n = do
  q ← build_queue draws n.slave_weights
  ok (record n { last_slave_index = 0; round_robin_q = q })

-- The index that an error leaves reduced is not kept: every later call reduces it again.
abbrev slave_at : Node → ℕ → Result (Option ℕ)
slave_at n i = elim (get_elem? n.slave i) [ none ↦ panic index_out_of_range | some db ↦ ok db ]

unfoldable pub next_of_many : Node → Result (Option ℕ × Node)
unfolding read
next_of_many n =
    let count = length n.round_robin_q in
    let last = n.last_slave_index % count in
    do
      i ← read n.round_robin_q last
      if leb (length n.slave) i
          then err no_database
          else (slave_at n i >>= λ db. ok (db, record n { last_slave_index = (last + 1) % count }))

unfoldable pub get_next_slave : Node → Result (Option ℕ × Node)
unfolding next_of_many read
get_next_slave n =
    if length n.round_robin_q == 0
    then err no_database
    else if length n.round_robin_q == 1
    then (read n.round_robin_q 0 >>= λ i. slave_at n i >>= λ db. ok (db, n))
    else next_of_many n
