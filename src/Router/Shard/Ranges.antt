-- ===== src/Router/Shard/Ranges.antt =====
-- The ranges that `parse_num_sharding` lays out, and the shard that a key falls in.
use kingshard.Prelude.{
  ℕ, zero, suc, ◌+◌, ◌*◌, ◌/◌, ◌-◌, ◌^◌, ◌≤◌, ◌<◌, ℤ, pos, negsuc, ◌*ℤ◌, wrap_i64, wrap_i64_id,
  List, ◌∷◌, ◌≡◌, refl, ap, arith, false, Bool-cases, inl, inr, ltb, ltb→lt, if◌then◌else◌, length,
}
use native.Mathlib.Nat.{zero-add}
use kingshard.Outcome.{ok, err}
use kingshard.Outcome.Error.{key_out_of_range}
use kingshard.Router.Shard.{
  NumKeyRange, find_range, ranges_from, sum_ints, parse_num_sharding, find_for_key, LocalTime,
  int64, num_range_shard, num_value,
}

bound : (i L : ℕ) → i * L < 2 ^ 63 → wrap_i64 (pos i *ℤ pos L) ≡ pos (i * L)
bound i L h = rw (product i L) (wrap_i64_id (pos (i * L)) (h, omega arith))
  where
    product : (a b : ℕ) → pos a *ℤ pos b ≡ pos (a * b)
    product a b = unfold ◌*ℤ◌ in ground arith

-- The range number `i`.
abbrev pub nth_range : ℕ → ℕ → NumKeyRange
nth_range i L = record { start = pos (i * L); end = pos (suc i * L) }

pub ranges_from-suc :
    (i n L : ℕ)
    → suc i * L < 2 ^ 63
    → ranges_from i (suc n) (pos L) ≡ nth_range i L ∷ ranges_from (suc i) n (pos L)
unfolding ranges_from
ranges_from-suc i n L h = rw (bound i L (grind arith), bound (suc i) L h)

pub length-ranges_from : (i n : ℕ) (L : ℤ) → length (ranges_from i n L) ≡ n
unfolding ranges_from
length-ranges_from i zero L = refl
length-ranges_from i (suc n) L = ap suc (length-ranges_from (suc i) n L)

pub first_fits : (i n L : ℕ) → (i + suc n) * L < 2 ^ 63 - 1 → suc i * L < 2 ^ 63 - 1
first_fits i n L h = grind arith

pub shift : (i n L b : ℕ) → (i + suc n) * L < b → (suc i + n) * L < b
shift i n L b h = rw (same i n) at h
  where
    same : (a c : ℕ) → a + suc c ≡ suc a + c
    same a c = omega arith

shift' : (i n L k : ℕ) → k < (i + suc n) * L → k < (suc i + n) * L
shift' i n L k h = grind arith

unshift : (i n L k : ℕ) → (i + suc n) * L ≤ k → (suc i + n) * L ≤ k
unshift i n L k h = grind arith

leb_false : (k b : ℕ) → b ≤ k → ltb k b ≡ false
leb_false k b h = ground arith

-- One turn of the loop, at a range that ends below the largest int64.
find_range-step :
    (i L k : ℕ) (rs : List NumKeyRange)
    → suc i * L < 2 ^ 63 - 1
    → i * L ≤ k
    → find_range i (pos k) (nth_range i L ∷ rs)
      ≡ (if ltb k (suc i * L) then ok (pos i) else find_range (suc i) (pos k) rs)
unfolding find_range
find_range-step i L k rs h lo = ground arith

pub find_range-inside :
    (i n L k : ℕ)
    → (i + n) * L < 2 ^ 63 - 1
    → i * L ≤ k
    → k < (i + n) * L
    → (j : ℕ) × (find_range i (pos k) (ranges_from i n (pos L)) ≡ ok (pos j))
      × (j * L ≤ k)
      × (k < suc j * L)
      × (j < i + n)
find_range-inside i zero L k h lo hi = absurd (grind arith)
find_range-inside i (suc n) L k h lo hi =
    let fits = first_fits i n L h in
    rw (ranges_from-suc i n L (omega arith), find_range-step i L k _ fits lo)
      (elim (Bool-cases (ltb k (suc i * L))) [
        | inl here ↦ (i, rw here, lo, ltb→lt _ _ here, omega arith)
        | inr later ↦
            let (j, e, l, u, b) =
              find_range-inside (suc i) n L k (shift i n L _ h) (ground arith)
                (shift' i n L k hi) in
            (j, rw later e, l, u, omega arith)
      ])

-- At and above the end of the last range the loop finds nothing.
pub find_range-above :
    (i n L k : ℕ)
    → (i + n) * L < 2 ^ 63 - 1
    → (i + n) * L ≤ k
    → find_range i (pos k) (ranges_from i n (pos L)) ≡ err key_out_of_range
find_range-above i zero L k h lo = unfold find_range ranges_from in refl
find_range-above i (suc n) L k h lo =
    let fits = first_fits i n L h in
    rw
      (
        ranges_from-suc i n L (omega arith),
        find_range-step i L k _ fits (grind arith),
        leb_false k (suc i * L) (grind arith),
      )
      (find_range-above (suc i) n L k (shift i n L _ h) (unshift i n L k lo))

pub find_range-negative :
    (i n L k : ℕ)
    → (i + n) * L < 2 ^ 63 - 1
    → find_range i (negsuc k) (ranges_from i n (pos L)) ≡ err key_out_of_range
unfolding find_range
find_range-negative i zero L k h = unfold ranges_from in refl
find_range-negative i (suc n) L k h =
    let fits = first_fits i n L h in
    rw (ranges_from-suc i n L (omega arith))
      (ground (arith, find_range-negative (suc i) n L k (shift i n L _ h)))

-- The quotient is the one multiple that a number lies behind.
pub div_unique : (j k L : ℕ) → j * L ≤ k → k < suc j * L → j ≡ k / L
div_unique j k L lo hi = grind arith

-- The loop over all the ranges.
pub find_range-all :
    (n L k : ℕ)
    → n * L < 2 ^ 63 - 1
    → k < n * L
    → (find_range 0 (pos k) (ranges_from 0 n (pos L)) ≡ ok (pos (k / L))) × (k / L < n)
find_range-all n L k h hi =
    let (j, e, l, u, b) =
      find_range-inside 0 n L k (rw zero-add h) (omega arith) (rw zero-add hi) in
    let d = div_unique j k L l u in (rw (← d) e, omega (arith, d, b))

-- Number sharding. For locations that add up to `count` tables and a limit of `limit` rows a table,
-- where the tables end below the largest int64, `ParseNumSharding` returns `count` ranges; a key
-- from 0 below `count * limit` is found in the table of its quotient by the limit, a table that
-- exists; and every other int64 key is reported as out of range.
pub num_range_lookup :
    (time : LocalTime) (locations : List ℤ) (count limit : ℕ)
    → sum_ints locations ≡ pos count
    → count * limit < 2 ^ 63 - 1
    → (shards : List NumKeyRange) × (parse_num_sharding locations (pos limit) ≡ ok shards)
      × (length shards ≡ count)
      × ((k : ℕ)
          → k < count * limit
          → (find_for_key time (num_range_shard shards) (int64 (pos k)) ≡ ok (pos (k / limit)))
            × (k / limit < count))
      × ((k : ℕ)
          → count * limit ≤ k
          → find_for_key time (num_range_shard shards) (int64 (pos k)) ≡ err key_out_of_range)
      × ((k : ℕ)
          → find_for_key time (num_range_shard shards) (int64 (negsuc k)) ≡ err key_out_of_range)
unfolding parse_num_sharding find_for_key num_value
num_range_lookup time locations count limit e h = (
  ranges_from 0 count (pos limit),
  ground arith,
  length-ranges_from 0 count (pos limit),
  λ k b. find_range-all count limit k h b,
  λ k b. find_range-above 0 count limit k (rw zero-add h) (rw zero-add b),
  λ k. find_range-negative 0 count limit k (rw zero-add h),
)
