-- ===== src/Tests/Lists.antt =====
-- The operations on index lists, and number sharding, at concrete inputs.
use kingshard.Prelude.{
  ℕ, ℤ, ◌+ℤ◌, pos, negsuc, codes, List, [], ◌∷◌, In, IsSorted, ◌≤◌, ◌<◌, ◌/◌, length, ◌≡◌, ◌↔◌, ◌⊎◌,
  refl, arith,
}
use kingshard.Outcome.{ok, err}
use kingshard.Outcome.Error.{key_out_of_range}
use kingshard.Strconv.{checksum_ieee}
use kingshard.Router.Shard.{
  NumKeyRange, sum_ints, parse_num_sharding, find_for_key, num_range_shard, int64,
}
use kingshard.Router.Shard.Ranges.{num_range_lookup}
use kingshard.Router.IntList.{inter_list, union_list, different_list}
use kingshard.Router.IntList.Merge.{
  inter_list-intersection, union_list-union, different_list-difference,
}
use kingshard.Tests.Constants.{utc}

crc_of_digits : checksum_ieee (codes "123456789") ≡ 0xCBF43926
unfolding checksum_ieee
crc_of_digits = refl

abbrev evens : List ℤ
evens = pos 0 ∷ pos 2 ∷ pos 4 ∷ []

abbrev lows : List ℤ
lows = pos 1 ∷ pos 2 ∷ pos 3 ∷ pos 4 ∷ []

evens-IsSorted : IsSorted evens
evens-IsSorted = omega arith

lows-IsSorted : IsSorted lows
lows-IsSorted = omega arith

inter_list-intersection_example :
    IsSorted (inter_list evens lows)
    × ((a : ℤ) → In a (inter_list evens lows) ↔ (In a evens × In a lows))
inter_list-intersection_example = inter_list-intersection evens lows evens-IsSorted lows-IsSorted

union_list-union_example :
    IsSorted (union_list evens lows)
    × ((a : ℤ) → In a (union_list evens lows) ↔ (In a evens ⊎ In a lows))
union_list-union_example = union_list-union evens lows evens-IsSorted lows-IsSorted

different_list-difference_example :
    IsSorted (different_list evens lows)
    × ((a : ℤ) → In a (different_list evens lows) ↔ (In a evens × ¬ In a lows))
different_list-difference_example =
    different_list-difference evens lows evens-IsSorted lows-IsSorted

abbrev two_nodes : List ℤ
two_nodes = pos 2 ∷ pos 2 ∷ []

num_range_lookup_example :
    (shards : List NumKeyRange) × (parse_num_sharding two_nodes (pos 100) ≡ ok shards)
    × (length shards ≡ 4)
    × ((k : ℕ)
        → k < 400
        → (find_for_key utc (num_range_shard shards) (int64 (pos k)) ≡ ok (pos (k / 100)))
          × (k / 100 < 4))
    × ((k : ℕ)
        → 400 ≤ k
        → find_for_key utc (num_range_shard shards) (int64 (pos k)) ≡ err key_out_of_range)
    × ((k : ℕ)
        → find_for_key utc (num_range_shard shards) (int64 (negsuc k)) ≡ err key_out_of_range)
unfolding sum_ints ◌+ℤ◌
num_range_lookup_example = num_range_lookup utc two_nodes 4 100 refl (omega arith)
