-- ===== src/Router/Plan/Located/Hash.antt =====
-- Hash sharding: the route of every criterion holds the table of every row that satisfies it.
use kingshard.Prelude.{
  ℕ, ◌%◌, ℤ, pos, List, In, IsSorted, ◌≡◌, inl, arith, ◌==◌, Option, none, some, if◌then◌else◌,
}
use kingshard.Outcome.{Panic, ok, err, panic, both_returned}
use kingshard.Sqlparser.Ast.{
  BoolExpr, comparison_expr, range_cond, eq, lt, gt, le, ge, nse, in_list, not_in, val_tuple,
}
use kingshard.Router.Shard.{LocalTime, Key, hash_shard, find_for_key, hash_value}
use kingshard.Router.Rule.{Rule, hash}
use kingshard.Router.Plan.Values.{Plan}
use kingshard.Router.Plan.Leaves.{hash_comparison, key_index_of}
use kingshard.Router.Plan.Criteria.{get_table_indexs, get_table_index_by_bool_expr}
use kingshard.Router.Plan.Meaning.{Meaning, Holds}
use kingshard.Router.Plan.Finds.{Finds, Shaped, bind-Finds, route_complete, EachLeaf-trivial}
use kingshard.Router.Plan.Located.Keys.{Located, key_index, tuple-Finds, list-IsTuple}

-- The value of a key is its 64-bit hash; equal keys have equal values.
abbrev pub hash_of : Key → Option ℤ
hash_of k = elim (hash_value k) [ ok h ↦ some (pos h) | err e ↦ none | panic p ↦ none ]

abbrev pub hash_table : ℕ → ℤ → ℤ
hash_table n (pos h) = pos (h % n)
hash_table n _ = pos 0

in_table :
    (n h : ℕ) (i : ℤ)
    → (if n == 0 then panic Panic.divide_by_zero else ok (pos (h % n))) ≡ ok i
    → i ≡ pos (h % n)
in_table n h i q = ground arith

pub hash-Located :
    (time : LocalTime) (rule : Rule) (n : ℕ) (row : ℤ) (undecided : BoolExpr → Type 0)
    → rule.shard ≡ hash_shard n
    → Located time rule
        (record { row = row; value_of = hash_of; undecided = undecided })
        (hash_table n)
unfolding find_for_key
hash-Located time rule n row undecided e = record { located = λ k i q. find k i (rw e at q) }
  where
    find :
        (k : Key) (i : ℤ)
        → find_for_key time (hash_shard n) k ≡ ok i
        → (w : ℤ) × (hash_of k ≡ some w) × (i ≡ hash_table n w)
    find k i q =
        let (h, eh, ei) = both_returned (hash_value k) _ q in
        (pos h, rw (eh, hash_of), in_table n h i ei)

module _ (time : LocalTime) (plan : Plan) (m : Meaning) (table_of : ℤ → ℤ)
    (loc : Located time plan.rule m table_of)
    (member : In (table_of m.row) plan.rule.sub_table_indexs) where
  hash_leaf :
      (e : BoolExpr)
      → Shaped plan.rule e
      → Holds plan.rule m e
      → Finds (table_of m.row) (get_table_indexs time hash plan e)
  unfolding get_table_indexs hash_comparison
  hash_leaf (comparison_expr a eq l r) s h =
      bind-Finds (table_of m.row) (key_index_of time plan l r) _
        (λ i q. inl (key_index time plan m table_of loc _ l r i s h q))
  hash_leaf (comparison_expr a nse l r) s h =
      bind-Finds (table_of m.row) (key_index_of time plan l r) _
        (λ i q. inl (key_index time plan m table_of loc _ l r i s h q))
  hash_leaf (comparison_expr a lt l r) s h = member
  hash_leaf (comparison_expr a le l r) s h = member
  hash_leaf (comparison_expr a gt l r) s h = member
  hash_leaf (comparison_expr a ge l r) s h = member
  hash_leaf (comparison_expr a not_in l r) s h = member
  hash_leaf (comparison_expr a in_list l (val_tuple es)) s h =
      tuple-Finds time plan m table_of loc _ l es s h
  hash_leaf (comparison_expr a in_list l _) s h = absurd (list-IsTuple plan.rule _ s.1)
  hash_leaf (range_cond op v f u) s h = member
  hash_leaf _ s h = absurd s

-- Hash sharding misses no row. Take a plan for a rule of type hash with `n` tables, whose sub-
-- table indexes and earlier route are sorted, and a row that satisfies the criterion, where
-- literals stand for the 64-bit hashes of their keys and the row's table, its hash modulo `n`, is
-- a sub-table of the rule. If routing returns an index list, the list holds that table.
pub hash_route_complete :
    (time : LocalTime) (plan plan' : Plan) (n : ℕ) (row : ℤ) (undecided : BoolExpr → Type 0)
    (e : BoolExpr) (l : List ℤ)
    → plan.rule.kind ≡ hash
    → plan.rule.shard ≡ hash_shard n
    → IsSorted plan.rule.sub_table_indexs
    → IsSorted plan.route_table_indexs
    → In (hash_table n row) plan.rule.sub_table_indexs
    → Holds plan.rule (record { row = row; value_of = hash_of; undecided = undecided }) e
    → get_table_index_by_bool_expr time e plan ≡ ok (l, plan')
    → In (hash_table n row) l
hash_route_complete time plan plan' n row undecided e l kind shard s u member h r =
    route_complete time meaning (hash_table n row) hash (λ z. z.shard ≡ hash_shard n)
      (λ z x. Unit {0})
      (λ p x q mem sh f hx.
        hash_leaf time p meaning (hash_table n) (hash-Located time p.rule n row undecided q) mem x
          sh hx)
      plan plan' e l kind shard s u member (EachLeaf-trivial e) h r
  where
    meaning : Meaning
    meaning = record { row = row; value_of = hash_of; undecided = undecided }
