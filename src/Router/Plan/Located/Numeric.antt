-- ===== src/Router/Plan/Located/Numeric.antt =====
-- The shard of a rule of type range, as `parse_num_sharding` builds it, follows the order of the
-- keys, so that the routes of such a rule miss no row.
use kingshard.Prelude.{
  ℕ, zero, suc, ◌<◌, ◌≤◌, ◌+◌, ◌-◌, ◌*◌, ◌/◌, ◌^◌, ℤ, pos, negsuc, ◌-ℤ◌, ◌≤ℤ◌, ◌<ℤ◌, -ℤ_parts,
  eqb_ℤ, ltb_ℤ, List, In, IsSorted, length, ◌≡◌, refl, sym, subst, ap, ◌∙◌, ◌⊎◌, inl, inr, arith,
  Option, none, some, if◌then◌else◌,
}
use native.Mathlib.Nat.{zero-add}
use kingshard.Outcome.{Panic, ok, err, panic, both_returned}
use kingshard.Sqlparser.Ast.{BoolExpr}
use kingshard.Router.Shard.{
  LocalTime, Key, num_range_shard, find_for_key, find_range, ranges_from, num_value, index,
  equal_start,
}
use kingshard.Router.Shard.Ranges.{
  nth_range, ranges_from-suc, first_fits, shift, find_range-all, find_range-above,
  find_range-negative,
}
use kingshard.Router.Rule.{Rule, range}
use kingshard.Router.Plan.Values.{Plan}
use kingshard.Router.Plan.Leaves.{adjust_shard, adjust_range}
use kingshard.Router.Plan.Criteria.{get_table_index_by_bool_expr}
use kingshard.Router.Plan.Meaning.{Holds}
use kingshard.Router.Plan.Finds.{EachLeaf}
use kingshard.Router.Plan.Located.Range.{Ranged, InOrder, range_route_complete}

-- A key stands for the integer that `NumValue` reads.
abbrev pub number_of : Key → Option ℤ
number_of k = elim (num_value k) [ ok v ↦ some v | err e ↦ none | panic p ↦ none ]

-- The table of a number; below 0 there is none.
abbrev pub number_table : ℕ → ℤ → ℤ
number_table L (pos k) = pos (k / L)
number_table L (negsuc k) = negsuc 0

number_table_mono : (L : ℕ) (a b : ℤ) → a ≤ℤ b → number_table L a ≤ℤ number_table L b
number_table_mono L (pos a) (pos b) h = omega (arith, div_mono a b L (omega arith))
  where
    div_mono : (a b L : ℕ) → a ≤ b → a / L ≤ b / L
    div_mono a b L h = grind arith
number_table_mono L (negsuc a) (pos b) h = omega arith
number_table_mono L (pos a) (negsuc b) h = absurd (omega arith)
number_table_mono L (negsuc a) (negsuc b) h = omega arith

-- What a successful lookup says of the number.
find_range-ok :
    (n L : ℕ) (v i : ℤ)
    → n * L < 2 ^ 63 - 1
    → find_range 0 v (ranges_from 0 n (pos L)) ≡ ok i
    → (k : ℕ) × (v ≡ pos k) × (i ≡ pos (k / L)) × (k < n * L) × (k / L < n)
find_range-ok n L (negsuc k) i h e = cc (find_range-negative 0 n L k (rw zero-add h))
find_range-ok n L (pos k) i h e = elim (below_or k (n * L)) [
  | inl b ↦ let (f, q) = find_range-all n L k h b in (k, refl, same (sym e ∙ f), b, q)
  | inr b ↦ cc (find_range-above 0 n L k (rw zero-add h) (rw zero-add b))
]
  where
    below_or : (a b : ℕ) → (a < b) ⊎ (b ≤ a)
    below_or a b = omega arith

    same : {a b : ℤ} → ok a ≡ ok b → a ≡ b
    same q = cc

index-ranges :
    (i n j L : ℕ)
    → (i + n) * L < 2 ^ 63 - 1
    → j < n
    → index (ranges_from i n (pos L)) (pos j) ≡ ok (nth_range (i + j) L)
unfolding index
index-ranges i zero j L h b = elim b [ ]
index-ranges i (suc n) zero L h b =
    let fits = first_fits i n L h in
    rw (ranges_from-suc i n L (omega arith)) (ap (λ (z : ℕ). ok (nth_range z L)) (omega arith))
index-ranges i (suc n) (suc j) L h b =
    let fits = first_fits i n L h in
    rw (ranges_from-suc i n L (omega arith)) (
      index-ranges (suc i) n j L (shift i n L _ h) (omega arith)
      ∙ ap (λ (z : ℕ). ok (nth_range z L)) (omega arith))

adjust-ranges :
    (n L w : ℕ) (k : Key)
    → n * L < 2 ^ 63 - 1
    → num_value k ≡ ok (pos w)
    → w / L < n
    → adjust_range (ranges_from 0 n (pos L)) k (pos (w / L)) ≡ (
        if eqb_ℤ (pos (w / L * L)) (pos w)
        then (if ltb_ℤ (pos (w / L) -ℤ pos 1) (pos 0)
            then panic Panic.parser_error
            else ok (pos (w / L) -ℤ pos 1))
        else ok (pos (w / L)))
unfolding adjust_range equal_start
adjust-ranges n L w k h e b = rw (e, index-ranges 0 n (w / L) L (rw zero-add h) b, zero-add)

-- Strictly below a number, no table is past its adjusted index.
adjusted_bound :
    (L w : ℕ) (row j : ℤ)
    → row <ℤ pos w
    → (if eqb_ℤ (pos (w / L * L)) (pos w)
        then (if ltb_ℤ (pos (w / L) -ℤ pos 1) (pos 0)
            then panic Panic.parser_error
            else ok (pos (w / L) -ℤ pos 1))
        else ok (pos (w / L)))
      ≡ ok j
    → number_table L row ≤ℤ j
adjusted_bound L w (negsuc r) j h e = ground (arith, -ℤ_parts (pos (w / L)) (pos 1))
adjusted_bound L w (pos r) j h e = ground (
  arith,
  -ℤ_parts (pos (w / L)) (pos 1),
  less r w L (omega arith),
  number_table_mono L (pos r) (pos w),
)
  where
    less : (r w L : ℕ) → r < w → w / L * L ≡ w → r / L < w / L
    less r w L h e = grind arith

pub numeric-Ranged :
    (time : LocalTime) (rule : Rule) (n L r : ℕ) (undecided : BoolExpr → Type 0)
    → n * L < 2 ^ 63 - 1
    → rule.shard ≡ num_range_shard (ranges_from 0 n (pos L))
    → length rule.sub_table_indexs ≡ n
    → r < n * L
    → Ranged time rule
        (record { row = pos r; value_of = number_of; undecided = undecided })
        (number_table L)
unfolding find_for_key adjust_shard
numeric-Ranged time rule n L r undecided h e len b = record {
  loc = record { located = λ k i q. locate k i (rw e at q) };
  mono = number_table_mono L;
  adjusted = λ k i j w q v a lt. adjust k i j w (rw e at q) v (rw e at a) lt;
  lower = omega arith;
  upper = omega (arith, len, (find_range-all n L r h b).1);
}
  where
    locate :
        (k : Key) (i : ℤ)
        → find_for_key time (num_range_shard (ranges_from 0 n (pos L))) k ≡ ok i
        → (w : ℤ) × (number_of k ≡ some w) × (i ≡ number_table L w)
    locate k i q =
        let (v, ev, f) = both_returned (num_value k) _ q in
        let (w, ew, ei, _, _) = find_range-ok n L v i h f in
        (pos w, rw (ev, number_of) (ap some ew), ei)

    adjust :
        (k : Key) (i j w : ℤ)
        → find_for_key time (num_range_shard (ranges_from 0 n (pos L))) k ≡ ok i
        → number_of k ≡ some w
        → adjust_shard (num_range_shard (ranges_from 0 n (pos L))) k i ≡ ok j
        → pos r <ℤ w
        → number_table L (pos r) ≤ℤ j
    adjust k i j w q nv a lt =
        let (v, ev, f) = both_returned (num_value k) _ q in
        let (u, eu, ei, _, c) = find_range-ok n L v i h f in
        let wv : w ≡ pos u = same (sym (rw (ev, number_of) at nv)) ∙ eu in
        adjusted_bound L u (pos r) j (subst (λ (z : ℤ). pos r <ℤ z) wv lt) (
          sym (adjust-ranges n L u k h (ev ∙ ap ok eu) c)
          ∙ subst (λ (z : ℤ). adjust_range (ranges_from 0 n (pos L)) k z ≡ ok j) ei a)
      where
        same : {a b : ℤ} → some a ≡ some b → a ≡ b
        same q = cc

-- Number sharding misses no row. Take a plan for a rule of type range with the `n` ranges of `L`
-- rows each that number sharding makes, ending below the largest int64, and with `n` sub-tables,
-- whose indexes and earlier route are sorted, and a row with a key `r` below `n * L` that
-- satisfies the criterion, where literals stand for the integers that they are read as, the bounds
-- of every NOT BETWEEN are in order, and the row's table, `r / L`, is a sub-table of the rule. If
-- routing returns an index list, the list holds that table.
pub numeric_route_complete :
    (time : LocalTime) (plan plan' : Plan) (n L r : ℕ) (undecided : BoolExpr → Type 0)
    (e : BoolExpr) (l : List ℤ)
    → plan.rule.kind ≡ range
    → plan.rule.shard ≡ num_range_shard (ranges_from 0 n (pos L))
    → n * L < 2 ^ 63 - 1
    → length plan.rule.sub_table_indexs ≡ n
    → IsSorted plan.rule.sub_table_indexs
    → IsSorted plan.route_table_indexs
    → In (pos (r / L)) plan.rule.sub_table_indexs
    → r < n * L
    → EachLeaf
        (InOrder (record { row = pos r; value_of = number_of; undecided = undecided }) plan.rule)
        e
    → Holds plan.rule (record { row = pos r; value_of = number_of; undecided = undecided }) e
    → get_table_index_by_bool_expr time e plan ≡ ok (l, plan')
    → In (pos (r / L)) l
numeric_route_complete time plan plan' n L r undecided e l kind shard h len s u member b f holds q =
    range_route_complete time plan plan' _ (number_table L) e l kind
      (numeric-Ranged time plan.rule n L r undecided h shard len b) s u member f holds q
