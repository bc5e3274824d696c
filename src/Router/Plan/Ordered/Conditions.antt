-- ===== src/Router/Plan/Ordered/Conditions.antt =====
-- One condition on the key, at each type of rule.
use kingshard.Prelude.{
  ℤ, pos, ◌+ℤ◌, [], ◌∷◌, IsSorted, refl, ltb_ℤ, Bool, true, false, Bool-cases, inl, inr,
  if◌then◌else◌,
}
use kingshard.Outcome.{ok, ◌>>=◌}
use kingshard.Sqlparser.Ast.{
  BoolExpr, and_expr, or_expr, not_expr, paren_bool_expr, comparison_expr, range_cond, null_check,
  exists_expr, CompareOp, eq, lt, gt, le, ge, ne, nse, in_list, not_in, like, not_like, RangeOp,
  between, not_between, ValExpr,
}
use kingshard.Router.IntList.{make_list, make_between_list}
use kingshard.Router.IntList.Merge.{union_list-union, different_list-difference}
use kingshard.Router.IntList.Slices.{make_le_list-IsSorted, make_ge_list-IsSorted}
use kingshard.Router.IntList.Between.{make_between_list-IsSorted}
use kingshard.Router.Shard.{LocalTime}
use kingshard.Router.Rule.{RuleType, default, hash, range, date_year, date_month, date_day, other}
use kingshard.Router.Plan.Values.{Plan, get_table_index_by_value}
use kingshard.Router.Plan.Tuples.{tuple_groups, get_table_indexs_by_tuple}
use kingshard.Router.Plan.Groups.{sorted_keys-IsSorted, tuple_groups-Distinct}
use kingshard.Router.Plan.Leaves.{
  keep, not_list, adjust_shard_index, table_count, key_index_of, hash_comparison, tables_below,
  tables_above, range_comparison, range_between, dates_below, dates_above, date_comparison,
  date_between,
}
use kingshard.Router.Plan.Criteria.{get_table_indexs}
use kingshard.Router.Plan.Ordered.Rules.{
  Ordered, >>=-Ordered, bind-Ordered, side, then-Ordered, make_list-Ordered,
}

module _ (time : LocalTime) where
  tuple-Ordered : (plan : Plan) (e : ValExpr) → Ordered plan (get_table_indexs_by_tuple time plan e)
  unfolding get_table_indexs_by_tuple
  tuple-Ordered plan e =
      bind-Ordered plan (tuple_groups time plan e) _
        (λ gs q. (sorted_keys-IsSorted gs (tuple_groups-Distinct time plan e gs q), refl, refl))

  abbrev one : (plan : Plan) (i : ℤ) → Ordered plan (keep plan (i ∷ []))
  one plan i = (tt, refl, refl)

  hash-Ordered :
      (plan : Plan) (op : CompareOp) (l r : ValExpr)
      → IsSorted plan.rule.sub_table_indexs
      → IsSorted plan.route_table_indexs
      → Ordered plan (hash_comparison time plan op l r)
  unfolding hash_comparison
  hash-Ordered plan eq l r s t = >>=-Ordered plan (key_index_of time plan l r) _ (one plan)
  hash-Ordered plan nse l r s t = >>=-Ordered plan (key_index_of time plan l r) _ (one plan)
  hash-Ordered plan lt l r s t = (s, refl, refl)
  hash-Ordered plan le l r s t = (s, refl, refl)
  hash-Ordered plan gt l r s t = (s, refl, refl)
  hash-Ordered plan ge l r s t = (s, refl, refl)
  hash-Ordered plan not_in l r s t = (s, refl, refl)
  hash-Ordered plan in_list l r s t = tuple-Ordered plan r
  hash-Ordered plan ne l r s t = (t, refl, refl)
  hash-Ordered plan like l r s t = (t, refl, refl)
  hash-Ordered plan not_like l r s t = (t, refl, refl)

  below-Ordered :
      (plan : Plan) (strict : Bool) (e : ValExpr) → Ordered plan (tables_below time plan strict e)
  unfolding tables_below
  below-Ordered plan strict e = >>=-Ordered plan (get_table_index_by_value time plan e) _ (λ i.
      >>=-Ordered plan (if strict then adjust_shard_index plan e i else ok i) _
        (λ j. make_list-Ordered plan (pos 0) (j +ℤ pos 1) _ (λ l s. (s, refl, refl))))

  above-Ordered : (plan : Plan) (e : ValExpr) → Ordered plan (tables_above time plan e)
  unfolding tables_above
  above-Ordered plan e =
      >>=-Ordered plan (get_table_index_by_value time plan e) _
        (λ i. make_list-Ordered plan i (table_count plan) _ (λ l s. (s, refl, refl)))

  range-Ordered :
      (plan : Plan) (op : CompareOp) (l r : ValExpr)
      → IsSorted plan.rule.sub_table_indexs
      → IsSorted plan.route_table_indexs
      → Ordered plan (range_comparison time plan op l r)
  unfolding range_comparison
  range-Ordered plan eq l r s t = >>=-Ordered plan (key_index_of time plan l r) _ (one plan)
  range-Ordered plan nse l r s t = >>=-Ordered plan (key_index_of time plan l r) _ (one plan)
  range-Ordered plan lt l r s t = side plan l _ _ (below-Ordered plan true r) (above-Ordered plan l)
  range-Ordered plan le l r s t =
      side plan l _ _ (below-Ordered plan false r) (above-Ordered plan l)
  range-Ordered plan gt l r s t = side plan l _ _ (above-Ordered plan r) (below-Ordered plan true l)
  range-Ordered plan ge l r s t =
      side plan l _ _ (above-Ordered plan r) (below-Ordered plan false l)
  range-Ordered plan not_in l r s t = (s, refl, refl)
  range-Ordered plan in_list l r s t = tuple-Ordered plan r
  range-Ordered plan ne l r s t = (t, refl, refl)
  range-Ordered plan like l r s t = (t, refl, refl)
  range-Ordered plan not_like l r s t = (t, refl, refl)

  range_between-Ordered :
      (plan : Plan) (op : RangeOp) (from to : ValExpr)
      → Ordered plan (range_between time plan op from to)
  unfolding range_between
  range_between-Ordered plan between from to =
      >>=-Ordered plan (get_table_index_by_value time plan from) _ (λ start.
        >>=-Ordered plan (get_table_index_by_value time plan to) _
          (λ last. >>=-Ordered' plan start last))
    where
      >>=-Ordered' :
          (plan : Plan) (start last : ℤ)
          → Ordered plan (
              (if ltb_ℤ last start
                then make_list last (start +ℤ pos 1)
                else make_list start (last +ℤ pos 1))
              >>= keep plan)
      >>=-Ordered' plan start last = elim (Bool-cases (ltb_ℤ last start)) [
        | inl e ↦ rw e (make_list-Ordered plan last (start +ℤ pos 1) _ (λ l s. (s, refl, refl)))
        | inr e ↦ rw e (make_list-Ordered plan start (last +ℤ pos 1) _ (λ l s. (s, refl, refl)))
      ]
  range_between-Ordered plan not_between from to =
      >>=-Ordered plan (get_table_index_by_value time plan from) _ (λ start.
        >>=-Ordered plan (get_table_index_by_value time plan to) _ (λ last.
          >>=-Ordered plan
            (if ltb_ℤ last start
              then adjust_shard_index plan to last
              else adjust_shard_index plan from start)
            _
            (λ low. make_list-Ordered plan (pos 0) (low +ℤ pos 1) _ (λ l1 s1.
              make_list-Ordered plan (if ltb_ℤ last start then start else last) (table_count plan) _
                (λ l2 s2. ((union_list-union l1 l2 s1 s2).0, refl, refl))))))

  dates_below-Ordered :
      (plan : Plan) (e : ValExpr)
      → IsSorted plan.rule.sub_table_indexs
      → Ordered plan (dates_below time plan e)
  unfolding dates_below
  dates_below-Ordered plan e s =
      >>=-Ordered plan (get_table_index_by_value time plan e) _
        (λ i. (make_le_list-IsSorted i _ s, refl, refl))

  dates_above-Ordered :
      (plan : Plan) (e : ValExpr)
      → IsSorted plan.rule.sub_table_indexs
      → Ordered plan (dates_above time plan e)
  unfolding dates_above
  dates_above-Ordered plan e s =
      >>=-Ordered plan (get_table_index_by_value time plan e) _
        (λ i. (make_ge_list-IsSorted i _ s, refl, refl))

  date-Ordered :
      (plan : Plan) (op : CompareOp) (l r : ValExpr)
      → IsSorted plan.rule.sub_table_indexs
      → IsSorted plan.route_table_indexs
      → Ordered plan (date_comparison time plan op l r)
  unfolding date_comparison not_list
  date-Ordered plan eq l r s t = >>=-Ordered plan (key_index_of time plan l r) _ (one plan)
  date-Ordered plan nse l r s t = >>=-Ordered plan (key_index_of time plan l r) _ (one plan)
  date-Ordered plan lt l r s t =
      side plan l _ _ (dates_below-Ordered plan r s) (dates_above-Ordered plan l s)
  date-Ordered plan le l r s t =
      side plan l _ _ (dates_below-Ordered plan r s) (dates_above-Ordered plan l s)
  date-Ordered plan gt l r s t =
      side plan l _ _ (dates_above-Ordered plan r s) (dates_below-Ordered plan l s)
  date-Ordered plan ge l r s t =
      side plan l _ _ (dates_above-Ordered plan r s) (dates_below-Ordered plan l s)
  date-Ordered plan in_list l r s t = tuple-Ordered plan r
  date-Ordered plan not_in l r s t =
      then-Ordered plan (get_table_indexs_by_tuple time plan r) _ (tuple-Ordered plan r)
        (λ x p sx e f. ((different_list-difference p.rule.sub_table_indexs x (rw e s) sx).0, e, f))
  date-Ordered plan ne l r s t = (t, refl, refl)
  date-Ordered plan like l r s t = (t, refl, refl)
  date-Ordered plan not_like l r s t = (t, refl, refl)

  between_IsSorted :
      (plan : Plan) (start last : ℤ)
      → IsSorted plan.rule.sub_table_indexs
      → IsSorted (
          if ltb_ℤ last start
          then make_between_list last start plan.rule.sub_table_indexs
          else make_between_list start last plan.rule.sub_table_indexs)
  between_IsSorted plan start last s = elim (Bool-cases (ltb_ℤ last start)) [
    | inl e ↦ rw e (make_between_list-IsSorted last start _ s)
    | inr e ↦ rw e (make_between_list-IsSorted start last _ s)
  ]

  date_between-Ordered :
      (plan : Plan) (op : RangeOp) (from to : ValExpr)
      → IsSorted plan.rule.sub_table_indexs
      → Ordered plan (date_between time plan op from to)
  unfolding date_between not_list
  date_between-Ordered plan between from to s =
      >>=-Ordered plan (get_table_index_by_value time plan from) _ (λ start.
        >>=-Ordered plan (get_table_index_by_value time plan to) _
          (λ last. (between_IsSorted plan start last s, refl, refl)))
  date_between-Ordered plan not_between from to s =
      >>=-Ordered plan (get_table_index_by_value time plan from) _ (λ start.
        >>=-Ordered plan (get_table_index_by_value time plan to) _ (λ last. (
          (different_list-difference plan.rule.sub_table_indexs _ s
              (between_IsSorted plan start last s)).0,
          refl,
          refl,
        )))

  -- A criterion that the leaves are called on.
  abbrev pub OnKey : BoolExpr → Type 0
  OnKey (comparison_expr a op l r) = Unit {0}
  OnKey (range_cond op l f t) = Unit {0}
  OnKey (and_expr l r) = ⊥
  OnKey (or_expr l r) = ⊥
  OnKey (not_expr e) = ⊥
  OnKey (paren_bool_expr e) = ⊥
  OnKey (null_check o e) = ⊥
  OnKey (exists_expr e) = ⊥

  pub get_table_indexs-Ordered :
      (kind : RuleType) (plan : Plan) (e : BoolExpr)
      → OnKey e
      → IsSorted plan.rule.sub_table_indexs
      → IsSorted plan.route_table_indexs
      → Ordered plan (get_table_indexs time kind plan e)
  unfolding get_table_indexs
  get_table_indexs-Ordered hash plan (comparison_expr a op l r) o s t = hash-Ordered plan op l r s t
  get_table_indexs-Ordered hash plan (range_cond op l f u) o s t = (s, refl, refl)
  get_table_indexs-Ordered range plan (comparison_expr a op l r) o s t =
      range-Ordered plan op l r s t
  get_table_indexs-Ordered range plan (range_cond op l f u) o s t =
      range_between-Ordered plan op f u
  get_table_indexs-Ordered date_year plan (comparison_expr a op l r) o s t =
      date-Ordered plan op l r s t
  get_table_indexs-Ordered date_year plan (range_cond op l f u) o s t =
      date_between-Ordered plan op f u s
  get_table_indexs-Ordered date_month plan (comparison_expr a op l r) o s t =
      date-Ordered plan op l r s t
  get_table_indexs-Ordered date_month plan (range_cond op l f u) o s t =
      date_between-Ordered plan op f u s
  get_table_indexs-Ordered date_day plan (comparison_expr a op l r) o s t =
      date-Ordered plan op l r s t
  get_table_indexs-Ordered date_day plan (range_cond op l f u) o s t =
      date_between-Ordered plan op f u s
  get_table_indexs-Ordered default plan e o s t = (s, refl, refl)
  get_table_indexs-Ordered (other n) plan e o s t = (s, refl, refl)
  get_table_indexs-Ordered _ plan (and_expr l r) o s t = absurd o
  get_table_indexs-Ordered _ plan (or_expr l r) o s t = absurd o
  get_table_indexs-Ordered _ plan (not_expr e) o s t = absurd o
  get_table_indexs-Ordered _ plan (paren_bool_expr e) o s t = absurd o
  get_table_indexs-Ordered _ plan (null_check p e) o s t = absurd o
  get_table_indexs-Ordered _ plan (exists_expr e) o s t = absurd o
