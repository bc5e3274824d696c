-- ===== src/Router/Rewrite/Recorded.antt =====
-- The IN list that routing remembers is a node of the criterion, and the groups that it leaves are
-- those of its values.
use kingshard.Prelude.{
  ℕ, ℤ, List, [], ◌∷◌, ◌≡◌, refl, sym, ap, ◌∙◌, subst, Bool, true, ◌&&◌, ◌||◌, Option, none, some,
  if_either, arith,
}
use kingshard.Outcome.{Result, ok, err, panic, ◌>>=◌}
use kingshard.Sqlparser.Ast.{
  BoolExpr, and_expr, or_expr, not_expr, paren_bool_expr, comparison_expr, range_cond, null_check,
  exists_expr, CompareOp, eq, lt, gt, le, ge, ne, nse, in_list, not_in, like, not_like, ValExpr,
  ValExprs, val_tuple, nil, cons, RangeOp,
}
use kingshard.Router.IntList.{inter_list, union_list}
use kingshard.Router.Shard.{LocalTime}
use kingshard.Router.Rule.{Rule, RuleType, hash, find_table_index}
use kingshard.Router.Plan.Values.{Plan, get_value_type, get_bound_value, get_table_index_by_value}
use kingshard.Router.Plan.Tuples.{
  Groups, add_value, group_values, tuple_groups, get_table_indexs_by_tuple,
}
use kingshard.Router.Plan.Leaves.{
  keep, is_eid, is_list, is_literal, get_hash_shard_table_index, hash_comparison, key_index_of,
}
use kingshard.Router.Plan.Criteria.{
  get_table_indexs, route_compared, route_listed, route_comparison, route_range,
  get_table_index_by_bool_expr,
}
use kingshard.Router.Plan.Finds.{EachLeaf, Listed}

-- The store of the tree: the comparison at an address.
abbrev pub Store : Type 0
Store = ℕ → CompareOp × ValExpr × ValExpr

-- Every comparison of a criterion is the one at its address.
abbrev pub IsStored : Store → BoolExpr → Type 0
IsStored store (comparison_expr a op l r) = store a ≡ (op, l, r)
IsStored store _ = Unit {0}

-- An IN list on the key, with its groups.
abbrev pub Grouped : LocalTime → Rule → CompareOp → ValExpr → ValExpr → Groups → Type 0
Grouped time rule op l r gs =
    (op ≡ in_list)
    × Listed rule l r
    × ((plan : Plan) → plan.rule ≡ rule → tuple_groups time plan r ≡ ok gs)

abbrev pub RecordedAt : LocalTime → Store → Rule → Groups → Option ℕ → Type 0
RecordedAt time store rule gs none = Unit {0}
RecordedAt time store rule gs (some a) = let (op, l, r) = store a in Grouped time rule op l r gs

abbrev pub Recorded : LocalTime → Store → Plan → Type 0
Recorded time store plan =
    RecordedAt time store plan.rule plan.sub_table_value_groups plan.in_right_to_replace

both_true : (a b : Bool) → (a && b) ≡ true → (a ≡ true) × (b ≡ true)
both_true a b h = ground arith

bind_same :
    {A B : Type 0} (m : Result A) (f g : A → Result B)
    → ((a : A) → f a ≡ g a)
    → (m >>= f) ≡ (m >>= g)
bind_same (ok a) f g h = h a
bind_same (err why) f g h = refl
bind_same (panic why) f g h = refl

value-rule :
    (time : LocalTime) (p q : Plan) (e : ValExpr)
    → p.rule ≡ q.rule
    → get_table_index_by_value time p e ≡ get_table_index_by_value time q e
unfolding get_table_index_by_value
value-rule time p q e same =
    ap (λ (z : Rule). get_bound_value e >>= λ k. find_table_index time z k) same

-- The groups of a tuple depend on the rule of the plan alone.
pub group_values-rule :
    (time : LocalTime) (p q : Plan) (es : ValExprs) (gs : Groups)
    → p.rule ≡ q.rule
    → group_values time p es gs ≡ group_values time q es gs
unfolding group_values
group_values-rule time p q nil gs e = refl
group_values-rule time p q (cons n ns) gs e =
    ap (λ (m : Result ℤ). m >>= λ i. group_values time p ns (add_value i n gs))
      (value-rule time p q n e)
    ∙ bind_same (get_table_index_by_value time q n) _ _
        (λ i. group_values-rule time p q ns (add_value i n gs) e)

tuple_groups-rule :
    (time : LocalTime) (p q : Plan) (r : ValExpr)
    → p.rule ≡ q.rule
    → tuple_groups time p r ≡ tuple_groups time q r
unfolding tuple_groups
tuple_groups-rule time p q (val_tuple es) e = group_values-rule time p q es [] e
tuple_groups-rule time p q _ e = refl

module _ (time : LocalTime) (store : Store) where
  -- Where a route returns, it keeps the rule and what is recorded.
  abbrev Keeps : Rule → Result (List ℤ × Plan) → Type 0
  Keeps rule (ok (l, p)) = (p.rule ≡ rule) × Recorded time store p
  Keeps rule (err why) = Unit {0}
  Keeps rule (panic why) = Unit {0}

  bind-Keeps :
      {A : Type 0} (rule : Rule) (m : Result A) (f : A → Result (List ℤ × Plan))
      → ((a : A) → m ≡ ok a → Keeps rule (f a))
      → Keeps rule (m >>= f)
  bind-Keeps rule (ok a) f h = h a refl
  bind-Keeps rule (err why) f h = tt
  bind-Keeps rule (panic why) f h = tt

  two-Keeps :
      (rule : Rule) (m : Result (List ℤ × Plan)) (f : Plan → Result (List ℤ × Plan))
      (join : List ℤ → List ℤ → List ℤ)
      → Keeps rule m
      → ((p : Plan) → p.rule ≡ rule → Recorded time store p → Keeps rule (f p))
      → Keeps rule (m >>= λ (x, p). f p >>= λ (y, q). keep q (join x y))
  two-Keeps rule (ok (x, p)) f join k h = joined (f p) (h p k.0 k.1)
    where
      joined :
          (n : Result (List ℤ × Plan))
          → Keeps rule n
          → Keeps rule (n >>= λ (y, q). keep q (join x y))
      joined (ok (y, q)) g = g
      joined (err why) g = tt
      joined (panic why) g = tt
  two-Keeps rule (err why) f join k h = tt
  two-Keeps rule (panic why) f join k h = tt

  module _ (plan : Plan) (kind : plan.rule.kind ≡ hash) (rec : Recorded time store plan) where
    kept : (l : List ℤ) → Keeps plan.rule (keep plan l)
    kept l = (refl, rec)

    found_key :
        (l r : ValExpr) → Keeps plan.rule (do i ← key_index_of time plan l r; keep plan (i ∷ []))
    found_key l r = bind-Keeps plan.rule (key_index_of time plan l r) _ (λ i q. kept (i ∷ []))

    at_hash :
        (e : BoolExpr)
        → Keeps plan.rule (get_table_indexs time hash plan e)
        → Keeps plan.rule (get_table_indexs time plan.rule.kind plan e)
    at_hash e k =
        subst (λ (z : RuleType). Keeps plan.rule (get_table_indexs time z plan e)) (sym kind) k

    compared-Keeps :
        (a : ℕ) (op : CompareOp) (l r : ValExpr)
        → Keeps plan.rule (get_table_indexs time hash plan (comparison_expr a op l r))
        → Keeps plan.rule (route_compared time plan a op l r)
    unfolding route_compared
    compared-Keeps a op l r k =
        if_either (Keeps plan.rule)
          (is_eid (get_value_type plan.rule l) && is_literal (get_value_type plan.rule r)
            || is_literal (get_value_type plan.rule l) && is_eid (get_value_type plan.rule r))
          (get_table_indexs time plan.rule.kind plan (comparison_expr a op l r))
          (keep plan plan.rule.sub_table_indexs) (λ t. at_hash (comparison_expr a op l r) k)
          (λ f. kept plan.rule.sub_table_indexs)

    range-Keeps :
        (op : RangeOp) (e from to : ValExpr) → Keeps plan.rule (route_range time plan op e from to)
    unfolding route_range get_table_indexs get_hash_shard_table_index
    range-Keeps op e from to =
        if_either (Keeps plan.rule)
          (is_eid (get_value_type plan.rule e)
            && (is_literal (get_value_type plan.rule from)
                && is_literal (get_value_type plan.rule to)))
          (get_table_indexs time plan.rule.kind plan (range_cond op e from to))
          (keep plan plan.rule.sub_table_indexs)
          (λ t. at_hash (range_cond op e from to) (kept plan.rule.sub_table_indexs))
          (λ f. kept plan.rule.sub_table_indexs)

    not_listed-Keeps :
        (a : ℕ) (l r : ValExpr)
        → Keeps plan.rule (route_listed time plan plan.in_right_to_replace a not_in l r)
    unfolding route_listed get_table_indexs hash_comparison
    not_listed-Keeps a l r =
        if_either (Keeps plan.rule)
          (is_eid (get_value_type plan.rule l) && is_list (get_value_type plan.rule r))
          (get_table_indexs time plan.rule.kind plan (comparison_expr a not_in l r))
          (keep plan plan.rule.sub_table_indexs)
          (λ t. at_hash (comparison_expr a not_in l r) (kept plan.rule.sub_table_indexs))
          (λ f. kept plan.rule.sub_table_indexs)

    tuple-Keeps :
        (a : ℕ) (l r : ValExpr)
        → store a ≡ (in_list, l, r)
        → Listed plan.rule l r
        → Keeps plan.rule
            (get_table_indexs_by_tuple time (record plan { in_right_to_replace = some a }) r)
    unfolding get_table_indexs_by_tuple
    tuple-Keeps a l r s listed =
        bind-Keeps plan.rule (tuple_groups time (record plan { in_right_to_replace = some a }) r) _
          (λ gs q. (
            refl,
            subst (λ (z : CompareOp × ValExpr × ValExpr). Grouped time plan.rule z.0 z.1 z.2 gs)
                (sym s) (refl, listed, λ p same. tuple_groups-rule time p _ r same ∙ q),
          ))

    -- The one place where something is recorded.
    listed-Keeps :
        (a : ℕ) (l r : ValExpr)
        → store a ≡ (in_list, l, r)
        → Keeps plan.rule (route_listed time plan (some a) a in_list l r)
    unfolding route_listed get_table_indexs hash_comparison
    listed-Keeps a l r s =
        if_either (Keeps plan.rule)
          (is_eid (get_value_type plan.rule l) && is_list (get_value_type plan.rule r))
          (get_table_indexs time plan.rule.kind (record plan { in_right_to_replace = some a })
            (comparison_expr a in_list l r))
          (keep plan plan.rule.sub_table_indexs)
          (λ t.
            subst
              (λ (z : RuleType). Keeps plan.rule (
                get_table_indexs time z (record plan { in_right_to_replace = some a })
                  (comparison_expr a in_list l r)))
              (sym kind) (tuple-Keeps a l r s (both_true _ _ t)))
          (λ f. kept plan.rule.sub_table_indexs)

    comparison-Keeps :
        (a : ℕ) (op : CompareOp) (l r : ValExpr)
        → store a ≡ (op, l, r)
        → Keeps plan.rule (route_comparison time plan a op l r)
    unfolding route_comparison get_table_indexs hash_comparison
    comparison-Keeps a eq l r s = compared-Keeps a eq l r (found_key l r)
    comparison-Keeps a nse l r s = compared-Keeps a nse l r (found_key l r)
    comparison-Keeps a lt l r s = compared-Keeps a lt l r (kept plan.rule.sub_table_indexs)
    comparison-Keeps a gt l r s = compared-Keeps a gt l r (kept plan.rule.sub_table_indexs)
    comparison-Keeps a le l r s = compared-Keeps a le l r (kept plan.rule.sub_table_indexs)
    comparison-Keeps a ge l r s = compared-Keeps a ge l r (kept plan.rule.sub_table_indexs)
    comparison-Keeps a in_list l r s = listed-Keeps a l r s
    comparison-Keeps a not_in l r s = not_listed-Keeps a l r
    comparison-Keeps a ne l r s = kept plan.rule.sub_table_indexs
    comparison-Keeps a like l r s = kept plan.rule.sub_table_indexs
    comparison-Keeps a not_like l r s = kept plan.rule.sub_table_indexs

  -- Routing on a hash rule keeps the rule and what is recorded.
  route-Keeps :
      (e : BoolExpr) (plan : Plan)
      → plan.rule.kind ≡ hash
      → EachLeaf (IsStored store) e
      → Recorded time store plan
      → Keeps plan.rule (get_table_index_by_bool_expr time e plan)
  unfolding get_table_index_by_bool_expr
  route-Keeps (and_expr l r) plan kind h rec =
      two-Keeps plan.rule (get_table_index_by_bool_expr time l plan)
        (λ p. get_table_index_by_bool_expr time r p) inter_list (route-Keeps l plan kind h.0 rec)
        (λ p same rec'.
          subst (λ (z : Rule). Keeps z (get_table_index_by_bool_expr time r p)) same
            (route-Keeps r p (ap (λ (z : Rule). z.kind) same ∙ kind) h.1 rec'))
  route-Keeps (or_expr l r) plan kind h rec =
      two-Keeps plan.rule (get_table_index_by_bool_expr time l plan)
        (λ p. get_table_index_by_bool_expr time r p) union_list (route-Keeps l plan kind h.0 rec)
        (λ p same rec'.
          subst (λ (z : Rule). Keeps z (get_table_index_by_bool_expr time r p)) same
            (route-Keeps r p (ap (λ (z : Rule). z.kind) same ∙ kind) h.1 rec'))
  route-Keeps (paren_bool_expr e) plan kind h rec = route-Keeps e plan kind h rec
  route-Keeps (comparison_expr a op l r) plan kind h rec = comparison-Keeps plan kind rec a op l r h
  route-Keeps (range_cond op e from to) plan kind h rec = range-Keeps plan kind rec op e from to
  route-Keeps (not_expr e) plan kind h rec = (refl, rec)
  route-Keeps (null_check op e) plan kind h rec = (refl, rec)
  route-Keeps (exists_expr s) plan kind h rec = (refl, rec)

  -- Where routing from a plan without an IN list returns, the IN list that the plan remembers is a
  -- comparison of the store, and the groups are those of its values.
  pub route-Recorded :
      (e : BoolExpr) (plan plan' : Plan) (ts : List ℤ)
      → plan.rule.kind ≡ hash
      → EachLeaf (IsStored store) e
      → plan.in_right_to_replace ≡ none
      → get_table_index_by_bool_expr time e plan ≡ ok (ts, plan')
      → (plan'.rule ≡ plan.rule) × Recorded time store plan'
  route-Recorded e plan plan' ts kind h fresh q = subst (Keeps plan.rule) q (
      route-Keeps e plan kind h
        (subst (RecordedAt time store plan.rule plan.sub_table_value_groups) (sym fresh) tt))
