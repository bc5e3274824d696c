-- ===== src/Router/Plan/Finds.antt =====
-- Routing misses no row, given that it misses none at one condition on the key.
use kingshard.Prelude.{
  ℕ, ℤ, List, In, IsSorted, ◌≡◌, refl, sym, subst, ap, ◌∙◌, ◌⊎◌, inl, inr, arith, Bool, true, false,
  ◌&&◌, ◌||◌, if◌then◌else◌, Option, some,
}
use kingshard.Outcome.{Result, ok, err, panic, ◌>>=◌}
use kingshard.Sqlparser.Ast.{
  BoolExpr, and_expr, or_expr, not_expr, paren_bool_expr, comparison_expr, range_cond, null_check,
  exists_expr, CompareOp, eq, lt, gt, le, ge, ne, nse, in_list, not_in, like, not_like, RangeOp,
  ValExpr, str_val, num_val, val_arg, col_name, val_tuple, null_val, subquery, binary_expr,
  unary_expr, func_expr, case_expr,
}
use kingshard.Router.IntList.{inter_list, union_list}
use kingshard.Router.IntList.Merge.{inter_list-intersection, union_list-union}
use kingshard.Router.Shard.{LocalTime}
use kingshard.Router.Rule.{Rule, RuleType}
use kingshard.Router.Plan.Values.{Plan, get_value_type}
use kingshard.Router.Plan.Leaves.{keep, is_eid, is_list, is_literal}
use kingshard.Router.Plan.Criteria.{
  get_table_indexs, route_compared, route_listed, route_comparison, route_range,
  get_table_index_by_bool_expr,
}
use kingshard.Router.Plan.Ordered.{Ordered, route-Ordered}
use kingshard.Router.Plan.Meaning.{Meaning, eval, Holds}

-- Where the call returns, the table is in the route.
abbrev pub Finds : ℤ → Result (List ℤ × Plan) → Type 0
Finds t (ok (l, p)) = In t l
Finds t (err e) = Unit {0}
Finds t (panic p) = Unit {0}

pub bind-Finds :
    {A : Type 0} (t : ℤ) (m : Result A) (f : A → Result (List ℤ × Plan))
    → ((a : A) → m ≡ ok a → Finds t (f a))
    → Finds t (m >>= f)
bind-Finds t (ok a) f h = h a refl
bind-Finds t (err e) f h = tt
bind-Finds t (panic p) f h = tt

-- The operands that a condition on the key has.
abbrev pub Listed : Rule → ValExpr → ValExpr → Type 0
Listed rule l r = (is_eid (get_value_type rule l) ≡ true) × (is_list (get_value_type rule r) ≡ true)

abbrev pub Compared : Rule → ValExpr → ValExpr → Type 0
Compared rule l r =
    ((is_eid (get_value_type rule l) ≡ true) × (is_literal (get_value_type rule r) ≡ true))
    ⊎ ((is_literal (get_value_type rule l) ≡ true) × (is_eid (get_value_type rule r) ≡ true))

abbrev pub Shaped : Rule → BoolExpr → Type 0
Shaped rule (comparison_expr a in_list l r) = Listed rule l r
Shaped rule (comparison_expr a not_in l r) = Listed rule l r
Shaped rule (comparison_expr a ne l r) = ⊥
Shaped rule (comparison_expr a like l r) = ⊥
Shaped rule (comparison_expr a not_like l r) = ⊥
Shaped rule (comparison_expr a op l r) = Compared rule l r
Shaped rule (range_cond op e f u) =
    (is_eid (get_value_type rule e) ≡ true)
    × (is_literal (get_value_type rule f) ≡ true)
    × (is_literal (get_value_type rule u) ≡ true)
Shaped rule _ = ⊥

-- A condition of the leaves, for every leaf of a criterion.
abbrev pub EachLeaf : (BoolExpr → Type 0) → BoolExpr → Type 0
EachLeaf c (and_expr l r) = EachLeaf c l × EachLeaf c r
EachLeaf c (or_expr l r) = EachLeaf c l × EachLeaf c r
EachLeaf c (paren_bool_expr e) = EachLeaf c e
EachLeaf c (comparison_expr a op l r) = c (comparison_expr a op l r)
EachLeaf c (range_cond op e f u) = c (range_cond op e f u)
EachLeaf c (not_expr e) = Unit {0}
EachLeaf c (null_check o e) = Unit {0}
EachLeaf c (exists_expr s) = Unit {0}

-- A key operand is the row's value.
pub eval-eid :
    (rule : Rule) (m : Meaning) (e : ValExpr)
    → is_eid (get_value_type rule e) ≡ true
    → eval rule m e ≡ some m.row
unfolding get_value_type
eval-eid rule m (col_name c) h = ground arith
eval-eid rule m (val_tuple es) h = ground arith
eval-eid rule m (str_val s) h = cc
eval-eid rule m (num_val s) h = cc
eval-eid rule m (val_arg s) h = cc
eval-eid rule m null_val h = cc
eval-eid rule m (subquery s) h = cc
eval-eid rule m (binary_expr o l r) h = cc
eval-eid rule m (unary_expr o e) h = cc
eval-eid rule m (func_expr n d es) h = cc
eval-eid rule m (case_expr a b c) h = cc

-- A bind behind a route: in order, and over the table or not.
then-Finds :
    (plan : Plan) (t : ℤ) (m : Result (List ℤ × Plan)) (f : List ℤ × Plan → Result (List ℤ × Plan))
    → Ordered plan m
    → ((l : List ℤ) (p : Plan)
        → m ≡ ok (l, p)
        → IsSorted l
        → p.rule ≡ plan.rule
        → p.route_table_indexs ≡ plan.route_table_indexs
        → Finds t (f (l, p)))
    → Finds t (m >>= f)
then-Finds plan t (ok (l, p)) f o h = h l p refl o.0 o.1 o.2
then-Finds plan t (err e) f o h = tt
then-Finds plan t (panic p) f o h = tt

-- What a route that returned holds.
pub found :
    (t : ℤ) (m : Result (List ℤ × Plan)) (l : List ℤ) (p : Plan)
    → m ≡ ok (l, p)
    → Finds t m
    → In t l
found t m l p e h = rw (e, Finds) at h

-- Binary connectives over two routes.
two-Finds :
    (time : LocalTime) (a b : BoolExpr) (plan : Plan) (t : ℤ) (join : List ℤ → List ℤ → List ℤ)
    → IsSorted plan.rule.sub_table_indexs
    → IsSorted plan.route_table_indexs
    → ((x y : List ℤ) (p q : Plan)
        → p.rule ≡ plan.rule
        → p.route_table_indexs ≡ plan.route_table_indexs
        → get_table_index_by_bool_expr time a plan ≡ ok (x, p)
        → get_table_index_by_bool_expr time b p ≡ ok (y, q)
        → IsSorted x
        → IsSorted y
        → In t (join x y))
    → Finds t (
        get_table_index_by_bool_expr time a plan >>= λ (x, p).
        get_table_index_by_bool_expr time b p >>= λ (y, q). keep q (join x y))
two-Finds time a b plan t join s u h =
    then-Finds plan t (get_table_index_by_bool_expr time a plan) _ (route-Ordered time a plan s u)
      (λ x p ea sx e f.
        then-Finds p t (get_table_index_by_bool_expr time b p) _
          (route-Ordered time b p (rw e s) (rw f u)) (λ y q eb sy e' f'. h x y p q e f ea eb sx sy))

guarded-Finds :
    (plan : Plan) (t : ℤ) (b : Bool) (m : Result (List ℤ × Plan))
    → In t plan.rule.sub_table_indexs
    → (b ≡ true → Finds t m)
    → Finds t (if b then m else keep plan plan.rule.sub_table_indexs)
guarded-Finds plan t true m i h = h refl
guarded-Finds plan t false m i h = i

module _ (time : LocalTime) (rule : Rule) (m : Meaning) (t : ℤ) (Fit : BoolExpr → Type 0)
    (leaf : (plan : Plan) (e : BoolExpr)
      → plan.rule ≡ rule
      → Shaped rule e
      → Fit e
      → Holds rule m e
      → Finds t (get_table_indexs time plan.rule.kind plan e))
    (sorted : IsSorted rule.sub_table_indexs) (member : In t rule.sub_table_indexs) where
  compared :
      (plan : Plan) (a : ℕ) (op : CompareOp) (l r : ValExpr)
      → plan.rule ≡ rule
      → (Compared rule l r → Shaped rule (comparison_expr a op l r))
      → Fit (comparison_expr a op l r)
      → Holds rule m (comparison_expr a op l r)
      → Finds t (route_compared time plan a op l r)
  unfolding route_compared
  compared plan a op l r e sh f h = guarded-Finds plan t _ _ (rw e member) (λ b.
      leaf plan (comparison_expr a op l r) e
        (sh (subst (λ (z : Rule). Compared z l r) e (shape _ _ _ _ b))) f h)
    where
      shape :
          (p q u v : Bool)
          → ((p && q) || (u && v)) ≡ true
          → ((p ≡ true) × (q ≡ true)) ⊎ ((u ≡ true) × (v ≡ true))
      shape p q u v b = ground arith

  listed :
      (plan : Plan) (z : Option ℕ) (a : ℕ) (op : CompareOp) (l r : ValExpr)
      → plan.rule ≡ rule
      → (Listed rule l r → Shaped rule (comparison_expr a op l r))
      → Fit (comparison_expr a op l r)
      → Holds rule m (comparison_expr a op l r)
      → Finds t (route_listed time plan z a op l r)
  unfolding route_listed
  listed plan z a op l r e sh f h = guarded-Finds plan t _ _ (rw e member) (λ b.
      leaf (record plan { in_right_to_replace = z }) (comparison_expr a op l r) e
        (sh (subst (λ (y : Rule). Listed y l r) e (shape _ _ b))) f h)
    where
      shape : (p q : Bool) → (p && q) ≡ true → (p ≡ true) × (q ≡ true)
      shape p q b = ground arith

  comparison :
      (plan : Plan) (a : ℕ) (op : CompareOp) (l r : ValExpr)
      → plan.rule ≡ rule
      → Fit (comparison_expr a op l r)
      → Holds rule m (comparison_expr a op l r)
      → Finds t (route_comparison time plan a op l r)
  unfolding route_comparison
  comparison plan a eq l r e f h = compared plan a eq l r e (λ s. s) f h
  comparison plan a lt l r e f h = compared plan a lt l r e (λ s. s) f h
  comparison plan a gt l r e f h = compared plan a gt l r e (λ s. s) f h
  comparison plan a le l r e f h = compared plan a le l r e (λ s. s) f h
  comparison plan a ge l r e f h = compared plan a ge l r e (λ s. s) f h
  comparison plan a nse l r e f h = compared plan a nse l r e (λ s. s) f h
  comparison plan a in_list l r e f h = listed plan (some a) a in_list l r e (λ s. s) f h
  comparison plan a not_in l r e f h =
      listed plan plan.in_right_to_replace a not_in l r e (λ s. s) f h
  comparison plan a ne l r e f h = rw e member
  comparison plan a like l r e f h = rw e member
  comparison plan a not_like l r e f h = rw e member

  ranged :
      (plan : Plan) (op : RangeOp) (v f u : ValExpr)
      → plan.rule ≡ rule
      → Fit (range_cond op v f u)
      → Holds rule m (range_cond op v f u)
      → Finds t (route_range time plan op v f u)
  unfolding route_range
  ranged plan op v f u e fit h = guarded-Finds plan t _ _ (rw e member) (λ b.
      leaf plan (range_cond op v f u) e
        (subst (λ (z : Rule). Shaped z (range_cond op v f u)) e (shape _ _ _ b)) fit h)
    where
      shape : (p q w : Bool) → (p && (q && w)) ≡ true → (p ≡ true) × (q ≡ true) × (w ≡ true)
      shape p q w b = ground arith

  pub route-Finds :
      (e : BoolExpr) (plan : Plan)
      → plan.rule ≡ rule
      → IsSorted plan.route_table_indexs
      → EachLeaf Fit e
      → Holds rule m e
      → Finds t (get_table_index_by_bool_expr time e plan)
  unfolding get_table_index_by_bool_expr
  route-Finds (and_expr l r) plan e u f h =
      two-Finds time l r plan t inter_list (rw e sorted) u (λ x y p q e' u' el er sx sy.
        ((inter_list-intersection x y sx sy).1 t).1 (
          found t _ x p el (route-Finds l plan e u f.0 h.0),
          found t _ y q er (route-Finds r p (e' ∙ e) (rw u' u) f.1 h.1),
        ))
  route-Finds (or_expr l r) plan e u f (inl h) =
      two-Finds time l r plan t union_list (rw e sorted) u (λ x y p q e' u' el er sx sy.
        ((union_list-union x y sx sy).1 t).1
          (inl (found t _ x p el (route-Finds l plan e u f.0 h))))
  route-Finds (or_expr l r) plan e u f (inr h) =
      two-Finds time l r plan t union_list (rw e sorted) u (λ x y p q e' u' el er sx sy.
        ((union_list-union x y sx sy).1 t).1
          (inr (found t _ y q er (route-Finds r p (e' ∙ e) (rw u' u) f.1 h))))
  route-Finds (paren_bool_expr b) plan e u f h = route-Finds b plan e u f h
  route-Finds (comparison_expr a op l r) plan e u f h = comparison plan a op l r e f h
  route-Finds (range_cond op v f' w) plan e u f h = ranged plan op v f' w e f h
  route-Finds (not_expr b) plan e u f h = rw e member
  route-Finds (null_check o b) plan e u f h = rw e member
  route-Finds (exists_expr s) plan e u f h = rw e member

-- A condition that always holds.
pub EachLeaf-trivial : (e : BoolExpr) → EachLeaf (λ x. Unit {0}) e
EachLeaf-trivial (and_expr l r) = (EachLeaf-trivial l, EachLeaf-trivial r)
EachLeaf-trivial (or_expr l r) = (EachLeaf-trivial l, EachLeaf-trivial r)
EachLeaf-trivial (paren_bool_expr e) = EachLeaf-trivial e
EachLeaf-trivial (comparison_expr a op l r) = tt
EachLeaf-trivial (range_cond op e f u) = tt
EachLeaf-trivial (not_expr e) = tt
EachLeaf-trivial (null_check o e) = tt
EachLeaf-trivial (exists_expr s) = tt

-- The same from leaves of one rule type, for every plan whose rule has the property `P`.
pub route_complete :
    (time : LocalTime) (m : Meaning) (t : ℤ) (kind : RuleType) (P : Rule → Type 0)
    (Fit : Rule → BoolExpr → Type 0)
    → ((p : Plan) (x : BoolExpr)
        → P p.rule
        → In t p.rule.sub_table_indexs
        → Shaped p.rule x
        → Fit p.rule x
        → Holds p.rule m x
        → Finds t (get_table_indexs time kind p x))
    → (plan plan' : Plan) (e : BoolExpr) (l : List ℤ) → plan.rule.kind ≡ kind
    → P plan.rule
    → IsSorted plan.rule.sub_table_indexs
    → IsSorted plan.route_table_indexs
    → In t plan.rule.sub_table_indexs
    → EachLeaf (Fit plan.rule) e
    → Holds plan.rule m e
    → get_table_index_by_bool_expr time e plan ≡ ok (l, plan')
    → In t l
route_complete time m t kind P Fit leaves plan plan' e l k p s u member f h r =
    found t (get_table_index_by_bool_expr time e plan) l plan' r
      (route-Finds time plan.rule m t (Fit plan.rule) leaf s member e plan refl u f h)
  where
    leaf :
        (q : Plan) (x : BoolExpr)
        → q.rule ≡ plan.rule
        → Shaped plan.rule x
        → Fit plan.rule x
        → Holds plan.rule m x
        → Finds t (get_table_indexs time q.rule.kind q x)
    leaf q x c sh fx hx =
        subst (λ (z : RuleType). Finds t (get_table_indexs time z q x))
          (sym (ap (λ (z : Rule). z.kind) c ∙ k))
          (leaves q x (subst P (sym c) p)
            (subst (λ (z : Rule). In t z.sub_table_indexs) (sym c) member)
            (subst (λ (z : Rule). Shaped z x) (sym c) sh) (subst (λ (z : Rule). Fit z x) (sym c) fx)
            (subst (λ (z : Rule). Holds z m x) (sym c) hx))
