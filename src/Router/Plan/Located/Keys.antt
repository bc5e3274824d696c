-- ===== src/Router/Plan/Located/Keys.antt =====
-- The interface between the shards and the router's correctness, and the literals and IN lists
-- that every rule treats alike.
use kingshard.Prelude.{
  ℤ, [], In, ◌≡◌, refl, sym, ap, ◌∙◌, inl, inr, arith, Bool, true, false, ◌&&◌, some, Option-cases,
}
use kingshard.Outcome.{ok, both_returned}
use kingshard.Strconv.{parse_int}
use kingshard.Sqlparser.Ast.{
  ColName, ValExpr, ValExprs, str_val, num_val, val_arg, col_name, val_tuple, null_val, subquery,
  binary_expr, unary_expr, func_expr, case_expr, nil, cons,
}
use kingshard.Router.Shard.{LocalTime, Key, find_for_key, string, int64}
use kingshard.Router.Rule.{Rule, find_table_index}
use kingshard.Router.Plan.Values.{
  Plan, NodeType, eid_node, value_node, list_node, other_node, get_value_type, all_values, is_value,
  get_bound_value, get_table_index_by_value,
}
use kingshard.Router.Plan.Tuples.{
  Groups, sorted_keys, add_value, group_values, tuple_groups, get_table_indexs_by_tuple,
}
use kingshard.Router.Plan.Groups.{add_value-keeps}
use kingshard.Router.Plan.Leaves.{is_eid, is_list, is_literal, key_index_of}
use kingshard.Router.Plan.Meaning.{Meaning, eval, Decided, Rel, AnyOf}
use kingshard.Router.Plan.Finds.{Finds, bind-Finds, Listed, Compared, eval-eid}

-- Wherever `FindForKey` returns an index, the key has a value, and the index is the table of that
-- value.
pub record Located (time : LocalTime) (rule : Rule) (m : Meaning) (table_of : ℤ → ℤ) : Type 0 where
  pub located :
      (k : Key) (i : ℤ)
      → find_for_key time rule.shard k ≡ ok i
      → (w : ℤ) × (m.value_of k ≡ some w) × (i ≡ table_of w)

pub literal_not_eid : (x : NodeType) → is_literal x ≡ true → is_eid x ≡ false
literal_not_eid eid_node h = cc
literal_not_eid value_node h = refl
literal_not_eid list_node h = cc
literal_not_eid other_node h = cc

pub first_value : (x : NodeType) (b : Bool) → (is_value x && b) ≡ true → is_literal x ≡ true
first_value value_node b h = refl
first_value eid_node b h = cc
first_value list_node b h = cc
first_value other_node b h = cc

pub other_values : (x : NodeType) (b : Bool) → (is_value x && b) ≡ true → b ≡ true
other_values x b h = ground arith

pub no_column :
    (rule : Rule) (c : ColName) → is_literal (get_value_type rule (col_name c)) ≡ true → ⊥
unfolding get_value_type
no_column rule c h = ground arith

pub no_tuple :
    (rule : Rule) (es : ValExprs) → is_literal (get_value_type rule (val_tuple es)) ≡ true → ⊥
unfolding get_value_type
no_tuple rule es h = ground arith

-- Only a tuple is a list of values.
abbrev pub IsTuple : ValExpr → Type 0
IsTuple (val_tuple es) = Unit {0}
IsTuple _ = ⊥

pub list-IsTuple : (rule : Rule) (e : ValExpr) → is_list (get_value_type rule e) ≡ true → IsTuple e
unfolding get_value_type
list-IsTuple rule (val_tuple es) h = tt
list-IsTuple rule (col_name c) h = ground arith
list-IsTuple rule (str_val s) h = cc
list-IsTuple rule (num_val s) h = cc
list-IsTuple rule (val_arg s) h = cc
list-IsTuple rule null_val h = cc
list-IsTuple rule (subquery s) h = cc
list-IsTuple rule (binary_expr o l r) h = cc
list-IsTuple rule (unary_expr o e) h = cc
list-IsTuple rule (func_expr n d es) h = cc
list-IsTuple rule (case_expr a b c) h = cc

pub tuple_values :
    (rule : Rule) (es : ValExprs)
    → is_list (get_value_type rule (val_tuple es)) ≡ true
    → all_values rule es ≡ true
unfolding get_value_type
tuple_values rule es h = ground arith

module _ (time : LocalTime) (plan : Plan) (m : Meaning) (table_of : ℤ → ℤ)
    (loc : Located time plan.rule m table_of) where
  -- The table that is found for a literal is the table of its value.
  pub literal :
      (e : ValExpr) (i : ℤ)
      → is_literal (get_value_type plan.rule e) ≡ true
      → get_table_index_by_value time plan e ≡ ok i
      → (w : ℤ) × (eval plan.rule m e ≡ some w) × (i ≡ table_of w)
  unfolding get_value_type get_table_index_by_value get_bound_value find_table_index
  literal (str_val s) i h q = loc.located (string s) i q
  literal (num_val s) i h q = elim (Option-cases (parse_int s)) [
    | inl e ↦ cc (rw (e, get_table_index_by_value, get_bound_value) at q)
    | inr (v, e) ↦
        rw (e, eval)
          (loc.located (int64 v) i (rw (e, get_table_index_by_value, get_bound_value) at q))
  ]
  literal (val_arg s) i h q = cc
  literal (col_name c) i h q = absurd (no_column plan.rule c h)
  literal (val_tuple es) i h q = absurd (no_tuple plan.rule es h)
  literal null_val i h q = cc
  literal (subquery s) i h q = cc
  literal (binary_expr o l r) i h q = cc
  literal (unary_expr o e) i h q = cc
  literal (func_expr n d es) i h q = cc
  literal (case_expr a b c) i h q = cc

  literal_value :
      (e : ValExpr) (k : Key)
      → is_literal (get_value_type plan.rule e) ≡ true
      → get_bound_value e ≡ ok k
      → eval plan.rule m e ≡ m.value_of k
  unfolding get_value_type get_bound_value
  literal_value (str_val s) k h q = ground arith
  literal_value (num_val s) k h q = ground arith
  literal_value (val_arg s) k h q = cc
  literal_value (col_name c) k h q = cc
  literal_value (val_tuple es) k h q = absurd (no_tuple plan.rule es h)
  literal_value null_val k h q = cc
  literal_value (subquery s) k h q = cc
  literal_value (binary_expr o l r) k h q = cc
  literal_value (unary_expr o e) k h q = cc
  literal_value (func_expr n d es) k h q = cc
  literal_value (case_expr a b c) k h q = cc

  -- The key that a literal is bound to, and what it stands for.
  pub literal_key :
      (e : ValExpr) (i : ℤ)
      → is_literal (get_value_type plan.rule e) ≡ true
      → get_table_index_by_value time plan e ≡ ok i
      → (k : Key) × (get_bound_value e ≡ ok k)
        × (find_for_key time plan.rule.shard k ≡ ok i)
        × (eval plan.rule m e ≡ m.value_of k)
  unfolding get_table_index_by_value find_table_index
  literal_key e i h q =
      let (k, ek, ef) = both_returned (get_bound_value e) _ q in (k, ek, ef, literal_value e k h ek)

  -- An equation of the key with a literal finds the row's table, on whichever side the key stands.
  pub key_index :
      (o : Type 0) (l r : ValExpr) (i : ℤ)
      → Compared plan.rule l r
      → Decided o (λ a b. a ≡ b) (eval plan.rule m l) (eval plan.rule m r)
      → key_index_of time plan l r ≡ ok i
      → table_of m.row ≡ i
  unfolding key_index_of
  key_index o l r i (inl (k, v)) d q =
      let (w, ew, ei) = literal r i v (rw k at q) in
      ap table_of (rw (eval-eid plan.rule m l k, ew, Decided) at d) ∙ sym ei
  key_index o l r i (inr (v, k)) d q =
      let (w, ew, ei) = literal l i v (rw (literal_not_eid _ v) at q) in
      ap table_of (sym (rw (eval-eid plan.rule m r k, ew, Decided) at d)) ∙ sym ei

  group_values-keeps :
      (a : ℤ) (ns : ValExprs) (gs gs' : Groups)
      → group_values time plan ns gs ≡ ok gs'
      → In a (sorted_keys gs)
      → In a (sorted_keys gs')
  unfolding group_values
  group_values-keeps a nil gs gs' e h = ground arith
  group_values-keeps a (cons n ns) gs gs' e h =
      let (i, p, q) = both_returned (get_table_index_by_value time plan n) _ e in
      group_values-keeps a ns (add_value i n gs) gs' q (add_value-keeps a i n gs (inr h))

  group_values-finds :
      (o : Type 0) (ns : ValExprs) (gs gs' : Groups)
      → all_values plan.rule ns ≡ true
      → AnyOf (eval plan.rule m) o (some m.row) ns
      → group_values time plan ns gs ≡ ok gs'
      → In (table_of m.row) (sorted_keys gs')
  unfolding group_values all_values
  group_values-finds o nil gs gs' v h e = absurd h
  group_values-finds o (cons n ns) gs gs' v (inl h) e =
      let (i, p, q) = both_returned (get_table_index_by_value time plan n) _ e in
      let (w, ew, ei) = literal n i (first_value _ _ v) p in
      group_values-keeps (table_of m.row) ns (add_value i n gs) gs' q (
        add_value-keeps (table_of m.row) i n gs
          (inl (ap table_of (rw (ew, Decided, Rel) at h) ∙ sym ei)))
  group_values-finds o (cons n ns) gs gs' v (inr h) e =
      let (i, p, q) = both_returned (get_table_index_by_value time plan n) _ e in
      group_values-finds o ns (add_value i n gs) gs' (other_values _ _ v) h q

  -- An IN list that holds the row's value finds the row's table.
  pub tuple-Finds :
      (o : Type 0) (l : ValExpr) (es : ValExprs)
      → Listed plan.rule l (val_tuple es)
      → AnyOf (eval plan.rule m) o (eval plan.rule m l) es
      → Finds (table_of m.row) (get_table_indexs_by_tuple time plan (val_tuple es))
  unfolding get_table_indexs_by_tuple tuple_groups
  tuple-Finds o l es s h = bind-Finds (table_of m.row) (group_values time plan es []) _ (λ gs q.
      group_values-finds o es [] gs (tuple_values plan.rule es s.1)
        (rw (eval-eid plan.rule m l s.0) at h) q)
