-- ===== src/Router/Plan/Returns/Literals.antt =====
-- The literals of a criterion, and the lists of them, on a hash rule: where they can be read, they
-- have a table.
use kingshard.Prelude.{
  ℕ, suc, to_u64, ◌%◌, ℤ, pos, List, [], ◌≡◌, refl, inl, inr, arith, ◌==◌, Bool, Bool-cases, true,
  false, ◌&&◌, ◌||◌, if◌then◌else◌, some, Option-cases,
}
use kingshard.Outcome.{Result, ok}
use kingshard.Strconv.{parse_int, parse_uint, checksum_ieee}
use kingshard.Sqlparser.Ast.{
  BoolExpr, comparison_expr, eq, nse, in_list, ValExpr, ValExprs, str_val, num_val, val_arg,
  null_val, col_name, val_tuple, subquery, binary_expr, unary_expr, func_expr, case_expr, nil, cons,
}
use kingshard.Router.Shard.{LocalTime, Key, string, int64, hash_shard, find_for_key, hash_value}
use kingshard.Router.Rule.{Rule, find_table_index}
use kingshard.Router.Plan.Values.{
  Plan, NodeType, eid_node, value_node, list_node, other_node, get_value_type, all_values,
  get_bound_value, get_table_index_by_value,
}
use kingshard.Router.Plan.Tuples.{
  Groups, sorted_keys, add_value, group_values, tuple_groups, get_table_indexs_by_tuple,
}
use kingshard.Router.Plan.Leaves.{keep, is_eid, is_list, is_literal, key_index_of}
use kingshard.Router.Plan.Located.Keys.{
  no_column, no_tuple, tuple_values, first_value, other_values, list-IsTuple,
}

-- The call returns a list, and a plan for the same rule.
abbrev pub Returns : Plan → Result (List ℤ × Plan) → Type 0
Returns plan m = (l : List ℤ) × (p : Plan) × (m ≡ ok (l, p)) × (p.rule ≡ plan.rule)

-- A literal that has a key: a number must fit 64 bits, and bound variables have none.
abbrev pub Readable : ValExpr → Type 0
Readable (num_val s) = (v : ℤ) × (parse_int s ≡ some v)
Readable (str_val s) = Unit {0}
Readable (val_arg s) = ⊥
Readable _ = Unit {0}

abbrev pub AllReadable : ValExprs → Type 0
AllReadable nil = Unit {0}
AllReadable (cons e es) = Readable e × AllReadable es

abbrev pub ReadableList : ValExpr → Type 0
ReadableList (val_tuple es) = AllReadable es
ReadableList _ = Unit {0}

-- What stands beside the key can be read; beside anything else it need not.
abbrev pub BesideKey : NodeType → ValExpr → Type 0
BesideKey eid_node e = Readable e
BesideKey _ e = Unit {0}

abbrev pub ListBesideKey : NodeType → ValExpr → Type 0
ListBesideKey eid_node e = ReadableList e
ListBesideKey _ e = Unit {0}

-- The literals of a condition that a hash rule reads: those that are equal to the key, or in its
-- IN list.
abbrev pub ReadableLeaf : Rule → BoolExpr → Type 0
ReadableLeaf rule (comparison_expr a in_list l r) = ListBesideKey (get_value_type rule l) r
ReadableLeaf rule (comparison_expr a eq l r) =
    BesideKey (get_value_type rule l) r × BesideKey (get_value_type rule r) l
ReadableLeaf rule (comparison_expr a nse l r) =
    BesideKey (get_value_type rule l) r × BesideKey (get_value_type rule r) l
ReadableLeaf rule _ = Unit {0}

beside : (x : NodeType) (e : ValExpr) → is_eid x ≡ true → BesideKey x e → Readable e
beside eid_node e k h = h
beside value_node e k h = cc k
beside list_node e k h = cc k
beside other_node e k h = cc k

pub list_beside :
    (x : NodeType) (e : ValExpr) → is_eid x ≡ true → ListBesideKey x e → ReadableList e
list_beside eid_node e k h = h
list_beside value_node e k h = cc k
list_beside list_node e k h = cc k
list_beside other_node e k h = cc k

right_key :
    (x y : NodeType)
    → is_eid x ≡ false
    → ((is_eid x && is_literal y) || (is_literal x && is_eid y)) ≡ true
    → is_eid y ≡ true
right_key eid_node y k g = cc
right_key value_node y k g = ground arith
right_key list_node y k g = cc
right_key other_node y k g = cc

hash_value-string : (s : List ℕ) → (h : ℕ) × (hash_value (string s) ≡ ok h)
unfolding hash_value
hash_value-string s = elim (Option-cases (parse_uint s)) [
  | inl e ↦ (checksum_ieee s, rw (e, hash_value) refl)
  | inr (v, e) ↦ (v, rw (e, hash_value) refl)
]

right_literal :
    (x y : NodeType)
    → is_eid x ≡ true
    → ((is_eid x && is_literal y) || (is_literal x && is_eid y)) ≡ true
    → is_literal y ≡ true
right_literal eid_node y k g = ground arith
right_literal value_node y k g = cc
right_literal list_node y k g = cc
right_literal other_node y k g = cc

left_literal :
    (x y : NodeType)
    → is_eid x ≡ false
    → ((is_eid x && is_literal y) || (is_literal x && is_eid y)) ≡ true
    → is_literal x ≡ true
left_literal eid_node y k g = cc
left_literal value_node y k g = refl
left_literal list_node y k g = cc
left_literal other_node y k g = cc

pub first_true : (a b : Bool) → (a && b) ≡ true → a ≡ true
first_true a b h = ground arith

pub second_true : (a b : Bool) → (a && b) ≡ true → b ≡ true
second_true a b h = ground arith

not_zero : (n : ℕ) → (suc n == 0) ≡ false
not_zero n = ground arith

module _ (time : LocalTime) (n : ℕ) (plan : Plan) (sh : plan.rule.shard ≡ hash_shard (suc n)) where
  key_returns :
      (k : Key) (h : ℕ)
      → hash_value k ≡ ok h
      → find_table_index time plan.rule k ≡ ok (pos (h % suc n))
  unfolding find_table_index find_for_key
  key_returns k h e = rw sh (rw e (rw (not_zero n) refl))

  literal_returns :
      (e : ValExpr)
      → is_literal (get_value_type plan.rule e) ≡ true
      → Readable e
      → (i : ℤ) × (get_table_index_by_value time plan e ≡ ok i)
  unfolding get_value_type get_table_index_by_value get_bound_value hash_value
  literal_returns (str_val s) l r =
      let (h, e) = hash_value-string s in (pos (h % suc n), key_returns (string s) h e)
  literal_returns (num_val s) l (v, e) = (
    pos (to_u64 v % suc n),
    rw (e, get_table_index_by_value, get_bound_value) (key_returns (int64 v) (to_u64 v) refl),
  )
  literal_returns (val_arg s) l r = absurd r
  literal_returns (col_name c) l r = absurd (no_column plan.rule c l)
  literal_returns (val_tuple es) l r = absurd (no_tuple plan.rule es l)
  literal_returns null_val l r = cc
  literal_returns (subquery s) l r = cc
  literal_returns (binary_expr o a b) l r = cc
  literal_returns (unary_expr o a) l r = cc
  literal_returns (func_expr a b c) l r = cc
  literal_returns (case_expr a b c) l r = cc

  pub key_index_returns :
      (l r : ValExpr)
      → ((is_eid (get_value_type plan.rule l) && is_literal (get_value_type plan.rule r))
          || (is_literal (get_value_type plan.rule l) && is_eid (get_value_type plan.rule r)))
        ≡ true
      → BesideKey (get_value_type plan.rule l) r
      → BesideKey (get_value_type plan.rule r) l
      → (i : ℤ) × (key_index_of time plan l r ≡ ok i)
  unfolding key_index_of
  key_index_returns l r g rr rl = elim (Bool-cases (is_eid (get_value_type plan.rule l))) [
    | inl k ↦
        let (i, e) = literal_returns r (right_literal _ _ k g) (beside _ r k rr) in (i, rw k e)
    | inr k ↦
        let (i, e) = literal_returns l (left_literal _ _ k g) (beside _ l (right_key _ _ k g) rl) in
        (i, rw k e)
  ]

  group_values_return :
      (es : ValExprs) (gs : Groups)
      → all_values plan.rule es ≡ true
      → AllReadable es
      → (gs' : Groups) × (group_values time plan es gs ≡ ok gs')
  unfolding group_values all_values
  group_values_return nil gs v r = (gs, refl)
  group_values_return (cons e es) gs v r =
      let (i, q) =
        literal_returns e (first_value (get_value_type plan.rule e) (all_values plan.rule es) v)
          r.0 in
      let (gs', q') =
        group_values_return es (add_value i e gs)
          (other_values (get_value_type plan.rule e) (all_values plan.rule es) v) r.1 in
      (gs', rw q q')

  pub tuple-Returns :
      (e : ValExpr)
      → is_list (get_value_type plan.rule e) ≡ true
      → ReadableList e
      → Returns plan (get_table_indexs_by_tuple time plan e)
  unfolding get_table_indexs_by_tuple tuple_groups
  tuple-Returns (val_tuple es) l r =
      let (gs, q) = group_values_return es [] (tuple_values plan.rule es l) r in
      (sorted_keys gs, record plan { sub_table_value_groups = gs }, rw q refl, refl)
  tuple-Returns (col_name c) l r = absurd (list-IsTuple plan.rule (col_name c) l)
  tuple-Returns (str_val s) l r = absurd (list-IsTuple plan.rule (str_val s) l)
  tuple-Returns (num_val s) l r = absurd (list-IsTuple plan.rule (num_val s) l)
  tuple-Returns (val_arg s) l r = absurd (list-IsTuple plan.rule (val_arg s) l)
  tuple-Returns null_val l r = absurd (list-IsTuple plan.rule null_val l)
  tuple-Returns (subquery s) l r = absurd (list-IsTuple plan.rule (subquery s) l)
  tuple-Returns (binary_expr o a b) l r = absurd (list-IsTuple plan.rule (binary_expr o a b) l)
  tuple-Returns (unary_expr o a) l r = absurd (list-IsTuple plan.rule (unary_expr o a) l)
  tuple-Returns (func_expr a b c) l r = absurd (list-IsTuple plan.rule (func_expr a b c) l)
  tuple-Returns (case_expr a b c) l r = absurd (list-IsTuple plan.rule (case_expr a b c) l)

  pub keeps : (l : List ℤ) → Returns plan (keep plan l)
  keeps l = (l, plan, refl, refl)

  -- A guarded leaf: the list of all tables where the guard fails.
  pub guarded :
      (g : Bool) (m : Result (List ℤ × Plan))
      → (g ≡ true → Returns plan m)
      → Returns plan (if g then m else keep plan plan.rule.sub_table_indexs)
  guarded true m h = h refl
  guarded false m h = keeps plan.rule.sub_table_indexs
