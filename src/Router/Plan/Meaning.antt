-- ===== src/Router/Plan/Meaning.antt =====
-- What a criterion says of one row, as far as the row's sharding key decides it. This is the
-- specification that the routes of planbuilder.go are measured by: it knows nothing of tables.
pub mod Owned
use kingshard.Prelude.{ℤ, ◌≤ℤ◌, ◌<ℤ◌, ◌≡◌, ◌≢◌, ◌⊎◌, if◌then◌else◌, eqb_bytes, Option, none, some}
use kingshard.Strconv.{parse_int}
use kingshard.Sqlparser.Ast.{
  BoolExpr, and_expr, or_expr, not_expr, paren_bool_expr, comparison_expr, range_cond, null_check,
  exists_expr, CompareOp, eq, lt, gt, le, ge, ne, nse, in_list, not_in, like, not_like, between,
  not_between, ValExpr, ValExprs, str_val, num_val, col_name, val_tuple, nil, cons,
}
use kingshard.Router.Shard.{Key, string, int64}
use kingshard.Router.Rule.{Rule}
use kingshard.Router.Plan.Values.{to_lower}

-- A row: the value of its key column, the value that a literal stands for, and the truth of the
-- criteria that the key does not decide.
pub record Meaning : Type 1 where
  pub row : ℤ
  pub value_of : Key → Option ℤ
  pub undecided : BoolExpr → Type 0

module _ (rule : Rule) (m : Meaning) where
  -- The value of an operand: a column with the name of the key, or a literal.
  abbrev pub eval : ValExpr → Option ℤ
  eval (col_name c) = if eqb_bytes (to_lower c.name) rule.key then some m.row else none
  eval (str_val s) = m.value_of (string s)
  eval (num_val s) = elim (parse_int s) [ none ↦ none | some v ↦ m.value_of (int64 v) ]
  eval _ = none

abbrev pub Rel : CompareOp → ℤ → ℤ → Type 0
Rel eq a b = a ≡ b
Rel nse a b = a ≡ b
Rel lt a b = a <ℤ b
Rel le a b = a ≤ℤ b
Rel gt a b = b <ℤ a
Rel ge a b = b ≤ℤ a
Rel ne a b = a ≢ b
Rel in_list a b = a ≡ b
Rel not_in a b = a ≢ b
Rel like a b = Unit {0}
Rel not_like a b = Unit {0}

-- A relation of two operands, and what holds where one of them is unknown.
abbrev pub Decided : Type 0 → (ℤ → ℤ → Type 0) → Option ℤ → Option ℤ → Type 0
Decided o r (some a) (some b) = r a b
Decided o r (some a) none = o
Decided o r none y = o

-- One of the values is the row's, and none of them is.
abbrev pub AnyOf : (ValExpr → Option ℤ) → Type 0 → Option ℤ → ValExprs → Type 0
AnyOf f o x nil = ⊥
AnyOf f o x (cons e es) = Decided o (Rel in_list) x (f e) ⊎ AnyOf f o x es

abbrev pub NoneOf : (ValExpr → Option ℤ) → Type 0 → Option ℤ → ValExprs → Type 0
NoneOf f o x nil = Unit {0}
NoneOf f o x (cons e es) = Decided o (Rel not_in) x (f e) × NoneOf f o x es

-- What a comparison says, and a criterion, for given values of the operands.
module _ (ev : ValExpr → Option ℤ) (undecided : BoolExpr → Type 0) where
  abbrev pub Compares : Type 0 → CompareOp → ValExpr → ValExpr → Type 0
  Compares o in_list l (val_tuple es) = AnyOf ev o (ev l) es
  Compares o in_list l _ = o
  Compares o not_in l (val_tuple es) = NoneOf ev o (ev l) es
  Compares o not_in l _ = o
  Compares o eq l r = Decided o (Rel eq) (ev l) (ev r)
  Compares o nse l r = Decided o (Rel nse) (ev l) (ev r)
  Compares o lt l r = Decided o (Rel lt) (ev l) (ev r)
  Compares o le l r = Decided o (Rel le) (ev l) (ev r)
  Compares o gt l r = Decided o (Rel gt) (ev l) (ev r)
  Compares o ge l r = Decided o (Rel ge) (ev l) (ev r)
  Compares o ne l r = Decided o (Rel ne) (ev l) (ev r)
  Compares o like l r = o
  Compares o not_like l r = o

  abbrev pub Says : BoolExpr → Type 0
  Says (and_expr l r) = Says l × Says r
  Says (or_expr l r) = Says l ⊎ Says r
  Says (paren_bool_expr e) = Says e
  Says (comparison_expr a op l r) = Compares (undecided (comparison_expr a op l r)) op l r
  Says (range_cond between e f t) =
      Decided (undecided (range_cond between e f t)) (Rel ge) (ev e) (ev f)
      × Decided (undecided (range_cond between e f t)) (Rel le) (ev e) (ev t)
  Says (range_cond not_between e f t) =
      Decided (undecided (range_cond not_between e f t)) (Rel lt) (ev e) (ev f)
      ⊎ Decided (undecided (range_cond not_between e f t)) (Rel gt) (ev e) (ev t)
  Says (not_expr e) = undecided (not_expr e)
  Says (null_check op e) = undecided (null_check op e)
  Says (exists_expr s) = undecided (exists_expr s)

module _ (rule : Rule) (m : Meaning) where
  abbrev pub HoldsOf : Type 0 → CompareOp → ValExpr → ValExpr → Type 0
  HoldsOf = Compares (eval rule m) m.undecided

  -- The row satisfies the criterion, where any column with the name of the key is the row's.
  abbrev pub Holds : BoolExpr → Type 0
  Holds = Says (eval rule m) m.undecided
