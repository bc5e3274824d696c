-- ===== src/Sqlparser/Ast.antt =====
-- The node types of sqlparser/ast.go. A pointer or slice that may be nil has a constructor for nil
-- of its own, and the slices of nodes are lists of the mutual block.
use kingshard.Prelude.{ℕ, Bytes, Bool, List, Option}

-- ComparisonExpr.Operator: AST_EQ, AST_LT, ... in the order of the source.
pub data CompareOp : Type 0 where
  eq lt gt le ge ne nse in_list not_in like not_like : CompareOp

-- RangeCond.Operator and NullCheck.Operator
pub data RangeOp : Type 0 where
  between not_between : RangeOp

pub data NullOp : Type 0 where
  is_null is_not_null : NullOp

pub record ColName : Type 0 where
  pub name : Bytes
  pub qualifier : Option Bytes

pub record TableName : Type 0 where
  pub name : Bytes
  pub qualifier : Option Bytes

pub record IndexHints : Type 0 where
  pub kind : Bytes
  pub indexes : List Bytes

mutual
  -- The first field of `comparison_expr` is the address of the node, by which the router
  -- remembers it.
  pub data BoolExpr : Type 0 where
    and_expr : BoolExpr → BoolExpr → BoolExpr
    or_expr : BoolExpr → BoolExpr → BoolExpr
    not_expr : BoolExpr → BoolExpr
    paren_bool_expr : BoolExpr → BoolExpr
    comparison_expr : ℕ → CompareOp → ValExpr → ValExpr → BoolExpr
    range_cond : RangeOp → ValExpr → ValExpr → ValExpr → BoolExpr
    null_check : NullOp → ValExpr → BoolExpr
    exists_expr : SelectStatement → BoolExpr

  pub data ValExpr : Type 0 where
    str_val : Bytes → ValExpr
    num_val : Bytes → ValExpr
    val_arg : Bytes → ValExpr
    null_val : ValExpr
    col_name : ColName → ValExpr
    val_tuple : ValExprs → ValExpr
    subquery : SelectStatement → ValExpr
    binary_expr : ℕ → Expr → Expr → ValExpr
    unary_expr : ℕ → Expr → ValExpr
    func_expr : Bytes → Bool → SelectExprs → ValExpr
    case_expr : OptVal → Whens → OptVal → ValExpr

  pub data Expr : Type 0 where
    bool_expr : BoolExpr → Expr
    val_expr : ValExpr → Expr

  pub data ValExprs : Type 0 where
    nil : ValExprs
    cons : ValExpr → ValExprs → ValExprs

  pub data OptVal : Type 0 where
    no_val : OptVal
    a_val : ValExpr → OptVal

  pub data OptBool : Type 0 where
    no_bool : OptBool
    a_bool : BoolExpr → OptBool

  pub data Whens : Type 0 where
    no_whens : Whens
    when : BoolExpr → ValExpr → Whens → Whens

  pub data SelectExpr : Type 0 where
    star_expr : Option Bytes → SelectExpr
    non_star_expr : Expr → Option Bytes → SelectExpr

  pub data SelectExprs : Type 0 where
    no_exprs : SelectExprs
    select_exprs : SelectExpr → SelectExprs → SelectExprs

  pub data TableExpr : Type 0 where
    aliased_table_expr : SimpleTableExpr → Option Bytes → Option IndexHints → TableExpr
    paren_table_expr : TableExpr → TableExpr
    join_table_expr : TableExpr → Bytes → TableExpr → OptBool → TableExpr

  pub data SimpleTableExpr : Type 0 where
    table_name : TableName → SimpleTableExpr
    table_subquery : SelectStatement → SimpleTableExpr

  pub data TableExprs : Type 0 where
    no_tables : TableExprs
    table_exprs : TableExpr → TableExprs → TableExprs

  pub data Where : Type 0 where
    no_where : Where
    where_clause : Bytes → BoolExpr → Where

  pub data OrderBy : Type 0 where
    no_order : OrderBy
    order : ValExpr → Bytes → OrderBy → OrderBy

  pub data Limit : Type 0 where
    no_limit : Limit
    limit : OptVal → ValExpr → Limit

  -- Comments, Distinct, SelectExprs, From, Where, GroupBy, Having, OrderBy, Limit and Lock.
  pub data SelectStatement : Type 0 where
    select :
        List Bytes
        → Bytes
        → SelectExprs
        → TableExprs
        → Where
        → ValExprs
        → Where
        → OrderBy
        → Limit
        → Bytes
        → SelectStatement
    union : Bytes → SelectStatement → SelectStatement → SelectStatement
    simple_select : List Bytes → Bytes → SelectExprs → SelectStatement

-- Columns, Values and Tuple: a row of an INSERT is a tuple of values or a subquery.
pub data Tuple : Type 0 where
  tuple_row : ValExprs → Tuple
  tuple_subquery : SelectStatement → Tuple

pub record UpdateExpr : Type 0 where
  pub name : ColName
  pub expr : ValExpr
