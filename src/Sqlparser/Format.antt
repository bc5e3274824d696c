-- ===== src/Sqlparser/Format.antt =====
-- `Format` of the expressions and of SELECT: sqlparser/ast.go, and `encodeSql` of a string in
-- sqltypes/sqltypes.go. A buffer that is written to is the text that it holds at the end.
use kingshard.Prelude.{
  ℕ, Bytes, codes, List, [], ◌∷◌, ◌++◌, Option, none, some, ◌==◌, if◌then◌else◌, drop,
}
use kingshard.Sqlparser.Ast.{
  CompareOp, eq, lt, gt, le, ge, ne, nse, in_list, not_in, like, not_like, RangeOp, between,
  not_between, NullOp, is_null, is_not_null, IndexHints, BoolExpr, and_expr, or_expr, not_expr,
  paren_bool_expr, comparison_expr, range_cond, null_check, exists_expr, ValExpr, str_val, num_val,
  val_arg, null_val, col_name, val_tuple, subquery, binary_expr, unary_expr, func_expr, case_expr,
  Expr, bool_expr, val_expr, ValExprs, nil, cons, OptVal, no_val, a_val, OptBool, no_bool, a_bool,
  Whens, no_whens, when, SelectExpr, star_expr, non_star_expr, SelectExprs, no_exprs, select_exprs,
  TableExpr, aliased_table_expr, paren_table_expr, join_table_expr, SimpleTableExpr, table_name,
  table_subquery, TableExprs, no_tables, table_exprs, Where, no_where, where_clause, OrderBy,
  no_order, order, Limit, no_limit, limit, SelectStatement, select, union, simple_select,
}
use kingshard.Sqlparser.Keywords.{escape}

-- `encodeRef`: the letter that stands for a byte behind a backslash, if it needs one.
unfoldable pub encode_ref : ℕ → Option ℕ
encode_ref c =
    if c == 0
    then some b'0'
    else if c == b'\''
    then some b'\''
    else if c == b'"'
    then some b'"'
    else if c == 8
    then some b'b'
    else if c == 10
    then some b'n'
    else if c == 13
    then some b'r'
    else if c == 9
    then some b't'
    else if c == 26
    then some b'Z'
    else if c == b'\\'
    then some b'\\'
    else none

unfoldable pub encode_byte : ℕ → Bytes → Bytes
unfolding encode_ref
encode_byte c rest = elim (encode_ref c) [ none ↦ c ∷ rest | some e ↦ b'\\' ∷ e ∷ rest ]

-- The bytes of a string up to the quote that ends it.
unfoldable pub encode_bytes : Bytes → Bytes
unfolding encode_byte
encode_bytes [] = b'\'' ∷ []
encode_bytes (c ∷ cs) = encode_byte c (encode_bytes cs)

unfoldable pub encode_sql : Bytes → Bytes
encode_sql s = b'\'' ∷ encode_bytes s

unfoldable pub compare_op : CompareOp → Bytes
compare_op eq = codes "="
compare_op lt = codes "<"
compare_op gt = codes ">"
compare_op le = codes "<="
compare_op ge = codes ">="
compare_op ne = codes "!="
compare_op nse = codes "<=>"
compare_op in_list = codes "in"
compare_op not_in = codes "not in"
compare_op like = codes "like"
compare_op not_like = codes "not like"

unfoldable pub range_op : RangeOp → Bytes
range_op between = codes "between"
range_op not_between = codes "not between"

unfoldable pub null_op : NullOp → Bytes
null_op is_null = codes "is null"
null_op is_not_null = codes "is not null"

unfoldable pub format_comments : List Bytes → Bytes
format_comments [] = []
format_comments (c ∷ cs) = c ++ (b' ' ∷ format_comments cs)

-- A column or a table, with the qualifier in front.
unfoldable pub format_qualified : Option Bytes → Bytes → Bytes
format_qualified none name = escape name
format_qualified (some q) name = escape q ++ (b'.' ∷ escape name)

-- The alias of a select expression or a table.
unfoldable pub format_as : Option Bytes → Bytes
format_as none = []
format_as (some a) = codes " as " ++ a

unfoldable pub hint_names : Bytes → List Bytes → Bytes
hint_names prefix [] = []
hint_names prefix (n ∷ ns) = prefix ++ (n ++ hint_names (codes ", ") ns)

unfoldable pub format_hints : Option IndexHints → Bytes
unfolding hint_names
format_hints none = []
format_hints (some h) =
    b' ' ∷ (h.kind ++ (codes " index " ++ (hint_names (codes "(") h.indexes ++ codes ")")))

-- A bind variable loses its first byte, which the tokenizer always gives it. The lists of the
-- source print a prefix, which is another one from the second element on.
unfoldable mutual
  pub format_bool_expr : BoolExpr → Bytes
  format_bool_expr (and_expr l r) = format_bool_expr l ++ (codes " and " ++ format_bool_expr r)
  format_bool_expr (or_expr l r) = format_bool_expr l ++ (codes " or " ++ format_bool_expr r)
  format_bool_expr (not_expr e) = codes "not " ++ format_bool_expr e
  format_bool_expr (paren_bool_expr e) = b'(' ∷ (format_bool_expr e ++ codes ")")
  format_bool_expr (comparison_expr addr op l r) =
      format_val_expr l ++ (b' ' ∷ (compare_op op ++ (b' ' ∷ format_val_expr r)))
  format_bool_expr (range_cond op l from to) =
      format_val_expr l
      ++ (b' '
          ∷ (range_op op
              ++ (b' ' ∷ (format_val_expr from ++ (codes " and " ++ format_val_expr to)))))
  format_bool_expr (null_check op e) = format_val_expr e ++ (b' ' ∷ null_op op)
  format_bool_expr (exists_expr s) = codes "exists (" ++ (format_select s ++ codes ")")

  pub format_val_expr : ValExpr → Bytes
  format_val_expr (str_val s) = encode_sql s
  format_val_expr (num_val s) = s
  format_val_expr (val_arg s) = drop 1 s
  format_val_expr null_val = codes "null"
  format_val_expr (col_name c) = format_qualified c.qualifier c.name
  format_val_expr (val_tuple es) = b'(' ∷ (format_val_exprs [] es ++ codes ")")
  format_val_expr (subquery s) = b'(' ∷ (format_select s ++ codes ")")
  format_val_expr (binary_expr op l r) = format_expr l ++ (op ∷ format_expr r)
  format_val_expr (unary_expr op e) = op ∷ format_expr e
  format_val_expr (func_expr name distinct es) =
      name
      ++ (b'('
          ∷ ((if distinct then codes "distinct " else [])
              ++ (format_select_exprs [] es ++ codes ")")))
  format_val_expr (case_expr e ws d) =
      codes "case "
      ++ (format_opt_val [] (codes " ") e
          ++ (format_whens ws ++ (format_opt_val (codes "else ") (codes " ") d ++ codes "end")))

  pub format_expr : Expr → Bytes
  format_expr (bool_expr e) = format_bool_expr e
  format_expr (val_expr e) = format_val_expr e

  -- ValExprs, GroupBy and, behind their prefix, the rows of tuples.
  pub format_val_exprs : Bytes → ValExprs → Bytes
  format_val_exprs prefix nil = []
  format_val_exprs prefix (cons e es) =
      prefix ++ (format_val_expr e ++ format_val_exprs (codes ", ") es)

  -- A value that may be nil, between two texts.
  pub format_opt_val : Bytes → Bytes → OptVal → Bytes
  format_opt_val before after no_val = []
  format_opt_val before after (a_val e) = before ++ (format_val_expr e ++ after)

  pub format_whens : Whens → Bytes
  format_whens no_whens = []
  format_whens (when c v ws) =
      codes "when "
      ++ (format_bool_expr c ++ (codes " then " ++ (format_val_expr v ++ (b' ' ∷ format_whens ws))))

  pub format_select_expr : SelectExpr → Bytes
  format_select_expr (star_expr none) = codes "*"
  format_select_expr (star_expr (some table)) = table ++ codes ".*"
  format_select_expr (non_star_expr e alias) = format_expr e ++ format_as alias

  pub format_select_exprs : Bytes → SelectExprs → Bytes
  format_select_exprs prefix no_exprs = []
  format_select_exprs prefix (select_exprs e es) =
      prefix ++ (format_select_expr e ++ format_select_exprs (codes ", ") es)

  pub format_table_expr : TableExpr → Bytes
  format_table_expr (aliased_table_expr e alias hints) =
      format_simple_table e ++ (format_as alias ++ format_hints hints)
  format_table_expr (paren_table_expr e) = b'(' ∷ (format_table_expr e ++ codes ")")
  format_table_expr (join_table_expr l join r on) =
      format_table_expr l ++ (b' ' ∷ (join ++ (b' ' ∷ (format_table_expr r ++ format_on on))))

  pub format_on : OptBool → Bytes
  format_on no_bool = []
  format_on (a_bool e) = codes " on " ++ format_bool_expr e

  pub format_simple_table : SimpleTableExpr → Bytes
  format_simple_table (table_name t) = format_qualified t.qualifier t.name
  format_simple_table (table_subquery s) = b'(' ∷ (format_select s ++ codes ")")

  pub format_table_exprs : Bytes → TableExprs → Bytes
  format_table_exprs prefix no_tables = []
  format_table_exprs prefix (table_exprs t ts) =
      prefix ++ (format_table_expr t ++ format_table_exprs (codes ", ") ts)

  -- WHERE and HAVING.
  pub format_where : Where → Bytes
  format_where no_where = []
  format_where (where_clause kind e) = b' ' ∷ (kind ++ (b' ' ∷ format_bool_expr e))

  pub format_order_by : Bytes → OrderBy → Bytes
  format_order_by prefix no_order = []
  format_order_by prefix (order e direction os) =
      prefix ++ (format_val_expr e ++ (b' ' ∷ (direction ++ format_order_by (codes ", ") os)))

  pub format_limit : Limit → Bytes
  format_limit no_limit = []
  format_limit (limit offset rowcount) =
      codes " limit " ++ (format_opt_val [] (codes ", ") offset ++ format_val_expr rowcount)

  pub format_select : SelectStatement → Bytes
  format_select (select comments distinct exprs from condition group having orders lim lock) =
      codes "select "
      ++ (format_comments comments
          ++ (distinct
              ++ (format_select_exprs [] exprs
                  ++ (codes " from "
                      ++ (format_table_exprs [] from
                          ++ (format_where condition
                              ++ (format_val_exprs (codes " group by ") group
                                  ++ (format_where having
                                      ++ (format_order_by (codes " order by ") orders
                                          ++ (format_limit lim ++ lock))))))))))
  format_select (union kind l r) = format_select l ++ (b' ' ∷ (kind ++ (b' ' ∷ format_select r)))
  format_select (simple_select comments distinct exprs) =
      codes "select " ++ (format_comments comments ++ (distinct ++ format_select_exprs [] exprs))
