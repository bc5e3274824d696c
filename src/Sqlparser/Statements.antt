-- ===== src/Sqlparser/Statements.antt =====
-- The statements of sqlparser/ast.go that are routed, and their `Format`.
use kingshard.Prelude.{Bytes, codes, List, [], ◌∷◌, ◌++◌, Option, none, some}
use kingshard.Sqlparser.Ast.{
  TableName, SelectExprs, TableExprs, Where, ValExprs, OrderBy, Limit, SelectStatement, select,
  Tuple, tuple_row, tuple_subquery, UpdateExpr, val_tuple, subquery, col_name,
}
use kingshard.Sqlparser.Format.{
  format_comments, format_qualified, format_val_expr, format_select_exprs, format_where,
  format_order_by, format_limit, format_select,
}

pub record Select : Type 0 where
  pub comments : List Bytes
  pub distinct : Bytes
  pub exprs : SelectExprs
  pub tables : TableExprs
  pub condition : Where
  pub group_by : ValExprs
  pub having : Where
  pub order_by : OrderBy
  pub bound : Limit
  pub lock : Bytes

-- VALUES, or a SELECT.
pub data InsertRows : Type 0 where
  select_rows : SelectStatement → InsertRows
  values : List Tuple → InsertRows

pub record Insert : Type 0 where
  pub comments : List Bytes
  pub ignore : Bytes
  pub table : TableName
  pub columns : Option SelectExprs
  pub rows : InsertRows
  pub on_dup : Option (List UpdateExpr)

pub record Replace : Type 0 where
  pub comments : List Bytes
  pub table : TableName
  pub columns : Option SelectExprs
  pub rows : InsertRows

pub record Update : Type 0 where
  pub comments : List Bytes
  pub table : TableName
  pub exprs : List UpdateExpr
  pub condition : Where
  pub order_by : OrderBy
  pub bound : Limit

pub record Delete : Type 0 where
  pub comments : List Bytes
  pub table : TableName
  pub condition : Where
  pub order_by : OrderBy
  pub bound : Limit

pub record Truncate : Type 0 where
  pub comments : List Bytes
  pub table_opt : Bytes
  pub table : TableName

-- The statements that the router's switch names, and all others.
pub data Statement : Type 0 where
  insert_statement : Insert → Statement
  replace_statement : Replace → Statement
  select_statement : Select → Statement
  update_statement : Update → Statement
  delete_statement : Delete → Statement
  truncate_statement : Truncate → Statement
  other_statement : Statement

unfoldable pub select_node : Select → SelectStatement
select_node s =
    select s.comments s.distinct s.exprs s.tables s.condition s.group_by s.having s.order_by s.bound
      s.lock

unfoldable pub format_table_name : TableName → Bytes
format_table_name t = format_qualified t.qualifier t.name

unfoldable pub format_columns : Option SelectExprs → Bytes
format_columns none = []
format_columns (some cs) = b'(' ∷ (format_select_exprs [] cs ++ codes ")")

unfoldable pub format_tuple : Tuple → Bytes
format_tuple (tuple_row es) = format_val_expr (val_tuple es)
format_tuple (tuple_subquery s) = format_val_expr (subquery s)

-- The rows behind the prefix, which is another one from the second row on.
unfoldable pub format_values : Bytes → List Tuple → Bytes
format_values prefix [] = []
format_values prefix (v ∷ vs) = prefix ++ (format_tuple v ++ format_values (codes ", ") vs)

unfoldable pub format_rows : InsertRows → Bytes
format_rows (select_rows s) = format_select s
format_rows (values vs) = format_values (codes "values ") vs

unfoldable pub format_update_exprs : Bytes → List UpdateExpr → Bytes
format_update_exprs prefix [] = []
format_update_exprs prefix (e ∷ es) =
    prefix
    ++ (format_val_expr (col_name e.name)
        ++ (codes " = " ++ (format_val_expr e.expr ++ format_update_exprs (codes ", ") es)))

unfoldable pub format_on_dup : Option (List UpdateExpr) → Bytes
format_on_dup none = []
format_on_dup (some es) = codes " on duplicate key update " ++ format_update_exprs [] es

unfoldable pub format_insert : Insert → Bytes
format_insert s =
    codes "insert "
    ++ (format_comments s.comments
        ++ (s.ignore
            ++ (codes " into "
                ++ (format_table_name s.table
                    ++ (format_columns s.columns
                        ++ (b' ' ∷ (format_rows s.rows ++ format_on_dup s.on_dup)))))))

unfoldable pub format_replace : Replace → Bytes
format_replace s =
    codes "replace "
    ++ (format_comments s.comments
        ++ (codes "into "
            ++ (format_table_name s.table
                ++ (format_columns s.columns ++ (b' ' ∷ format_rows s.rows)))))

-- The clauses that end an UPDATE and a DELETE.
unfoldable pub format_clauses : Where → OrderBy → Limit → Bytes
format_clauses w os l =
    format_where w ++ (format_order_by (codes " order by ") os ++ format_limit l)

unfoldable pub format_update : Update → Bytes
format_update s =
    codes "update "
    ++ (format_comments s.comments
        ++ (format_table_name s.table
            ++ (codes " set "
                ++ (format_update_exprs [] s.exprs
                    ++ format_clauses s.condition s.order_by s.bound))))

unfoldable pub format_delete : Delete → Bytes
format_delete s =
    codes "delete "
    ++ (format_comments s.comments
        ++ (codes "from "
            ++ (format_table_name s.table ++ format_clauses s.condition s.order_by s.bound)))

unfoldable pub format_truncate : Truncate → Bytes
format_truncate s =
    codes "truncate" ++ (format_comments s.comments ++ (s.table_opt ++ format_table_name s.table))
