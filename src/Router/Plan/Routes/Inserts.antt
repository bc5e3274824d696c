-- ===== src/Router/Plan/Routes/Inserts.antt =====
-- An INSERT's rows are grouped by the table of their key.
use kingshard.Prelude.{
  ℕ, zero, suc, ℤ, Option, none, some, List, [], ◌∷◌, ◌++◌, In, ◌≡◌, ◌≢◌, ◌↔◌, eqb_ℤ, if◌then◌else◌,
}
use kingshard.Outcome.{ok}
use kingshard.Strconv.{parse_int}
use kingshard.Sqlparser.Ast.{
  ValExpr, str_val, num_val, ValExprs, nil, cons, Tuple, tuple_row, tuple_subquery,
}
use kingshard.Router.Shard.{LocalTime, Key, string, int64}
use kingshard.Router.Rule.{Rule, find_table_index}
use kingshard.Router.Plan.Values.{Plan}
use kingshard.Router.Plan.Routes.{RowGroups, insert_loop}

-- A read of the map of rows.
unfoldable pub rows_at : ℤ → RowGroups → List ValExprs
rows_at k [] = []
rows_at k ((j, rs) ∷ gs) = if eqb_ℤ j k then rs else rows_at k gs

-- The value at a position of a row, and the key that a literal stands for.
abbrev value_at : ℕ → ValExprs → Option ValExpr
value_at k nil = none
value_at zero (cons e es) = some e
value_at (suc k) (cons e es) = value_at k es

abbrev key_of : ValExpr → Option Key
key_of (str_val s) = some (string s)
key_of (num_val s) = elim (parse_int s) [ none ↦ none | some v ↦ some (int64 v) ]
key_of _ = none

module _ (time : LocalTime) where
  -- The value at a position of a row is a literal whose key has a table by the rule.
  abbrev pub FallsIn : Rule → ℕ → ValExprs → ℤ → Type 0
  FallsIn rule k r t =
      (e : ValExpr) × (key : Key) × (value_at k r ≡ some e)
      × (key_of e ≡ some key)
      × (find_table_index time rule key ≡ ok t)

  -- Every row is a tuple whose key has a table.
  abbrev pub HasTables : Rule → ℕ → List Tuple → Type 0
  HasTables rule k [] = Unit {0}
  HasTables rule k (tuple_subquery s ∷ vs) = ⊥
  HasTables rule k (tuple_row r ∷ vs) = ((t : ℤ) × FallsIn rule k r t) × HasTables rule k vs

  -- The rows whose key falls in a table, in the order of the statement.
  unfoldable pub rows_in :
      (rule : Rule) (k : ℕ) → ℤ → (vs : List Tuple) → HasTables rule k vs → List ValExprs
  rows_in rule k t [] h = []
  rows_in rule k t (tuple_subquery s ∷ vs) h = absurd h
  rows_in rule k t (tuple_row r ∷ vs) ((u, f), h) =
      let rest = rows_in rule k t vs h in if eqb_ℤ u t then r ∷ rest else rest

  -- What the loop returns for a table.
  abbrev SortedOut :
      (plan : Plan) (n : ℕ) (vs : List Tuple) → HasTables plan.rule n vs → RowGroups → Type 0
  SortedOut plan n vs h gs =
      (ts : List ℤ) × (gs' : RowGroups) × (insert_loop time plan vs gs ≡ ok (ts, gs'))
      × ((k : ℤ) → rows_at k gs' ≡ rows_at k gs ++ rows_in plan.rule n k vs h)
      × ((k : ℤ) → In k ts ↔ (rows_in plan.rule n k vs h ≢ []))
