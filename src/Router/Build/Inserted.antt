-- ===== src/Router/Build/Inserted.antt =====
-- From the rows of an INSERT to the statements that their nodes get.
use kingshard.Prelude.{ℕ, zero, suc, eqb_bytes, true, false, pos, Bytes, ◌≡◌}
use kingshard.Sqlparser.Ast.{select_exprs, non_star_expr, val_expr, col_name, SelectExprs}
use kingshard.Router.Rule.{Rule}
use kingshard.Router.Registry.{Router}
use kingshard.Router.Plan.Values.{Plan, new_plan, to_lower}

-- The first column with the name of the key is at a position.
abbrev pub IsKeyAt : Bytes → SelectExprs → ℕ → Type 0
IsKeyAt key (select_exprs (non_star_expr (val_expr (col_name c)) alias) cs) zero =
    eqb_bytes (to_lower c.name) key ≡ true
IsKeyAt key (select_exprs (non_star_expr (val_expr (col_name c)) alias) cs) (suc k) =
    (eqb_bytes (to_lower c.name) key ≡ false) × IsKeyAt key cs k
IsKeyAt key _ k = ⊥

-- The plan that knows the position of the key.
abbrev keyed : Rule → ℕ → Plan
keyed r k = record (new_plan r) { key_index = pos k }
