-- ===== src/Tests/Statements.antt =====
-- Statements about a sharded table and about another one.
use kingshard.Prelude.{
  ℕ, ℤ, Bytes, codes, eqb_bytes, List, [], ◌∷◌, In, ◌≡◌, refl, sym, ap, ◌∙◌, arith, inl, inr, none,
  some, trim, trim_left, trim_right, cut_at, split_on,
}
use kingshard.Outcome.{ok}
use kingshard.Config.{ShardConfig}
use kingshard.Router.Registry.{split_dots}
use kingshard.Router.Plan.Values.{to_lower, lower}
use kingshard.Proxy.Tokens.{parse_token, get_db_table, fields_func, is_sql_sep}
use kingshard.Proxy.Preshard.{Session, ExecuteDb, node_named}
use kingshard.Proxy.Preshard.Dispatch.{get_exec_db}
use kingshard.Proxy.Preshard.Sharded.{Names, selects, configured_is_planned}
use kingshard.Proxy.Preshard.Unsharded.{others_to_default}
use kingshard.Tests.Setup.{december, orders, shop, shop_router, shop_made}

abbrev session : Session
session = record {
  status = 2;
  db = codes "kingshard";
  nodes = codes "node1" ∷ codes "node2" ∷ [];
  proxy_nodes = codes "node1" ∷ codes "node2" ∷ [];
  rule = shop_router;
  tx_conns = [];
}

abbrev print : Bytes → ℤ → Bytes
print table i = table

abbrev from_t : List Bytes
from_t = codes "select" ∷ codes "*" ∷ codes "from" ∷ codes "t" ∷ []

abbrev from_u : List Bytes
from_u = codes "select" ∷ codes "*" ∷ codes "FROM" ∷ codes "`u`" ∷ []

tokens_of_t : fields_func (codes "select * from t") ≡ from_t
unfolding fields_func is_sql_sep
tokens_of_t = refl

from_t-Names : Names from_t ([], codes "t")
unfolding parse_token to_lower lower eqb_bytes get_db_table trim trim_left trim_right cut_at
from_t-Names =
    selects (codes "select") (codes "from") (codes "t") (codes "*" ∷ []) [] refl ((refl, refl), tt)
      refl

from_u-Names : Names from_u ([], codes "u")
unfolding parse_token to_lower lower eqb_bytes get_db_table trim trim_left trim_right cut_at
from_u-Names =
    selects (codes "select") (codes "FROM") (codes "`u`") (codes "*" ∷ []) [] refl
      ((refl, refl), tt) refl

no_dots : (split_dots (codes "t")).1 ≡ []
unfolding split_dots split_on
no_dots = refl

no_dots_u : (split_dots (codes "u")).1 ≡ []
unfolding split_dots split_on
no_dots_u = refl

configured_is_planned_example :
    (get_exec_db print session (codes "select * from t") from_t).0 ≡ ok none
unfolding eqb_bytes
configured_is_planned_example =
    configured_is_planned december shop session orders print (codes "select * from t") from_t []
      shop_made (inl refl) no_dots refl from_t-Names

abbrev first_byte : Bytes → ℕ
first_byte [] = 0
first_byte (c ∷ cs) = c

not_u :
    (cfg : ShardConfig)
    → In cfg shop.shard_rule
    → ¬ ((cfg.db ≡ codes "kingshard") × (cfg.table ≡ codes "u"))
not_u cfg (inl e) (d, t) =
    omega (arith, ap first_byte (sym (ap (λ (c : ShardConfig). c.table) e) ∙ t))
not_u cfg (inr e) p = absurd e

others_to_default_example :
    (e : ExecuteDb) × ((get_exec_db print session (codes "select * FROM `u`") from_u).0
      ≡ ok (some e))
    × (e.exec_node ≡ node_named (codes "node1" ∷ codes "node2" ∷ []) (codes "node1"))
unfolding eqb_bytes
others_to_default_example =
    others_to_default december shop session print (codes "select * FROM `u`") from_u [] (codes "u")
      shop_made not_u no_dots_u from_u-Names
