-- ===== src/Router/Build/Delivers.antt =====
-- A table of the route has its statement delivered to its node.
use kingshard.Prelude.{
  ℕ, zero, suc, ◌<◌, ℤ, pos, negsuc, eqb_ℤ, Bytes, eqb_bytes, eqb_bytes_refl, List, [], ◌∷◌, In,
  All, length, ◌≡◌, ◌≢◌, refl, sym, ap, ◌∙◌, subst, inl, inr, arith, if_either, Bool, true,
  if◌then◌else◌,
}
use kingshard.Outcome.{Result, ok}
use kingshard.Router.Shard.{index}
use kingshard.Router.Rule.{Rule, map_get}
use kingshard.Router.Setup.Tables.{IsNode}
use kingshard.Router.Plan.Values.{Plan}
use kingshard.Router.Build.{Sqls, generate}
use kingshard.Router.Build.Sends.{
  sqls_at, Sent, statements_for, statements_for-sent, generate-sends,
}

-- A node index below the number of nodes reads a node.
index-IsNode :
    (nodes : List Bytes) (k i : ℤ)
    → IsNode (length nodes) (k, i)
    → (name : Bytes) × (index nodes i ≡ ok name)
unfolding index
index-IsNode [] k i h = absurd (omega (arith, h.0))
index-IsNode (n ∷ ns) k (pos zero) h = (n, refl)
index-IsNode (n ∷ ns) k (pos (suc i)) h = index-IsNode ns k (pos i) (omega (arith, h.0), refl)
index-IsNode (n ∷ ns) k (negsuc i) h = absurd (omega (arith, h.1))

-- A key that the map lacks reads 0, which is a node, too.
map_get-any :
    (n : ℕ) (k : ℤ) (m : List (ℤ × ℤ)) → 0 < n → All (IsNode n) m → IsNode n (k, map_get k m)
unfolding map_get
map_get-any n k [] h a = (h, refl)
map_get-any n k ((j, v) ∷ m) h a =
    if_either (λ (z : ℤ). IsNode n (k, z)) (eqb_ℤ j k) _ _ (λ t. a.0) (λ f. map_get-any n k m h a.1)

-- Every table has a node, where the values of the map are nodes and there is one.
pub node_of :
    (nodes : List Bytes) (rule : Rule) (t : ℤ)
    → 0 < length nodes
    → All (IsNode (length nodes)) rule.table_to_node
    → (name : Bytes) × (index nodes (map_get t rule.table_to_node) ≡ ok name)
node_of nodes rule t h a =
    index-IsNode nodes t (map_get t rule.table_to_node)
      (map_get-any (length nodes) t rule.table_to_node h a)

pub All-of : {P : ℤ → Type 0} → ((t : ℤ) → P t) → (ts : List ℤ) → All P ts
All-of h [] = tt
All-of h (t ∷ ts) = (h t, All-of h ts)

pub In-some : {A : Type 0} (a : A) (xs : List A) → In a xs → xs ≢ []
In-some a [] m e = m
In-some a (x ∷ xs) m e = cc e

taken : {A : Type 0} (b : Bool) (x y : A) → b ≡ true → (if b then x else y) ≡ x
taken b x y e = rw e refl

pub statements_for-In :
    (nodes : List Bytes) (rule : Rule) (render : ℤ → Result Bytes) (name sql : Bytes) (t : ℤ)
    (ts : List ℤ)
    → All (Sent nodes rule render) ts
    → In t ts
    → index nodes (map_get t rule.table_to_node) ≡ ok name
    → render t ≡ ok sql
    → In sql (statements_for nodes rule render name ts)
statements_for-In nodes rule render name sql t [] h m e q = absurd m
statements_for-In nodes rule render name sql t (u ∷ ts) ((n, e', s, q'), h) (inl same) e q =
    subst (λ (l : List Bytes). In sql l)
      (sym (
        statements_for-sent nodes rule render name name sql u ts
          (ap (λ (z : ℤ). index nodes (map_get z rule.table_to_node)) (sym same) ∙ e)
          (ap render (sym same) ∙ q)
        ∙ taken (eqb_bytes name name) _ _ (eqb_bytes_refl name)))
      (inl refl)
statements_for-In nodes rule render name sql t (u ∷ ts) ((n, e', s, q'), h) (inr m) e q =
    let rest = statements_for-In nodes rule render name sql t ts h m e q in
    subst (λ (l : List Bytes). In sql l)
      (sym (statements_for-sent nodes rule render name n s u ts e' q'))
      (if_either (λ (l : List Bytes). In sql l) (eqb_bytes n name) _ _ (λ b. inr rest) (λ b. rest))

-- Where every table of the route has a node and a statement, the statements are generated, and
-- the node of a table of the route gets that table's statement.
pub generate-delivers :
    (nodes : List Bytes) (plan : Plan) (whole : Bytes) (render : ℤ → Result Bytes)
    (name sql : Bytes) (t : ℤ)
    → plan.route_node_indexs ≢ []
    → All (Sent nodes plan.rule render) plan.route_table_indexs
    → In t plan.route_table_indexs
    → index nodes (map_get t plan.rule.table_to_node) ≡ ok name
    → render t ≡ ok sql
    → (sqls : Sqls) × (generate nodes plan whole render ≡ ok sqls) × In sql (sqls_at name sqls)
generate-delivers nodes plan whole render name sql t some_node h m e q =
    let (sqls, done, at) =
      generate-sends nodes plan whole render some_node (In-some t plan.route_table_indexs m) h in
    (
      sqls,
      done,
      subst (λ (l : List Bytes). In sql l) (sym (at name))
          (statements_for-In nodes plan.rule render name sql t plan.route_table_indexs h m e q),
    )
