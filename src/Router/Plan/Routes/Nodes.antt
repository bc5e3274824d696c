-- ===== src/Router/Plan/Routes/Nodes.antt =====
-- The nodes of a route are the nodes of its tables.
use kingshard.Prelude.{
  ℤ, List, [], ◌∷◌, map, In, ◌≡◌, refl, ap, ◌↔◌, inl, inr, arith, eqb_ℤ→eq, true,
}
use kingshard.Router.Rule.{map_get}
use kingshard.Router.Plan.Values.{Plan}
use kingshard.Router.Plan.Routes.{mem, distinct, clean_list, tindexs_to_nindexs}

mem-In : (a : ℤ) (xs : List ℤ) → mem a xs ≡ true → In a xs
unfolding mem
mem-In a [] h = cc
mem-In a (x ∷ xs) h = ground (arith, mem-In a xs, eqb_ℤ→eq x a)

pub distinct-sub : (a : ℤ) (xs : List ℤ) → In a (distinct xs) → In a xs
unfolding distinct
distinct-sub a [] m = m
distinct-sub a (x ∷ xs) m = ground (arith, distinct-sub a xs)

pub distinct-In : (a : ℤ) (xs : List ℤ) → In a xs → In a (distinct xs)
unfolding distinct
distinct-In a [] m = m
distinct-In a (x ∷ xs) m = ground (arith, distinct-In a xs, mem-In x (distinct xs))

-- An order in which Go may range over a map visits its keys and nothing else.
abbrev pub IsRangeOrder : (List ℤ → List ℤ) → Type 0
IsRangeOrder order = (l : List ℤ) (a : ℤ) → In a (order l) ↔ In a l

pub clean_list-In :
    (order : List ℤ → List ℤ) (l : List ℤ) (a : ℤ)
    → IsRangeOrder order
    → In a (clean_list order l) ↔ In a l
unfolding clean_list
clean_list-In order l a v =
    (λ m. distinct-sub a l ((v (distinct l) a).0 m), λ m. (v (distinct l) a).1 (distinct-In a l m))

map-In : (f : ℤ → ℤ) (n : ℤ) (ts : List ℤ) → In n (map f ts) → (t : ℤ) × In t ts × (n ≡ f t)
map-In f n [] m = absurd m
map-In f n (t ∷ ts) (inl e) = (t, inl refl, e)
map-In f n (t ∷ ts) (inr m) = let (u, i, e) = map-In f n ts m in (u, inr i, e)

In-map : (f : ℤ → ℤ) (t : ℤ) (ts : List ℤ) → In t ts → In (f t) (map f ts)
In-map f t [] m = m
In-map f t (u ∷ ts) (inl e) = inl (ap f e)
In-map f t (u ∷ ts) (inr m) = inr (In-map f t ts m)

-- `TindexsToNindexs` returns the nodes of the tables that it is given: every one of them, and no
-- other, in whatever order Go ranges over a map.
pub nodes_of_tables :
    (order : List ℤ → List ℤ) (plan : Plan) (ts : List ℤ) (n : ℤ)
    → IsRangeOrder order
    → In n (tindexs_to_nindexs order plan ts)
      ↔ ((t : ℤ) × In t ts × (n ≡ map_get t plan.rule.table_to_node))
unfolding tindexs_to_nindexs
nodes_of_tables order plan ts n v = (
  λ m.
      map-In (λ t. map_get t plan.rule.table_to_node) n ts
        ((clean_list-In order (map (λ t. map_get t plan.rule.table_to_node) ts) n v).0 m),
  λ (t, m, e).
      (clean_list-In order (map (λ t. map_get t plan.rule.table_to_node) ts) n v).1
        (rw e (In-map (λ t. map_get t plan.rule.table_to_node) t ts m)),
)
