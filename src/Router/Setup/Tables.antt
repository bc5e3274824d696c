-- ===== src/Router/Setup/Tables.antt =====
-- The tables that a configuration lists, and the node of each.
use kingshard.Prelude.{
  ℕ, suc, ◌<◌, ℤ, pos, ◌<ℤ◌, pos_part, neg_part, List, [], ◌∷◌, ◌++◌, append_assoc, append-nil, In,
  All, Chain, IsSorted, Chain-IsSorted, All-append, eqb_ℤ→eq, ◌≡◌, refl, sym, ap, ◌∙◌, inl, inr,
  arith, length, some,
}
use kingshard.Router.Rule.{map_get, map_put}
use kingshard.Router.Setup.{Tables, add_tables, last}

abbrev pub keys : List (ℤ × ℤ) → List ℤ
keys [] = []
keys ((k, v) ∷ m) = k ∷ keys m

-- A node index below `n`.
abbrev pub IsNode : ℕ → ℤ × ℤ → Type 0
IsNode n (k, v) = (pos_part v < n) × (neg_part v ≡ 0)

-- The tables rise, the map has exactly them as its keys, and its values are below `n`.
pub record IsFilled (n : ℕ) (st : Tables) : Type 0 where
  pub keyed : keys st.1 ≡ st.0
  pub sorted : IsSorted st.0
  pub nodes : All (IsNode n) st.1

Chain-lt_next : (x : ℤ) (xs : List ℤ) (y : ℤ) (ys : List ℤ) → Chain x (xs ++ (y ∷ ys)) → x <ℤ y
Chain-lt_next x [] y ys c = c.0
Chain-lt_next x (z ∷ xs) y ys c = omega (arith, c.0, Chain-lt_next z xs y ys c.1)

IsSorted-before :
    (xs : List ℤ) (y : ℤ) (ys : List ℤ) (a : ℤ) → IsSorted (xs ++ (y ∷ ys)) → In a xs → a <ℤ y
IsSorted-before [] y ys a s m = absurd m
IsSorted-before (x ∷ xs) y ys a s (inl e) = rw e (Chain-lt_next x xs y ys s)
IsSorted-before (x ∷ xs) y ys a s (inr m) =
    IsSorted-before xs y ys a (Chain-IsSorted x (xs ++ (y ∷ ys)) s) m

fresh : (xs : List ℤ) (y : ℤ) (ys : List ℤ) → IsSorted (xs ++ (y ∷ ys)) → ¬ In y xs
fresh xs y ys s m = omega (arith, IsSorted-before xs y ys y s m)

Chain-prefix : (lo : ℤ) (xs ys : List ℤ) → Chain lo (xs ++ ys) → Chain lo xs
Chain-prefix lo [] ys c = tt
Chain-prefix lo (x ∷ xs) ys c = (c.0, Chain-prefix x xs ys c.1)

IsSorted-prefix : (xs ys : List ℤ) → IsSorted (xs ++ ys) → IsSorted xs
IsSorted-prefix [] ys s = tt
IsSorted-prefix (x ∷ xs) ys s = Chain-prefix x xs ys s

-- Behind a table that lies above all the others, the rest of a sorted list.
pub Chain-join :
    (lo : ℤ) (xs ys : List ℤ)
    → Chain lo xs
    → IsSorted ys
    → (lo' : ℤ) → last (lo ∷ xs) ≡ some lo'
    → Chain lo' ys
    → Chain lo (xs ++ ys)
unfolding last
Chain-join lo [] ys c s lo' e d = ground arith
Chain-join lo (x ∷ xs) ys c s lo' e d = (c.0, Chain-join x xs ys c.1 s lo' e d)

map_put-fresh : (k v : ℤ) (m : List (ℤ × ℤ)) → ¬ In k (keys m) → map_put k v m ≡ m ++ ((k, v) ∷ [])
unfolding map_put
map_put-fresh k v [] n = refl
map_put-fresh k v ((j, w) ∷ m) n = ground (arith, map_put-fresh k v m, eqb_ℤ→eq j k)

keys-append : (m m' : List (ℤ × ℤ)) → keys (m ++ m') ≡ keys m ++ keys m'
keys-append [] m' = refl
keys-append ((k, v) ∷ m) m' = ap (◌∷◌ k) (keys-append m m')

pub length-keys : (m : List (ℤ × ℤ)) → length (keys m) ≡ length m
length-keys [] = refl
length-keys ((k, v) ∷ m) = ap suc (length-keys m)

-- A table that is listed has a node.
pub map_get-IsNode :
    (n : ℕ) (k : ℤ) (m : List (ℤ × ℤ))
    → In k (keys m)
    → All (IsNode n) m
    → IsNode n (k, map_get k m)
unfolding map_get
map_get-IsNode n k [] i a = absurd i
map_get-IsNode n k ((j, v) ∷ m) i a = ground (arith, map_get-IsNode n k m, eqb_ℤ→eq j k)

-- The tables of one node go behind those of the nodes before.
pub add_tables-IsFilled :
    (n i : ℕ) (ts : List ℤ) (st : Tables)
    → i < n
    → IsFilled n st
    → IsSorted (st.0 ++ ts)
    → IsFilled n (add_tables i ts st) × ((add_tables i ts st).0 ≡ st.0 ++ ts)
unfolding add_tables
add_tables-IsFilled n i [] (subs, m) h f s = (f, sym (append-nil subs))
add_tables-IsFilled n i (t ∷ ts) (subs, m) h f s =
    let e = map_put-fresh t (pos i) m (rw (f.keyed) (fresh subs t ts s)) in
    let (g, q) =
      add_tables-IsFilled n i ts (subs ++ (t ∷ []), map_put t (pos i) m) h
        (record {
          keyed =
              rw e (keys-append m ((t, pos i) ∷ []) ∙ ap (λ (l : List ℤ). l ++ (t ∷ [])) f.keyed);
          sorted = IsSorted-prefix (subs ++ (t ∷ [])) ts (rw (append_assoc subs (t ∷ []) ts) s);
          nodes = rw e (All-append (IsNode n) m ((t, pos i) ∷ []) f.nodes ((h, refl), tt));
        })
        (rw (append_assoc subs (t ∷ []) ts) s) in
    (g, q ∙ append_assoc subs (t ∷ []) ts)
