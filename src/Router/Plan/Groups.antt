-- ===== src/Router/Plan/Groups.antt =====
-- The groups of an IN list: keys are distinct and come out sorted, and a group holds exactly the
-- values of the list that fall in its table, in their order.
use kingshard.Prelude.{
  ℤ, List, [], ◌∷◌, ◌++◌, IsSorted, Chain, In, ◌≡◌, refl, ap, ◌⊎◌, arith, ◌<ℤ◌, eqb_ℤ, inl,
  if◌then◌else◌, eq_of_parts, eqb_ℤ→eq, append_assoc, append-nil,
}
use kingshard.Outcome.{ok, both_returned}
use kingshard.Sqlparser.Ast.{ValExpr, ValExprs, nil, cons, val_tuple}
use kingshard.Router.Shard.{LocalTime}
use kingshard.Router.Plan.Values.{Plan, get_table_index_by_value}
use kingshard.Router.Plan.Tuples.{
  Groups, insert_key, sorted_keys, add_value, group_values, tuple_groups,
}

insert_key-Chain :
    (lo k : ℤ) (js : List ℤ) → lo <ℤ k → ¬ In k js → Chain lo js → Chain lo (insert_key k js)
unfolding insert_key
insert_key-Chain lo k [] h n c = (h, tt)
insert_key-Chain lo k (j ∷ js) h n c = ground (arith, eq_of_parts k j, insert_key-Chain j k js)

insert_key-IsSorted : (k : ℤ) (js : List ℤ) → ¬ In k js → IsSorted js → IsSorted (insert_key k js)
unfolding insert_key
insert_key-IsSorted k [] n s = tt
insert_key-IsSorted k (j ∷ js) n s = ground (arith, eq_of_parts k j, insert_key-Chain j k js)

pub insert_key-In : (a k : ℤ) (js : List ℤ) → In a js → In a (insert_key k js)
unfolding insert_key
insert_key-In a k [] m = absurd m
insert_key-In a k (j ∷ js) m = ground (arith, insert_key-In a k js)

pub insert_key_self : (k : ℤ) (js : List ℤ) → In k (insert_key k js)
unfolding insert_key
insert_key_self k [] = inl refl
insert_key_self k (j ∷ js) = ground (arith, insert_key_self k js)

insert_key-sub : (a k : ℤ) (js : List ℤ) → In a (insert_key k js) → In a (k ∷ js)
unfolding insert_key
insert_key-sub a k [] m = m
insert_key-sub a k (j ∷ js) m = ground (arith, insert_key-sub a k js)

-- The keys of a map are distinct.
abbrev Distinct : Groups → Type 0
Distinct [] = Unit {0}
Distinct ((k, ns) ∷ gs) = ¬ In k (sorted_keys gs) × Distinct gs

pub sorted_keys-IsSorted : (gs : Groups) → Distinct gs → IsSorted (sorted_keys gs)
unfolding sorted_keys
sorted_keys-IsSorted [] d = tt
sorted_keys-IsSorted ((k, ns) ∷ gs) d =
    insert_key-IsSorted k (sorted_keys gs) d.0 (sorted_keys-IsSorted gs d.1)

add_value-keys :
    (a i : ℤ) (n : ValExpr) (gs : Groups)
    → In a (sorted_keys (add_value i n gs))
    → (a ≡ i) ⊎ In a (sorted_keys gs)
unfolding sorted_keys add_value
add_value-keys a i n [] m = ground arith
add_value-keys a i n ((j, ns) ∷ gs) m = ground (
  arith,
  insert_key-sub a j (sorted_keys (add_value i n gs)),
  insert_key_self j (sorted_keys gs),
  insert_key-In a j (sorted_keys gs),
  add_value-keys a i n gs,
)

pub add_value-keeps :
    (a i : ℤ) (n : ValExpr) (gs : Groups)
    → (a ≡ i) ⊎ In a (sorted_keys gs)
    → In a (sorted_keys (add_value i n gs))
unfolding sorted_keys add_value
add_value-keeps a i n [] m = ground arith
add_value-keeps a i n ((j, ns) ∷ gs) m = ground (
  arith,
  eqb_ℤ→eq j i,
  insert_key-sub a j (sorted_keys gs),
  insert_key_self j (sorted_keys gs),
  insert_key_self j (sorted_keys (add_value i n gs)),
  insert_key-In a j (sorted_keys (add_value i n gs)),
  add_value-keeps a i n gs,
)

add_value-Distinct : (i : ℤ) (n : ValExpr) (gs : Groups) → Distinct gs → Distinct (add_value i n gs)
unfolding add_value sorted_keys
add_value-Distinct i n [] d = (λ m. m, tt)
add_value-Distinct i n ((j, ns) ∷ gs) d = ground (
  arith,
  add_value-Distinct i n gs d.1,
  add_value-keys j i n gs,
  eq_of_parts j i,
  ap (λ (z : ℤ). eqb_ℤ z i),
)

-- A read of the map.
unfoldable pub values_at : ℤ → Groups → List ValExpr
values_at k [] = []
values_at k ((j, ns) ∷ gs) = if eqb_ℤ j k then ns else values_at k gs

values_at-add_value :
    (k i : ℤ) (n : ValExpr) (gs : Groups)
    → values_at k (add_value i n gs)
      ≡ (if eqb_ℤ i k then values_at k gs ++ (n ∷ []) else values_at k gs)
unfolding values_at add_value
values_at-add_value k i n [] = ground arith
values_at-add_value k i n ((j, ns) ∷ gs) =
    ground (arith, values_at-add_value k i n gs, eqb_ℤ→eq j i, eqb_ℤ→eq j k, eqb_ℤ→eq i k)

module _ (time : LocalTime) where
  group_values-Distinct :
      (plan : Plan) (ns : ValExprs) (gs gs' : Groups)
      → Distinct gs
      → group_values time plan ns gs ≡ ok gs'
      → Distinct gs'
  unfolding group_values
  group_values-Distinct plan nil gs gs' d e = ground (arith, d)
  group_values-Distinct plan (cons n ns) gs gs' d e =
      let (i, p, q) = both_returned (get_table_index_by_value time plan n) _ e in
      group_values-Distinct plan ns (add_value i n gs) gs' (add_value-Distinct i n gs d) q

  -- The values of a tuple that fall in a table, in the order of the tuple.
  unfoldable pub values_in : Plan → ℤ → ValExprs → List ValExpr
  values_in plan k nil = []
  values_in plan k (cons n ns) =
      let rest = values_in plan k ns in
      elim (get_table_index_by_value time plan n) [
        | ok i ↦ if eqb_ℤ i k then n ∷ rest else rest
        | _ ↦ rest
      ]

  pub group_values-values_at :
      (plan : Plan) (ns : ValExprs) (gs gs' : Groups) (k : ℤ)
      → group_values time plan ns gs ≡ ok gs'
      → values_at k gs' ≡ values_at k gs ++ values_in plan k ns
  unfolding group_values values_in
  group_values-values_at plan nil gs gs' k e = ground (arith, append-nil (values_at k gs))
  group_values-values_at plan (cons n ns) gs gs' k e =
      let (i, p, q) = both_returned (get_table_index_by_value time plan n) _ e in
      rw (p, values_in)
        (ground (
          arith,
          group_values-values_at plan ns (add_value i n gs) gs' k q,
          values_at-add_value k i n gs,
          append_assoc (values_at k gs) (n ∷ []) (values_in plan k ns),
        ))

  pub tuple_groups-Distinct :
      (plan : Plan) (e : ValExpr) (gs : Groups) → tuple_groups time plan e ≡ ok gs → Distinct gs
  unfolding tuple_groups
  tuple_groups-Distinct plan (val_tuple ns) gs h = group_values-Distinct plan ns [] gs tt h
  tuple_groups-Distinct plan _ gs h = ground arith
