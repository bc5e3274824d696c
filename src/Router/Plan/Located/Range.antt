-- ===== src/Router/Plan/Located/Range.antt =====
-- Range sharding: the route of every criterion holds the table of every row that satisfies it,
-- provided that the bounds of a NOT BETWEEN are in order.
use kingshard.Prelude.{
  ℕ, ℤ, pos, ◌+ℤ◌, ◌≤ℤ◌, ◌<ℤ◌, +ℤ_parts, ltb_ℤ, List, In, IsSorted, length, ◌≡◌, ◌⊎◌, inl, inr,
  arith, Bool, true, false, Bool-cases, Option, none, some, if◌then◌else◌,
}
use kingshard.Outcome.{Result, ok, ◌>>=◌}
use kingshard.Sqlparser.Ast.{
  BoolExpr, comparison_expr, range_cond, CompareOp, eq, lt, gt, le, ge, nse, in_list, not_in,
  between, not_between, ValExpr, val_tuple,
}
use kingshard.Router.IntList.{make_list}
use kingshard.Router.IntList.Merge.{union_list-union}
use kingshard.Router.IntList.Slices.{make_list-interval}
use kingshard.Router.Shard.{LocalTime, Key, find_for_key}
use kingshard.Router.Rule.{Rule, range}
use kingshard.Router.Plan.Values.{Plan, get_value_type, get_table_index_by_value}
use kingshard.Router.Plan.Leaves.{
  is_eid, is_literal, adjust_shard, adjust_shard_index, table_count, tables_below, tables_above,
  range_comparison, range_between, key_index_of,
}
use kingshard.Router.Plan.Criteria.{get_table_indexs, get_table_index_by_bool_expr}
use kingshard.Router.Plan.Meaning.{Meaning, Holds, HoldsOf, eval, Decided, Rel}
use kingshard.Router.Plan.Finds.{
  Finds, Shaped, Compared, EachLeaf, bind-Finds, route_complete, eval-eid,
}
use kingshard.Router.Plan.Located.Keys.{
  Located, key_index, tuple-Finds, list-IsTuple, literal, literal_key, literal_not_eid,
}

-- A shard whose tables follow the order of the key values, beside what `Located` says.
pub record Ranged (time : LocalTime) (rule : Rule) (m : Meaning) (table_of : ℤ → ℤ) : Type 0 where
  pub loc : Located time rule m table_of
  pub mono : (a b : ℤ) → a ≤ℤ b → table_of a ≤ℤ table_of b
  -- Below a literal, no table is past the adjusted index of that literal.
  pub adjusted :
      (k : Key) (i j w : ℤ)
      → find_for_key time rule.shard k ≡ ok i
      → m.value_of k ≡ some w
      → adjust_shard rule.shard k i ≡ ok j
      → m.row <ℤ w
      → table_of m.row ≤ℤ j
  pub lower : pos 0 ≤ℤ table_of m.row
  pub upper : table_of m.row <ℤ pos (length rule.sub_table_indexs)

make_list-Finds :
    (t a b : ℤ) (f : List ℤ → Result (List ℤ × Plan))
    → ((l : List ℤ) → IsSorted l → (a ≤ℤ t → t <ℤ b → In t l) → Finds t (f l))
    → Finds t (make_list a b >>= f)
make_list-Finds t a b f h = elim (Bool-cases (ltb_ℤ b a)) [
  | inl short ↦ unfold make_list in rw (short, ◌>>=◌, Finds) tt
  | inr long ↦
      let (l, e, s, i) = make_list-interval a b (ground arith) in
      rw (e, ◌>>=◌) (h l s (λ p q. (i t).1 (p, q)))
]

module _ (time : LocalTime) (plan : Plan) (m : Meaning) (table_of : ℤ → ℤ)
    (r : Ranged time plan.rule m table_of)
    (member : In (table_of m.row) plan.rule.sub_table_indexs) where
  -- The adjusted, or plain, index of a literal above the row.
  bounded :
      (strict : Bool) (e : ValExpr) (i j : ℤ) (o : Type 0)
      → is_literal (get_value_type plan.rule e) ≡ true
      → get_table_index_by_value time plan e ≡ ok i
      → (if strict then adjust_shard_index plan e i else ok i) ≡ ok j
      → Decided o (if strict then Rel lt else Rel le) (some m.row) (eval plan.rule m e)
      → table_of m.row ≤ℤ j
  unfolding adjust_shard_index
  bounded true e i j o v q a d =
      let (k, ek, ef, ev) = literal_key time plan m table_of r.loc e i v q in
      let (w, ew, ei) = r.loc.located k i ef in
      r.adjusted k i j w ef ew (rw ek at a) (rw (ev, ew, Decided, Rel) at d)
  bounded false e i j o v q a d =
      let (w, ew, ei) = literal time plan m table_of r.loc e i v q in
      ground (arith, r.mono m.row w (rw (ew, Decided, Rel) at d), ei, a)

  below-Finds :
      (strict : Bool) (e : ValExpr) (o : Type 0)
      → is_literal (get_value_type plan.rule e) ≡ true
      → Decided o (if strict then Rel lt else Rel le) (some m.row) (eval plan.rule m e)
      → Finds (table_of m.row) (tables_below time plan strict e)
  unfolding tables_below
  below-Finds strict e o v d =
      bind-Finds (table_of m.row) (get_table_index_by_value time plan e) _ (λ i q.
        bind-Finds (table_of m.row) (if strict then adjust_shard_index plan e i else ok i) _ (λ j a.
          make_list-Finds (table_of m.row) (pos 0) (j +ℤ pos 1) _ (λ l s i'.
            i' r.lower (omega (arith, bounded strict e i j o v q a d, +ℤ_parts j (pos 1))))))

  above-Finds :
      (e : ValExpr) (o : Type 0)
      → is_literal (get_value_type plan.rule e) ≡ true
      → Decided o (Rel ge) (some m.row) (eval plan.rule m e)
      → Finds (table_of m.row) (tables_above time plan e)
  unfolding tables_above
  above-Finds e o v d = bind-Finds (table_of m.row) (get_table_index_by_value time plan e) _ (λ i q.
      make_list-Finds (table_of m.row) i (table_count plan) _
        (λ l s i'. i' (from e i o v q d) (unfold table_count in r.upper)))
    where
      from :
          (e : ValExpr) (i : ℤ) (o : Type 0)
          → is_literal (get_value_type plan.rule e) ≡ true
          → get_table_index_by_value time plan e ≡ ok i
          → Decided o (Rel ge) (some m.row) (eval plan.rule m e)
          → i ≤ℤ table_of m.row
      from e i o v q d =
          let (w, ew, ei) = literal time plan m table_of r.loc e i v q in
          rw ei (r.mono w m.row (rw (ew, Decided, Rel) at d))

  -- A comparison with the key on the right, read from the key's side; and a weaker one.
  turned :
      (o : Type 0) (op op' : CompareOp) (x : Option ℤ) (b : ℤ)
      → ((a : ℤ) → Rel op a b → Rel op' b a)
      → Decided o (Rel op) x (some b)
      → Decided o (Rel op') (some b) x
  turned o op op' none b f d = d
  turned o op op' (some a) b f d = f a d

  weaker :
      (o : Type 0) (op op' : CompareOp) (a : ℤ) (y : Option ℤ)
      → ((b : ℤ) → Rel op a b → Rel op' a b)
      → Decided o (Rel op) (some a) y
      → Decided o (Rel op') (some a) y
  weaker o op op' a none f d = d
  weaker o op op' a (some b) f d = f b d

  -- The two branches of a comparison, by the side that the key stands on.
  sides :
      (o : Type 0) (op : CompareOp) (l u : ValExpr) (x y : Result (List ℤ × Plan))
      → Compared plan.rule l u
      → Decided o (Rel op) (eval plan.rule m l) (eval plan.rule m u)
      → (is_literal (get_value_type plan.rule u) ≡ true
          → Decided o (Rel op) (some m.row) (eval plan.rule m u)
          → Finds (table_of m.row) x)
      → (is_literal (get_value_type plan.rule l) ≡ true
          → Decided o (Rel op) (eval plan.rule m l) (some m.row)
          → Finds (table_of m.row) y)
      → Finds (table_of m.row) (if is_eid (get_value_type plan.rule l) then x else y)
  sides o op l u x y (inl (k, v)) d f g = rw k (f v (rw (eval-eid plan.rule m l k) at d))
  sides o op l u x y (inr (v, k)) d f g =
      rw (literal_not_eid _ v) (g v (rw (eval-eid plan.rule m u k) at d))

  range_compared :
      (o : Type 0) (op : CompareOp) (a : ℕ) (l u : ValExpr)
      → Shaped plan.rule (comparison_expr a op l u)
      → HoldsOf plan.rule m o op l u
      → Finds (table_of m.row) (range_comparison time plan op l u)
  unfolding range_comparison
  range_compared o eq a l u s h =
      bind-Finds (table_of m.row) (key_index_of time plan l u) _
        (λ i q. inl (key_index time plan m table_of r.loc o l u i s h q))
  range_compared o nse a l u s h =
      bind-Finds (table_of m.row) (key_index_of time plan l u) _
        (λ i q. inl (key_index time plan m table_of r.loc o l u i s h q))
  range_compared o lt a l u s h =
      sides o lt l u _ _ s h (λ v d. below-Finds true u o v d)
        (λ v d. above-Finds l o v (turned o lt ge _ m.row (λ b k. omega arith) d))
  range_compared o le a l u s h =
      sides o le l u _ _ s h (λ v d. below-Finds false u o v d)
        (λ v d. above-Finds l o v (turned o le ge _ m.row (λ b k. k) d))
  range_compared o gt a l u s h =
      sides o gt l u _ _ s h
        (λ v d. above-Finds u o v (weaker o gt ge m.row _ (λ b k. omega arith) d))
        (λ v d. below-Finds true l o v (turned o gt lt _ m.row (λ b k. k) d))
  range_compared o ge a l u s h =
      sides o ge l u _ _ s h (λ v d. above-Finds u o v d)
        (λ v d. below-Finds false l o v (turned o ge le _ m.row (λ b k. k) d))
  range_compared o not_in a l u s h = member
  range_compared o in_list a l (val_tuple es) s h =
      tuple-Finds time plan m table_of r.loc o l es s h
  range_compared o in_list a l _ s h = absurd (list-IsTuple plan.rule _ s.1)
  range_compared o _ a l u s h = absurd s

  -- The values of the two bounds and the tables found for them.
  bounds :
      (f u : ValExpr) (i j : ℤ)
      → is_literal (get_value_type plan.rule f) ≡ true
      → is_literal (get_value_type plan.rule u) ≡ true
      → get_table_index_by_value time plan f ≡ ok i
      → get_table_index_by_value time plan u ≡ ok j
      → (a : ℤ) × (b : ℤ) × (eval plan.rule m f ≡ some a)
        × (eval plan.rule m u ≡ some b)
        × (i ≡ table_of a)
        × (j ≡ table_of b)
  bounds f u i j vf vu qf qu =
      let (a, ea, ei) = literal time plan m table_of r.loc f i vf qf in
      let (b, eb, ej) = literal time plan m table_of r.loc u j vu qu in (a, b, ea, eb, ei, ej)

  between-Finds :
      (o : Type 0) (f u : ValExpr)
      → is_literal (get_value_type plan.rule f) ≡ true
      → is_literal (get_value_type plan.rule u) ≡ true
      → Decided o (Rel ge) (some m.row) (eval plan.rule m f)
      → Decided o (Rel le) (some m.row) (eval plan.rule m u)
      → Finds (table_of m.row) (range_between time plan between f u)
  unfolding range_between
  between-Finds o f u vf vu hf hu =
      bind-Finds (table_of m.row) (get_table_index_by_value time plan f) _ (λ i qf.
        bind-Finds (table_of m.row) (get_table_index_by_value time plan u) _ (λ j qu.
          let (a, b, ea, eb, ei, ej) = bounds f u i j vf vu qf qu in
          let lo : i ≤ℤ table_of m.row = rw ei (r.mono a m.row (rw (ea, Decided, Rel) at hf)) in
          let hi : table_of m.row ≤ℤ j = rw ej (r.mono m.row b (rw (eb, Decided, Rel) at hu)) in
          rw (in_order i j lo hi) (
            make_list-Finds (table_of m.row) i (j +ℤ pos 1) _
              (λ l s k. k lo (omega (arith, hi, +ℤ_parts j (pos 1)))))))
    where
      in_order : (i j : ℤ) → i ≤ℤ table_of m.row → table_of m.row ≤ℤ j → ltb_ℤ j i ≡ false
      in_order i j p q = ground arith

  not_between-Finds :
      (o : Type 0) (f u : ValExpr)
      → is_literal (get_value_type plan.rule f) ≡ true
      → is_literal (get_value_type plan.rule u) ≡ true
      → Decided (Unit {0}) (Rel le) (eval plan.rule m f) (eval plan.rule m u)
      → Decided o (Rel lt) (some m.row) (eval plan.rule m f)
        ⊎ Decided o (Rel gt) (some m.row) (eval plan.rule m u)
      → Finds (table_of m.row) (range_between time plan not_between f u)
  unfolding range_between
  not_between-Finds o f u vf vu up h =
      bind-Finds (table_of m.row) (get_table_index_by_value time plan f) _ (λ i qf.
        bind-Finds (table_of m.row) (get_table_index_by_value time plan u) _ (λ j qu.
          let (a, b, ea, eb, ei, ej) = bounds f u i j vf vu qf qu in
          let ab : table_of a ≤ℤ table_of b = r.mono a b (rw (ea, eb, Decided, Rel) at up) in
          rw (in_order i j (rw (ei, ej) ab)) (
            bind-Finds (table_of m.row) (adjust_shard_index plan f i) _ (λ low q.
              make_list-Finds (table_of m.row) (pos 0) (low +ℤ pos 1) _ (λ l1 s1 k1.
                make_list-Finds (table_of m.row) j (table_count plan) _ (λ l2 s2 k2.
                  ((union_list-union l1 l2 s1 s2).1 (table_of m.row)).1
                    (parts i j low b l1 l2 qf q eb ej k1 k2 h)))))))
    where
      in_order : (i j : ℤ) → i ≤ℤ j → ltb_ℤ j i ≡ false
      in_order i j p = ground arith

      parts :
          (i j low b : ℤ) (l1 l2 : List ℤ)
          → get_table_index_by_value time plan f ≡ ok i
          → adjust_shard_index plan f i ≡ ok low
          → eval plan.rule m u ≡ some b
          → j ≡ table_of b
          → (pos 0 ≤ℤ table_of m.row → table_of m.row <ℤ low +ℤ pos 1 → In (table_of m.row) l1)
          → (j ≤ℤ table_of m.row → table_of m.row <ℤ table_count plan → In (table_of m.row) l2)
          → Decided o (Rel lt) (some m.row) (eval plan.rule m f)
            ⊎ Decided o (Rel gt) (some m.row) (eval plan.rule m u)
          → In (table_of m.row) l1 ⊎ In (table_of m.row) l2
      parts i j low b l1 l2 qf q eb ej k1 k2 (inl d) =
          inl (k1 r.lower (omega (arith, bounded true f i low o vf qf q d, +ℤ_parts low (pos 1))))
      parts i j low b l1 l2 qf q eb ej k1 k2 (inr d) = inr (
          k2 (rw ej (r.mono b m.row (below_of b (rw (eb, Decided, Rel) at d))))
            (unfold table_count in r.upper))
        where
          below_of : (b : ℤ) → b <ℤ m.row → b ≤ℤ m.row
          below_of b h = omega arith

-- The bounds of a NOT BETWEEN, where both are known, are in order.
abbrev pub InOrder : Meaning → Rule → BoolExpr → Type 0
InOrder m rule (range_cond not_between e f u) =
    Decided (Unit {0}) (Rel le) (eval rule m f) (eval rule m u)
InOrder m rule _ = Unit {0}

range_leaf :
    (time : LocalTime) (plan : Plan) (m : Meaning) (table_of : ℤ → ℤ) (x : BoolExpr)
    → Ranged time plan.rule m table_of
    → In (table_of m.row) plan.rule.sub_table_indexs
    → Shaped plan.rule x
    → InOrder m plan.rule x
    → Holds plan.rule m x
    → Finds (table_of m.row) (get_table_indexs time range plan x)
unfolding get_table_indexs
range_leaf time plan m table_of (comparison_expr a op l u) r mem s f h =
    range_compared time plan m table_of r mem _ op a l u s h
range_leaf time plan m table_of (range_cond between e f u) r mem s i h =
    between-Finds time plan m table_of r mem _ f u s.1 s.2 (rw (eval-eid plan.rule m e s.0) at h.0)
      (rw (eval-eid plan.rule m e s.0) at h.1)
range_leaf time plan m table_of (range_cond not_between e f u) r mem s i h =
    not_between-Finds time plan m table_of r mem _ f u s.1 s.2 i
      (rw (eval-eid plan.rule m e s.0) at h)
range_leaf time plan m table_of _ r mem s f h = absurd s

-- Range sharding misses no row. Take a rule of type range whose tables follow the order of the key
-- values, with its sub-tables in order, and a row that satisfies the criterion, in which the bounds
-- of every NOT BETWEEN are in order. If routing returns an index list, it holds the row's table.
pub range_route_complete :
    (time : LocalTime) (plan plan' : Plan) (m : Meaning) (table_of : ℤ → ℤ) (e : BoolExpr)
    (l : List ℤ)
    → plan.rule.kind ≡ range
    → Ranged time plan.rule m table_of
    → IsSorted plan.rule.sub_table_indexs
    → IsSorted plan.route_table_indexs
    → In (table_of m.row) plan.rule.sub_table_indexs
    → EachLeaf (InOrder m plan.rule) e
    → Holds plan.rule m e
    → get_table_index_by_bool_expr time e plan ≡ ok (l, plan')
    → In (table_of m.row) l
range_route_complete time plan plan' m table_of e l kind r s u member f h q =
    route_complete time m (table_of m.row) range (λ z. Ranged time z m table_of) (InOrder m)
      (λ p x z mem sh fx hx. range_leaf time p m table_of x z mem sh fx hx) plan plan' e l kind r s
      u member f h q
