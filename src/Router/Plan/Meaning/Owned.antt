-- ===== src/Router/Plan/Meaning/Owned.antt =====
-- What a criterion says of a row of the sharded table where other tables may be joined: a column is
-- the row's key if it has the key's name and no qualifier but the table's. The plan disregards the
-- qualifier; where no other table's column has the key's name, this is the same.
use kingshard.Prelude.{
  ℤ, eqb_bytes, [], ◌≡◌, refl, sym, subst, inl, inr, Bool, true, false, ◌||◌, if◌then◌else◌, Option,
  none, some,
}
use kingshard.Sqlparser.Ast.{
  BoolExpr, and_expr, or_expr, not_expr, paren_bool_expr, comparison_expr, range_cond, null_check,
  exists_expr, CompareOp, eq, lt, gt, le, ge, ne, nse, in_list, not_in, like, not_like, between,
  not_between, ValExpr, ValExprs, ColName, col_name, val_tuple, nil, cons,
}
use kingshard.Router.Rule.{Rule}
use kingshard.Router.Plan.Values.{to_lower}
use kingshard.Router.Plan.Qualifiers.{text}
use kingshard.Router.Plan.Finds.{EachLeaf}
use kingshard.Router.Plan.Meaning.{Meaning, eval, AnyOf, NoneOf, Compares, Says, Holds}

module _ (rule : Rule) where
  abbrev is_key : ColName → Bool
  is_key c = eqb_bytes (to_lower c.name) rule.key

  abbrev pub is_own : ColName → Bool
  is_own c = eqb_bytes (text c.qualifier) [] || eqb_bytes (text c.qualifier) rule.table

  abbrev pub eval_own : Meaning → ValExpr → Option ℤ
  eval_own m (col_name c) = if is_own c then (if is_key c then some m.row else none) else none
  eval_own m e = eval rule m e

  -- The row of the sharded table satisfies the criterion.
  abbrev pub Selects : Meaning → BoolExpr → Type 0
  Selects m = Says (eval_own m) m.undecided

  abbrev OwnIf : Bool → Bool → Type 0
  OwnIf true own = own ≡ true
  OwnIf false own = Unit {0}

  -- A column with the name of the key is the table's own.
  abbrev OwnOperand : ValExpr → Type 0
  OwnOperand (col_name c) = OwnIf (is_key c) (is_own c)
  OwnOperand _ = Unit {0}

  abbrev OwnElements : ValExprs → Type 0
  OwnElements nil = Unit {0}
  OwnElements (cons e es) = OwnOperand e × OwnElements es

  abbrev OwnList : ValExpr → Type 0
  OwnList (val_tuple es) = OwnElements es
  OwnList _ = Unit {0}

  abbrev pub OwnLeaf : BoolExpr → Type 0
  OwnLeaf (comparison_expr a op l r) = OwnOperand l × OwnOperand r × OwnList r
  OwnLeaf (range_cond op e f t) = OwnOperand e × OwnOperand f × OwnOperand t
  OwnLeaf _ = Unit {0}

module _ (rule : Rule) (m : Meaning) where
  either_way :
      (key own : Bool)
      → OwnIf rule key own
      → (if own then (if key then some m.row else none) else none)
        ≡ (if key then some m.row else none)
  either_way true true h = refl
  either_way true false h = cc h
  either_way false true h = refl
  either_way false false h = refl

  eval_own-eval : (e : ValExpr) → OwnOperand rule e → eval_own rule m e ≡ eval rule m e
  eval_own-eval (col_name c) h = either_way (is_key rule c) (is_own rule c) h
  eval_own-eval _ h = refl

  AnyOf-own :
      (o : Type 0) (x : Option ℤ) (es : ValExprs)
      → OwnElements rule es
      → AnyOf (eval_own rule m) o x es ≡ AnyOf (eval rule m) o x es
  AnyOf-own o x nil h = refl
  AnyOf-own o x (cons e es) (h, hs) = rw (eval_own-eval e h, AnyOf-own o x es hs) refl

  NoneOf-own :
      (o : Type 0) (x : Option ℤ) (es : ValExprs)
      → OwnElements rule es
      → NoneOf (eval_own rule m) o x es ≡ NoneOf (eval rule m) o x es
  NoneOf-own o x nil h = refl
  NoneOf-own o x (cons e es) (h, hs) = rw (eval_own-eval e h, NoneOf-own o x es hs) refl

  listed_own :
      (o : Type 0) (l r : ValExpr)
      → eval_own rule m l ≡ eval rule m l
      → OwnList rule r
      → Compares (eval_own rule m) m.undecided o in_list l r
        ≡ Compares (eval rule m) m.undecided o in_list l r
  listed_own o l (val_tuple es) p h = rw p (AnyOf-own o (eval rule m l) es h)
  listed_own o l _ p h = refl

  unlisted_own :
      (o : Type 0) (l r : ValExpr)
      → eval_own rule m l ≡ eval rule m l
      → OwnList rule r
      → Compares (eval_own rule m) m.undecided o not_in l r
        ≡ Compares (eval rule m) m.undecided o not_in l r
  unlisted_own o l (val_tuple es) p h = rw p (NoneOf-own o (eval rule m l) es h)
  unlisted_own o l _ p h = refl

  Compares-own :
      (o : Type 0) (op : CompareOp) (l r : ValExpr)
      → eval_own rule m l ≡ eval rule m l
      → eval_own rule m r ≡ eval rule m r
      → OwnList rule r
      → Compares (eval_own rule m) m.undecided o op l r
        ≡ Compares (eval rule m) m.undecided o op l r
  Compares-own o in_list l r p q h = listed_own o l r p h
  Compares-own o not_in l r p q h = unlisted_own o l r p h
  Compares-own o like l r p q h = refl
  Compares-own o not_like l r p q h = refl
  Compares-own o eq l r p q h = rw (p, q) refl
  Compares-own o nse l r p q h = rw (p, q) refl
  Compares-own o lt l r p q h = rw (p, q) refl
  Compares-own o le l r p q h = rw (p, q) refl
  Compares-own o gt l r p q h = rw (p, q) refl
  Compares-own o ge l r p q h = rw (p, q) refl
  Compares-own o ne l r p q h = rw (p, q) refl

  pub Selects-Holds : (e : BoolExpr) → EachLeaf (OwnLeaf rule) e → Selects rule m e → Holds rule m e
  Selects-Holds (and_expr l r) h (s, s') = (Selects-Holds l h.0 s, Selects-Holds r h.1 s')
  Selects-Holds (or_expr l r) h (inl s) = inl (Selects-Holds l h.0 s)
  Selects-Holds (or_expr l r) h (inr s) = inr (Selects-Holds r h.1 s)
  Selects-Holds (paren_bool_expr e) h s = Selects-Holds e h s
  Selects-Holds (comparison_expr a op l r) (hl, hr, ht) s =
      subst (λ (T : Type 0). T)
        (Compares-own (m.undecided (comparison_expr a op l r)) op l r (eval_own-eval l hl)
          (eval_own-eval r hr) ht)
        s
  Selects-Holds (range_cond between e f t) (he, hf, ht) s =
      rw (sym (eval_own-eval e he), sym (eval_own-eval f hf), sym (eval_own-eval t ht)) s
  Selects-Holds (range_cond not_between e f t) (he, hf, ht) s =
      rw (sym (eval_own-eval e he), sym (eval_own-eval f hf), sym (eval_own-eval t ht)) s
  Selects-Holds (not_expr e) h s = s
  Selects-Holds (null_check op e) h s = s
  Selects-Holds (exists_expr q) h s = s
