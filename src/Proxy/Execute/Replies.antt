-- ===== src/Proxy/Execute/Replies.antt =====
-- What the nodes reply to their statements, and what comes of it.
use mathlib.Core.List.{Permᴰ}
use kingshard.Prelude.{
  ℕ, suc, ◌≤◌, Bytes, eqb_bytes, eqb_bytes→eq, eqb_bytes_refl, List, [], ◌∷◌, ◌++◌, map, length,
  replicate, All, Option, none, some, Bool-cases, false, if◌then◌else◌, ◌≡◌, refl, sym, ap, ◌∙◌,
  subst, arith, ◌⊎◌, inl, inr,
}
use kingshard.Outcome.{Error, ok}
use kingshard.Proxy.Execute.{
  Executed, failed, returned, ExecResult, Sqls, result_count, sqls_of, collect,
  execute_in_multi_nodes,
}
use kingshard.Proxy.Execute.Slots.{answers, all_answers, found, slots_filled}
use kingshard.Proxy.Execute.Merged.{All-Perm}

abbrev Entry : Type 0
Entry = Bytes × List Bytes

-- No two entries have the same key.
abbrev pub HasKeysOnce : Sqls → Type 0
HasKeysOnce [] = Unit {0}
HasKeysOnce (e ∷ es) = All (λ (d : Entry). eqb_bytes e.0 d.0 ≡ false) es × HasKeysOnce es

other_way : (a b : Bytes) → eqb_bytes a b ≡ false → eqb_bytes b a ≡ false
other_way a b h = elim (Bool-cases (eqb_bytes b a)) [
  | inl t ↦
      cc (sym (eqb_bytes_refl b) ∙ subst (λ x. eqb_bytes x b ≡ false) (sym (eqb_bytes→eq b a t)) h)
  | inr f ↦ f
]

HasKeysOnce-Perm : (xs ys : Sqls) → Permᴰ xs ys → HasKeysOnce xs → HasKeysOnce ys
HasKeysOnce-Perm _ _ Permᴰ.nil h = tt
HasKeysOnce-Perm _ _ (Permᴰ.cons {a} {b} {l₁} {l₂} e p) (h, hs) = (
  All-Perm (λ (d : Entry). eqb_bytes b.0 d.0 ≡ false) l₁ l₂ p
      (subst (λ (x : Entry). All (λ (d : Entry). eqb_bytes x.0 d.0 ≡ false) l₁) e h),
  HasKeysOnce-Perm l₁ l₂ p hs,
)
HasKeysOnce-Perm _ _ (Permᴰ.swap {a} {b} {a'} {b'} {l} e e') ((n, h), (h', hs)) =
    subst (λ (x : Entry). HasKeysOnce (a' ∷ x ∷ l)) e
      (subst (λ (x : Entry). HasKeysOnce (x ∷ a ∷ l)) e' ((other_way a.0 b.0 n, h'), (h, hs)))
HasKeysOnce-Perm xs zs (Permᴰ.trans {l₂} p q) h =
    HasKeysOnce-Perm l₂ zs q (HasKeysOnce-Perm xs l₂ p h)

two_keys :
    (n : Bytes) (a b : Entry) (rest : List Bytes)
    → eqb_bytes a.0 b.0 ≡ false
    → (if eqb_bytes a.0 n then a.1 else (if eqb_bytes b.0 n then b.1 else rest))
      ≡ (if eqb_bytes b.0 n then b.1 else (if eqb_bytes a.0 n then a.1 else rest))
two_keys n a b rest h = elim (Bool-cases (eqb_bytes a.0 n)) [
  | inl t ↦
      let z : eqb_bytes b.0 n ≡ false =
        other_way n b.0 (subst (λ x. eqb_bytes x b.0 ≡ false) (eqb_bytes→eq a.0 n t) h) in
      rw t (rw z refl)
  | inr f ↦ rw f refl
]

sqls_of-Perm :
    (n : Bytes) (xs ys : Sqls) → Permᴰ xs ys → HasKeysOnce xs → sqls_of n xs ≡ sqls_of n ys
unfolding sqls_of
sqls_of-Perm n _ _ Permᴰ.nil h = refl
sqls_of-Perm n _ _ (Permᴰ.cons {a} {b} {l₁} {l₂} e p) (h, hs) =
    ap (λ (l : List Bytes). if eqb_bytes a.0 n then a.1 else l) (sqls_of-Perm n l₁ l₂ p hs)
    ∙ ap (λ (x : Entry). sqls_of n (x ∷ l₂)) e
sqls_of-Perm n _ _ (Permᴰ.swap {a} {b} {a'} {b'} {l} e e') ((k, h), (h', hs)) =
    two_keys n a b (sqls_of n l) k
    ∙ ap (λ (x : Entry). sqls_of n (x ∷ a ∷ l)) e'
    ∙ ap (λ (x : Entry). sqls_of n (a' ∷ x ∷ l)) e
sqls_of-Perm n xs zs (Permᴰ.trans {l₂} p q) h =
    sqls_of-Perm n xs l₂ p h ∙ sqls_of-Perm n l₂ zs q (HasKeysOnce-Perm xs l₂ p h)

-- Measures of a map that add up over its entries do not depend on their order.
counts-Perm :
    (xs ys : Sqls) → Permᴰ xs ys → (result_count xs ≡ result_count ys) × (length xs ≡ length ys)
unfolding result_count
counts-Perm _ _ Permᴰ.nil = (refl, refl)
counts-Perm _ _ (Permᴰ.cons {a} {b} {l₁} {l₂} e p) =
    let (c, l) = counts-Perm l₁ l₂ p in
    (omega (arith, c, ap (λ (x : Entry). length x.1) e), omega (arith, l))
counts-Perm _ _ (Permᴰ.swap e e') = (
  omega (arith, ap (λ (x : Entry). length x.1) e, ap (λ (x : Entry). length x.1) e'),
  omega arith,
)
counts-Perm xs zs (Permᴰ.trans {l₂} p q) =
    let (c, l) = counts-Perm xs l₂ p in let (d, m) = counts-Perm l₂ zs q in (c ∙ d, l ∙ m)

-- What comes of replies: all results, or those before the first error, with nil for the rest.
abbrev pub IsOutcome : List Executed → List (Option ExecResult) × Option Error → Type 0
IsOutcome rs out =
    ((vs : List ExecResult) × (rs ≡ map returned vs) × (out ≡ (map some vs, none)))
    ⊎ ((vs : List ExecResult) × (e : Error) × (rest : List Executed) × (rs
          ≡ map returned vs ++ (failed e ∷ rest))
        × (out ≡ (map some vs ++ replicate (suc (length rest)) none, some e)))

length-slots : (rs : List Executed) → length (map some rs) ≡ length rs
length-slots [] = refl
length-slots (r ∷ rs) = ap suc (length-slots rs)

collect-IsOutcome : (rs : List Executed) → IsOutcome rs (collect (map some rs))
unfolding collect
collect-IsOutcome [] = inl ([], refl, refl)
collect-IsOutcome (failed e ∷ rs) =
    inr ([], e, rs, refl, ap (λ (n : ℕ). (replicate (suc n) none, some e)) (length-slots rs))
collect-IsOutcome (returned r ∷ rs) = elim (collect-IsOutcome rs) [
  | inl (vs, p, q) ↦ inl (r ∷ vs, ap (λ l. returned r ∷ l) p, ap (λ o. (some r ∷ o.0, o.1)) q)
  | inr (vs, e, rest, p, q) ↦
      inr (r ∷ vs, e, rest, ap (λ l. returned r ∷ l) p, ap (λ o. (some r ∷ o.0, o.1)) q)
]

some_append : (xs ys : List Executed) → map some (xs ++ ys) ≡ map some xs ++ map some ys
some_append [] ys = refl
some_append (x ∷ xs) ys = ap (λ l. some x ∷ l) (some_append xs ys)

module _ {Co : Type 0} (execute : Co → Bytes → Executed × Co) where
  -- A node, its connection, and its statements.
  abbrev pub Job : Type 0
  Job = Bytes × Co × List Bytes

  abbrev pub conns_of : List Job → List (Bytes × Co)
  conns_of js = map (λ j. (j.0, j.1)) js

  abbrev pub entries_of : List Job → Sqls
  entries_of js = map (λ j. (j.0, j.2)) js

  -- What a connection replies to statements, each after the one before it.
  unfoldable pub replies : List Bytes → Co → List Executed
  replies [] co = []
  replies (v ∷ vs) co = (execute co v).0 ∷ replies vs (execute co v).1

  unfoldable pub all_replies : List Job → List Executed
  all_replies [] = []
  all_replies ((name, co, vs) ∷ js) = replies vs co ++ all_replies js

  answers-replies : (vs : List Bytes) (co : Co) → answers execute vs co ≡ map some (replies vs co)
  unfolding answers replies
  answers-replies [] co = refl
  answers-replies (v ∷ vs) co =
      ap (λ l. some (execute co v).0 ∷ l) (answers-replies vs (execute co v).1)

  -- The map has the statements of every job.
  abbrev Finds : Sqls → List Job → Type 0
  Finds sqls js = All (λ (j : Job). sqls_of j.0 sqls ≡ j.2) js

  all_answers-replies :
      (js : List Job) (sqls : Sqls)
      → Finds sqls js
      → all_answers execute (conns_of js) sqls ≡ map some (all_replies js)
  unfolding all_answers all_replies
  all_answers-replies [] sqls h = refl
  all_answers-replies ((name, co, vs) ∷ js) sqls (h, hs) =
      ap (λ (l : List Bytes). answers execute l co ++ all_answers execute (conns_of js) sqls) h
      ∙ ap (λ l. l ++ all_answers execute (conns_of js) sqls) (answers-replies vs co)
      ∙ ap (λ l. map some (replies vs co) ++ l) (all_answers-replies js sqls hs)
      ∙ sym (some_append (replies vs co) (all_replies js))

  found-all :
      (js : List Job) (sqls : Sqls)
      → Finds sqls js
      → found execute (conns_of js) sqls ≡ result_count (entries_of js)
  unfolding found result_count
  found-all [] sqls h = refl
  found-all ((name, co, vs) ∷ js) sqls (h, hs) = omega (arith, ap length h, found-all js sqls hs)

  same_length : (js : List Job) → length (conns_of js) ≡ length (entries_of js)
  same_length [] = refl
  same_length (j ∷ js) = ap suc (same_length js)

  behind :
      (name : Bytes) (ss : List Bytes) (sqls : Sqls) (js : List Job)
      → All (λ (d : Entry). eqb_bytes name d.0 ≡ false) (entries_of js)
      → Finds sqls js
      → Finds ((name, ss) ∷ sqls) js
  unfolding sqls_of
  behind name ss sqls [] n h = tt
  behind name ss sqls (j ∷ js) (n, ns) (h, hs) = (rw n h, behind name ss sqls js ns hs)

  entries-Finds : (js : List Job) → HasKeysOnce (entries_of js) → Finds (entries_of js) js
  unfolding sqls_of
  entries-Finds [] h = tt
  entries-Finds ((name, co, vs) ∷ js) (h, hs) =
      (rw (eqb_bytes_refl name) refl, behind name vs (entries_of js) js h (entries-Finds js hs))

  permuted :
      (xs ys : Sqls) (js : List Job) → Permᴰ xs ys → HasKeysOnce xs → Finds xs js → Finds ys js
  permuted xs ys [] p k h = tt
  permuted xs ys (j ∷ js) p k (h, hs) =
      (sym (sqls_of-Perm j.0 xs ys p k) ∙ h, permuted xs ys js p k hs)

  -- Take at least one node, each with a connection and statements, no two with the same name, and
  -- the maps of the connections and of the statements, which Go may range over in different orders.
  -- The call returns, without a panic, and what it returns is made of what the connections reply to
  -- their statements in turn, connection by connection: all the results, in this order, if every
  -- reply is one, and otherwise the first error and the results before it.
  pub execute_in_multi_nodes-replies :
      (js : List Job) (sqls : Sqls)
      → 1 ≤ length js
      → HasKeysOnce (entries_of js)
      → Permᴰ (entries_of js) sqls
      → (out : List (Option ExecResult) × Option Error) × (execute_in_multi_nodes execute
            (conns_of js)
            sqls
          ≡ ok out)
        × IsOutcome (all_replies js) out
  execute_in_multi_nodes-replies js sqls some_node once p =
      let finds = permuted (entries_of js) sqls js p once (entries-Finds js once) in
      let (counted, long) = counts-Perm (entries_of js) sqls p in
      (
        collect (map some (all_replies js)),
        slots_filled execute (conns_of js) sqls (same_length js ∙ long)
              (omega (arith, some_node, conns_length js)) (found-all js sqls finds ∙ counted)
            ∙ ap (λ l. ok (collect l)) (all_answers-replies js sqls finds),
        collect-IsOutcome (all_replies js),
      )
    where
      conns_length : (l : List Job) → length (conns_of l) ≡ length l
      conns_length [] = refl
      conns_length (j ∷ l) = ap suc (conns_length l)
