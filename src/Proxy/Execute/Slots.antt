-- ===== src/Proxy/Execute/Slots.antt =====
-- Every statement's result stands in a slot of its own.
use kingshard.Prelude.{
  ℕ, suc, ◌+◌, ◌≤◌, Bytes, List, [], ◌∷◌, ◌++◌, append_assoc, append-nil, length, length-append,
  set, replicate, Option, none, some, ◌≡◌, refl, sym, ap, ◌∙◌, arith,
}
use kingshard.Outcome.{ok, ◌>>=◌}
use kingshard.Proxy.Execute.{
  Executed, Sqls, result_count, sqls_of, put_slot, collect, run_node, run_nodes,
  execute_in_multi_nodes,
}

set-append :
    {A : Type 0} (xs : List A) (a b : A) (ys : List A)
    → set (xs ++ (a ∷ ys)) (length xs) b ≡ (xs ++ (b ∷ [])) ++ ys
set-append [] a b ys = refl
set-append (x ∷ xs) a b ys = ap (λ l. x ∷ l) (set-append xs a b ys)

abbrev empty : ℕ → List (Option Executed)
empty k = replicate k none

put_slot-next :
    (rs : List (Option Executed)) (r : Executed) (k : ℕ)
    → put_slot (rs ++ empty (suc k)) (length rs) r ≡ ok ((rs ++ (some r ∷ [])) ++ empty k)
unfolding put_slot
put_slot-next rs r k =
    ground (arith, length-append rs (empty (suc k)), set-append rs none (some r) (empty k))

plus_zero : (n : ℕ) → n ≡ n + 0
plus_zero n = omega arith

zero_plus : (n : ℕ) → 0 + n ≡ n
zero_plus n = omega arith

module _ {Co : Type 0} (execute : Co → Bytes → Executed × Co) where
  -- What a connection answers to statements in turn.
  unfoldable pub answers : List Bytes → Co → List (Option Executed)
  answers [] co = []
  answers (v ∷ vs) co = let (r, co') = execute co v in some r ∷ answers vs co'

  length-answers : (vs : List Bytes) (co : Co) → length (answers vs co) ≡ length vs
  unfolding answers
  length-answers [] co = refl
  length-answers (v ∷ vs) co = ap suc (length-answers vs (execute co v).1)

  -- All answers, connection by connection.
  unfoldable pub all_answers : List (Bytes × Co) → Sqls → List (Option Executed)
  all_answers [] sqls = []
  all_answers ((name, co) ∷ conns) sqls = answers (sqls_of name sqls) co ++ all_answers conns sqls

  run_node-answers :
      (rs : List (Option Executed)) (vs : List Bytes) (co : Co) (k : ℕ)
      → run_node execute (rs ++ empty (length vs + k)) (length rs) vs co
        ≡ ok ((rs ++ answers vs co) ++ empty k)
  unfolding run_node answers
  run_node-answers rs [] co k =
      ap (λ n. ok (rs ++ empty n)) (zero_plus k) ∙ ap (λ l. ok (l ++ empty k)) (sym (append-nil rs))
  run_node-answers rs (v ∷ vs) co k =
      let (r, co') = execute co v in
      let behind = rs ++ (some r ∷ []) in
      let is_next : suc (length rs) ≡ length behind =
        omega (arith, length-append rs (some r ∷ [])) in
      let regroup : suc (length vs) + k ≡ suc (length vs + k) = omega arith in
      ap
        (λ m. put_slot (rs ++ empty m) (length rs) r >>= λ rs'.
          run_node execute rs' (suc (length rs)) vs co')
        regroup
      ∙ ap (λ q. q >>= λ rs'. run_node execute rs' (suc (length rs)) vs co')
          (put_slot-next rs r (length vs + k))
      ∙ ap (λ n. run_node execute (behind ++ empty (length vs + k)) n vs co') is_next
      ∙ run_node-answers behind vs co' k
      ∙ ap (λ l. ok (l ++ empty k)) (append_assoc rs (some r ∷ []) (answers vs co'))

  -- The number of statements that the connections find in the map.
  unfoldable pub found : List (Bytes × Co) → Sqls → ℕ
  found [] sqls = 0
  found ((name, co) ∷ conns) sqls = length (sqls_of name sqls) + found conns sqls

  run_nodes-answers :
      (conns : List (Bytes × Co)) (sqls : Sqls) (rs : List (Option Executed)) (k : ℕ)
      → run_nodes execute conns sqls (length rs) (rs ++ empty (found conns sqls + k))
        ≡ ok ((rs ++ all_answers conns sqls) ++ empty k)
  unfolding run_nodes all_answers found
  run_nodes-answers [] sqls rs k =
      ap (λ n. ok (rs ++ empty n)) (zero_plus k) ∙ ap (λ l. ok (l ++ empty k)) (sym (append-nil rs))
  run_nodes-answers ((name, co) ∷ conns) sqls rs k =
      let s = sqls_of name sqls in
      let n = found conns sqls in
      let behind = rs ++ answers s co in
      let is_next : length rs + length s ≡ length behind =
        omega (arith, length-append rs (answers s co), length-answers s co) in
      let regroup : (length s + n) + k ≡ length s + (n + k) = omega arith in
      ap
        (λ m. run_node execute (rs ++ empty m) (length rs) s co >>= λ rs'.
          run_nodes execute conns sqls (length rs + length s) rs')
        regroup
      ∙ ap (λ q. q >>= λ rs'. run_nodes execute conns sqls (length rs + length s) rs')
          (run_node-answers rs s co (n + k))
      ∙ ap (λ m. run_nodes execute conns sqls m (behind ++ empty (n + k))) is_next
      ∙ run_nodes-answers conns sqls behind k
      ∙ ap (λ l. ok (l ++ empty k)) (append_assoc rs (answers s co) (all_answers conns sqls))

  -- The goroutines stay inside the slots.
  pub slots_filled :
      (conns : List (Bytes × Co)) (sqls : Sqls)
      → length conns ≡ length sqls
      → 1 ≤ length conns
      → found conns sqls ≡ result_count sqls
      → execute_in_multi_nodes execute conns sqls ≡ ok (collect (all_answers conns sqls))
  unfolding execute_in_multi_nodes
  slots_filled conns sqls e h f =
      let ran : run_nodes execute conns sqls 0 (empty (result_count sqls))
          ≡ ok (all_answers conns sqls) =
        ap (λ n. run_nodes execute conns sqls 0 (empty n)) (sym f ∙ plus_zero (found conns sqls))
        ∙ run_nodes-answers conns sqls [] 0
        ∙ ap ok (append-nil (all_answers conns sqls)) in
      ground (arith, e, h, ran)
