-- ===== src/Proxy/Execute/Merged.antt =====
-- The results of several nodes are merged whatever order the map of connections has.
use mathlib.Core.List.{Permᴰ}
use kingshard.Prelude.{
  ℕ, zero, suc, ◌+◌, ◌*◌, ◌/◌, ◌%◌, ◌^◌, ◌≤◌, List, map, All, some, if◌then◌else◌, ltb, ◌==◌,
  to_i64, ◌≡◌, refl, sym, ap, ◌∙◌, subst, arith,
}
use kingshard.Outcome.{ok, ◌>>=◌}
use kingshard.Proxy.Execute.{
  ExecResult, Remembered, bit_or, merge_id, merge_result, merge_loop, merge_exec_result,
}

abbrev low : ℕ → ℕ → ℕ
low a b = if a % 2 == 0 then b % 2 else 1

bit_or-low : (n a b : ℕ) → bit_or (suc n) a b ≡ low a b + 2 * bit_or n (a / 2) (b / 2)
unfolding bit_or
bit_or-low n a b = ground arith

bit_or-halves :
    (n a b : ℕ)
    → (bit_or (suc n) a b / 2 ≡ bit_or n (a / 2) (b / 2)) × (bit_or (suc n) a b % 2 ≡ low a b)
bit_or-halves n a b = (ground (arith, bit_or-low n a b), ground (arith, bit_or-low n a b))

bit_or-swap : (n s a b : ℕ) → bit_or n (bit_or n s a) b ≡ bit_or n (bit_or n s b) a
unfolding bit_or
bit_or-swap zero s a b = refl
bit_or-swap (suc n) s a b =
    let (ha, la) = bit_or-halves n s a in
    let (hb, lb) = bit_or-halves n s b in
    let inner : bit_or n (bit_or (suc n) s a / 2) (b / 2)
        ≡ bit_or n (bit_or (suc n) s b / 2) (a / 2) =
      ap (λ x. bit_or n x (b / 2)) ha
      ∙ bit_or-swap n (s / 2) (a / 2) (b / 2)
      ∙ ap (λ x. bit_or n x (a / 2)) (sym hb) in
    let outer : low (bit_or (suc n) s a) b ≡ low (bit_or (suc n) s b) a = ground (arith, la, lb) in
    bit_or-low n (bit_or (suc n) s a) b
    ∙ ap (λ x. low (bit_or (suc n) s a) b + 2 * x) inner
    ∙ ap (λ x. x + 2 * bit_or n (bit_or (suc n) s b / 2) (a / 2)) outer
    ∙ sym (bit_or-low n (bit_or (suc n) s b) a)

merge_id-swap : (i a b : ℕ) → 1 ≤ a → 1 ≤ b → merge_id (merge_id i a) b ≡ merge_id (merge_id i b) a
unfolding merge_id
merge_id-swap i a b ha hb = ground arith

sum-swap : (r a b : ℕ) → ((r + a) % 2 ^ 64 + b) % 2 ^ 64 ≡ ((r + b) % 2 ^ 64 + a) % 2 ^ 64
sum-swap r a b = omega arith

-- The statement made an insert id.
abbrev pub HasId : ExecResult → Type 0
HasId v = 1 ≤ v.insert_id

merge_result-swap :
    (r v w : ExecResult)
    → HasId v
    → HasId w
    → merge_result (merge_result r v) w ≡ merge_result (merge_result r w) v
unfolding merge_result
merge_result-swap r v w hv hw = λ i. record {
  status = bit_or-swap 16 r.status v.status w.status i;
  insert_id = merge_id-swap r.insert_id v.insert_id w.insert_id hv hw i;
  affected_rows = sum-swap r.affected_rows v.affected_rows w.affected_rows i;
}

pub All-Perm : {A : Type 0} (P : A → Type 0) (xs ys : List A) → Permᴰ xs ys → All P xs → All P ys
All-Perm P _ _ Permᴰ.nil h = tt
All-Perm P _ _ (Permᴰ.cons {l₁} {l₂} e p) (h, hs) = (subst P e h, All-Perm P l₁ l₂ p hs)
All-Perm P _ _ (Permᴰ.swap e e') (h, (h', hs)) = (subst P e' h', (subst P e h, hs))
All-Perm P xs zs (Permᴰ.trans {l₂} p q) h = All-Perm P l₂ zs q (All-Perm P xs l₂ p h)

merge_loop-order :
    (rs rs' : List ExecResult) (r : ExecResult)
    → Permᴰ rs rs'
    → All HasId rs
    → merge_loop r (map some rs) ≡ merge_loop r (map some rs')
unfolding merge_loop
merge_loop-order _ _ r Permᴰ.nil h = refl
merge_loop-order _ _ r (Permᴰ.cons {a} {b} {l₁} {l₂} e p) (h, hs) =
    merge_loop-order l₁ l₂ (merge_result r a) p hs
    ∙ ap (λ x. merge_loop (merge_result r x) (map some l₂)) e
merge_loop-order _ _ r (Permᴰ.swap {a} {b} {a'} {b'} {l} e e') (h, (h', hs)) =
    ap (λ x. merge_loop x (map some l)) (merge_result-swap r a b h h')
    ∙ ap (λ x. merge_loop (merge_result (merge_result r x) a) (map some l)) e'
    ∙ ap (λ x. merge_loop (merge_result (merge_result r a') x) (map some l)) e
merge_loop-order xs zs r (Permᴰ.trans {l₂} p q) h =
    merge_loop-order xs l₂ r p h ∙ merge_loop-order l₂ zs r q (All-Perm HasId xs l₂ p h)

-- The answer and what the session remembers do not depend on the order in which the nodes were
-- ranged over, where every result has an insert id.
pub merge_exec_result-order :
    (rs rs' : List ExecResult) (c : Remembered)
    → Permᴰ rs rs'
    → All HasId rs
    → merge_exec_result (map some rs) c ≡ merge_exec_result (map some rs') c
unfolding merge_exec_result
merge_exec_result-order rs rs' c p h =
    ap
      (λ m. m >>= λ r. ok (
        r,
        record {
          last_insert_id = if ltb 0 r.insert_id then to_i64 r.insert_id else c.last_insert_id;
          affected_rows = to_i64 r.affected_rows;
        },
      ))
      (merge_loop-order rs rs' (record { status = 0; insert_id = 0; affected_rows = 0 }) p h)
