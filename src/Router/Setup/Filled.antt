-- ===== src/Router/Setup/Filled.antt =====
-- What the loops over Locations and DateRange fill in: the tables in order, each with a node.
use kingshard.Prelude.{
  ℕ, zero, suc, ◌+◌, ◌≤◌, ℤ, pos, ◌+ℤ◌, +ℤ_parts, eq_of_parts, ◌≤ℤ◌, ◌<ℤ◌, pos_part, leb_ℤ, Bytes,
  List, [], ◌∷◌, ◌++◌, All, IsSorted, ◌≡◌, refl, sym, subst, ap, ◌∙◌, inl, inr, arith, Bool-cases,
  true, not, length, some,
}
use kingshard.Outcome.{Result, ok, both_returned}
use kingshard.Router.IntList.{count_from}
use kingshard.Router.IntList.Slices.{count_from-IsSorted}
use kingshard.Router.Shard.{sum_ints}
use kingshard.Router.Setup.{Tables, add_tables, locate, last, follows, add_dates}
use kingshard.Router.Setup.Tables.{IsFilled, add_tables-IsFilled, Chain-join}

-- The number of tables at locations that are not negative.
abbrev pub total : List ℤ → ℕ
total [] = 0
total (l ∷ ls) = pos_part l + total ls

pub sum_ints-total : (ls : List ℤ) → All (λ l. pos 0 ≤ℤ l) ls → sum_ints ls ≡ pos (total ls)
unfolding sum_ints ◌+ℤ◌
sum_ints-total [] a = refl
sum_ints-total (l ∷ ls) a = ground (arith, sum_ints-total ls a.1)

plus_pos : (s : ℤ) → s +ℤ pos 0 ≡ s
plus_pos s = eq_of_parts (s +ℤ pos 0) s (omega (arith, +ℤ_parts s (pos 0)))

plus_suc : (s : ℤ) (m : ℕ) → s +ℤ pos 1 +ℤ pos m ≡ s +ℤ pos (suc m)
plus_suc s m =
    eq_of_parts (s +ℤ pos 1 +ℤ pos m) (s +ℤ pos (suc m))
      (omega (arith, +ℤ_parts s (pos 1), +ℤ_parts (s +ℤ pos 1) (pos m), +ℤ_parts s (pos (suc m))))

count_from-append :
    (s : ℤ) (m n : ℕ) → count_from s (m + n) ≡ count_from s m ++ count_from (s +ℤ pos m) n
unfolding count_from
count_from-append s zero n =
    ap (λ (k : ℕ). count_from s k) (omega arith) ∙ ap (λ (z : ℤ). count_from z n) (sym (plus_pos s))
count_from-append s (suc m) n =
    ap (λ (k : ℕ). count_from s k) {x = suc m + n} {y = suc (m + n)} (omega arith)
    ∙ ap (◌∷◌ s) (count_from-append (s +ℤ pos 1) m n)
    ∙ ap (λ (z : ℤ). s ∷ (count_from (s +ℤ pos 1) m ++ count_from z n)) (plus_suc s m)

pos_plus : (k : ℕ) (l : ℤ) → pos 0 ≤ℤ l → pos k +ℤ l ≡ pos (k + pos_part l)
unfolding ◌+ℤ◌
pos_plus k l h = ground arith

zero_plus : (k : ℕ) → pos 0 +ℤ pos k ≡ pos k
unfolding ◌+ℤ◌
zero_plus k = ground arith

-- The locations fill in the tables 0, 1, 2, ... up to their total.
pub locate-IsFilled :
    (n i k : ℕ) (ls : List ℤ) (st : Tables)
    → All (λ l. pos 0 ≤ℤ l) ls
    → i + length ls ≤ n
    → IsFilled n st
    → st.0 ≡ count_from (pos 0) k
    → IsFilled n (locate i (pos k) ls st)
      × ((locate i (pos k) ls st).0 ≡ count_from (pos 0) (k + total ls))
unfolding locate
locate-IsFilled n i k [] st a h f e = (f, e ∙ ap (λ (j : ℕ). count_from (pos 0) j) (omega arith))
locate-IsFilled n i k (l ∷ ls) st a h f e =
    let joined : st.0 ++ count_from (pos k) (pos_part l) ≡ count_from (pos 0) (k + pos_part l) =
      ap (λ (xs : List ℤ). xs ++ count_from (pos k) (pos_part l)) e
      ∙ ap (λ (z : ℤ). count_from (pos 0) k ++ count_from z (pos_part l)) (sym (zero_plus k))
      ∙ sym (count_from-append (pos 0) k (pos_part l)) in
    let (g, q) =
      add_tables-IsFilled n i (count_from (pos k) (pos_part l)) st (omega arith) f
        (rw joined (count_from-IsSorted (pos 0) (k + pos_part l))) in
    let (r, t) =
      locate-IsFilled n (suc i) (k + pos_part l) ls
        (add_tables i (count_from (pos k) (pos_part l)) st) a.1 (omega arith) g (q ∙ joined) in
    subst
      (λ (z : ℤ).
        IsFilled n (locate (suc i) z ls (add_tables i (count_from (pos k) (pos_part l)) st))
        × ((locate (suc i) z ls (add_tables i (count_from (pos k) (pos_part l)) st)).0
            ≡ count_from (pos 0) (k + (pos_part l + total ls))))
      (sym (pos_plus k l a.0)) (r, t ∙ ap (λ (j : ℕ). count_from (pos 0) j) (omega arith))

some-last : (x : ℤ) (xs : List ℤ) → (y : ℤ) × (last (x ∷ xs) ≡ some y)
unfolding last
some-last x [] = (x, refl)
some-last x (z ∷ zs) = some-last z zs

follows-IsSorted :
    (subs ns : List ℤ)
    → IsSorted subs
    → IsSorted ns
    → follows subs ns ≡ ok true
    → IsSorted (subs ++ ns)
unfolding follows last
follows-IsSorted [] ns s t e = t
follows-IsSorted (x ∷ xs) [] s t e = let (y, q) = some-last x xs in cc (rw (q, follows) at e)
follows-IsSorted (x ∷ xs) (n ∷ ns) s t e =
    let (y, q) = some-last x xs in
    Chain-join x xs (n ∷ ns) s t y q (above y n (rw (q, follows) at e), t)
  where
    above : (y n : ℤ) → ok (not (leb_ℤ n y)) ≡ ok true → y <ℤ n
    above y n e = ground arith

-- The date ranges fill in the dates that the parser returns, if it returns them in order.
pub add_dates-IsFilled :
    (parse : Bytes → Result (List ℤ)) (n i : ℕ) (ds : List Bytes) (st st' : Tables)
    → ((d : Bytes) (l : List ℤ) → parse d ≡ ok l → IsSorted l)
    → i + length ds ≤ n
    → IsFilled n st
    → add_dates parse i ds st ≡ ok st'
    → IsFilled n st'
unfolding add_dates
add_dates-IsFilled parse n i [] st st' p h f e = ground arith
add_dates-IsFilled parse n i (d ∷ ds) (subs, m) st' p h f e =
    let (ns, en, e') = both_returned (parse d) _ e in
    let (fits, ef, e'') = both_returned (follows subs ns) _ e' in
    elim (Bool-cases fits) [
      | inl y ↦
          add_dates-IsFilled parse n (suc i) ds (add_tables i ns (subs, m)) st' p (omega arith)
            (add_tables-IsFilled n i ns (subs, m) (omega arith) f
              (follows-IsSorted subs ns f.sorted (p d ns en) (rw y at ef))).0
            (rw y at e'')
      | inr no_fit ↦ cc (rw no_fit at e'')
    ]
