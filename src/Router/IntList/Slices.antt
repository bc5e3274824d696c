-- ===== src/Router/IntList/Slices.antt =====
-- The consecutive lists of `make_list`, and the slices of a sorted index list.
use kingshard.Prelude.{
  ℕ, zero, suc, ◌+◌, ◌<◌, ℤ, pos, ◌+ℤ◌, ◌-ℤ◌, ◌≤ℤ◌, ◌<ℤ◌, pos_part, neg_part, +ℤ_parts, -ℤ_parts,
  -ℤ_of_le, eq_of_parts, List, [], ◌∷◌, ◌++◌, In, Chain, IsSorted, Chain-lt, Chain-IsSorted,
  In-append, In-append_left, In-append_right, ◌≡◌, refl, ◌↔◌, inl, inr, arith, Option-cases, none,
  some, take, drop, ap,
}
use kingshard.Outcome.{ok}
use kingshard.Router.IntList.{
  count_from, make_list, index_of, make_le_list, make_ge_list, make_lt_list, make_gt_list,
}

pub count_from-In :
    (a s : ℤ) (n : ℕ)
    → s ≤ℤ a
    → pos_part a + neg_part s < pos_part s + n + neg_part a
    → In a (count_from s n)
unfolding count_from
count_from-In a s zero h k = absurd (omega arith)
count_from-In a s (suc n) h k =
    ground (arith, +ℤ_parts s (pos 1), eq_of_parts a s, count_from-In a (s +ℤ pos 1) n)

count_from-sub :
    (a s : ℤ) (n : ℕ)
    → In a (count_from s n)
    → (s ≤ℤ a) × (pos_part a + neg_part s < pos_part s + n + neg_part a)
unfolding count_from
count_from-sub a s zero h = absurd h
count_from-sub a s (suc n) h = ground (arith, +ℤ_parts s (pos 1), count_from-sub a (s +ℤ pos 1) n)

count_from-Chain : (lo s : ℤ) (n : ℕ) → lo <ℤ s → Chain lo (count_from s n)
unfolding count_from
count_from-Chain lo s zero h = tt
count_from-Chain lo s (suc n) h =
    (h, count_from-Chain s (s +ℤ pos 1) n (omega (arith, +ℤ_parts s (pos 1))))

pub count_from-IsSorted : (s : ℤ) (n : ℕ) → IsSorted (count_from s n)
unfolding count_from
count_from-IsSorted s zero = tt
count_from-IsSorted s (suc n) =
    count_from-Chain s (s +ℤ pos 1) n (omega (arith, +ℤ_parts s (pos 1)))

-- `make_list` returns for every start up to the end, sorted, exactly the integers from the start
-- to the one before the end.
pub make_list-interval :
    (start end : ℤ)
    → start ≤ℤ end
    → (l : List ℤ) × (make_list start end ≡ ok l)
      × IsSorted l
      × ((a : ℤ) → In a l ↔ ((start ≤ℤ a) × (a <ℤ end)))
unfolding make_list
make_list-interval start end h = (
  count_from start (pos_part (end -ℤ start)),
  ground arith,
  count_from-IsSorted start _,
  λ a. (
    λ m. omega (arith, -ℤ_of_le end start h, count_from-sub a start (pos_part (end -ℤ start)) m),
    λ (p, q). count_from-In a start _ p (omega (arith, -ℤ_of_le end start h)),
  ),
)

index_of-none : (v : ℤ) (l : List ℤ) → index_of v l ≡ none → ¬ In v l
unfolding index_of
index_of-none v [] e m = m
index_of-none v (x ∷ xs) e m = ground (arith, eq_of_parts v x, index_of-none v xs)

-- How a list is cut at the first occurrence of a value.
record Cut (v : ℤ) (l : List ℤ) (k : ℕ) : Type 0 where
  before : List ℤ
  after : List ℤ
  whole : l ≡ before ++ (v ∷ after)
  take_before : take k l ≡ before
  drop_before : drop k l ≡ v ∷ after
  take_through : take (suc k) l ≡ before ++ (v ∷ [])
  drop_through : drop (suc k) l ≡ after

index_of-Cut : (v : ℤ) (l : List ℤ) (k : ℕ) → index_of v l ≡ some k → Cut v l k
unfolding index_of
index_of-Cut v [] k e = cc
index_of-Cut v (x ∷ xs) zero e = record {
  before = [];
  after = xs;
  whole = ground (arith, eq_of_parts x v);
  take_before = refl;
  drop_before = ground (arith, eq_of_parts x v);
  take_through = ground (arith, eq_of_parts x v);
  drop_through = refl;
}
index_of-Cut v (x ∷ xs) (suc k) e =
    let c : Cut v xs k = index_of-Cut v xs k (ground arith) in
    record {
      before = x ∷ c.before;
      after = c.after;
      whole = ap (◌∷◌ x) c.whole;
      take_before = ap (◌∷◌ x) c.take_before;
      drop_before = c.drop_before;
      take_through = ap (◌∷◌ x) c.take_through;
      drop_through = c.drop_through;
    }

Chain-before : (lo v a : ℤ) (xs ys : List ℤ) → Chain lo (xs ++ (v ∷ ys)) → In a xs → a <ℤ v
Chain-before lo v a [] ys c m = absurd m
Chain-before lo v a (x ∷ xs) ys c (inl e) =
    rw e (Chain-lt x v (xs ++ (v ∷ ys)) c.1 (In-append_right v xs (v ∷ ys) (inl refl)))
Chain-before lo v a (x ∷ xs) ys c (inr m) = Chain-before x v a xs ys c.1 m

Chain-after : (lo v a : ℤ) (xs ys : List ℤ) → Chain lo (xs ++ (v ∷ ys)) → In a ys → v <ℤ a
Chain-after lo v a [] ys c m = Chain-lt v a ys c.1 m
Chain-after lo v a (x ∷ xs) ys c m = Chain-after x v a xs ys c.1 m

-- A sorted list cut at `v` holds what is below `v` before it and what is above `v` after it.
pub sorted_cut :
    (v a : ℤ) (xs ys : List ℤ) → IsSorted (xs ++ (v ∷ ys)) → (In a xs → a <ℤ v) × (In a ys → v <ℤ a)
sorted_cut v a [] ys s = (λ m. absurd m, λ m. Chain-lt v a ys s m)
sorted_cut v a (x ∷ xs) ys s = (
  λ m. Chain-before (x -ℤ pos 1) v a (x ∷ xs) ys (omega (arith, -ℤ_parts x (pos 1)), s) m,
  λ m. Chain-after (x -ℤ pos 1) v a (x ∷ xs) ys (omega (arith, -ℤ_parts x (pos 1)), s) m,
)

found : (v : ℤ) (l : List ℤ) → In v l → (k : ℕ) × (index_of v l ≡ some k)
found v l m = elim (Option-cases (index_of v l)) [
  | inl e ↦ absurd (index_of-none v l e m)
  | inr (k, e) ↦ (k, e)
]

-- The members of a sorted list, sorted by where they stand to one of them.
Cut-In :
    (v a : ℤ) (l : List ℤ) (k : ℕ)
    → IsSorted l
    → Cut v l k
    → (In a (take (suc k) l) ↔ (In a l × (a ≤ℤ v)))
      × (In a (drop k l) ↔ (In a l × (v ≤ℤ a)))
      × (In a (take k l) ↔ (In a l × (a <ℤ v)))
      × (In a (drop (suc k) l) ↔ (In a l × (v <ℤ a)))
Cut-In v a l k s c =
    let s' : IsSorted (c.before ++ (v ∷ c.after)) = rw (← c.whole) s in
    rw (c.take_through, c.drop_before, c.take_before, c.drop_through, c.whole)
      (ground (
        arith,
        sorted_cut v a c.before c.after s',
        In-append a c.before (v ∷ c.after),
        In-append a c.before (v ∷ []),
        In-append_left a c.before (v ∷ c.after),
        In-append_right a c.before (v ∷ c.after),
        In-append_left a c.before (v ∷ []),
        In-append_right a c.before (v ∷ []),
      ))

-- On a sorted index list that holds the value, the four slices hold exactly the indexes up to it,
-- from it on, below it and above it.
slices_of_member :
    (v : ℤ) (l : List ℤ)
    → IsSorted l
    → In v l
    → (a : ℤ)
    → (In a (make_le_list v l) ↔ (In a l × (a ≤ℤ v)))
      × (In a (make_ge_list v l) ↔ (In a l × (v ≤ℤ a)))
      × (In a (make_lt_list v l) ↔ (In a l × (a <ℤ v)))
      × (In a (make_gt_list v l) ↔ (In a l × (v <ℤ a)))
unfolding make_le_list make_ge_list make_lt_list make_gt_list
slices_of_member v l s m a =
    let (k, e) = found v l m in
    rw (e, make_le_list, make_ge_list, make_lt_list, make_gt_list)
      (Cut-In v a l k s (index_of-Cut v l k e))

Chain-take : (lo : ℤ) (k : ℕ) (l : List ℤ) → Chain lo l → Chain lo (take k l)
Chain-take lo zero l c = tt
Chain-take lo (suc k) [] c = tt
Chain-take lo (suc k) (x ∷ l) c = (c.0, Chain-take x k l c.1)

IsSorted-take : (k : ℕ) (l : List ℤ) → IsSorted l → IsSorted (take k l)
IsSorted-take zero l s = tt
IsSorted-take (suc k) [] s = tt
IsSorted-take (suc k) (x ∷ l) s = Chain-take x k l s

IsSorted-drop : (k : ℕ) (l : List ℤ) → IsSorted l → IsSorted (drop k l)
IsSorted-drop zero l s = s
IsSorted-drop (suc k) [] s = tt
IsSorted-drop (suc k) (x ∷ l) s = IsSorted-drop k l (Chain-IsSorted x l s)

pub make_le_list-IsSorted : (v : ℤ) (l : List ℤ) → IsSorted l → IsSorted (make_le_list v l)
unfolding make_le_list
make_le_list-IsSorted v l s = elim (Option-cases (index_of v l)) [
  | inl e ↦ rw (e, make_le_list, IsSorted) tt
  | inr (k, e) ↦ rw (e, make_le_list) (IsSorted-take (suc k) l s)
]

pub make_ge_list-IsSorted : (v : ℤ) (l : List ℤ) → IsSorted l → IsSorted (make_ge_list v l)
unfolding make_ge_list
make_ge_list-IsSorted v l s = elim (Option-cases (index_of v l)) [
  | inl e ↦ rw (e, make_ge_list, IsSorted) tt
  | inr (k, e) ↦ rw (e, make_ge_list) (IsSorted-drop k l s)
]
