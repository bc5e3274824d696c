-- ===== src/Router/IntList/Between.antt =====
-- The slice of a sorted index list between two of its members.
use kingshard.Prelude.{
  ℤ, pos, ◌-ℤ◌, ◌≤ℤ◌, -ℤ_parts, eq_of_parts, List, [], ◌∷◌, ◌++◌, In, Chain, IsSorted, Chain-mono,
  Chain-lt, Chain-IsSorted, In-append, In-append_left, In-append_right, ◌⊎◌, ◌↔◌, arith, none, some,
  append_assoc,
}
use kingshard.Router.IntList.{between_loop, make_between_list}

pub Chain-prefix : (lo : ℤ) (xs ys : List ℤ) → Chain lo (xs ++ ys) → Chain lo xs
Chain-prefix lo [] ys c = tt
Chain-prefix lo (x ∷ xs) ys c = (c.0, Chain-prefix x xs ys c.1)

-- What the pass over the rest returns once `start` has been met.
open_In :
    (start end a : ℤ) (acc l : List ℤ)
    → Chain start l
    → In end l
    → In a (between_loop start end (some acc) l) ↔ (In a acc ⊎ (In a l × (a ≤ℤ end)))
unfolding between_loop
open_In start end a acc [] c m = absurd m
open_In start end a acc (v ∷ vs) c m = ground (
  arith,
  eq_of_parts v end,
  Chain-lt v a vs,
  Chain-lt v end vs,
  Chain-mono v start vs,
  In-append a acc (v ∷ []),
  In-append_left a acc (v ∷ []),
  In-append_right a acc (v ∷ []),
  open_In start end a (acc ++ (v ∷ [])) vs,
)

between_In :
    (start end a : ℤ) (l : List ℤ)
    → IsSorted l
    → In start l
    → In end l
    → start ≤ℤ end
    → In a (between_loop start end none l) ↔ (In a l × (start ≤ℤ a) × (a ≤ℤ end))
unfolding between_loop
between_In start end a [] s m n h = absurd m
between_In start end a (v ∷ vs) s m n h = ground (
  arith,
  eq_of_parts v start,
  eq_of_parts v end,
  Chain-IsSorted v vs,
  Chain-lt v a vs,
  Chain-lt v start vs,
  Chain-lt v end vs,
  open_In start end a (v ∷ []) vs,
  between_In start end a vs,
)

Chain-suffix : (lo : ℤ) (xs ys : List ℤ) → Chain lo (xs ++ ys) → Chain lo ys
Chain-suffix lo [] ys c = c
Chain-suffix lo (x ∷ xs) ys c = Chain-mono x lo ys c.0 (Chain-suffix x xs ys c.1)

open_Chain :
    (lo start end : ℤ) (acc l : List ℤ)
    → Chain lo (acc ++ l)
    → Chain lo (between_loop start end (some acc) l)
unfolding between_loop
open_Chain lo start end acc [] c = tt
open_Chain lo start end acc (v ∷ vs) c = ground (
  arith,
  Chain-suffix lo acc (v ∷ vs),
  Chain-prefix lo (acc ++ (v ∷ [])) vs,
  append_assoc acc (v ∷ []) vs,
  open_Chain lo start end (acc ++ (v ∷ [])) vs,
  open_Chain lo start end (v ∷ []) vs,
)

between_Chain :
    (lo start end : ℤ) (l : List ℤ) → Chain lo l → Chain lo (between_loop start end none l)
unfolding between_loop
between_Chain lo start end [] c = tt
between_Chain lo start end (v ∷ vs) c =
    ground (
      arith,
      Chain-mono v lo vs,
      open_Chain lo start end (v ∷ []) vs,
      between_Chain lo start end vs,
    )

below_IsSorted : (l : List ℤ) → IsSorted l → (lo : ℤ) × Chain lo l
below_IsSorted [] s = (pos 0, tt)
below_IsSorted (x ∷ xs) s = (x -ℤ pos 1, (omega (arith, -ℤ_parts x (pos 1)), s))

pub make_between_list-IsSorted :
    (start end : ℤ) (l : List ℤ) → IsSorted l → IsSorted (make_between_list start end l)
unfolding make_between_list
make_between_list-IsSorted start end l s =
    let (lo, c) = below_IsSorted l s in
    ground (
      arith,
      Chain-IsSorted lo (between_loop start end none l) (between_Chain lo start end l c),
      Chain-IsSorted lo (between_loop end start none l) (between_Chain lo end start l c),
    )

between_cases :
    (start end a : ℤ) (l : List ℤ)
    → IsSorted l
    → In start l
    → In end l
    → In a (make_between_list start end l)
      ↔ (In a l × (((start ≤ℤ a) × (a ≤ℤ end)) ⊎ ((end ≤ℤ a) × (a ≤ℤ start))))
unfolding make_between_list
between_cases start end a l s m n =
    ground (arith, between_In start end a l s m n, between_In end start a l s n m)

-- On a sorted index list that holds both bounds, `make_between_list` returns, sorted, exactly the
-- indexes from the smaller bound to the larger.
make_between_list-between :
    (start end : ℤ) (l : List ℤ)
    → IsSorted l
    → In start l
    → In end l
    → IsSorted (make_between_list start end l)
      × ((a : ℤ)
          → In a (make_between_list start end l)
            ↔ (In a l × (((start ≤ℤ a) × (a ≤ℤ end)) ⊎ ((end ≤ℤ a) × (a ≤ℤ start)))))
make_between_list-between start end l s m n =
    (make_between_list-IsSorted start end l s, λ a. between_cases start end a l s m n)
