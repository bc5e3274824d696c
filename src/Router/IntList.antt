-- ===== src/Router/IntList.antt =====
-- The sets of table indexes as sorted lists: the list functions at the end of
-- proxy/router/planbuilder.go.
pub mod Merge
pub mod Slices
pub mod Between
use kingshard.Prelude.{
  ℕ, suc, zero, ◌+◌, ℤ, pos, ◌+ℤ◌, ◌-ℤ◌, pos_part, ltb_ℤ, eqb_ℤ, Bool, true, false, ◌&&◌, List, [],
  ◌∷◌, ◌++◌, map, Option, none, some, if◌then◌else◌, take, drop, length,
}
use kingshard.Outcome.{Result, ok, panic, Panic}

-- The values start, start + 1, ... of the given number.
unfoldable pub count_from : ℤ → ℕ → List ℤ
count_from start zero = []
count_from start (suc n) = start ∷ count_from (start +ℤ pos 1) n

-- `make([]int, end-start)` panics when the length is negative.
unfoldable pub make_list : ℤ → ℤ → Result (List ℤ)
make_list start end =
    if ltb_ℤ end start
    then panic Panic.make_slice_len
    else ok (count_from start (pos_part (end -ℤ start)))

-- The position of the first occurrence, which the loops of the next four functions look for.
unfoldable pub index_of : ℤ → List ℤ → Option ℕ
index_of value [] = none
index_of value (v ∷ vs) =
    if eqb_ℤ v value
    then some 0
    else elim (index_of value vs) [ none ↦ none | some k ↦ some (suc k) ]

unfoldable pub make_le_list : ℤ → List ℤ → List ℤ
unfolding index_of
make_le_list value indexes = elim (index_of value indexes) [
  | none ↦ []
  | some k ↦ take (suc k) indexes
]

unfoldable pub make_ge_list : ℤ → List ℤ → List ℤ
unfolding index_of
make_ge_list value indexes = elim (index_of value indexes) [ none ↦ [] | some k ↦ drop k indexes ]

unfoldable pub make_lt_list : ℤ → List ℤ → List ℤ
unfolding index_of
make_lt_list value indexes = elim (index_of value indexes) [ none ↦ [] | some k ↦ take k indexes ]

unfoldable pub make_gt_list : ℤ → List ℤ → List ℤ
unfolding index_of
make_gt_list value indexes = elim (index_of value indexes) [
  | none ↦ []
  | some k ↦ drop (suc k) indexes
]

-- One pass: `start_index` is set when `start` is met, and the slice is returned at `end`.
-- The slice `indexes[startIndex : endIndex+1]` is what the pass has gone over since `start`, kept
-- in `seen`; `none` stands for SetStart being false.
unfoldable pub between_loop : ℤ → ℤ → Option (List ℤ) → List ℤ → List ℤ
between_loop start end seen [] = []
between_loop start end seen (v ∷ vs) =
    let opened : Option (List ℤ) = if eqb_ℤ v start then some [] else seen in
    elim opened [
      | none ↦ between_loop start end none vs
      | some s ↦
          let rest = between_loop start end (some (s ++ (v ∷ []))) vs in
          if eqb_ℤ v end then s ++ (v ∷ []) else rest
    ]

unfoldable pub make_between_list : ℤ → ℤ → List ℤ → List ℤ
unfolding between_loop
make_between_list start end indexes =
    if ltb_ℤ end start
    then between_loop end start none indexes
    else between_loop start end none indexes

-- l1 & l2
unfoldable pub inter_loop : List ℤ → List ℤ → List ℤ
inter_loop [] ys = []
inter_loop (x ∷ xs) [] = []
inter_loop (x ∷ xs) (y ∷ ys) =
    let both = x ∷ inter_loop xs ys in
    let left = inter_loop xs (y ∷ ys) in
    let right = inter_loop (x ∷ xs) ys in
    if eqb_ℤ x y then both else if ltb_ℤ x y then left else right

unfoldable pub inter_list : List ℤ → List ℤ → List ℤ
inter_list [] l2 = []
inter_list (x ∷ xs) [] = []
inter_list (x ∷ xs) (y ∷ ys) = inter_loop (x ∷ xs) (y ∷ ys)

-- l1 | l2, with the tail that is left when one list is used up.
unfoldable pub union_loop : List ℤ → List ℤ → List ℤ
union_loop [] ys = ys
union_loop (x ∷ xs) [] = x ∷ xs
union_loop (x ∷ xs) (y ∷ ys) =
    let left = x ∷ union_loop xs (y ∷ ys) in
    let right = y ∷ union_loop (x ∷ xs) ys in
    let both = x ∷ union_loop xs ys in if ltb_ℤ x y then left else if ltb_ℤ y x then right else both

unfoldable pub union_list : List ℤ → List ℤ → List ℤ
union_list [] l2 = l2
union_list (x ∷ xs) [] = x ∷ xs
union_list (x ∷ xs) (y ∷ ys) = union_loop (x ∷ xs) (y ∷ ys)

-- l1 - l2
unfoldable pub different_loop : List ℤ → List ℤ → List ℤ
different_loop [] ys = []
different_loop (x ∷ xs) [] = x ∷ xs
different_loop (x ∷ xs) (y ∷ ys) =
    let left = x ∷ different_loop xs (y ∷ ys) in
    let right = different_loop (x ∷ xs) ys in
    let both = different_loop xs ys in if ltb_ℤ x y then left else if ltb_ℤ y x then right else both

unfoldable pub different_list : List ℤ → List ℤ → List ℤ
different_list [] l2 = []
different_list (x ∷ xs) [] = x ∷ xs
different_list (x ∷ xs) (y ∷ ys) = different_loop (x ∷ xs) (y ∷ ys)
