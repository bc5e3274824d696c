-- ===== src/Router/IntList/Merge.antt =====
-- `inter_list`, `union_list` and `different_list` compute the set operations on sorted lists.
use kingshard.Prelude.{
  ℤ, List, [], ◌∷◌, In, Chain, IsSorted, Chain-mono, Chain-lt, Chain-IsSorted, ◌≡◌, refl, ◌⊎◌, ◌↔◌,
  inl, inr, arith, eqb_ℤ, ltb_ℤ, eqb_ℤ→eq, eq_of_parts, false, ◌<ℤ◌,
}
use kingshard.Router.IntList.{
  inter_loop, inter_list, union_loop, union_list, different_loop, different_list,
}

lt_of_not : (x y : ℤ) → eqb_ℤ x y ≡ false → ltb_ℤ x y ≡ false → y <ℤ x
lt_of_not x y h k = ground arith

-- `a` is no member of a list that starts above it.
not_In_above : (a y : ℤ) (ys : List ℤ) → a <ℤ y → Chain y ys → ¬ In a (y ∷ ys)
not_In_above a y ys h c (inl e) = ground arith
not_In_above a y ys h c (inr m) = omega (arith, Chain-lt y a ys c m)

inter_loop-In :
    (a : ℤ) (xs ys : List ℤ)
    → IsSorted xs
    → IsSorted ys
    → In a xs
    → In a ys
    → In a (inter_loop xs ys)
unfolding inter_loop
inter_loop-In a [] ys sx sy hx hy = absurd hx
inter_loop-In a (x ∷ xs) [] sx sy hx hy = absurd hy
inter_loop-In a (x ∷ xs) (y ∷ ys) sx sy hx hy = ground (
  arith,
  eqb_ℤ→eq x y,
  lt_of_not x y,
  not_In_above a y ys,
  not_In_above a x xs,
  Chain-IsSorted x xs,
  Chain-IsSorted y ys,
  inter_loop-In a xs ys,
  inter_loop-In a xs (y ∷ ys),
  inter_loop-In a (x ∷ xs) ys,
)

inter_loop-sub : (a : ℤ) (xs ys : List ℤ) → In a (inter_loop xs ys) → In a xs × In a ys
unfolding inter_loop
inter_loop-sub a [] ys h = absurd h
inter_loop-sub a (x ∷ xs) [] h = absurd h
inter_loop-sub a (x ∷ xs) (y ∷ ys) h = ground (
  arith,
  eqb_ℤ→eq x y,
  inter_loop-sub a xs ys,
  inter_loop-sub a xs (y ∷ ys),
  inter_loop-sub a (x ∷ xs) ys,
)

inter_loop-Chain :
    (lo : ℤ) (xs ys : List ℤ) → Chain lo xs → Chain lo ys → Chain lo (inter_loop xs ys)
unfolding inter_loop
inter_loop-Chain lo [] ys cx cy = tt
inter_loop-Chain lo (x ∷ xs) [] cx cy = tt
inter_loop-Chain lo (x ∷ xs) (y ∷ ys) cx cy = ground (
  arith,
  eqb_ℤ→eq x y,
  Chain-mono x lo xs,
  Chain-mono y lo ys,
  inter_loop-Chain x xs ys,
  inter_loop-Chain lo xs (y ∷ ys),
  inter_loop-Chain lo (x ∷ xs) ys,
)

inter_loop-IsSorted : (xs ys : List ℤ) → IsSorted xs → IsSorted ys → IsSorted (inter_loop xs ys)
unfolding inter_loop
inter_loop-IsSorted [] ys sx sy = tt
inter_loop-IsSorted (x ∷ xs) [] sx sy = tt
inter_loop-IsSorted (x ∷ xs) (y ∷ ys) sx sy = ground (
  arith,
  eqb_ℤ→eq x y,
  Chain-IsSorted x xs,
  Chain-IsSorted y ys,
  inter_loop-Chain x xs ys,
  inter_loop-IsSorted xs (y ∷ ys),
  inter_loop-IsSorted (x ∷ xs) ys,
)

inter_list-loop : (xs ys : List ℤ) → inter_list xs ys ≡ inter_loop xs ys
unfolding inter_list inter_loop
inter_list-loop [] ys = refl
inter_list-loop (x ∷ xs) [] = refl
inter_list-loop (x ∷ xs) (y ∷ ys) = refl

-- On two sorted index lists, `inter_list` returns a sorted list whose members are exactly the
-- members of both.
pub inter_list-intersection :
    (xs ys : List ℤ)
    → IsSorted xs
    → IsSorted ys
    → IsSorted (inter_list xs ys) × ((a : ℤ) → In a (inter_list xs ys) ↔ (In a xs × In a ys))
inter_list-intersection xs ys sx sy = rw inter_list-loop (
  inter_loop-IsSorted xs ys sx sy,
  λ a. (inter_loop-sub a xs ys, λ (hx, hy). inter_loop-In a xs ys sx sy hx hy),
)

union_loop-In : (a : ℤ) (xs ys : List ℤ) → In a xs ⊎ In a ys → In a (union_loop xs ys)
unfolding union_loop
union_loop-In a [] ys h = ground arith
union_loop-In a (x ∷ xs) [] h = ground arith
union_loop-In a (x ∷ xs) (y ∷ ys) h = ground (
  arith,
  eq_of_parts x y,
  union_loop-In a xs ys,
  union_loop-In a xs (y ∷ ys),
  union_loop-In a (x ∷ xs) ys,
)

union_loop-sub : (a : ℤ) (xs ys : List ℤ) → In a (union_loop xs ys) → In a xs ⊎ In a ys
unfolding union_loop
union_loop-sub a [] ys h = inr h
union_loop-sub a (x ∷ xs) [] h = inl h
union_loop-sub a (x ∷ xs) (y ∷ ys) h =
    ground
      (arith, union_loop-sub a xs ys, union_loop-sub a xs (y ∷ ys), union_loop-sub a (x ∷ xs) ys)

union_loop-Chain :
    (lo : ℤ) (xs ys : List ℤ) → Chain lo xs → Chain lo ys → Chain lo (union_loop xs ys)
unfolding union_loop
union_loop-Chain lo [] ys cx cy = cy
union_loop-Chain lo (x ∷ xs) [] cx cy = cx
union_loop-Chain lo (x ∷ xs) (y ∷ ys) cx cy = ground (
  arith,
  eq_of_parts x y,
  union_loop-Chain x xs ys,
  union_loop-Chain x xs (y ∷ ys),
  union_loop-Chain y (x ∷ xs) ys,
)

union_loop-IsSorted : (xs ys : List ℤ) → IsSorted xs → IsSorted ys → IsSorted (union_loop xs ys)
unfolding union_loop
union_loop-IsSorted [] ys sx sy = sy
union_loop-IsSorted (x ∷ xs) [] sx sy = sx
union_loop-IsSorted (x ∷ xs) (y ∷ ys) sx sy = ground (
  arith,
  eq_of_parts x y,
  union_loop-Chain x xs ys,
  union_loop-Chain x xs (y ∷ ys),
  union_loop-Chain y (x ∷ xs) ys,
)

union_list-loop : (xs ys : List ℤ) → union_list xs ys ≡ union_loop xs ys
unfolding union_list union_loop
union_list-loop [] ys = refl
union_list-loop (x ∷ xs) [] = refl
union_list-loop (x ∷ xs) (y ∷ ys) = refl

-- On two sorted index lists, `union_list` returns a sorted list whose members are exactly the
-- members of either.
pub union_list-union :
    (xs ys : List ℤ)
    → IsSorted xs
    → IsSorted ys
    → IsSorted (union_list xs ys) × ((a : ℤ) → In a (union_list xs ys) ↔ (In a xs ⊎ In a ys))
union_list-union xs ys sx sy =
    rw union_list-loop
      (union_loop-IsSorted xs ys sx sy, λ a. (union_loop-sub a xs ys, union_loop-In a xs ys))

different_loop-In : (a : ℤ) (xs ys : List ℤ) → In a xs → ¬ In a ys → In a (different_loop xs ys)
unfolding different_loop
different_loop-In a [] ys h n = absurd h
different_loop-In a (x ∷ xs) [] h n = h
different_loop-In a (x ∷ xs) (y ∷ ys) h n = ground (
  arith,
  eq_of_parts x y,
  different_loop-In a xs ys,
  different_loop-In a xs (y ∷ ys),
  different_loop-In a (x ∷ xs) ys,
)

different_loop-sub :
    (a : ℤ) (xs ys : List ℤ)
    → IsSorted xs
    → IsSorted ys
    → In a (different_loop xs ys)
    → In a xs × ¬ In a ys
unfolding different_loop
different_loop-sub a [] ys sx sy h = absurd h
different_loop-sub a (x ∷ xs) [] sx sy h = (h, λ n. n)
different_loop-sub a (x ∷ xs) (y ∷ ys) sx sy h = ground (
  arith,
  eq_of_parts x y,
  not_In_above a y ys,
  not_In_above a x xs,
  Chain-lt x a xs,
  Chain-lt y a ys,
  Chain-IsSorted x xs,
  Chain-IsSorted y ys,
  different_loop-sub a xs ys,
  different_loop-sub a xs (y ∷ ys),
  different_loop-sub a (x ∷ xs) ys,
)

different_loop-Chain : (lo : ℤ) (xs ys : List ℤ) → Chain lo xs → Chain lo (different_loop xs ys)
unfolding different_loop
different_loop-Chain lo [] ys cx = tt
different_loop-Chain lo (x ∷ xs) [] cx = cx
different_loop-Chain lo (x ∷ xs) (y ∷ ys) cx = ground (
  arith,
  Chain-mono x lo xs,
  different_loop-Chain x xs (y ∷ ys),
  different_loop-Chain lo xs ys,
  different_loop-Chain lo (x ∷ xs) ys,
)

different_loop-IsSorted : (xs ys : List ℤ) → IsSorted xs → IsSorted (different_loop xs ys)
unfolding different_loop
different_loop-IsSorted [] ys sx = tt
different_loop-IsSorted (x ∷ xs) [] sx = sx
different_loop-IsSorted (x ∷ xs) (y ∷ ys) sx = ground (
  arith,
  Chain-IsSorted x xs,
  different_loop-Chain x xs (y ∷ ys),
  different_loop-IsSorted xs ys,
  different_loop-IsSorted (x ∷ xs) ys,
)

different_list-loop : (xs ys : List ℤ) → different_list xs ys ≡ different_loop xs ys
unfolding different_list different_loop
different_list-loop [] ys = refl
different_list-loop (x ∷ xs) [] = refl
different_list-loop (x ∷ xs) (y ∷ ys) = refl

-- On two sorted index lists, `different_list` returns a sorted list whose members are exactly the
-- members of the first that are not in the second.
pub different_list-difference :
    (xs ys : List ℤ)
    → IsSorted xs
    → IsSorted ys
    → IsSorted (different_list xs ys)
      × ((a : ℤ) → In a (different_list xs ys) ↔ (In a xs × ¬ In a ys))
different_list-difference xs ys sx sy = rw different_list-loop (
  different_loop-IsSorted xs ys sx,
  λ a. (different_loop-sub a xs ys sx sy, λ (hx, hy). different_loop-In a xs ys hx hy),
)
