-- ===== src/Prelude/Sets.antt =====
-- Membership and strict order of lists of integers, by recursion.
use mathlib.Core.Path.{◌≡◌}
use mathlib.Core.Logic.{◌⊎◌, inl, inr}
use mathlib.Core.List.{List, [], ◌∷◌, ◌++◌}
use native.Mathlib.Omega.{arith}
use kingshard.Prelude.Ints.{ℤ, ◌<ℤ◌}

abbrev pub In : {A : Type 0} → A → List A → Type 0
In a [] = ⊥
In a (x ∷ xs) = (a ≡ x) ⊎ In a xs

pub In-append_left : {A : Type 0} (a : A) (xs ys : List A) → In a xs → In a (xs ++ ys)
In-append_left a [] ys h = absurd h
In-append_left a (x ∷ xs) ys (inl e) = inl e
In-append_left a (x ∷ xs) ys (inr h) = inr (In-append_left a xs ys h)

pub In-append_right : {A : Type 0} (a : A) (xs ys : List A) → In a ys → In a (xs ++ ys)
In-append_right a [] ys h = h
In-append_right a (x ∷ xs) ys h = inr (In-append_right a xs ys h)

pub In-append : {A : Type 0} (a : A) (xs ys : List A) → In a (xs ++ ys) → In a xs ⊎ In a ys
In-append a [] ys h = inr h
In-append a (x ∷ xs) ys (inl e) = inl (inl e)
In-append a (x ∷ xs) ys (inr h) = ground (arith, In-append a xs ys h)

-- The list rises strictly, and starts above the bound.
abbrev pub Chain : ℤ → List ℤ → Type 0
Chain lo [] = Unit {0}
Chain lo (x ∷ xs) = (lo <ℤ x) × Chain x xs

-- The list rises strictly.
abbrev pub IsSorted : List ℤ → Type 0
IsSorted [] = Unit {0}
IsSorted (x ∷ xs) = Chain x xs

pub Chain-mono : (lo lo' : ℤ) (xs : List ℤ) → lo' <ℤ lo → Chain lo xs → Chain lo' xs
Chain-mono lo lo' [] h c = tt
Chain-mono lo lo' (x ∷ xs) h c = (omega arith, c.1)

pub Chain-IsSorted : (lo : ℤ) (xs : List ℤ) → Chain lo xs → IsSorted xs
Chain-IsSorted lo [] c = tt
Chain-IsSorted lo (x ∷ xs) c = c.1

pub Chain-lt : (lo a : ℤ) (xs : List ℤ) → Chain lo xs → In a xs → lo <ℤ a
Chain-lt lo a [] c h = absurd h
Chain-lt lo a (x ∷ xs) c (inl e) = ground arith
Chain-lt lo a (x ∷ xs) c (inr h) = omega (arith, Chain-lt x a xs c.1 h)
