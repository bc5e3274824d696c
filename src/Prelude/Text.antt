-- ===== src/Prelude/Text.antt =====
-- Go strings and byte slices as lists of byte values.
use Prim.Native.Nat.{ℕ}
use Prim.Native.Char.{code}
use Prim.Native.String.{String}
use mathlib.Core.Path.{◌≡◌, refl}
use mathlib.Core.Bool.{Bool, true, false, ◌&&◌, ◌||◌}
use mathlib.Core.Option.{Option, none, some}
use mathlib.Core.List.{List, [], ◌∷◌, ◌++◌}
use native.Mathlib.Omega.{arith}
use kingshard.Prelude.Tests.{◌==◌, ltb, if◌then◌else◌}

abbrev pub Bytes : Type 0
Bytes = List ℕ

-- The bytes of an ASCII text.
abbrev pub codes : String → Bytes
codes String.[] = []
codes (String.◌∷◌ c s) = code c ∷ codes s

unfoldable pub eqb_bytes : Bytes → Bytes → Bool
eqb_bytes [] [] = true
eqb_bytes (a ∷ as') (b ∷ bs) = a == b && eqb_bytes as' bs
eqb_bytes _ _ = false

pub eqb_bytes→eq : (a b : Bytes) → eqb_bytes a b ≡ true → a ≡ b
unfolding eqb_bytes
eqb_bytes→eq [] [] h = refl
eqb_bytes→eq (a ∷ as') (b ∷ bs) h = ground (arith, eqb_bytes→eq as' bs)
eqb_bytes→eq [] (b ∷ bs) h = cc
eqb_bytes→eq (a ∷ as') [] h = cc

pub eqb_bytes_refl : (a : Bytes) → eqb_bytes a a ≡ true
unfolding eqb_bytes
eqb_bytes_refl [] = refl
eqb_bytes_refl (a ∷ as') = ground (arith, eqb_bytes_refl as')

-- The order of Go's strings, which is that of their bytes.
unfoldable pub ltb_bytes : Bytes → Bytes → Bool
ltb_bytes [] [] = false
ltb_bytes [] (b ∷ bs) = true
ltb_bytes (a ∷ as') [] = false
ltb_bytes (a ∷ as') (b ∷ bs) = ltb a b || (a == b && ltb_bytes as' bs)

-- `strings.Trim`, for the characters of a cutset.
module _ (cut : ℕ → Bool) where
  unfoldable pub trim_left : Bytes → Bytes
  trim_left [] = []
  trim_left (c ∷ cs) = let rest = trim_left cs in if cut c then rest else c ∷ cs

  unfoldable pub trim_right : Bytes → Bytes
  trim_right [] = []
  trim_right (c ∷ cs) = elim (trim_right cs) [
    | [] ↦ if cut c then [] else c ∷ []
    | d ∷ ds ↦ c ∷ d ∷ ds
  ]

  unfoldable pub trim : Bytes → Bytes
  unfolding trim_left trim_right
  trim s = trim_right (trim_left s)

-- What stands before and behind the first occurrence of a byte, if there is one.
unfoldable pub cut_at : ℕ → Bytes → Option (Bytes × Bytes)
cut_at c [] = none
cut_at c (x ∷ xs) =
    let rest = cut_at c xs in
    if x == c then some ([], xs) else elim rest [ none ↦ none | some (a, b) ↦ some (x ∷ a, b) ]

-- `strings.Split(s, sep)[0]`, for a separator of one byte.
unfoldable pub before : ℕ → Bytes → Bytes
before c [] = []
before c (x ∷ xs) = let rest = before c xs in if x == c then [] else x ∷ rest

-- `strings.Split`, for a separator of one byte: the first part, and the others.
unfoldable pub split_on : ℕ → Bytes → Bytes × List Bytes
split_on sep [] = ([], [])
split_on sep (c ∷ cs) =
    let (part, parts) = split_on sep cs in
    if c == sep then ([], part ∷ parts) else (c ∷ part, parts)

-- `strings.Join`, with a separator of one byte.
unfoldable pub join : ℕ → List Bytes → Bytes
join sep [] = []
join sep (s ∷ []) = s
join sep (s ∷ t ∷ rest) = s ++ (sep ∷ join sep (t ∷ rest))
