-- ===== src/Router/DateRange/Rises.antt =====
-- The tables of a date range come in rising order.
use kingshard.Prelude.{
  ℕ, zero, suc, ◌+◌, ◌%◌, ◌*◌, ℤ, pos, ◌+ℤ◌, ◌-ℤ◌, ◌*ℤ◌, +ℤ_parts, ◌≤ℤ◌, ◌<ℤ◌, pos_part, neg_part,
  ltb_ℤ, Bytes, List, Chain, IsSorted, ◌≡◌, refl, subst, ◌⊎◌, inl, inr, arith, Bool, Bool-cases,
  true, false, if◌then◌else◌, none, some,
}
use kingshard.Outcome.{Result, Error, ok, err, panic, ◌>>=◌}
use kingshard.Router.IntList.{count_from}
use kingshard.Router.IntList.Slices.{count_from-IsSorted}
use kingshard.Router.DateRange.{
  Calendar, split_range, atoi, single_date, check_lengths, in_order, parse_date, days_from,
  days_count, parse_day_range, months_from, year_and_month, parse_month_range, parse_year_range,
}

-- What is relied on of the package time: from one day to the next, the date that is written rises as
-- a number.
abbrev pub NextRises : Calendar → Type 0
NextRises cal =
    (d : ℕ) (a b : ℤ)
    → atoi (cal.format_day d) ≡ ok a
    → atoi (cal.format_day (suc d)) ≡ ok b
    → a <ℤ b

-- Where the call returns, it returns a sorted list; the second one, a list that rises from `lo`.
abbrev Sorts : Result (List ℤ) → Type 0
Sorts (ok l) = IsSorted l
Sorts (err e) = Unit {0}
Sorts (panic p) = Unit {0}

abbrev Climbs : ℤ → Result (List ℤ) → Type 0
Climbs lo (ok l) = Chain lo l
Climbs lo (err e) = Unit {0}
Climbs lo (panic p) = Unit {0}

bind-Sorts :
    {A : Type 0} (m : Result A) (f : A → Result (List ℤ))
    → ((a : A) → m ≡ ok a → Sorts (f a))
    → Sorts (m >>= f)
bind-Sorts (ok a) f h = h a refl
bind-Sorts (err e) f h = tt
bind-Sorts (panic p) f h = tt

bind-Climbs :
    {A : Type 0} (lo : ℤ) (m : Result A) (f : A → Result (List ℤ))
    → ((a : A) → m ≡ ok a → Climbs lo (f a))
    → Climbs lo (m >>= f)
bind-Climbs lo (ok a) f h = h a refl
bind-Climbs lo (err e) f h = tt
bind-Climbs lo (panic p) f h = tt

IsSorted-of : (r : Result (List ℤ)) (l : List ℤ) → Sorts r → r ≡ ok l → IsSorted l
IsSorted-of r l h e = subst (λ (z : Result (List ℤ)). Sorts z) e h

if-Sorts : (b : Bool) (r : Result (List ℤ)) (e : Error) → Sorts r → Sorts (if b then r else err e)
if-Sorts true r e h = h
if-Sorts false r e h = tt

single_date-Sorts : (n : ℕ) (s : Bytes) → Sorts (single_date n s)
unfolding single_date
single_date-Sorts n s = if-Sorts _ _ _ (bind-Sorts (atoi s) _ (λ a e. tt))

hundreds :
    (y : ℤ)
    → pos_part (y *ℤ pos 100) + neg_part y * 100 ≡ neg_part (y *ℤ pos 100) + pos_part y * 100
unfolding ◌*ℤ◌
hundreds y = ground arith

-- From December to January.
new_year :
    (y m : ℤ)
    → m ≤ℤ pos 12
    → ltb_ℤ (pos 12) (m +ℤ pos 1) ≡ true
    → y *ℤ pos 100 +ℤ m <ℤ (y +ℤ pos 1) *ℤ pos 100 +ℤ pos (pos_part (m +ℤ pos 1) % 12)
new_year y m h past = ground (
  arith,
  hundreds y,
  hundreds (y +ℤ pos 1),
  +ℤ_parts y (pos 1),
  +ℤ_parts m (pos 1),
  +ℤ_parts (y *ℤ pos 100) m,
  +ℤ_parts ((y +ℤ pos 1) *ℤ pos 100) (pos (pos_part (m +ℤ pos 1) % 12)),
)

next_month : (y m : ℤ) → y *ℤ pos 100 +ℤ m <ℤ y *ℤ pos 100 +ℤ (m +ℤ pos 1)
next_month y m =
    omega
      (arith, +ℤ_parts m (pos 1), +ℤ_parts (y *ℤ pos 100) m, +ℤ_parts (y *ℤ pos 100) (m +ℤ pos 1))

months-Chain :
    (n : ℕ) (y m : ℤ) → m ≤ℤ pos 12 → Chain (y *ℤ pos 100 +ℤ m) (months_from n y (m +ℤ pos 1))
unfolding months_from
months-Chain zero y m h = tt
months-Chain (suc n) y m h = elim (Bool-cases (ltb_ℤ (pos 12) (m +ℤ pos 1))) [
  | inl past ↦ rw past (
    new_year y m h past,
    months-Chain n (y +ℤ pos 1) (pos (pos_part (m +ℤ pos 1) % 12)) (omega arith),
  )
  | inr same ↦ rw same (next_month y m, months-Chain n y (m +ℤ pos 1) (ground arith))
]

months-IsSorted : (n : ℕ) (y m : ℤ) → IsSorted (months_from n y m)
unfolding months_from
months-IsSorted zero y m = tt
months-IsSorted (suc n) y m = elim (Bool-cases (ltb_ℤ (pos 12) m)) [
  | inl past ↦ rw past (months-Chain n (y +ℤ pos 1) (pos (pos_part m % 12)) (omega arith))
  | inr same ↦ rw same (months-Chain n y m (ground arith))
]

parse_month_range-Sorts : (s : Bytes) → Sorts (parse_month_range s)
unfolding parse_month_range
parse_month_range-Sorts s =
    elim (split_range s)
      as (λ o. Sorts (elim o [
        | none ↦ single_date 6 s
        | some two ↦ check_lengths 6 two >>= λ (a, b).
            year_and_month a >>= λ (begin_year, begin_month).
            year_and_month b >>= λ (end_year, end_month). ok (
              months_from
                (pos_part ((end_year -ℤ begin_year) *ℤ pos 12 +ℤ end_month -ℤ begin_month +ℤ pos 1))
                begin_year begin_month)
      ])) [
        | none ↦ single_date-Sorts 6 s
        | some two ↦ bind-Sorts (check_lengths 6 two) _ (λ (a, b) e.
            bind-Sorts (year_and_month a) _ (λ (y, m) e'.
              bind-Sorts (year_and_month b) _ (λ (y', m') e''. months-IsSorted _ y m)))
      ]

parse_year_range-Sorts : (s : Bytes) → Sorts (parse_year_range s)
unfolding parse_year_range
parse_year_range-Sorts s =
    elim (split_range s)
      as (λ o. Sorts (elim o [
        | none ↦ single_date 4 s
        | some two ↦
            let (a, b) = in_order two in
            do
              begin ← atoi a
              end ← atoi b
              ok (count_from begin (pos_part (end +ℤ pos 1 -ℤ begin)))
      ])) [
        | none ↦ single_date-Sorts 4 s
        | some two ↦
            bind-Sorts (atoi (in_order two).0) _
              (λ y e. bind-Sorts (atoi (in_order two).1) _ (λ y' e'. count_from-IsSorted y _))
      ]

module _ (cal : Calendar) (rises : NextRises cal) where
  days-Climbs :
      (d : ℕ) (a : ℤ) (n : ℕ) → atoi (cal.format_day d) ≡ ok a → Climbs a (days_from cal (suc d) n)
  unfolding days_from
  days-Climbs d a zero e = tt
  days-Climbs d a (suc n) e = bind-Climbs a (atoi (cal.format_day (suc d))) _ (λ b e'.
      bind-Climbs a (days_from cal (suc (suc d)) n) _ (λ l e''. (
        rises d a b e e',
        subst (λ (z : Result (List ℤ)). Climbs b z) e'' (days-Climbs (suc d) b n e'),
      )))

  days-Sorts : (d n : ℕ) → Sorts (days_from cal d n)
  unfolding days_from
  days-Sorts d zero = tt
  days-Sorts d (suc n) = bind-Sorts (atoi (cal.format_day d)) _ (λ a e.
      bind-Sorts (days_from cal (suc d) n) _
        (λ l e'. subst (λ (z : Result (List ℤ)). Climbs a z) e' (days-Climbs d a n e)))

  parse_day_range-Sorts : (s : Bytes) → Sorts (parse_day_range cal s)
  unfolding parse_day_range
  parse_day_range-Sorts s =
      elim (split_range s)
        as (λ o. Sorts (elim o [
          | none ↦ single_date 8 s
          | some two ↦ check_lengths 8 two >>= λ (a, b). parse_date cal a >>= λ begin.
              parse_date cal b >>= λ end.
              days_from cal begin (pos_part (days_count cal begin end +ℤ pos 1))
        ])) [
          | none ↦ single_date-Sorts 8 s
          | some two ↦ bind-Sorts (check_lengths 8 two) _ (λ (a, b) e.
              bind-Sorts (parse_date cal a) _
                (λ d e'. bind-Sorts (parse_date cal b) _ (λ d' e''. days-Sorts d _)))
        ]

  -- Whatever text a configuration gives as a range, the day, month or year numbers that are parsed
  -- from it rise strictly, provided that the date which the package time writes for a day is below
  -- the one for the day after.
  pub date_ranges_rise :
      (s : Bytes) (l : List ℤ)
      → (parse_day_range cal s ≡ ok l)
        ⊎ ((parse_month_range s ≡ ok l) ⊎ (parse_year_range s ≡ ok l))
      → IsSorted l
  date_ranges_rise s l (inl e) = IsSorted-of _ l (parse_day_range-Sorts s) e
  date_ranges_rise s l (inr (inl e)) = IsSorted-of _ l (parse_month_range-Sorts s) e
  date_ranges_rise s l (inr (inr e)) = IsSorted-of _ l (parse_year_range-Sorts s) e
