-- ===== src/Router/DateRange.antt =====
-- ParseDayRange, ParseMonthRange and ParseYearRange of proxy/router/numkey.go: the table numbers
-- that a range of dates in a configuration stands for.
pub mod Rises
use kingshard.Prelude.{
  ℕ, zero, suc, ◌+◌, ◌%◌, ℤ, pos, negsuc, ◌+ℤ◌, ◌-ℤ◌, ◌*ℤ◌, pos_part, ltb_ℤ, leb_ℤ, ltb_bytes,
  Bytes, List, [], ◌∷◌, ◌++◌, Option, none, some, Bool, true, false, ltb, ◌==◌, ◌&&◌, if◌then◌else◌,
  length, take, drop,
}
use kingshard.Outcome.{Result, ok, err, panic, ◌>>=◌}
use kingshard.Outcome.Error.{date_range_illegal, strconv_syntax, date_syntax}
use kingshard.Strconv.{parse_int}
use kingshard.Router.IntList.{count_from}
use kingshard.Router.Shard.{slice}

-- What is used of the package time: the day that `time.Parse` reads in the layout 20060102, and the
-- text in which `Format` writes a day. Days are counted from the first of year 0, before which no
-- text of eight bytes lies.
pub record Calendar : Type 0 where
  pub parse_day : Bytes → Option ℕ
  pub format_day : ℕ → Bytes

-- `strings.SplitN(s, "-", 2)`: `none` for a text with no dash, or what stands before and behind its
-- first one.
abbrev with_first : ℕ → Option (Bytes × Bytes) → Option (Bytes × Bytes)
with_first c none = none
with_first c (some (a, b)) = some (c ∷ a, b)

unfoldable pub split_range : Bytes → Option (Bytes × Bytes)
split_range [] = none
split_range (c ∷ cs) = if c == b'-' then some ([], cs) else with_first c (split_range cs)

unfoldable pub atoi : Bytes → Result ℤ
atoi s = elim (parse_int s) [ none ↦ err strconv_syntax | some v ↦ ok v ]

-- A text with no dash.
unfoldable pub single_date : ℕ → Bytes → Result (List ℤ)
unfolding atoi
single_date len s =
    if length s == len then (atoi s >>= λ n. ok (n ∷ [])) else err date_range_illegal

-- The two texts, the smaller one first.
unfoldable pub in_order : Bytes × Bytes → Bytes × Bytes
in_order (a, b) = if ltb_bytes b a then (b, a) else (a, b)

unfoldable pub check_lengths : ℕ → Bytes × Bytes → Result (Bytes × Bytes)
unfolding in_order
check_lengths len (a, b) =
    if length a == len && length b == len then ok (in_order (a, b)) else err date_range_illegal

module _ (cal : Calendar) where
  unfoldable pub parse_date : Bytes → Result ℕ
  parse_date s = elim (cal.parse_day s) [ none ↦ err date_syntax | some d ↦ ok d ]

  -- The loop over `i`, for the days from `d` on.
  unfoldable pub days_from : ℕ → ℕ → Result (List ℤ)
  unfolding atoi
  days_from d zero = ok []
  days_from d (suc n) = do
    date_num ← atoi (cal.format_day d)
    rest ← days_from (suc d) n
    ok (date_num ∷ rest)

  -- `time.Duration` is a number of nanoseconds in 64 bits: `Sub` stops at 106751 days, and some hours.
  unfoldable pub days_count : ℕ → ℕ → ℤ
  days_count begin end =
      let days = pos end -ℤ pos begin in
      if ltb_ℤ (pos 106751) days
      then pos 106751
      else if ltb_ℤ days (negsuc 106750)
      then negsuc 106750
      else days

  -- The loop runs for i = 0, ..., `n`.
  unfoldable pub parse_day_range : Bytes → Result (List ℤ)
  unfolding days_from days_count single_date check_lengths parse_date split_range
  parse_day_range s = elim (split_range s) [
    | none ↦ single_date 8 s
    | some two ↦ check_lengths 8 two >>= λ (a, b). parse_date a >>= λ begin.
        parse_date b >>= λ end. days_from begin (pos_part (days_count begin end +ℤ pos 1))
  ]

-- The loop over the months, at a year and a month that may be past December.
unfoldable pub months_from : ℕ → ℤ → ℤ → List ℤ
months_from zero year month = []
months_from (suc n) year month =
    let past = ltb_ℤ (pos 12) month in
    let y = if past then year +ℤ pos 1 else year in
    let m = if past then pos (pos_part month % 12) else month in
    (y *ℤ pos 100 +ℤ m) ∷ months_from n y (m +ℤ pos 1)

-- `s[:4]` and `s[4:]` of a text of six bytes.
unfoldable pub year_and_month : Bytes → Result (ℤ × ℤ)
unfolding atoi
year_and_month s = do y ← atoi (take 4 s); m ← atoi (drop 4 s); ok (y, m)

unfoldable pub parse_month_range : Bytes → Result (List ℤ)
unfolding months_from year_and_month single_date check_lengths split_range
parse_month_range s = elim (split_range s) [
  | none ↦ single_date 6 s
  | some two ↦ check_lengths 6 two >>= λ (a, b). year_and_month a >>= λ (begin_year, begin_month).
      year_and_month b >>= λ (end_year, end_month). ok (
        months_from
          (pos_part ((end_year -ℤ begin_year) *ℤ pos 12 +ℤ end_month -ℤ begin_month +ℤ pos 1))
          begin_year begin_month)
]

-- The two years are not checked for their lengths.
unfoldable pub parse_year_range : Bytes → Result (List ℤ)
unfolding single_date split_range in_order
parse_year_range s = elim (split_range s) [
  | none ↦ single_date 4 s
  | some two ↦
      let (a, b) = in_order two in
      do begin ← atoi a; end ← atoi b; ok (count_from begin (pos_part (end +ℤ pos 1 -ℤ begin)))
]
