-- ===== src/Router/Shard.antt =====
-- proxy/router/shard.go and the key ranges of proxy/router/numkey.go: from a key to the index of
-- a sub-table.
pub mod Ranges
use kingshard.Prelude.{
  ℕ, zero, suc, ◌+◌, ◌-◌, ◌%◌, ◌^◌, ℤ, pos, negsuc, ◌+ℤ◌, ◌*ℤ◌, pos_part, ltb_ℤ, leb_ℤ, eqb_ℤ,
  to_u64, to_i64, wrap_i64, Bytes, List, [], ◌∷◌, ◌++◌, map, Option, none, some, Bool, true, false,
  ◌&&◌, ◌||◌, ltb, leb, ◌==◌, if◌then◌else◌, take, drop, length,
}
use kingshard.Outcome.{Result, ok, err, panic, Error, Panic, ◌>>=◌}
use kingshard.Outcome.Error.{key_out_of_range, invalid_date_format, strconv_syntax}
use kingshard.Outcome.Panic.{
  divide_by_zero, key_error, slice_out_of_range, index_out_of_range, make_slice_len,
}
use kingshard.Strconv.{parse_uint, parse_int, checksum_ieee}

-- The dynamic types that the key switches name; `other` is any other value.
pub data Key : Type 0 where
  int : ℤ → Key
  uint64 : ℕ → Key
  int64 : ℤ → Key
  string : Bytes → Key
  bytes : Bytes → Key
  other : Key

unfoldable pub hash_value : Key → Result ℕ
hash_value (int v) = ok (to_u64 v)
hash_value (uint64 v) = ok v
hash_value (int64 v) = ok (to_u64 v)
hash_value (string s) = elim (parse_uint s) [ none ↦ ok (checksum_ieee s) | some v ↦ ok v ]
hash_value (bytes s) = ok (checksum_ieee s)
hash_value other = panic key_error

unfoldable pub num_value : Key → Result ℤ
num_value (int v) = ok v
num_value (uint64 v) = ok (to_i64 v)
num_value (int64 v) = ok v
num_value (string s) = elim (parse_int s) [ none ↦ panic key_error | some v ↦ ok v ]
num_value (bytes s) = elim (parse_int s) [ none ↦ panic key_error | some v ↦ ok v ]
num_value other = panic key_error

abbrev pub max_num_key : ℤ
max_num_key = pos 0x7fff_ffff_ffff_ffff

-- [start,end)
pub record NumKeyRange : Type 0 where
  pub start : ℤ
  pub end : ℤ

unfoldable pub contains : NumKeyRange → ℤ → Bool
contains kr i = leb_ℤ kr.start i && (eqb_ℤ kr.end max_num_key || ltb_ℤ i kr.end)

pub data Shard : Type 0 where
  hash_shard : ℕ → Shard
  num_range_shard : List NumKeyRange → Shard
  date_year_shard date_month_shard date_day_shard default_shard : Shard

-- `s[i:j]`
unfoldable pub slice : ℕ → ℕ → Bytes → Result Bytes
slice i j s =
    if leb i j && leb j (length s) then ok (take (j - i) (drop i s)) else panic slice_out_of_range

-- `time.Unix(v, 0)` in the time zone of the machine: its year, and the date it prints in the
-- layout 2006-01-02.
pub record LocalTime : Type 0 where
  pub year : ℤ → ℤ
  pub format_date : ℤ → Bytes

-- The range loop of `NumRangeShard.FindForKey`, at position `i`.
unfoldable pub find_range : ℕ → ℤ → List NumKeyRange → Result ℤ
unfolding contains
find_range i v [] = err key_out_of_range
find_range i v (r ∷ rs) = if contains r v then ok (pos i) else find_range (suc i) v rs

or_error {ℓ} : {A : Type ℓ} → Option A → Error → Result A
or_error none e = err e
or_error (some a) e = ok a

module _ (time : LocalTime) where
  unfoldable pub find_year : Key → Result ℤ
  unfolding slice
  find_year (int v) = ok (time.year v)
  find_year (uint64 v) = ok (time.year (to_i64 v))
  find_year (int64 v) = ok (time.year v)
  find_year (string s) = do
    y ← slice 0 4 s
    elim (parse_int y) [ none ↦ panic key_error | some v ↦ ok v ]
  find_year (bytes s) = panic key_error
  find_year other = panic key_error

  -- The number that the digits of year and month spell in a date, in either source of the date.
  unfoldable pub month_number : Error → Bytes → Result ℤ
  unfolding slice or_error
  month_number e s = do y ← slice 0 4 s; m ← slice 5 7 s; or_error (parse_int (y ++ m)) e

  unfoldable pub find_month : Key → Result ℤ
  unfolding month_number
  find_month (int v) = month_number strconv_syntax (time.format_date v)
  find_month (uint64 v) = month_number strconv_syntax (time.format_date (to_i64 v))
  find_month (int64 v) = month_number strconv_syntax (time.format_date v)
  find_month (string s) =
      if ltb (length s) 10 then err invalid_date_format else month_number invalid_date_format s
  find_month (bytes s) = panic key_error
  find_month other = panic key_error

  unfoldable pub day_number : Error → Bytes → Result ℤ
  unfolding slice or_error
  day_number e s = do
    y ← slice 0 4 s
    m ← slice 5 7 s
    d ← slice 8 10 s
    or_error (parse_int (y ++ (m ++ d))) e

  unfoldable pub find_day : Key → Result ℤ
  unfolding day_number
  find_day (int v) = day_number strconv_syntax (time.format_date v)
  find_day (uint64 v) = day_number strconv_syntax (time.format_date (to_i64 v))
  find_day (int64 v) = day_number strconv_syntax (time.format_date v)
  find_day (string s) =
      if ltb (length s) 10 then err invalid_date_format else day_number invalid_date_format s
  find_day (bytes s) = panic key_error
  find_day other = panic key_error

  -- `Shard.FindForKey`, for each of its implementations.
  unfoldable pub find_for_key : Shard → Key → Result ℤ
  unfolding find_year find_month find_day find_range
  find_for_key (hash_shard shard_num) key = do
    h ← hash_value key
    if shard_num == 0 then panic divide_by_zero else ok (pos (h % shard_num))
  find_for_key (num_range_shard shards) key = do v ← num_value key; find_range 0 v shards
  find_for_key date_year_shard key = find_year key
  find_for_key date_month_shard key = find_month key
  find_for_key date_day_shard key = find_day key
  find_for_key default_shard key = ok (pos 0)

-- A Go index into a slice.
unfoldable pub index {ℓ} : {A : Type ℓ} → List A → ℤ → Result A
index [] i = panic index_out_of_range
index (x ∷ xs) (pos zero) = ok x
index (x ∷ xs) (pos (suc n)) = index xs (pos n)
index (x ∷ xs) (negsuc n) = panic index_out_of_range

-- `NumRangeShard.EqualStart` and `EqualStop`
unfoldable pub equal_start : List NumKeyRange → Key → ℤ → Result Bool
equal_start shards key i = do v ← num_value key; r ← index shards i; ok (eqb_ℤ r.start v)

unfoldable pub equal_stop : List NumKeyRange → Key → ℤ → Result Bool
equal_stop shards key i = do v ← num_value key; r ← index shards i; ok (eqb_ℤ r.end v)

unfoldable pub sum_ints : List ℤ → ℤ
sum_ints [] = pos 0
sum_ints (l ∷ ls) = l +ℤ sum_ints ls

-- The ranges number i, i + 1, ... : `int64(i * TableRowLimit)` wraps around in 64 bits.
unfoldable pub ranges_from : ℕ → ℕ → ℤ → List NumKeyRange
ranges_from i zero limit = []
ranges_from i (suc n) limit =
    record { start = wrap_i64 (pos i *ℤ limit); end = wrap_i64 (pos (suc i) *ℤ limit) }
    ∷ ranges_from (suc i) n limit

-- `make([]NumKeyRange, tableCount)` panics when the count is negative.
unfoldable pub parse_num_sharding : List ℤ → ℤ → Result (List NumKeyRange)
unfolding sum_ints ranges_from
parse_num_sharding locations table_row_limit =
    let table_count = sum_ints locations in
    if ltb_ℤ table_count (pos 0)
    then panic make_slice_len
    else ok (ranges_from 0 (pos_part table_count) table_row_limit)
