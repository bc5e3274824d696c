-- ===== src/Mysql/Util.antt =====
-- The length-encoded values and little-endian numbers of mysql/util.go, and its escaping.
pub mod LengthEncoded
use kingshard.Prelude.{
  ℕ, zero, suc, to_i64, leb_ℤ, ◌+◌, ◌-◌, ◌*◌, ◌/◌, ◌%◌, ◌^◌, ℤ, pos, Bytes, List, [], ◌∷◌, ◌++◌,
  Bool, true, false, if◌then◌else◌, leb, ltb, ◌==◌, take, drop, length, Option, none, some,
}
use kingshard.Outcome.{Result, Error, ok, err, panic, ◌>>=◌}
use kingshard.Outcome.Error.{eof}
use kingshard.Outcome.Panic.{index_out_of_range, slice_out_of_range}

-- The bytes of a number, lowest first: the literals of the Put functions, at their lengths.
unfoldable pub little_endian : ℕ → ℕ → Bytes
little_endian zero n = []
little_endian (suc k) n = n % 256 ∷ little_endian k (n / 256)

-- `uint64(b[0]) | uint64(b[1])<<8 | ...` over the first bytes: they do not overlap, so the sum.
unfoldable pub from_little_endian : ℕ → Bytes → Result ℕ
from_little_endian zero b = ok 0
from_little_endian (suc k) [] = panic index_out_of_range
from_little_endian (suc k) (x ∷ b) = do rest ← from_little_endian k b; ok (x + 256 * rest)

pub record Decoded : Type 0 where
  pub num : ℕ
  pub is_null : Bool
  pub n : ℕ

-- A number of `k` bytes behind the first one.
unfoldable pub wide : ℕ → Bytes → Result Decoded
unfolding from_little_endian
wide k b = do v ← from_little_endian k b; ok (record { num = v; is_null = false; n = suc k })

unfoldable pub length_encoded_int : Bytes → Result Decoded
unfolding wide
length_encoded_int [] = panic index_out_of_range
length_encoded_int (c ∷ b) =
    if c == 0xfb
    then ok (record { num = 0; is_null = true; n = 1 })
    else if c == 0xfc
    then wide 2 b
    else if c == 0xfd
    then wide 3 b
    else if c == 0xfe
    then wide 8 b
    else ok (record { num = c; is_null = false; n = 1 })

unfoldable pub put_length_encoded_int : ℕ → Bytes
unfolding little_endian
put_length_encoded_int n =
    if leb n 250
    then n ∷ []
    else if leb n 0xffff
    then 0xfc ∷ little_endian 2 n
    else if leb n 0xffffff
    then 0xfd ∷ little_endian 3 n
    else 0xfe ∷ little_endian 8 n

pub record DecodedString : Type 0 where
  pub value : Option Bytes
  pub is_null : Bool
  pub n : ℕ

-- `n += int(num)` wraps around in 64 bits; a sum past the largest int is negative, so that the
-- test `len(b) >= n` passes and the slice `b[n-int(num) : n]` panics.
unfoldable pub length_encoded_string : Bytes → Result (DecodedString × Option Error)
length_encoded_string b = do
  d ← length_encoded_int b
  if ltb d.num 1
      then ok (record { value = none; is_null = d.is_null; n = d.n }, none)
      else if leb (2 ^ 63) (d.num + d.n)
      then panic slice_out_of_range
      else if leb (d.num + d.n) (length b)
      then ok (
        record { value = some (take d.num (drop d.n b)); is_null = false; n = d.num + d.n },
        none,
      )
      else ok (record { value = none; is_null = false; n = d.num + d.n }, some eof)

-- The position behind the string, which may have wrapped around, and io.EOF if it lies past the end.
unfoldable pub skip_length_encoded_string : Bytes → Result (ℤ × Option Error)
skip_length_encoded_string b = do
  d ← length_encoded_int b
  let behind = to_i64 (d.num + d.n)
  if ltb d.num 1
      then ok (pos d.n, none)
      else if leb_ℤ behind (pos (length b))
      then ok (behind, none)
      else ok (behind, some eof)

unfoldable pub put_length_encoded_string : Bytes → Bytes
put_length_encoded_string b = put_length_encoded_int (length b) ++ b

unfoldable pub uint16_to_bytes : ℕ → Bytes
unfolding little_endian
uint16_to_bytes n = little_endian 2 n

unfoldable pub uint32_to_bytes : ℕ → Bytes
unfolding little_endian
uint32_to_bytes n = little_endian 4 n

unfoldable pub uint64_to_bytes : ℕ → Bytes
unfolding little_endian
uint64_to_bytes n = little_endian 8 n
