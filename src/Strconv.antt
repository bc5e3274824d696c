-- ===== src/Strconv.antt =====
-- What the program uses of Go's strconv and hash/crc32: decimal numbers in base 10 with 64 bits,
-- and the IEEE checksum of a byte slice.
pub mod Decimal
use Prim.Native.Nat.{bit_xor}
use kingshard.Prelude.{
  ℕ, zero, suc, ◌+◌, ◌-◌, ◌*◌, ◌/◌, ◌%◌, ◌^◌, ℤ, pos, negsuc, Bytes, [], ◌∷◌, Option, none, some,
  Bool, true, false, ltb, leb, ◌==◌, ◌&&◌, if◌then◌else◌,
}

unfoldable pub is_digit : ℕ → Bool
is_digit c = leb b'0' c && leb c b'9'

-- The number that the digits spell behind `acc`; `none` at a byte that is no digit.
unfoldable pub digits_value : ℕ → Bytes → Option ℕ
unfolding is_digit
digits_value acc [] = some acc
digits_value acc (c ∷ cs) =
    let rest = digits_value (acc * 10 + (c - b'0')) cs in if is_digit c then rest else none

-- `ParseUint(s, 10, 64)`; `none` is either of its errors.
unfoldable pub parse_uint : Bytes → Option ℕ
unfolding digits_value
parse_uint [] = none
parse_uint (c ∷ cs) = elim (digits_value 0 (c ∷ cs)) [
  | none ↦ none
  | some n ↦ if ltb n (2 ^ 64) then some n else none
]

-- The number under a sign, in the range of int64.
unfoldable pub signed : Bool → ℕ → Option ℤ
signed true zero = some (pos 0)
signed true (suc n) = if ltb n (2 ^ 63) then some (negsuc n) else none
signed false n = if ltb n (2 ^ 63) then some (pos n) else none

unfoldable pub parse_magnitude : Bool → Bytes → Option ℤ
unfolding parse_uint signed
parse_magnitude negative s = elim (parse_uint s) [ none ↦ none | some n ↦ signed negative n ]

-- `ParseInt(s, 10, 64)`, and `Atoi(s)` where an int has 64 bits.
unfoldable pub parse_int : Bytes → Option ℤ
unfolding parse_magnitude
parse_int [] = none
parse_int (c ∷ cs) =
    if c == b'+'
    then parse_magnitude false cs
    else if c == b'-'
    then parse_magnitude true cs
    else parse_magnitude false (c ∷ cs)

-- One bit, and one byte, of the reflected polynomial 0xEDB88320.
crc_bits : ℕ → ℕ → ℕ
crc_bits zero crc = crc
crc_bits (suc n) crc = crc_bits n (if (crc % 2) == 1 then bit_xor (crc / 2) 0xEDB88320 else crc / 2)

crc_bytes : ℕ → Bytes → ℕ
crc_bytes crc [] = crc
crc_bytes crc (b ∷ bs) = crc_bytes (crc_bits 8 (bit_xor crc b)) bs

unfoldable pub checksum_ieee : Bytes → ℕ
unfolding crc_bits crc_bytes
checksum_ieee s = bit_xor (crc_bytes 0xFFFFFFFF s) 0xFFFFFFFF
