-- ===== src/Mysql/Util/LengthEncoded.antt =====
-- Reading back what the Put functions write, and what the readers take from any bytes.
use kingshard.Prelude.{
  ℕ, zero, suc, ◌+◌, ◌/◌, ◌^◌, ◌≤◌, ◌<◌, Bytes, ◌++◌, false, if◌then◌else◌, ◌==◌, take, drop,
  length, none, some, ◌≡◌, refl, ap, arith, length-append, take-length_append, drop-length_append,
  append_assoc,
}
use native.Mathlib.Nat.{pow-suc}
use kingshard.Outcome.{ok}
use kingshard.Mysql.Util.{
  little_endian, from_little_endian, wide, length_encoded_int, put_length_encoded_int,
  length_encoded_string, put_length_encoded_string,
}

from-little_endian :
    (k n : ℕ) (rest : Bytes) → n < 256 ^ k → from_little_endian k (little_endian k n ++ rest) ≡ ok n
unfolding from_little_endian little_endian
from-little_endian zero n rest h = ground arith
from-little_endian (suc k) n rest h =
    rw (from-little_endian k (n / 256) rest (omega (arith, pow-suc 256 k))) (ground arith)

length-little_endian : (k n : ℕ) → length (little_endian k n) ≡ k
unfolding little_endian
length-little_endian zero n = refl
length-little_endian (suc k) n = ap suc (length-little_endian k (n / 256))

wide-little_endian :
    (k n : ℕ) (rest : Bytes)
    → n < 256 ^ k
    → wide k (little_endian k n ++ rest) ≡ ok (record { num = n; is_null = false; n = suc k })
unfolding wide
wide-little_endian k n rest h = rw (from-little_endian k n rest h)

-- Every uint64 that `PutLengthEncodedInt` writes, with any bytes behind it, is read back by
-- `LengthEncodedInt`, not as NULL, and with the number of bytes that were written.
pub read-put_int :
    (n : ℕ) (rest : Bytes)
    → n < 2 ^ 64
    → length_encoded_int (put_length_encoded_int n ++ rest)
      ≡ ok (record { num = n; is_null = false; n = length (put_length_encoded_int n) })
unfolding length_encoded_int put_length_encoded_int
read-put_int n rest h = ground (
  arith,
  wide-little_endian 2 n rest,
  wide-little_endian 3 n rest,
  wide-little_endian 8 n rest,
  length-little_endian 2 n,
  length-little_endian 3 n,
  length-little_endian 8 n,
)

-- A written number takes 1, 3, 4 or 9 bytes.
pub length-put_int :
    (n : ℕ) → (1 ≤ length (put_length_encoded_int n)) × (length (put_length_encoded_int n) ≤ 9)
unfolding put_length_encoded_int
length-put_int n =
    ground (arith, length-little_endian 2 n, length-little_endian 3 n, length-little_endian 8 n)

split_string :
    (n : ℕ) (p b rest : Bytes) → length b ≡ n → take n (drop (length p) (p ++ (b ++ rest))) ≡ b
split_string n p b rest e = rw (drop-length_append p (b ++ rest), ← e) (take-length_append b rest)

-- A byte string that `PutLengthEncodedString` writes, with any bytes behind it, is read back by
-- `LengthEnodedString` without an error, and with the number of bytes that were written, provided
-- that its length and nine more bytes fit an int; the empty string comes back as a nil slice that
-- is not NULL.
pub read-put_string :
    (b rest : Bytes)
    → length b + 9 < 2 ^ 63
    → length_encoded_string (put_length_encoded_string b ++ rest)
      ≡ ok (
        record {
          value = if length b == 0 then none else some b;
          is_null = false;
          n = length (put_length_encoded_string b);
        },
        none,
      )
unfolding length_encoded_string put_length_encoded_string
read-put_string b rest h =
    rw
      (
        append_assoc (put_length_encoded_int (length b)) b rest,
        read-put_int (length b) (b ++ rest) (omega arith),
        length-append (put_length_encoded_int (length b)) b,
      )
      (ground (
        arith,
        length-put_int (length b),
        split_string (length b) (put_length_encoded_int (length b)) b rest refl,
        length-append (put_length_encoded_int (length b)) (b ++ rest),
        length-append b rest,
      ))
