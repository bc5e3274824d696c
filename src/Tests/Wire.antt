-- ===== src/Tests/Wire.antt =====
-- Length-encoded integers and strings at concrete inputs.
use kingshard.Prelude.{codes, [], ◌∷◌, ◌++◌, length, ◌≡◌, refl, arith, false, none, some}
use kingshard.Outcome.{ok}
use kingshard.Mysql.Util.{
  length_encoded_int, put_length_encoded_int, length_encoded_string, put_length_encoded_string,
}
use kingshard.Mysql.Util.LengthEncoded.{read-put_int, read-put_string}

three_bytes : put_length_encoded_int 1000 ≡ 0xfc ∷ 0xe8 ∷ 0x03 ∷ []
unfolding put_length_encoded_int
three_bytes = refl

read-put_int_example :
    length_encoded_int (put_length_encoded_int 70000 ++ codes "rest")
    ≡ ok (record { num = 70000; is_null = false; n = length (put_length_encoded_int 70000) })
read-put_int_example = read-put_int 70000 (codes "rest") (omega arith)

read-put_string_example :
    length_encoded_string (put_length_encoded_string (codes "kingshard") ++ codes "!")
    ≡ ok (
      record {
        value = some (codes "kingshard");
        is_null = false;
        n = length (put_length_encoded_string (codes "kingshard"));
      },
      none,
    )
read-put_string_example = read-put_string (codes "kingshard") (codes "!") (omega arith)
