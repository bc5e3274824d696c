-- ===== src/Tests/Rewrites.antt =====
-- The statement of one sub-table: literals, limits, names and criteria.
use kingshard.Prelude.{
  ℕ, ◌+ℤ◌, pos, Bytes, codes, ◌∷◌, ◌++◌, ◌≡◌, refl, some, arith, ◌==◌, if◌then◌else◌,
}
use kingshard.Outcome.{ok}
use kingshard.Outcome.Error.{rowcount_not_number}
use kingshard.Strconv.{parse_int}
use kingshard.Sqlparser.Ast.{num_val, val_tuple, cons, nil, limit, no_val, a_val, eq, in_list}
use kingshard.Sqlparser.Format.{encode_sql}
use kingshard.Sqlparser.Literals.{scan_string, lexed, scan_string-encode_sql}
use kingshard.Sqlparser.Limits.{number_at, offset_number, rewrite_limit, rewrite_limit-asks_sum}
use kingshard.Router.Rewrite.Names.{sub_table-injective}
use kingshard.Router.Rewrite.Recorded.{Store}
use kingshard.Tests.Constants.{id}

-- it's
scan_string-encode_sql_example :
    (text : Bytes) × (encode_sql (codes "it's") ++ codes " and" ≡ b'\'' ∷ text)
    × (scan_string b'\'' text ≡ lexed (codes "it's") (codes " and"))
scan_string-encode_sql_example = scan_string-encode_sql (codes "it's") (codes " and") (λ cs e. cc e)

ten : offset_number (a_val (num_val (codes "10"))) ≡ ok (pos 10)
unfolding offset_number number_at parse_int
ten = refl

twenty : number_at rowcount_not_number (num_val (codes "20")) ≡ ok (pos 20)
unfolding number_at parse_int
twenty = refl

-- limit 10, 20
rewrite_limit-asks_sum_example :
    (s : Bytes) × (rewrite_limit (limit (a_val (num_val (codes "10"))) (num_val (codes "20")))
      ≡ ok (limit no_val (num_val s)))
    × (parse_int s ≡ some (pos 10 +ℤ pos 20))
rewrite_limit-asks_sum_example =
    rewrite_limit-asks_sum (a_val (num_val (codes "10"))) (num_val (codes "20")) (pos 10) (pos 20)
      ten twenty refl refl (omega arith)

sub_table-injective_example : (codes "t" ≡ codes "t") × ◌≡◌ {A = ℕ} 3 3
sub_table-injective_example =
    sub_table-injective (codes "t") (codes "t") 3 3 (omega arith) (omega arith) refl

-- The comparisons of id = 5 and id in (6, 5).
abbrev five_store : Store
five_store a =
    if a == 1
    then (eq, id, num_val (codes "5"))
    else (in_list, id, val_tuple (cons (num_val (codes "6")) (cons (num_val (codes "5")) nil)))
