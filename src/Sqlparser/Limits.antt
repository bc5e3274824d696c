-- ===== src/Sqlparser/Limits.antt =====
-- `RewriteLimit` of sqlparser/ast.go: the limit that the statements of the sub-tables have.
use kingshard.Prelude.{ℤ, ◌+ℤ◌, wrap_i64, wrap_i64_id, IsI64, Bytes, ◌≡◌, refl, ap, ◌∙◌, none, some}
use kingshard.Outcome.{Result, ok, err, ◌>>=◌, Error}
use kingshard.Outcome.Error.{offset_not_number, rowcount_not_number, strconv_syntax}
use kingshard.Strconv.{parse_int}
use kingshard.Strconv.Decimal.{format_int, parse_int-format_int}
use kingshard.Sqlparser.Ast.{ValExpr, num_val, OptVal, no_val, a_val, Limit, no_limit, limit}
use kingshard.Prelude.{pos, pos_part, neg_part, ◌+◌, ◌<◌, ◌^◌, arith}

unfoldable pub number_at : Error → ValExpr → Result ℤ
number_at other (num_val s) = elim (parse_int s) [ none ↦ err strconv_syntax | some v ↦ ok v ]
number_at other _ = err other

unfoldable pub offset_number : OptVal → Result ℤ
offset_number no_val = ok (pos 0)
offset_number (a_val e) = number_at offset_not_number e

-- The sum of two int64 wraps around.
unfoldable pub rewrite_limit : Limit → Result Limit
rewrite_limit no_limit = ok no_limit
rewrite_limit (limit offset rowcount) = do
  o ← offset_number offset
  n ← number_at rowcount_not_number rowcount
  ok (limit no_val (num_val (format_int (wrap_i64 (o +ℤ n)))))

sum-IsI64 :
    (o n : ℤ) → neg_part o ≡ 0 → neg_part n ≡ 0 → pos_part o + pos_part n < 2 ^ 63 → IsI64 (o +ℤ n)
unfolding ◌+ℤ◌
sum-IsI64 o n a b h = ground arith

rewrite_limit-runs :
    (offset : OptVal) (rowcount : ValExpr) (o n : ℤ)
    → offset_number offset ≡ ok o
    → number_at rowcount_not_number rowcount ≡ ok n
    → rewrite_limit (limit offset rowcount)
      ≡ ok (limit no_val (num_val (format_int (wrap_i64 (o +ℤ n)))))
unfolding rewrite_limit
rewrite_limit-runs offset rowcount o n a b = rw a (rw b refl)

-- The statement of a sub-table asks for every row that the whole statement may need. Where the
-- offset and the row count of a LIMIT are numbers that are not negative and whose sum fits an
-- int64, the rewritten limit has no offset, and its row count is a number that reads as their sum.
pub rewrite_limit-asks_sum :
    (offset : OptVal) (rowcount : ValExpr) (o n : ℤ)
    → offset_number offset ≡ ok o
    → number_at rowcount_not_number rowcount ≡ ok n
    → neg_part o ≡ 0
    → neg_part n ≡ 0
    → pos_part o + pos_part n < 2 ^ 63
    → (s : Bytes) × (rewrite_limit (limit offset rowcount) ≡ ok (limit no_val (num_val s)))
      × (parse_int s ≡ some (o +ℤ n))
rewrite_limit-asks_sum offset rowcount o n a b p q h =
    let small : IsI64 (o +ℤ n) = sum-IsI64 o n p q h in
    (
      format_int (wrap_i64 (o +ℤ n)),
      rewrite_limit-runs offset rowcount o n a b,
      ap (λ (v : ℤ). parse_int (format_int v)) (wrap_i64_id (o +ℤ n) small)
          ∙ parse_int-format_int (o +ℤ n) small,
    )
