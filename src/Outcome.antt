-- ===== src/Outcome.antt =====
-- What a Go call comes back with: its value, an error value of core/errors/errors.go (or one
-- that the function makes), or a panic.
use kingshard.Prelude.{◌≡◌, refl}

pub data Error : Type 0 where
  no_master_conn no_slave_conn no_master_db no_slave_db no_database : Error
  master_down slave_down database_close conn_is_nil bad_conn address_null : Error
  locations_count no_criteria no_route_node : Error
  select_in_insert no_plan conn_not_equal no_plan_rule update_key stmt_convert key_out_of_range :
      Error
  ir_no_columns ir_no_sharding_key cols_len_not_match : Error
  date_illegal date_range_illegal date_range_count : Error
  slave_exist slave_not_exist insert_too_complex : Error
  -- io.EOF, the error of strconv, and the errors made by fmt.Errorf
  eof strconv_syntax date_syntax invalid_date_format : Error
  no_default_node trans_in_multi ignore_sql cmd_unsupport : Error
  invalid_payload_length invalid_sequence : Error
  invalid_charset invalid_collation : Error
  offset_not_number rowcount_not_number : Error
  range_space_not_equal_tables node_not_in_schema duplicate_default_rule duplicate_table_rule :
      Error

-- Run-time panics, and the values given to `panic`.
pub data Panic : Type 0 where
  index_out_of_range slice_out_of_range make_slice_len divide_by_zero : Panic
  type_assertion nil_dereference send_on_closed : Panic
  key_error parser_error unexpected_token : Panic

pub data Result {ℓ} (V : Type ℓ) : Type ℓ where
  panic : Panic → Result V
  err : Error → Result V
  ok : V → Result V

infixl 5 ◌>>=◌
-- The call that follows, with the value of the first; an early return or a panic skips it.
abbrev pub ◌>>=◌ {ℓ κ} : {V : Type ℓ} {W : Type κ} → Result V → (V → Result W) → Result W
panic why >>= next = panic why
err why >>= next = err why
ok v >>= next = next v

-- Two calls that come back with a value have both returned one.
pub both_returned {ℓ κ} :
    {V : Type ℓ} {W : Type κ} (first : Result V) (next : V → Result W) {w : W}
    → (first >>= next) ≡ ok w
    → (v : V) × (first ≡ ok v) × (next v ≡ ok w)
both_returned (ok v) next e = (v, refl, e)
both_returned (err why) next e = cc
both_returned (panic why) next e = cc
