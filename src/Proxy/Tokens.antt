-- ===== src/Proxy/Tokens.antt =====
-- The words of a statement: IsSqlSep of core/hack/hack.go, GetDBTable and GetInsertDBTable of
-- sqlparser/analyzer.go, and the words of mysql/const.go.
use kingshard.Prelude.{
  ℕ, Bytes, codes, eqb_bytes, List, [], ◌∷◌, Option, none, some, Bool, false, ◌==◌, ◌||◌,
  if◌then◌else◌, trim, cut_at, before,
}
use kingshard.Router.Registry.{is_backquote}

unfoldable pub is_sql_sep : ℕ → Bool
is_sql_sep r = r == 32 || r == 44 || r == 9 || r == 47 || r == 10 || r == 13

-- `strings.FieldsFunc`, with the field that is being read.
abbrev end_field : Bytes → List Bytes → List Bytes
end_field [] fields = fields
end_field (c ∷ cs) fields = (c ∷ cs) ∷ fields

-- The first field, which is empty before a separator, and the others.
unfoldable split_fields : Bytes → Bytes × List Bytes
unfolding is_sql_sep
split_fields [] = ([], [])
split_fields (c ∷ cs) =
    let (field, fields) = split_fields cs in
    if is_sql_sep c then ([], end_field field fields) else (c ∷ field, fields)

unfoldable pub fields_func : Bytes → List Bytes
unfolding split_fields
fields_func s = let (field, fields) = split_fields s in end_field field fields

unfoldable pub get_db_table : Bytes → Bytes × Bytes
unfolding trim cut_at
get_db_table token = elim (cut_at b'.' token) [
  | none ↦ ([], trim is_backquote token)
  | some (a, b) ↦ (trim is_backquote a, trim is_backquote b)
]

unfoldable pub get_insert_db_table : Bytes → Bytes × Bytes
unfolding trim cut_at before
get_insert_db_table token = elim (cut_at b'.' token) [
  | none ↦ ([], trim is_backquote (before 40 token))
  | some (a, b) ↦ (trim is_backquote a, trim is_backquote (before 40 b))
]

-- The statements that TK_ID_* numbers stand for.
pub data Keyword : Type 0 where
  insert update delete replace set begin commit rollback admin use_db select start transaction :
      Keyword
  show truncate : Keyword

-- PARSE_TOKEN_MAP
unfoldable pub parse_token : Bytes → Option Keyword
unfolding eqb_bytes
parse_token s =
    if eqb_bytes s (codes "insert")
    then some insert
    else if eqb_bytes s (codes "update")
    then some update
    else if eqb_bytes s (codes "delete")
    then some delete
    else if eqb_bytes s (codes "replace")
    then some replace
    else if eqb_bytes s (codes "set")
    then some set
    else if eqb_bytes s (codes "begin")
    then some begin
    else if eqb_bytes s (codes "commit")
    then some commit
    else if eqb_bytes s (codes "rollback")
    then some rollback
    else if eqb_bytes s (codes "admin")
    then some admin
    else if eqb_bytes s (codes "select")
    then some select
    else if eqb_bytes s (codes "use")
    then some use_db
    else if eqb_bytes s (codes "start")
    then some start
    else if eqb_bytes s (codes "transaction")
    then some transaction
    else if eqb_bytes s (codes "show")
    then some show
    else if eqb_bytes s (codes "truncate")
    then some truncate
    else none

unfoldable pub member : Bytes → List Bytes → Bool
unfolding eqb_bytes
member s [] = false
member s (x ∷ xs) = eqb_bytes x s || member s xs

-- SET_KEY_WORDS
abbrev pub set_key_words : List Bytes
set_key_words =
    codes "names"
    ∷ codes "character_set_results"
    ∷ codes "@@character_set_results"
    ∷ codes "@@session.character_set_results"
    ∷ codes "character_set_client"
    ∷ codes "@@character_set_client"
    ∷ codes "@@session.character_set_client"
    ∷ codes "character_set_connection"
    ∷ codes "@@character_set_connection"
    ∷ codes "@@session.character_set_connection"
    ∷ codes "autocommit"
    ∷ codes "@@autocommit"
    ∷ codes "@@session.autocommit"
    ∷ []
