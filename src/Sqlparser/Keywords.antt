-- ===== src/Sqlparser/Keywords.antt =====
-- The reserved words of sqlparser/token.go, and the names that Format puts between backquotes.
use kingshard.Prelude.{
  Bytes, codes, eqb_bytes, List, [], ◌∷◌, ◌++◌, Bool, false, ◌||◌, if◌then◌else◌,
}

-- The keys of the map.
unfoldable pub keywords : List Bytes
keywords =
    codes "select"
    ∷ codes "insert"
    ∷ codes "update"
    ∷ codes "delete"
    ∷ codes "from"
    ∷ codes "where"
    ∷ codes "group"
    ∷ codes "having"
    ∷ codes "order"
    ∷ codes "by"
    ∷ codes "limit"
    ∷ codes "for"
    ∷ codes "union"
    ∷ codes "all"
    ∷ codes "minus"
    ∷ codes "except"
    ∷ codes "intersect"
    ∷ codes "join"
    ∷ codes "straight_join"
    ∷ codes "left"
    ∷ codes "right"
    ∷ codes "inner"
    ∷ codes "outer"
    ∷ codes "cross"
    ∷ codes "natural"
    ∷ codes "use"
    ∷ codes "force"
    ∷ codes "on"
    ∷ codes "into"
    ∷ codes "distinct"
    ∷ codes "case"
    ∷ codes "when"
    ∷ codes "then"
    ∷ codes "else"
    ∷ codes "end"
    ∷ codes "as"
    ∷ codes "and"
    ∷ codes "or"
    ∷ codes "not"
    ∷ codes "exists"
    ∷ codes "in"
    ∷ codes "is"
    ∷ codes "like"
    ∷ codes "between"
    ∷ codes "null"
    ∷ codes "asc"
    ∷ codes "desc"
    ∷ codes "values"
    ∷ codes "duplicate"
    ∷ codes "key"
    ∷ codes "default"
    ∷ codes "set"
    ∷ codes "lock"
    ∷ codes "create"
    ∷ codes "alter"
    ∷ codes "rename"
    ∷ codes "drop"
    ∷ codes "table"
    ∷ codes "index"
    ∷ codes "view"
    ∷ codes "to"
    ∷ codes "ignore"
    ∷ codes "if"
    ∷ codes "unique"
    ∷ codes "using"
    ∷ codes "begin"
    ∷ codes "rollback"
    ∷ codes "commit"
    ∷ codes "names"
    ∷ codes "replace"
    ∷ codes "admin"
    ∷ codes "help"
    ∷ codes "start"
    ∷ codes "transaction"
    ∷ codes "collate"
    ∷ codes "offset"
    ∷ codes "truncate"
    ∷ []

-- Whether a map with these keys has an entry.
unfoldable pub has_entry : Bytes → List Bytes → Bool
has_entry name [] = false
has_entry name (k ∷ ks) = eqb_bytes k name || has_entry name ks

unfoldable pub escape : Bytes → Bytes
unfolding has_entry keywords
escape name = if has_entry name keywords then b'`' ∷ (name ++ (b'`' ∷ [])) else name
