-- ===== src/Sqlparser/Literals.antt =====
-- String literals, printed and read again: `encodeSql` of sqltypes/sqltypes.go against `scanString`
-- of sqlparser/token.go.
use kingshard.Prelude.{
  ℕ, Bytes, [], ◌∷◌, ◌++◌, false, Option, none, some, Bool-cases, ==_iff, inl, inr, ◌==◌,
  if◌then◌else◌, ◌≡◌, ◌≢◌, refl, ap, ◌∙◌, arith,
}
use kingshard.Sqlparser.Format.{encode_ref, encode_byte, encode_bytes, encode_sql}

-- `SqlDecodeMap`, where DONTESCAPE leaves a byte as it is.
unfoldable pub decode_byte : ℕ → ℕ
decode_byte e =
    if e == b'0'
    then 0
    else if e == b'b'
    then 8
    else if e == b'n'
    then 10
    else if e == b'r'
    then 13
    else if e == b't'
    then 9
    else if e == b'Z'
    then 26
    else e

-- What `scanString` returns: the literal and what stands behind it, or LEX_ERROR with what it read.
pub data Scanned : Type 0 where
  lexed : Bytes → Bytes → Scanned
  lex_error : Bytes → Scanned

-- A byte that the buffer holds in front.
unfoldable pub buffered : ℕ → Scanned → Scanned
buffered c (lexed s rest) = lexed (c ∷ s) rest
buffered c (lex_error s) = lex_error (c ∷ s)

-- The text behind the opening delimiter: a doubled delimiter and a backslash stand for a byte.
unfoldable pub scan_string : ℕ → Bytes → Scanned
unfolding decode_byte buffered
scan_string delim [] = lex_error []
scan_string delim (c ∷ []) =
    if c == delim then lexed [] [] else if c == b'\\' then lex_error [] else lex_error (c ∷ [])
scan_string delim (c ∷ d ∷ cs) =
    let behind = scan_string delim cs in
    let rest = scan_string delim (d ∷ cs) in
    if c == delim
    then (if d == delim then buffered delim behind else lexed [] (d ∷ cs))
    else if c == b'\\'
    then buffered (decode_byte d) behind
    else buffered c rest

decode_byte-encode_ref : (c e : ℕ) → encode_ref c ≡ some e → decode_byte e ≡ c
unfolding encode_ref decode_byte
decode_byte-encode_ref c e h = ground arith

encode_ref-none : (c : ℕ) → encode_ref c ≡ none → ((c == b'\'') ≡ false) × ((c == b'\\') ≡ false)
unfolding encode_ref
encode_ref-none c h = ground arith

scan_string-plain :
    (c : ℕ) (cs : Bytes)
    → ((c == b'\'') ≡ false) × ((c == b'\\') ≡ false)
    → scan_string b'\'' (c ∷ cs) ≡ buffered c (scan_string b'\'' cs)
unfolding scan_string
scan_string-plain c [] h = rw (h.0) (rw (h.1) refl)
scan_string-plain c (d ∷ cs) h = rw (h.0) (rw (h.1) refl)

scan_string-escape :
    (e : ℕ) (cs : Bytes)
    → scan_string b'\'' (b'\\' ∷ e ∷ cs) ≡ buffered (decode_byte e) (scan_string b'\'' cs)
unfolding scan_string
scan_string-escape e cs = refl

scan_string-encode_byte :
    (c : ℕ) (s rest : Bytes)
    → scan_string b'\'' (encode_byte c s ++ rest) ≡ buffered c (scan_string b'\'' (s ++ rest))
unfolding encode_byte
scan_string-encode_byte c s rest = by_case (encode_ref c) refl
  where
    by_case :
        (o : Option ℕ)
        → encode_ref c ≡ o
        → scan_string b'\''
            ((elim o as (λ _. Bytes) [ none ↦ c ∷ s | some e ↦ b'\\' ∷ e ∷ s ]) ++ rest)
          ≡ buffered c (scan_string b'\'' (s ++ rest))
    by_case none n = scan_string-plain c (s ++ rest) (encode_ref-none c n)
    by_case (some e) q =
        scan_string-escape e (s ++ rest)
        ∙ ap (λ (k : ℕ). buffered k (scan_string b'\'' (s ++ rest))) (decode_byte-encode_ref c e q)

scan_string-quote :
    (rest : Bytes)
    → ((cs : Bytes) → rest ≢ b'\'' ∷ cs)
    → scan_string b'\'' (b'\'' ∷ rest) ≡ lexed [] rest
unfolding scan_string
scan_string-quote [] h = refl
scan_string-quote (d ∷ cs) h = elim (Bool-cases (d == b'\'')) [
  | inl t ↦ absurd (h cs (ap (λ (k : ℕ). k ∷ cs) ((==_iff d b'\'').0 t)))
  | inr f ↦ rw f refl
]

scan_string-encode_bytes :
    (s rest : Bytes)
    → ((cs : Bytes) → rest ≢ b'\'' ∷ cs)
    → scan_string b'\'' (encode_bytes s ++ rest) ≡ lexed s rest
unfolding encode_bytes buffered
scan_string-encode_bytes [] rest h = scan_string-quote rest h
scan_string-encode_bytes (c ∷ cs) rest h =
    scan_string-encode_byte c (encode_bytes cs) rest
    ∙ rw (scan_string-encode_bytes cs rest h, buffered) refl

-- A string that is printed as a literal is read back. Behind the opening quote, the tokenizer
-- reads exactly the bytes of the string and stops at the closing quote, whatever bytes the string
-- holds, where what follows the literal does not start with a quote.
pub scan_string-encode_sql :
    (s rest : Bytes)
    → ((cs : Bytes) → rest ≢ b'\'' ∷ cs)
    → (text : Bytes) × (encode_sql s ++ rest ≡ b'\'' ∷ text)
      × (scan_string b'\'' text ≡ lexed s rest)
unfolding encode_sql
scan_string-encode_sql s rest h = (encode_bytes s ++ rest, refl, scan_string-encode_bytes s rest h)
