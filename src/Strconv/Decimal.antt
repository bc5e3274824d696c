-- ===== src/Strconv/Decimal.antt =====
-- Decimal printing: `strconv.FormatInt(i, 10)`, and the verb `%04d` of fmt.
use native.Mathlib.Numerals.{unary_clauses}
use kingshard.Prelude.{
  ℕ, zero, suc, ◌+◌, ◌-◌, ◌*◌, ◌/◌, ◌%◌, ◌^◌, ◌<◌, ℤ, pos, negsuc, IsI64, Bytes, [], ◌∷◌, ◌++◌, All,
  ◌≡◌, ◌≢◌, refl, sym, ap, ◌∙◌, subst, Option, none, some, true, false, ltb, ◌==◌, if◌then◌else◌,
  replicate, length, arith, Bool, if_either, ltb→lt, lt→ltb,
}
use kingshard.Strconv.{is_digit, digits_value, parse_uint, parse_magnitude, parse_int, signed}

-- The digits of a number of at most as many digits as the fuel, in front of `acc`.
unfoldable pub digits_of : ℕ → ℕ → Bytes → Bytes
digits_of zero n acc = acc
digits_of (suc fuel) n acc =
    let d = (n % 10 + b'0') ∷ acc in
    let rest = digits_of fuel (n / 10) d in if ltb n 10 then d else rest

-- A number of 64 bits has at most 20 digits.
unfoldable pub format_uint : ℕ → Bytes
unfolding digits_of
format_uint n = digits_of 20 n []

unfoldable pub format_int : ℤ → Bytes
format_int (pos n) = format_uint n
format_int (negsuc n) = b'-' ∷ format_uint (suc n)

unfoldable pub zero_padded : ℕ → Bytes → Bytes
zero_padded width s = replicate (width - length s) b'0' ++ s

-- `%04d`: a sign counts among the four characters.
unfoldable pub format_04d : ℤ → Bytes
unfolding zero_padded
format_04d (pos n) = zero_padded 4 (format_uint n)
format_04d (negsuc n) = b'-' ∷ zero_padded 3 (format_uint (suc n))

abbrev pub IsDigits : Bytes → Type 0
IsDigits s = All (λ c. is_digit c ≡ true) s

digit-is : (n : ℕ) → is_digit (n % 10 + b'0') ≡ true
unfolding is_digit
digit-is n = ground arith

digits_of-IsDigits : (fuel n : ℕ) (acc : Bytes) → IsDigits acc → IsDigits (digits_of fuel n acc)
unfolding digits_of
digits_of-IsDigits zero n acc h = h
digits_of-IsDigits (suc fuel) n acc h =
    if_either IsDigits (ltb n 10) _ _ (λ t. (digit-is n, h))
      (λ f. digits_of-IsDigits fuel (n / 10) ((n % 10 + b'0') ∷ acc) (digit-is n, h))

-- One more digit.
digits_value-digit :
    (a n : ℕ) (acc : Bytes)
    → digits_value a ((n % 10 + b'0') ∷ acc) ≡ digits_value (a * 10 + n % 10) acc
unfolding digits_value
digits_value-digit a n acc = opened ∙ ap (λ (k : ℕ). digits_value (a * 10 + k) acc) (omega arith)
  where
    opened :
        digits_value a ((n % 10 + b'0') ∷ acc) ≡ digits_value (a * 10 + (n % 10 + b'0' - b'0')) acc
    opened = rw (digit-is n) refl

last_digit :
    (n : ℕ) (acc : Bytes) → n < 10 → digits_value 0 ((n % 10 + b'0') ∷ acc) ≡ digits_value n acc
last_digit n acc h = digits_value-digit 0 n acc ∙ ap (λ (k : ℕ). digits_value k acc) (omega arith)

tenth : (k n : ℕ) → n < 10 ^ suc (suc k) → n / 10 < 10 ^ suc k
tenth k n h = omega (arith, next)
  where
    next : 10 ^ suc (suc k) ≡ 10 ^ suc k * 10
    next = simp unary_clauses (omega arith)

digits_value-digits_of :
    (fuel n : ℕ) (acc : Bytes)
    → n < 10 ^ suc fuel
    → digits_value 0 (digits_of (suc fuel) n acc) ≡ digits_value n acc
unfolding digits_of
digits_value-digits_of zero n acc h =
    if_either (λ (s : Bytes). digits_value 0 s ≡ digits_value n acc) (ltb n 10) _ _
      (λ t. last_digit n acc (omega (arith, ltb→lt n 10 t))) (λ f. last_digit n acc (omega arith))
digits_value-digits_of (suc fuel) n acc h =
    if_either (λ (s : Bytes). digits_value 0 s ≡ digits_value n acc) (ltb n 10) _ _
      (λ t. last_digit n acc (omega (arith, ltb→lt n 10 t)))
      (λ f.
        digits_value-digits_of fuel (n / 10) ((n % 10 + b'0') ∷ acc) (tenth fuel n h)
        ∙ digits_value-digit (n / 10) n acc
        ∙ ap (λ (k : ℕ). digits_value k acc) (omega arith))

digits_value-format_uint : (n : ℕ) → n < 2 ^ 64 → digits_value 0 (format_uint n) ≡ some n
unfolding format_uint digits_value
digits_value-format_uint n h = digits_value-digits_of 19 n [] (omega arith)

format_uint-IsDigits : (n : ℕ) → IsDigits (format_uint n)
unfolding format_uint
format_uint-IsDigits n = digits_of-IsDigits 20 n [] tt

-- Digits are not empty and have no sign: they are read as they are.
parse_uint-digits :
    (s : Bytes) (n : ℕ) → s ≢ [] → digits_value 0 s ≡ some n → n < 2 ^ 64 → parse_uint s ≡ some n
unfolding parse_uint
parse_uint-digits [] n e q h = absurd (e refl)
parse_uint-digits (c ∷ cs) n e q h =
    subst
      (λ (o : Option ℕ).
        (elim o as (λ _. Option ℕ) [
          | none ↦ none
          | some k ↦ if ltb k (2 ^ 64) then some k else none
        ])
        ≡ some n)
      (sym q) (rw (lt→ltb n (2 ^ 64) h) refl)

parse_int-digits : (s : Bytes) → s ≢ [] → IsDigits s → parse_int s ≡ parse_magnitude false s
unfolding parse_int is_digit
parse_int-digits [] e d = absurd (e refl)
parse_int-digits (c ∷ cs) e d = rw (not_sign.0) (rw (not_sign.1) refl)
  where
    not_sign : ((c == b'+') ≡ false) × ((c == b'-') ≡ false)
    not_sign = ground (arith, d.0)

digits_of-grows : (fuel n c : ℕ) (acc : Bytes) → digits_of fuel n (c ∷ acc) ≢ []
unfolding digits_of
digits_of-grows zero n c acc e = cc e
digits_of-grows (suc fuel) n c acc e =
    if_either (λ (x : Bytes). x ≢ []) (ltb n 10) _ _ (λ t q. cc q)
      (λ f. digits_of-grows fuel (n / 10) (n % 10 + b'0') (c ∷ acc)) e

format_uint-cons : (n : ℕ) → format_uint n ≢ []
unfolding format_uint
format_uint-cons n e =
    if_either (λ (x : Bytes). x ≢ []) (ltb n 10) _ _ (λ t q. cc q)
      (λ f. digits_of-grows 19 (n / 10) (n % 10 + b'0') []) e

parse_uint-format_uint : (n : ℕ) → n < 2 ^ 64 → parse_uint (format_uint n) ≡ some n
parse_uint-format_uint n h =
    parse_uint-digits (format_uint n) n (format_uint-cons n) (digits_value-format_uint n h) h

parse_magnitude-format_uint :
    (negative : Bool) (n : ℕ)
    → n < 2 ^ 64
    → parse_magnitude negative (format_uint n) ≡ signed negative n
unfolding parse_magnitude signed
parse_magnitude-format_uint negative n h = rw (parse_uint-format_uint n h, parse_magnitude) refl

parse_int-minus : (s : Bytes) → parse_int (b'-' ∷ s) ≡ parse_magnitude true s
unfolding parse_int
parse_int-minus s = refl

-- What `FormatInt` prints, `ParseInt` reads back, for every int64.
pub parse_int-format_int : (a : ℤ) → IsI64 a → parse_int (format_int a) ≡ some a
unfolding format_int signed
parse_int-format_int (pos n) h =
    parse_int-digits (format_uint n) (format_uint-cons n) (format_uint-IsDigits n)
    ∙ parse_magnitude-format_uint false n (omega arith)
    ∙ rw (lt→ltb n (2 ^ 63) (omega arith)) refl
parse_int-format_int (negsuc n) h =
    parse_int-minus (format_uint (suc n))
    ∙ parse_magnitude-format_uint true (suc n) (omega arith)
    ∙ rw (lt→ltb n (2 ^ 63) (omega arith)) refl

digits_value-zeros : (k : ℕ) (s : Bytes) → digits_value 0 (replicate k b'0' ++ s) ≡ digits_value 0 s
unfolding digits_value is_digit
digits_value-zeros zero s = refl
digits_value-zeros (suc k) s = digits_value-zeros k s

zeros-IsDigits : (k : ℕ) (s : Bytes) → IsDigits s → IsDigits (replicate k b'0' ++ s)
unfolding is_digit
zeros-IsDigits zero s h = h
zeros-IsDigits (suc k) s h = (refl, zeros-IsDigits k s h)

-- The verb `%04d` prints a number that is not negative in digits, which spell the number.
pub digits_value-format_04d : (n : ℕ) → n < 2 ^ 64 → digits_value 0 (format_04d (pos n)) ≡ some n
unfolding format_04d zero_padded
digits_value-format_04d n h =
    digits_value-zeros (4 - length (format_uint n)) (format_uint n) ∙ digits_value-format_uint n h

pub format_04d-IsDigits : (n : ℕ) → IsDigits (format_04d (pos n))
unfolding format_04d zero_padded
format_04d-IsDigits n =
    zeros-IsDigits (4 - length (format_uint n)) (format_uint n) (format_uint-IsDigits n)
