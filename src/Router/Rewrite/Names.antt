-- ===== src/Router/Rewrite/Names.antt =====
-- The names of sub-tables.
use kingshard.Prelude.{ℕ, ◌<◌, ◌^◌, pos, Bytes, [], ◌∷◌, ◌++◌, ◌≡◌, refl, subst}
use kingshard.Strconv.{is_digit}
use kingshard.Strconv.Decimal.{format_04d, IsDigits, digits_value-format_04d, format_04d-IsDigits}
use kingshard.Router.Rewrite.{sub_table}

-- Digits hold no underscore.
no_underscore : (a s : Bytes) → ¬ IsDigits (a ++ (b'_' ∷ s))
unfolding is_digit
no_underscore [] s h = cc (h.0)
no_underscore (c ∷ cs) s h = no_underscore cs s (h.1)

no_digits : (a s t : Bytes) → IsDigits t → ¬ (t ≡ a ++ (b'_' ∷ s))
no_digits a s t h e = no_underscore a s (subst (λ (x : Bytes). IsDigits x) e h)

-- The last underscore splits a name.
split_last :
    (a b s t : Bytes)
    → IsDigits s
    → IsDigits t
    → a ++ (b'_' ∷ s) ≡ b ++ (b'_' ∷ t)
    → (a ≡ b) × (s ≡ t)
split_last [] [] s t p q e = (refl, cc e)
split_last [] (c ∷ cs) s t p q e = absurd (no_digits cs t s p (cc e))
split_last (c ∷ cs) [] s t p q e = absurd (no_digits cs s t q (cc e))
split_last (a ∷ as') (b ∷ bs) s t p q e =
    let (same, digits) = split_last as' bs s t p q (cc e) in (cc (e, same), digits)

-- Two sub-tables never share a name. Where the names that are made for two tables and two indexes
-- of 64 bits which are not negative are the same, so are the tables and the indexes.
pub sub_table-injective :
    (a b : Bytes) (m n : ℕ)
    → m < 2 ^ 64
    → n < 2 ^ 64
    → sub_table a (pos m) ≡ sub_table b (pos n)
    → (a ≡ b) × (m ≡ n)
unfolding sub_table
sub_table-injective a b m n h h' e =
    let (same, digits) =
      split_last a b (format_04d (pos m)) (format_04d (pos n)) (format_04d-IsDigits m)
        (format_04d-IsDigits n) e in
    (same, cc (digits_value-format_04d m h, digits_value-format_04d n h', digits))
