-- ===== src/Macros/Ident/Decimal.antt =====
-- The names of macros/src/codegen/util.rs that end in a number tell the numbers apart.
use linux_rtfm.Base.{ℕ, ◌+◌, ◌-◌, ◌*◌, ◌≡◌, sym, ap, ◌∙◌, [], ◌∷◌, arith}
use linux_rtfm.Macros.Ident.{Ident, decimal, rt_ident, b_ident}

-- The number that a decimal is of.
unfoldable value : Ident → ℕ
value [] = 0
value (a ∷ []) = a - 48
value (a ∷ b ∷ []) = (a - 48) * 10 + (b - 48)
value (a ∷ b ∷ c ∷ rest) = (a - 48) * 100 + (b - 48) * 10 + (c - 48)

value-decimal : (n : ℕ) → value (decimal n) ≡ n
unfolding value decimal
value-decimal n = ground arith

decimal_inj : (m n : ℕ) → decimal m ≡ decimal n → m ≡ n
decimal_inj m n h = sym (value-decimal m) ∙ ap value h ∙ value-decimal n

pub rt_ident_inj : (m n : ℕ) → rt_ident m ≡ rt_ident n → m ≡ n
unfolding rt_ident
rt_ident_inj m n h = decimal_inj m n (let e : decimal m ≡ decimal n = cc in e)

pub b_ident_inj : (m n : ℕ) → b_ident m ≡ b_ident n → m ≡ n
unfolding b_ident
b_ident_inj m n h = decimal_inj m n (let e : decimal m ≡ decimal n = cc in e)
