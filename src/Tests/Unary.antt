-- ===== src/Tests/Unary.antt =====
-- Numbers written with one letter each, to stand for the decimal conversions.
use Prim.Native.String.{String, [], ◌∷◌}
use farm_server.Base.{ℕ, zero, suc, ◌≡◌, refl, ap}

unfoldable pub unary : ℕ → String
unary zero = []
unary (suc n) = "i" ∷ unary n

unfoldable pub text_length : String → ℕ
text_length [] = zero
text_length (c ∷ s) = suc (text_length s)

pub text_length-unary : (n : ℕ) → text_length (unary n) ≡ n
unfolding text_length unary
text_length-unary zero = refl
text_length-unary (suc n) = ap (λ (m : ℕ). suc m) (text_length-unary n)
