-- ===== src/Prelude/Decimal.antt =====
-- Decimal numerals: Go's strconv.Itoa on numbers that are not negative.
use Prim.Native.Nat.{ℕ, zero, suc, ◌+◌, ◌-◌, ◌*◌, ◌/◌, ◌%◌, ◌<◌}
use mathlib.Core.Path.{◌≡◌, refl, sym, ap, ◌∙◌}
use mathlib.Core.List.{[], ◌∷◌, ◌++◌}
use native.Mathlib.Omega.{arith}
use agentgarage.Prelude.Tests.{if◌then◌else◌, ltb}
use agentgarage.Prelude.Texts.{Text}

-- The digits of n, if n is below the fuel.
unfoldable pub digits : ℕ → ℕ → Text
digits zero n = []
digits (suc f) n =
    let rest = digits f (n / 10) in if ltb n 10 then (48 + n) ∷ [] else rest ++ (48 + n % 10) ∷ []

unfoldable pub itoa : ℕ → Text
unfolding digits
itoa n = digits (suc n) n

unfoldable value : ℕ → Text → ℕ
value acc [] = acc
value acc (c ∷ cs) = value (acc * 10 + (c - 48)) cs

value-snoc : (acc : ℕ) (xs : Text) (c : ℕ) → value acc (xs ++ c ∷ []) ≡ value acc xs * 10 + (c - 48)
unfolding value
value-snoc acc [] c = refl
value-snoc acc (x ∷ xs) c = value-snoc (acc * 10 + (x - 48)) xs c

value-digits : (f n : ℕ) → n < f → value 0 (digits f n) ≡ n
unfolding value digits
value-digits zero n h = ground (arith, h)
value-digits (suc f) n h =
    ground (arith, value-digits f (n / 10), value-snoc 0 (digits f (n / 10)) (48 + n % 10), h)

-- Different numbers have different numerals.
pub itoa-inj : (m n : ℕ) → itoa m ≡ itoa n → m ≡ n
unfolding itoa
itoa-inj m n h =
    sym (value-digits (suc m) m (omega arith))
    ∙ ap (value 0) h
    ∙ value-digits (suc n) n (omega arith)
