-- ===== src/Prelude/Attempts.antt =====
-- What a fallible call returns: a value, or an error by its text.
use Prim.Native.Nat.{ℕ}
use mathlib.Core.List.{List}

pub data Attempt {ℓ} (A : Type ℓ) : Type ℓ where
  failure : List ℕ → Attempt A
  success : A → Attempt A
