-- ===== src/Bridge/Split/Clip.antt =====
-- `clip` keeps its bound.
use agentgarage.Prelude.{
  ℕ, ◌-◌, ◌≤◌, Text, arith, length, take, length-take, length-append, [], ◌∷◌,
}
use agentgarage.Bridge.Split.{clip}

pub length-clip : (s : Text) (n : ℕ) → length (clip s n) ≤ n
unfolding clip
length-clip s n =
    ground
      (arith, length-take n s, length-take (n - 1) s, length-append (take (n - 1) s) (0x2026 ∷ []))
