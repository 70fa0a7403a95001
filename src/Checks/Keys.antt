-- ===== src/Checks/Keys.antt =====
-- Keys under a prefix, and long messages.
use agentgarage.Prelude.{◌≡◌, refl, some, List, [], ◌∷◌, Text, codes}
use agentgarage.Bridge.Split.{split_message, effective}
use agentgarage.Bridge.Split.Chunks.{Fits, Rejoins, split_message-Split}

split_message-Split_example :
    (chunks : List Text) × (split_message (codes "one two three") 8 ≡ some chunks)
    × Fits (effective 8) chunks
    × Rejoins chunks (codes "one two three")
split_message-Split_example = split_message-Split (codes "one two three") 8

splits : split_message (codes "one two three") 8 ≡ some (codes "one two" ∷ codes "three" ∷ [])
unfolding split_message
splits = refl
