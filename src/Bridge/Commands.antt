-- ===== src/Bridge/Commands.antt =====
-- How both chat bridges tell a command from a prompt, and its first word from the rest: `splitCommand`,
-- with strings.Cut, and the test of the first byte.
use agentgarage.Prelude.{◌==◌, Bool, false, [], ◌∷◌, Text, if◌then◌else◌}

unfoldable pub cut_space : Text → Text × Text
cut_space [] = ([], [])
cut_space (c ∷ s) =
    let (before, after) = cut_space s in if c == 32 then ([], s) else (c ∷ before, after)

abbrev pub is_command : Text → Bool
is_command [] = false
is_command (c ∷ s) = c == 47
