-- ===== src/Tools/Strings.antt =====
-- The functions of Go's package strings that metaharness/tools uses: a search that goes from left to
-- right and steps over each match. `skip` is the number of code points to step over.
pub mod Pieces
use agentgarage.Prelude.{
  ℕ, zero, suc, ◌+◌, ◌-◌, ◌==◌, ltb, Bool, true, false, not, ◌&&◌, List, [], ◌∷◌, ◌++◌, Text,
  length, if◌then◌else◌,
}
use agentgarage.Store.Keys.Range.{has_prefix}

-- Whether a match of `old` starts here, where nothing is left to step over.
unfoldable pub starts : Text → ℕ → Text → Bool
unfolding has_prefix
starts old zero s = has_prefix old s
starts old (suc k) s = false

-- What is left to step over behind a code point.
unfoldable pub steps : Text → ℕ → Bool → ℕ
steps old skip true = length old - 1
steps old zero false = 0
steps old (suc k) false = k

-- `strings.Count`, for a text to count that is not empty.
unfoldable pub count_from : Text → ℕ → Text → ℕ
unfolding starts steps
count_from old skip [] = 0
count_from old skip (c ∷ s) =
    let hit = starts old skip (c ∷ s) in
    let rest = count_from old (steps old skip hit) s in if hit then suc rest else rest

unfoldable pub count : Text → Text → ℕ
unfolding count_from
count old s = count_from old 0 s

-- What a code point becomes: the new text at a match, nothing inside one.
unfoldable pub replaced : Text → ℕ → Bool → ℕ → Text
replaced new skip true c = new
replaced new zero false c = c ∷ []
replaced new (suc k) false c = []

-- `strings.Replace` with the matches that are left to replace.
unfoldable pub replace_from : Text → Text → ℕ → ℕ → Text → Text
unfolding starts steps replaced
replace_from old new left skip [] = []
replace_from old new left skip (c ∷ s) =
    let hit = starts old skip (c ∷ s) && ltb 0 left in
    replaced new skip hit c
    ++ replace_from old new (if hit then left - 1 else left) (steps old skip hit) s

unfoldable pub replace : Text → Text → ℕ → Text → Text
unfolding replace_from
replace old new n s = replace_from old new n 0 s

unfoldable pub replace_all : Text → Text → Text → Text
unfolding replace count
replace_all old new s = replace old new (count old s) s

-- A code point in front of the first piece.
abbrev pub onto_first : ℕ → List Text → List Text
onto_first c [] = (c ∷ []) ∷ []
onto_first c (p ∷ ps) = (c ∷ p) ∷ ps

-- The pieces with a code point in front: a match ends the piece before it.
unfoldable pub cut : ℕ → Bool → ℕ → List Text → List Text
cut skip true c ps = [] ∷ ps
cut zero false c ps = onto_first c ps
cut (suc k) false c ps = ps

-- `strings.Split`.
unfoldable pub split_from : Text → ℕ → Text → List Text
unfolding starts steps cut
split_from old skip [] = [] ∷ []
split_from old skip (c ∷ s) =
    let hit = starts old skip (c ∷ s) in cut skip hit c (split_from old (steps old skip hit) s)

unfoldable pub split : Text → Text → List Text
unfolding split_from
split old s = split_from old 0 s

-- `strings.Join`.
unfoldable pub join : Text → List Text → Text
join sep [] = []
join sep (p ∷ []) = p
join sep (p ∷ q ∷ ps) = p ++ (sep ++ join sep (q ∷ ps))
