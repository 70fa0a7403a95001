-- ===== src/Store/Keys.antt =====
-- metaharness/agentdb/turso/kv.go: the range of keys that stands for a prefix. A text is its runes;
-- the key column sorts as they do.
pub mod Range
use agentgarage.Prelude.{
  ℕ, ◌+◌, ◌≤◌, ◌<◌, Bool, true, false, not, ◌&&◌, ◌||◌, Option, none, some, List, [], ◌∷◌, ◌++◌,
  Text, ◌==◌, ltb, leb, text_eq, text_leb, if◌then◌else◌,
}
use mathlib.Core.List.{reverse}

abbrev pub max_rune : ℕ
max_rune = 0x10ffff

unfoldable pub next_rune : ℕ → Option ℕ
next_rune r =
    let n = if r + 1 == 0xd800 then 0xe000 else r + 1 in if ltb max_rune n then none else some n

-- The loop, over the runes of the prefix from the last to the first.
unfoldable pub successor_from : Text → Option Text
unfolding next_rune
successor_from [] = none
successor_from (r ∷ before) = elim (next_rune r) [
  | some n ↦ some (reverse before ++ n ∷ [])
  | none ↦ successor_from before
]

unfoldable pub successor : Text → Option Text
unfolding successor_from
successor prefix = successor_from (reverse prefix)

-- The `WHERE` clause of `List` at a key.
unfoldable pub selected : Text → Text → Bool
unfolding successor text_leb text_eq
selected prefix key =
    text_eq prefix []
    || (text_leb prefix key
        && elim (successor prefix) [ none ↦ true | some next ↦ not (text_leb next key) ])
