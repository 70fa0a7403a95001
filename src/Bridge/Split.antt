-- ===== src/Bridge/Split.antt =====
-- metaharness/bridge/telegram/text.go: a long reply in several messages, and short lines. A text is
-- its runes. A limit of 0 stands for every non-positive one.
pub mod Chunks
pub mod Clip
use mathlib.Core.Option
use agentgarage.Prelude.{
  ℕ, zero, suc, ◌+◌, ◌-◌, ◌/◌, ◌<◌, Bool, true, false, Option, none, some, List, [], ◌∷◌, ◌++◌,
  Text, ◌==◌, ltb, leb, length, get_elem?, take, drop, if◌then◌else◌,
}

abbrev pub telegram_max_message : ℕ
telegram_max_message = 4096

abbrev holds : Option ℕ → ℕ → Bool
holds none target = false
holds (some r) target = r == target

-- The loop of `lastIndexRune`, with `i + 1` for its counter.
last_index_from : Text → ℕ → ℕ → Option ℕ
last_index_from runes target zero = none
last_index_from runes target (suc i) =
    let below = last_index_from runes target i in
    if holds (get_elem? runes i) target then some i else below

-- `none` stands for -1.
unfoldable pub last_index_rune : Text → ℕ → Option ℕ
unfolding last_index_from
last_index_rune runes target = last_index_from runes target (length runes)

-- `i >= limit / 2`, where no index is -1.
abbrev pub in_back_half : Option ℕ → ℕ → Bool
in_back_half none limit = false
in_back_half (some i) limit = leb (limit / 2) i

abbrev pub index_or : Option ℕ → ℕ → ℕ
index_or none limit = limit
index_or (some i) limit = i

-- The cut, and whether a separator stands there.
unfoldable pub break_point : Text → ℕ × Bool
unfolding last_index_rune
break_point window =
    let limit = length window in
    let newline = last_index_rune window b'\n' in
    let space = last_index_rune window b' ' in
    if in_back_half newline limit
    then (index_or newline limit, true)
    else if in_back_half space limit
    then (index_or space limit, true)
    else (limit, false)

-- The loop of `splitMessage` and what follows it. `none` means that the fuel ran out.
unfoldable pub split_from : ℕ → Text → ℕ → Option (List Text)
unfolding break_point
split_from zero runes limit = none
split_from (suc fuel) runes limit =
    let (cut, dropped) = break_point (take limit runes) in
    let next = if dropped then cut + 1 else cut in
    let rest = split_from fuel (drop next runes) limit in
    if ltb limit (length runes)
    then Option.map (λ chunks. take cut runes ∷ chunks) rest
    else if ltb 0 (length runes)
    then some (runes ∷ [])
    else some []

unfoldable pub effective : ℕ → ℕ
effective limit = if limit == 0 then telegram_max_message else limit

unfoldable pub split_message : Text → ℕ → Option (List Text)
unfolding split_from effective
split_message s limit =
    if length s == 0
    then some []
    else if leb (length s) (effective limit)
    then some (s ∷ [])
    else split_from (length s) s (effective limit)

unfoldable pub clip : Text → ℕ → Text
clip s n =
    if leb (length s) n then s else if leb n 1 then take n s else take (n - 1) s ++ 0x2026 ∷ []
