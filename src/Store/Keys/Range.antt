-- ===== src/Store/Keys/Range.antt =====
-- The range selects exactly the keys that start with the prefix.
use mathlib.Core.List.{reverse, reverse-cons, reverse-append}
use agentgarage.Prelude.{
  ℕ, ◌≤◌, ◌<◌, ◌≡◌, refl, ap, ◌∙◌, ◌⊎◌, Bool, true, false, not, ◌&&◌, Option, none, some, [], ◌∷◌,
  ◌++◌, Text, arith, ◌==◌, text_eq, text_leb, All,
}
use agentgarage.Store.Keys.{max_rune, next_rune, successor_from, successor, selected}

-- A rune that UTF-8 can encode.
abbrev pub IsRune : ℕ → Type 0
IsRune r = (r < 0xd800) ⊎ ((0xe000 ≤ r) × (r ≤ max_rune))

unfoldable pub has_prefix : Text → Text → Bool
has_prefix [] key = true
has_prefix (r ∷ prefix) [] = false
has_prefix (r ∷ prefix) (k ∷ key) = (r == k) && has_prefix prefix key

-- The same successor, found from the front.
ahead : ℕ → Option Text → Option Text
unfolding next_rune
ahead r (some q) = some (r ∷ q)
ahead r none = elim (next_rune r) [ none ↦ none | some n ↦ some (n ∷ []) ]

forward : Text → Option Text
unfolding ahead
forward [] = none
forward (r ∷ rest) = ahead r (forward rest)

successor_from-append :
    (ys : Text) (x : ℕ) → successor_from (ys ++ x ∷ []) ≡ ahead x (successor_from ys)
unfolding successor_from ahead
successor_from-append [] x = ground arith
successor_from-append (y ∷ ys) x =
    ground (arith, successor_from-append ys x, reverse-append ys (x ∷ []))

successor-forward : (p : Text) → successor p ≡ forward p
unfolding successor forward
successor-forward [] = refl
successor-forward (x ∷ p) =
    ap successor_from (reverse-cons x p)
    ∙ successor_from-append (reverse p) x
    ∙ ap (ahead x) (successor-forward p)

below_next : Text → Option Text → Bool
below_next key none = true
below_next key (some next) = not (text_leb next key)

range_lem :
    (p k : Text)
    → All IsRune p
    → All IsRune k
    → (text_leb p k && below_next k (forward p)) ≡ has_prefix p k
unfolding text_leb forward below_next has_prefix ahead
range_lem [] k vp vk = refl
range_lem (r ∷ p) [] vp vk = refl
range_lem (r ∷ p) (x ∷ k) vp vk = ground (arith, range_lem p k vp.1 vk.1, vp.0, vk.0)

-- For texts of runes, `List` with a prefix selects a key exactly if the key starts with the prefix,
-- whatever runes the prefix ends in.
pub selected-has_prefix :
    (prefix key : Text)
    → All IsRune prefix
    → All IsRune key
    → selected prefix key ≡ has_prefix prefix key
unfolding selected has_prefix text_eq below_next
selected-has_prefix [] key vp vk = refl
selected-has_prefix (r ∷ prefix) key vp vk =
    rw (successor-forward (r ∷ prefix)) (ground (arith, range_lem (r ∷ prefix) key vp vk))
