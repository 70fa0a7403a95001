-- ===== src/Chatroom/Mentions.antt =====
-- The mentions in a text, chatroom/chatroom.go: what `FindAllStringSubmatch` finds of
-- @([A-Za-z][A-Za-z0-9_-]*).
pub mod Found
use agentgarage.Prelude.{
  ℕ, leb, ◌==◌, Bool, true, false, ◌&&◌, ◌||◌, List, [], ◌∷◌, ◌++◌, Text, if◌then◌else◌,
}

unfoldable pub is_letter : ℕ → Bool
is_letter c = (leb 65 c && leb c 90) || (leb 97 c && leb c 122)

unfoldable pub is_name_char : ℕ → Bool
unfolding is_letter
is_name_char c = is_letter c || (leb 48 c && leb c 57) || (c == 95) || (c == 45)

-- Where the search is: outside of a match, behind an '@', or in a name.
pub data Place : Type 0 where
  outside at_sign : Place
  naming : Text → Place

-- Where a character leads that continues no name.
abbrev pub elsewhere : ℕ → Place
elsewhere c = if c == 64 then at_sign else outside

unfoldable pub scan : Place → Text → List Text
unfolding is_letter is_name_char
scan outside [] = []
scan at_sign [] = []
scan (naming n) [] = n ∷ []
scan outside (c ∷ s) = scan (elsewhere c) s
scan at_sign (c ∷ s) = scan (if is_letter c then naming (c ∷ []) else elsewhere c) s
scan (naming n) (c ∷ s) =
    let more = scan (naming (n ++ c ∷ [])) s in
    let rest = scan (elsewhere c) s in if is_name_char c then more else n ∷ rest

unfoldable pub mentions : Text → List Text
unfolding scan
mentions text = scan outside text
