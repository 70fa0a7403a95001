-- ===== src/Bridge/Lines.antt =====
-- metaharness/bridge/telegram/text.go: the answer of a turn, and its events as short lines. The same
-- functions stand in metaharness/bridge/xmpp/text.go. A message or an error that an event carries is
-- never nil.
pub mod Short
use agentgarage.Prelude.{
  ℕ, ◌==◌, leb, Bool, true, false, ◌&&◌, ◌||◌, Option, none, some, List, [], ◌∷◌, ◌++◌, map, Text,
  text_eq, codes, if◌then◌else◌,
}
use agentgarage.Agent.Message.{Message, ToolCall}
use agentgarage.Agent.Parts.{ToolAnswer, text_parts, reasoning_parts, all_tool_calls, tool_results}
use agentgarage.Agent.Run.{Event}
use agentgarage.Bridge.Split.{clip}

-- unicode.IsSpace.
unfoldable pub is_space : ℕ → Bool
is_space c =
    (leb 9 c && leb c 13)
    || (c == 0x20)
    || (c == 0x85)
    || (c == 0xa0)
    || (c == 0x1680)
    || (leb 0x2000 c && leb c 0x200a)
    || (c == 0x2028)
    || (c == 0x2029)
    || (c == 0x202f)
    || (c == 0x205f)
    || (c == 0x3000)

unfoldable pub trim_left : Text → Text
unfolding is_space
trim_left [] = []
trim_left (c ∷ s) = let rest = trim_left s in if is_space c then rest else c ∷ s

unfoldable pub trim_right : Text → Text
unfolding is_space
trim_right [] = []
trim_right (c ∷ s) =
    let rest = trim_right s in if is_space c && text_eq rest [] then [] else c ∷ rest

unfoldable pub trim_space : Text → Text
unfolding trim_left trim_right
trim_space s = trim_right (trim_left s)

-- "\r\n" becomes a space.
unfoldable pub join_crlf : Text → Text
join_crlf [] = []
join_crlf (c ∷ []) = c ∷ []
join_crlf (c ∷ d ∷ s) =
    let rest = join_crlf s in
    let on = join_crlf (d ∷ s) in if (c == 13) && (d == 10) then 32 ∷ rest else c ∷ on

abbrev pub spaced : ℕ → ℕ → ℕ
spaced target c = if c == target then 32 else c

unfoldable pub one_line : Text → Text
unfolding trim_space join_crlf
one_line s = trim_space (map (spaced 9) (map (spaced 10) (join_crlf s)))

-- A text after what is written already, with a separator between two.
abbrev pub joined : Text → Text → Text → Text
joined separator [] t = t
joined separator (c ∷ b) t = ((c ∷ b) ++ separator) ++ t

-- The parts that are not empty, each as `f` writes it.
unfoldable pub write_all : (Text → Text) → Text → Text → List Text → Text
write_all f separator b [] = b
write_all f separator b (t ∷ ts) =
    write_all f separator (if text_eq t [] then b else joined separator b (f t)) ts

unfoldable pub final_text : Message → Text
unfolding text_parts trim_space write_all
final_text m = trim_space (write_all (λ t. t) (10 ∷ []) [] (text_parts (some m)))

-- encoding/json: the fields of an object that are strings, if the text is an object.
pub record Json : Type 0 where
  pub object : Text → Option (Text → Option Text)

abbrev keys : List Text
keys =
    codes "cmd"
    ∷ codes "command"
    ∷ codes "path"
    ∷ codes "file_path"
    ∷ codes "file"
    ∷ codes "skill"
    ∷ codes "query"
    ∷ []

abbrev or_next : Option Text → Option Text → Option Text
or_next none next = next
or_next (some []) next = next
or_next (some (c ∷ t)) next = some (c ∷ t)

unfoldable first_field : (Text → Option Text) → List Text → Option Text
first_field f [] = none
first_field f (k ∷ ks) = or_next (f k) (first_field f ks)

abbrev pub field_of : Option (Text → Option Text) → Option Text
unfolding first_field
field_of none = none
field_of (some f) = first_field f keys

abbrev text_or : Option Text → Text → Text
text_or none t = t
text_or (some s) t = s

unfoldable summarize_tool_input : Json → Text → Text
unfolding trim_space one_line clip
summarize_tool_input j input =
    let t = trim_space input in
    if text_eq t [] then [] else clip (one_line (text_or (field_of (j.object t)) t)) 60

abbrev call_line : Text → Text → Text
call_line name [] = codes "🔧 " ++ name
call_line name (c ∷ arg) = codes "🔧 " ++ name ++ codes ": " ++ c ∷ arg

unfoldable call_lines : Json → List ToolCall → Text
unfolding summarize_tool_input
call_lines j [] = []
call_lines j (c ∷ []) = call_line c.name (summarize_tool_input j c.input)
call_lines j (c ∷ d ∷ cs) =
    call_line c.name (summarize_tool_input j c.input) ++ 10 ∷ call_lines j (d ∷ cs)

abbrev pub thought_line : Text → Text
thought_line [] = codes "💭 thinking…"
thought_line (c ∷ b) = codes "💭 " ++ clip (c ∷ b) 240

-- What an assistant's message shows beside its calls.
unfoldable pub thinking_line : Bool → List Text → Option Text
unfolding clip one_line write_all
thinking_line show [] = none
thinking_line false (r ∷ rs) = some (codes "💭 thinking…")
thinking_line true (r ∷ rs) = some (thought_line (write_all one_line (32 ∷ []) [] (r ∷ rs)))

unfoldable pub assistant_line : Json → Bool → Message → Option Text
unfolding all_tool_calls reasoning_parts call_lines thinking_line
assistant_line j show m = elim (all_tool_calls (some m)) [
  | [] ↦ thinking_line show (reasoning_parts (some m))
  | c ∷ cs ↦ some (call_lines j (c ∷ cs))
]

abbrev pub error_in : List ToolAnswer → Option Text
error_in [] = none
error_in (r ∷ rs) = elim r.error [ some e ↦ some e | none ↦ error_in rs ]

abbrev pub last_text : List ToolAnswer → Text
last_text [] = []
last_text (r ∷ []) = r.text
last_text (r ∷ s ∷ rs) = last_text (s ∷ rs)

abbrev pub done_line : Text → Text
done_line [] = codes "↳ ok"
done_line (c ∷ s) = codes "↳ " ++ c ∷ s

-- What answers show, by the first error among them.
unfoldable pub answers_line : Option Text → List ToolAnswer → Text
unfolding clip one_line
answers_line (some e) rs = 0x26a0 ∷ 0xfe0f ∷ 0x20 ∷ clip (one_line e) 120
answers_line none rs = done_line (clip (one_line (last_text rs)) 80)

unfoldable pub tool_result_line : Message → Option Text
unfolding tool_results answers_line
tool_result_line m = elim (tool_results (some m)) [
  | [] ↦ none
  | r ∷ rs ↦ some (answers_line (error_in (r ∷ rs)) (r ∷ rs))
]

unfoldable pub step_line : Json → Bool → Event → Option Text
unfolding assistant_line tool_result_line clip one_line
step_line j show (Event.assistant m) = assistant_line j show m
step_line j show (Event.tool_result m) = tool_result_line m
step_line j show (Event.done m) = some (codes "✅ done")
step_line j show (Event.error e) = some (codes "❌ " ++ clip (one_line e) 120)
