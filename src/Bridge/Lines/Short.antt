-- ===== src/Bridge/Lines/Short.antt =====
-- A progress line is one line, and short.
use agentgarage.Prelude.{
  ℕ, zero, suc, ◌+◌, ◌≤◌, ◌≡◌, ◌≢◌, refl, Bool, true, false, ◌&&◌, ◌-◌, ◌⊎◌, length-append, inl,
  inr, leb, Option, none, some, List, [], ◌∷◌, ◌++◌, map, Text, All, All-append, arith, length,
  take, text_eq, codes, Bool-cases,
}
use mathlib.Core.Path.{subst}
use mathlib.Core.Option.{some_inj}
use agentgarage.Agent.Message.{ToolCall}
use agentgarage.Agent.Parts.{ToolAnswer, reasoning_parts, all_tool_calls, tool_results}
use agentgarage.Agent.Run.{Event}
use agentgarage.Bridge.Split.{clip}
use agentgarage.Bridge.Split.Clip.{length-clip}
use agentgarage.Bridge.Lines.{
  is_space, trim_left, trim_right, trim_space, join_crlf, spaced, one_line, joined, write_all, Json,
  thought_line, thinking_line, assistant_line, error_in, last_text, done_line, answers_line,
  tool_result_line, step_line,
}

abbrev NotNewline : ℕ → Type 0
NotNewline c = c ≢ 10

abbrev IsLine : Text → Type 0
IsLine s = All NotNewline s

spaced-IsLine : (s : Text) → IsLine (map (spaced 9) (map (spaced 10) s))
spaced-IsLine [] = tt
spaced-IsLine (c ∷ s) = (ground arith, spaced-IsLine s)

trim_left-IsLine : (s : Text) → IsLine s → IsLine (trim_left s)
unfolding trim_left
trim_left-IsLine [] h = tt
trim_left-IsLine (c ∷ s) h = elim (Bool-cases (is_space c)) [
  | inl e ↦ rw e (trim_left-IsLine s h.1)
  | inr e ↦ rw e h
]

trim_right-IsLine : (s : Text) → IsLine s → IsLine (trim_right s)
unfolding trim_right
trim_right-IsLine [] h = tt
trim_right-IsLine (c ∷ s) h = elim (Bool-cases (is_space c && text_eq (trim_right s) [])) [
  | inl e ↦ rw e tt
  | inr e ↦ rw e (h.0, trim_right-IsLine s h.1)
]

one_line-IsLine : (s : Text) → IsLine (one_line s)
unfolding one_line trim_space
one_line-IsLine s = trim_right-IsLine _ (trim_left-IsLine _ (spaced-IsLine (join_crlf s)))

take-IsLine : (n : ℕ) (s : Text) → IsLine s → IsLine (take n s)
take-IsLine zero s h = tt
take-IsLine (suc n) [] h = tt
take-IsLine (suc n) (c ∷ s) h = (h.0, take-IsLine n s h.1)

clip-IsLine : (s : Text) (n : ℕ) → IsLine s → IsLine (clip s n)
unfolding clip
clip-IsLine s n h = elim (Bool-cases (leb (length s) n)) [
  | inl fits ↦ rw fits h
  | inr long ↦ elim (Bool-cases (leb n 1)) [
    | inl one ↦ rw (long, one) (take-IsLine n s h)
    | inr more ↦
        rw (long, more)
          (All-append NotNewline (take (n - 1) s) (0x2026 ∷ []) (take-IsLine (n - 1) s h)
            (ground arith, tt))
  ]
]

List-cases :
    (rs : List ToolAnswer)
    → (rs ≡ []) ⊎ ((r : ToolAnswer) × (rest : List ToolAnswer) × (rs ≡ r ∷ rest))
List-cases [] = inl refl
List-cases (r ∷ rs) = inr (r, rs, refl)

-- One line of at most so many code points.
abbrev IsShort : ℕ → Text → Type 0
IsShort n s = (length s ≤ n) × IsLine s

marked-IsShort :
    (mark s : Text) (m n : ℕ)
    → length mark ≡ m
    → IsLine mark
    → IsLine s
    → IsShort (m + n) (mark ++ clip s n)
marked-IsShort mark s m n e hm hs = (
  omega (arith, length-append mark (clip s n), length-clip s n, e),
  All-append NotNewline mark (clip s n) hm (clip-IsLine s n hs),
)

weaker-IsShort : {m n : ℕ} (s : Text) → m ≤ n → IsShort m s → IsShort n s
weaker-IsShort s h i = (omega (arith, h, i.0), i.1)

joined-IsLine :
    (separator b t : Text) → IsLine separator → IsLine b → IsLine t → IsLine (joined separator b t)
joined-IsLine separator [] t hs hb ht = ht
joined-IsLine separator (c ∷ b) t hs hb ht =
    All-append NotNewline ((c ∷ b) ++ separator) t (All-append NotNewline (c ∷ b) separator hb hs)
      ht

write_all-IsLine :
    (b : Text) (ts : List Text) → IsLine b → IsLine (write_all one_line (0x20 ∷ []) b ts)
unfolding write_all
write_all-IsLine b [] h = h
write_all-IsLine b (t ∷ ts) h = elim (Bool-cases (text_eq t [])) [
  | inl e ↦ rw e (write_all-IsLine b ts h)
  | inr e ↦ rw e (
      write_all-IsLine (joined (0x20 ∷ []) b (one_line t)) ts
        (joined-IsLine (0x20 ∷ []) b (one_line t) (ground arith, tt) h (one_line-IsLine t)))
]

thinking-IsShort : IsShort 242 (codes "💭 thinking…")
thinking-IsShort = (omega arith, ground arith)

thought_line-IsShort : (b : Text) → IsLine b → IsShort 242 (thought_line b)
thought_line-IsShort [] h = thinking-IsShort
thought_line-IsShort (c ∷ b) h = marked-IsShort (codes "💭 ") (c ∷ b) 2 240 refl (ground arith) h

done_line-IsShort : (s : Text) → IsShort 80 s → IsShort 242 (done_line s)
done_line-IsShort [] h = (omega arith, ground arith)
done_line-IsShort (c ∷ s) h = ground (arith, h)

answers_line-IsShort : (o : Option Text) (rs : List ToolAnswer) → IsShort 242 (answers_line o rs)
unfolding answers_line
answers_line-IsShort (some e) rs = weaker-IsShort (answers_line (some e) rs) (omega arith) (
    marked-IsShort (0x26a0 ∷ 0xfe0f ∷ 0x20 ∷ []) (one_line e) 3 120 refl (ground arith)
      (one_line-IsLine e))
answers_line-IsShort none rs = done_line-IsShort (clip (one_line (last_text rs)) 80) (
  length-clip (one_line (last_text rs)) 80,
  clip-IsLine (one_line (last_text rs)) 80 (one_line-IsLine (last_text rs)),
)

thinking_line-IsShort :
    (show : Bool) (rs : List Text) (line : Text)
    → thinking_line show rs ≡ some line
    → IsShort 242 line
unfolding thinking_line
thinking_line-IsShort show [] line h = ground (arith, h)
thinking_line-IsShort false (r ∷ rs) line h = subst (IsShort 242) (some_inj.0 h) thinking-IsShort
thinking_line-IsShort true (r ∷ rs) line h =
    subst (IsShort 242) (some_inj.0 h) (thought_line-IsShort _ (write_all-IsLine [] (r ∷ rs) tt))

-- The calls that an event's line lists, one to a line.
abbrev calls_listed : Event → List ToolCall
calls_listed (Event.assistant m) = all_tool_calls (some m)
calls_listed _ = []

-- The line of an event that lists no tool calls, if it has one, is one line of at most 242 code
-- points, whatever the texts of the message, the thoughts, the tool's answers or the error hold.
step_line-IsShort :
    (j : Json) (show : Bool) (ev : Event) (line : Text)
    → calls_listed ev ≡ []
    → step_line j show ev ≡ some line
    → IsShort 242 line
unfolding step_line assistant_line tool_result_line
step_line-IsShort j show (Event.assistant m) line c h =
    thinking_line-IsShort show (reasoning_parts (some m)) line (ground (arith, c, h))
step_line-IsShort j show (Event.tool_result m) line c h =
    elim (List-cases (tool_results (some m))) [
      | inl e ↦ absurd (ground (arith, e, h))
      | inr (r, rs, e) ↦
          subst (IsShort 242) (ground (arith, e, h))
            (answers_line-IsShort (error_in (r ∷ rs)) (r ∷ rs))
    ]
step_line-IsShort j show (Event.done m) line c h =
    subst (IsShort 242) (some_inj.0 h) (omega arith, ground arith)
step_line-IsShort j show (Event.error e) line c h = subst (IsShort 242) (some_inj.0 h) (
    weaker-IsShort (codes "❌ " ++ clip (one_line e) 120) (omega arith)
      (marked-IsShort (codes "❌ ") (one_line e) 2 120 refl (ground arith) (one_line-IsLine e)))
