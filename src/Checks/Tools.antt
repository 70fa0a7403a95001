-- ===== src/Checks/Tools.antt =====
-- Tools of an agent in a sandbox whose one file is its world, and an agent with its memory.
use agentgarage.Prelude.{
  ℕ, suc, ◌+◌, ◌-◌, ◌^◌, ◌≡◌, ◌≢◌, refl, true, false, none, some, List, [], ◌∷◌, ◌++◌, map, Text,
  All, codes, text_eq, text_eq_iff, arith, length, Attempt, success, if◌then◌else◌,
}
use agentgarage.Agent.Run.{ToolResult}
use agentgarage.Agent.Session.{no_usage}
use agentgarage.Agent.Wiring.{
  Agent, Setting, with_tools, with_memory, Schema, new_agent, apply_all, apply, add_tools,
  with_known, lookup, execute,
}
use agentgarage.Agent.Wiring.Typed.{execute-typed}
use agentgarage.Agent.Wiring.Reached.{Given, tools_of, new_agent-Given}
use agentgarage.Agent.Stream.{Part, collect, streamed, text_part}
use agentgarage.Agent.Stream.Again.{reasoning_in, text_in, calls_in, collect-streamed}
use agentgarage.Memory.{RememberArgs, remember}
use agentgarage.Memory.Kept.{content_at, expected, remember_kept}
use agentgarage.Store.Notes.{Notebook, note_store}
use agentgarage.Bridge.Lines.{trim_space, trim_left, trim_right, is_space}
use agentgarage.Tools.Strings.{split, split_from, join}
use agentgarage.Tools.Strings.Pieces.{Free}
use agentgarage.Tools.Shell.{Sandbox, quote, shell_quote, answer, cat_file, run_bash}
use agentgarage.Tools.Shell.Words.{one, shell_quote-Reads}
use agentgarage.Tools.Edit.{EditFileArgs, edit_file}
use agentgarage.Tools.Edit.Edited.{length_pos, decided, edit_file-decided}
use agentgarage.Tools.Read.{negsuc, number_lines, lines_of, trim_newline}
use agentgarage.Tools.Read.Paging.{pages, numbered, pages-numbered, overflow_hides}

-- What a shell reads as one word.
data Word : Text → Text → Type 0 where
  end_of_text : Word [] []
  quoted :
      (t s w : Text) → Free quote one t → Word s w → Word (quote ++ (t ++ (quote ++ s))) (t ++ w)
  escaped : (s w : Text) → Word s w → Word (codes "\\'" ++ s) (quote ++ w)

shell_quote-Reads_example : Word (shell_quote (codes "it's $HOME") ++ []) (codes "it's $HOME")
shell_quote-Reads_example =
    shell_quote-Reads Word quoted escaped (codes "it's $HOME") [] end_of_text

-- The sandbox prints its file, whatever it is asked.
abbrev box : Sandbox Text
box = record {
  exec = λ c w. (success (record { stdout = w; stderr = []; exit_code = 0 }), w);
  encode64 = λ t. t;
}

abbrev renaming : EditFileArgs
renaming = record {
  path = codes "a.go";
  old_string = codes "x";
  new_string = codes "xy";
  replace_all = true;
}

asks : renaming.old_string ≢ []
asks = λ e. cc (e)

changes : renaming.old_string ≢ renaming.new_string
changes = λ e. ground (arith, e)

is_shown :
    cat_file box (codes "a.go") (codes "x+x")
    ≡ (success (record { stdout = codes "x+x"; stderr = []; exit_code = 0 }), codes "x+x")
unfolding cat_file run_bash
is_shown = refl

edit_file-decided_example :
    (ps : List Text) × (join renaming.old_string ps ≡ codes "x+x")
    × All (Free renaming.old_string (length_pos renaming.old_string asks)) ps
    × (edit_file box renaming (codes "x+x")
        ≡ decided box renaming (codes "x+x") (codes "x+x") (codes "x+x") [] asks (length ps - 1) ps)
edit_file-decided_example =
    edit_file-decided box renaming (codes "x+x") (codes "x+x") (codes "x+x") [] asks changes
      is_shown

abbrev file : Text
file = codes "a\nb\nc\n"

three_lines : length (lines_of file) ≡ 3
unfolding lines_of trim_newline split split_from
three_lines = refl

pages-numbered_example : pages (length (lines_of file)) file 2 1 ≡ numbered 1 (lines_of file)
pages-numbered_example =
    pages-numbered file 2 (omega arith) (omega (arith, three_lines)) (λ e. cc (e))

overflow_hides_example :
    ((number_lines file 2 (2 ^ 63 - 1)).text ≡ [])
    × ((number_lines file 2 (2 ^ 63 - 1)).to ≡ negsuc (2 ^ 64 - 1 - (2 + (2 ^ 63 - 1) - 1)))
    × ((number_lines file 2 (2 ^ 63 - 1)).total ≡ length (lines_of file))
overflow_hides_example =
    overflow_hides file 2 (2 ^ 63 - 1) (λ e. cc (e)) (omega arith) (omega (arith, three_lines))
      (omega (arith, three_lines)) (omega arith) (omega arith)

-- The schema of a tool without arguments.
abbrev empty_object : Schema Text Text
empty_object = record {
  parse = success;
  validate = λ v. if text_eq v (codes "{}") then none else some (codes "unexpected");
  decode = success;
}

abbrev echo : Text → ℕ → Attempt ToolResult × ℕ
echo args w = (success (answer args), suc w)

abbrev braces : Text → ℕ → Attempt ToolResult × ℕ
braces args w = (success (answer (codes "{}")), suc w)

execute-typed_example :
    execute empty_object echo (codes "null") 0 ≡ execute empty_object braces (codes "null") 0
execute-typed_example =
    execute-typed empty_object echo braces
      (λ args w (input, v, p, q, r). ground (arith, p, q, r, text_eq_iff v (codes "{}")))
      (codes "null") 0

abbrev options : List (Setting ℕ Text ℕ ℕ)
options =
    with_tools (codes "bash" ∷ [])
    ∷ with_memory (some (record { recall = λ w. (success [], w); tools = codes "remember" ∷ [] }))
    ∷ []

abbrev grug : Agent ℕ Text ℕ ℕ
grug = record {
  system_prompt = codes "You are grug.";
  tools = (codes "bash", codes "bash") ∷ (codes "remember", codes "remember") ∷ [];
  model = none;
  store = 0;
  memory = some (record { recall = λ w. (success [], w); tools = codes "remember" ∷ [] });
}

grug-built : new_agent (λ t. t) (codes "You are grug.") 0 options ≡ success grug
unfolding new_agent apply_all apply add_tools with_known lookup text_eq
grug-built = refl

new_agent-Given_example : Given (λ t. t) (tools_of options) grug.tools
new_agent-Given_example = new_agent-Given (λ t. t) (codes "You are grug.") 0 options grug grug-built

abbrev content : List Part
content =
    Part.text (codes "So")
    ∷ Part.reasoning (record { text = codes "hm"; metadata = codes "sig" })
    ∷ Part.tool_call (record { id = codes "1"; name = codes "bash"; input = [] })
    ∷ []

collect-streamed_example : collect (streamed content no_usage) ≡ (
  success (
      map Part.reasoning (reasoning_in content)
      ++ (text_part (text_in content) ++ map Part.tool_call (calls_in content))),
  no_usage,
)
collect-streamed_example = collect-streamed content no_usage

abbrev lesson : RememberArgs
lesson = record { topic = codes " tea"; content = codes "black"; replace = false }

abbrev notebook : Notebook
notebook = record {
  rows =
      record { topic = codes "tea"; content = codes "green"; created_at = 1; updated_at = 1 } ∷ [];
  now = 5;
}

topic_trimmed : trim_space lesson.topic ≡ codes "tea"
unfolding trim_space trim_left trim_right is_space
topic_trimmed = refl

content_trimmed : trim_space lesson.content ≡ codes "black"
unfolding trim_space trim_left trim_right is_space
content_trimmed = refl

remember_kept_example :
    (b' : Notebook) × (remember (note_store none) lesson notebook ≡ (
      success (record {
        content = codes "Remembered under " ++ (trim_space lesson.topic ++ codes ".");
        is_error = false;
      }),
      b',
    ))
    × (content_at (trim_space lesson.topic) b'.rows
        ≡ some (
            expected lesson.replace
              (trim_space lesson.content)
              (content_at (trim_space lesson.topic) notebook.rows)))
    × (content_at (codes "sugar") b'.rows ≡ content_at (codes "sugar") notebook.rows)
remember_kept_example =
    remember_kept lesson notebook (codes "sugar") (λ e. ground (arith, e, topic_trimmed))
      (λ e. ground (arith, e, content_trimmed)) (λ e. ground (arith, e, topic_trimmed))
