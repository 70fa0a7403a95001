-- ===== src/Tools/Shell.antt =====
-- metaharness/tools/files.go, bash.go and write_file.go: files through the shell of a sandbox. The
-- sandbox runs commands on an abstract world; a failure is one of the sandbox, not of the command.
pub mod Words
use agentgarage.Prelude.{
  ℕ, ◌+◌, ◌==◌, ltb, Bool, true, false, not, List, [], ◌∷◌, ◌++◌, Text, codes, text_eq, itoa,
  Attempt, failure, success, if◌then◌else◌,
}
use agentgarage.Sandbox.Types.{Command, ExecResult}
use agentgarage.Agent.Run.{ToolResult}
use agentgarage.Bridge.Lines.{trim_space}
use agentgarage.Tools.Strings.{replace_all}

-- The sandbox of a session, and Go's base64 encoding of a text's bytes.
pub record Sandbox (W : Type 0) : Type 0 where
  pub exec : Command → W → Attempt ExecResult × W
  pub encode64 : Text → Text

-- A single quote, and what stands for one inside single quotes.
abbrev pub quote : Text
quote = codes "'"

abbrev pub quoted_quote : Text
quoted_quote = codes "'\\''"

unfoldable pub shell_quote : Text → Text
unfolding replace_all
shell_quote s = quote ++ (replace_all quote quoted_quote s ++ quote)

unfoldable script_of : Text → Command
script_of script = record { cmd = codes "bash"; args = codes "-c" ∷ script ∷ [] }

unfoldable cat_script : Text → Text
unfolding shell_quote
cat_script path = codes "cat -- " ++ shell_quote path

-- The text of a command that failed, or the caller's.
unfoldable pub exec_err : ExecResult → Text → Text
unfolding trim_space
exec_err res fallback =
    let err = trim_space res.stderr in
    let out = trim_space res.stdout in
    if not (text_eq err []) then err else if not (text_eq out []) then out else fallback

-- How many bytes UTF-8 takes for a code point, and for a text.
unfoldable pub rune_len : ℕ → ℕ
rune_len c = if ltb c 0x80 then 1 else if ltb c 0x800 then 2 else if ltb c 0x10000 then 3 else 4

unfoldable pub byte_len : Text → ℕ
unfolding rune_len
byte_len [] = 0
byte_len (c ∷ s) = rune_len c + byte_len s

abbrev pub answer : Text → ToolResult
answer t = record { content = t; is_error = false }

abbrev pub refusal : Text → ToolResult
refusal t = record { content = t; is_error = true }

module _ {W : Type 0} (box : Sandbox W) where
  unfoldable pub run_bash : Text → W → Attempt ExecResult × W
  unfolding script_of
  run_bash script w = box.exec (script_of script) w

  unfoldable pub cat_file : Text → W → Attempt ExecResult × W
  unfolding run_bash cat_script
  cat_file path w = run_bash (cat_script path) w

  unfoldable put_script : Text → Text → Text
  unfolding shell_quote
  put_script path content =
      let q = shell_quote path in
      codes "mkdir -p -- \"$(dirname -- "
      ++ (q
          ++ (codes ")\" && printf %s "
              ++ (shell_quote (box.encode64 content) ++ (codes " | base64 -d > " ++ q))))

  unfoldable pub put_file : Text → Text → W → Attempt ExecResult × W
  unfolding run_bash put_script
  put_file path content w = run_bash (put_script path content) w

  -- What the tool `bash` answers when its command has run.
  unfoldable pub ran : Attempt ExecResult × W → Attempt ToolResult × W
  ran (failure e, w) = (failure e, w)
  ran (success res, w) =
      let out =
        if text_eq res.stderr [] then res.stdout else res.stdout ++ (codes "\n" ++ res.stderr) in
      (success (record { content = out; is_error = not (res.exit_code == 0) }), w)

  unfoldable pub bash : Text → W → Attempt ToolResult × W
  unfolding ran run_bash
  bash cmd w = ran (run_bash cmd w)

  -- What follows the write of a file, with the text for a write that went well.
  unfoldable pub put_done : Text → Text → Attempt ExecResult × W → Attempt ToolResult × W
  unfolding exec_err
  put_done path done (failure e, w) = (failure e, w)
  put_done path done (success res, w) =
      if res.exit_code == 0
      then (success (answer done), w)
      else (success (refusal (exec_err res (codes "could not write " ++ path))), w)

  unfoldable write_file : Text → Text → W → Attempt ToolResult × W
  unfolding put_done put_file byte_len
  write_file path content w =
      put_done path (codes "wrote " ++ (itoa (byte_len content) ++ (codes " bytes to " ++ path)))
        (put_file path content w)
