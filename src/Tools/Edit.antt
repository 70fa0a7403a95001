-- ===== src/Tools/Edit.antt =====
-- metaharness/tools/edit_file.go: one exact replacement in a file.
pub mod Edited
use agentgarage.Prelude.{
  ℕ, ◌==◌, ltb, Bool, true, false, not, ◌&&◌, [], ◌++◌, Text, codes, text_eq, itoa, Attempt,
  failure, success, if◌then◌else◌,
}
use agentgarage.Sandbox.Types.{ExecResult}
use agentgarage.Agent.Run.{ToolResult}
use agentgarage.Tools.Strings.{count, replace, replace_all}
use agentgarage.Tools.Shell.{Sandbox, answer, refusal, exec_err, cat_file, put_file, put_done}

pub record EditFileArgs : Type 0 where
  pub path : Text
  pub old_string : Text
  pub new_string : Text
  pub replace_all : Bool

abbrev pub not_found : Text → Text
not_found path = codes "old_string not found in " ++ path

abbrev pub not_unique : Text → ℕ → Text
not_unique path n =
    codes "old_string is not unique in "
    ++ (path
        ++ (codes " (found "
            ++ (itoa n ++ codes " matches); add surrounding context or set replace_all")))

abbrev pub made : ℕ → Text → Text
made n path = codes "made " ++ (itoa n ++ (codes " replacement(s) in " ++ path))

module _ {W : Type 0} (box : Sandbox W) where
  -- With the contents and the number of matches in them.
  unfoldable pub edit : EditFileArgs → Text → ℕ → W → Attempt ToolResult × W
  unfolding replace replace_all put_done put_file
  edit a content n w =
      if n == 0
      then (success (refusal (not_found a.path)), w)
      else if ltb 1 n && not a.replace_all
      then (success (refusal (not_unique a.path n)), w)
      else let updated =
          if a.replace_all
          then replace_all a.old_string a.new_string content
          else replace a.old_string a.new_string 1 content in
        put_done box a.path (made (if a.replace_all then n else 1) a.path)
          (put_file box a.path updated w)

  -- What follows the read of the file.
  unfoldable pub edit_read : EditFileArgs → Attempt ExecResult × W → Attempt ToolResult × W
  unfolding edit count exec_err
  edit_read a (failure e, w) = (failure e, w)
  edit_read a (success res, w) =
      if res.exit_code == 0
      then edit a res.stdout (count a.old_string res.stdout) w
      else (success (refusal (exec_err res (codes "could not read " ++ a.path))), w)

  unfoldable pub edit_file : EditFileArgs → W → Attempt ToolResult × W
  unfolding edit_read cat_file
  edit_file a w =
      if text_eq a.old_string []
      then (success (refusal (codes "old_string must not be empty")), w)
      else if text_eq a.old_string a.new_string
      then (
        success (refusal (codes "old_string and new_string are identical; nothing to change")),
        w,
      )
      else edit_read a (cat_file box a.path w)
