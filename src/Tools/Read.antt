-- ===== src/Tools/Read.antt =====
-- metaharness/tools/read_file.go: a window of numbered lines. An offset or a limit of 0 stands for
-- every one that is not positive. A text is valid UTF-8, so the short cut by a line's bytes agrees
-- with the count of its code points.
pub mod Paging
use agentgarage.Prelude.{
  ℕ, suc, ◌+◌, ◌-◌, ◌^◌, ◌==◌, ltb, leb, Bool, true, false, ◌&&◌, List, [], ◌∷◌, ◌++◌, Text, codes,
  text_eq, itoa, length, take, drop, Attempt, failure, success, if◌then◌else◌,
}
use agentgarage.Sandbox.Types.{ExecResult}
use agentgarage.Agent.Run.{ToolResult}
use agentgarage.Tools.Strings.{split}
use agentgarage.Tools.Shell.{Sandbox, answer, refusal, exec_err, cat_file}

pub record ReadFileArgs : Type 0 where
  pub path : Text
  pub offset : ℕ
  pub limit : ℕ

abbrev default_read_limit : ℕ
default_read_limit = 2000

abbrev max_line_len : ℕ
max_line_len = 2000

-- `negsuc n` is -(n + 1).
pub data ℤ : Type 0 where
  pos negsuc : ℕ → ℤ

-- A sum of two positive ints, less one, as Go's 64-bit int holds it.
unfoldable pub int64 : ℕ → ℤ
int64 n = if ltb n (2 ^ 63) then pos n else negsuc (2 ^ 64 - 1 - n)

unfoldable pub before : ℤ → ℕ → Bool
before (pos n) t = ltb n t
before (negsuc n) t = true

unfoldable decimal : ℤ → Text
decimal (pos n) = itoa n
decimal (negsuc n) = codes "-" ++ itoa (suc n)

pub record ReadWindow : Type 0 where
  pub text : Text
  pub from : ℕ
  pub to : ℤ
  pub total : ℕ
  pub clipped : ℕ

-- The text and whether it was cut.
unfoldable pub clip_line : Text → Text × Bool
clip_line s = if leb (length s) max_line_len then (s, false) else (
  take max_line_len s
      ++ (codes "… [line clipped: " ++ (itoa (length s) ++ codes " characters total]")),
  true,
)

-- `strings.TrimSuffix(content, "\n")`.
unfoldable pub trim_newline : Text → Text
trim_newline [] = []
trim_newline (c ∷ []) = if c == 10 then [] else c ∷ []
trim_newline (c ∷ d ∷ s) = c ∷ trim_newline (d ∷ s)

unfoldable pub lines_of : Text → List Text
unfolding split trim_newline
lines_of content = split (codes "\n") (trim_newline content)

-- `%6d`.
unfoldable pub pad : Text → Text
pad digits = take (6 - length digits) (codes "      ") ++ digits

unfoldable pub row : ℕ → Text → Text
unfolding pad clip_line
row i line = pad (itoa i) ++ (codes "\t" ++ ((clip_line line).0 ++ codes "\n"))

-- The rows of lines whose first has the number i.
unfoldable pub rows : ℕ → List Text → Text
unfolding row
rows i [] = []
rows i (line ∷ ls) = row i line ++ rows (suc i) ls

unfoldable cuts : List Text → ℕ
unfolding clip_line
cuts [] = 0
cuts (line ∷ ls) = let rest = cuts ls in if (clip_line line).1 then suc rest else rest

-- The lines from one number to another.
unfoldable pub between : ℕ → ℤ → List Text → List Text
between from (pos to) ls = take (suc to - from) (drop (from - 1) ls)
between from (negsuc n) ls = []

abbrev no_window : ℕ → ReadWindow
no_window total = record { text = []; from = 0; to = pos 0; total = total; clipped = 0 }

unfoldable pub last_line : ℕ → ℕ → ℕ → ℤ
unfolding int64 before
last_line from limit total =
    let wanted = int64 (from + limit - 1) in
    if ltb 0 limit && before wanted total then wanted else pos total

unfoldable pub window : ℕ → ℕ → List Text → ReadWindow
unfolding last_line rows cuts between
window from limit ls =
    let total = length ls in
    let to = last_line from limit total in
    if ltb total from then no_window total else record {
      text = rows from (between from to ls);
      from = from;
      to = to;
      total = total;
      clipped = cuts (between from to ls);
    }

unfoldable pub number_lines : Text → ℕ → ℕ → ReadWindow
unfolding window lines_of
number_lines content offset limit =
    if text_eq content []
    then no_window 0
    else window (if ltb offset 1 then 1 else offset) limit (lines_of content)

abbrev more_note : ReadWindow → Text
more_note w =
    codes "\n[showing lines "
    ++ (itoa w.from
        ++ (codes "-"
            ++ (decimal w.to
                ++ (codes " of " ++ (itoa w.total ++ codes "; use offset/limit to read more]\n")))))

abbrev clip_note : ReadWindow → Text
clip_note w =
    codes "\n["
    ++ (itoa w.clipped
        ++ (codes " line(s) exceeded "
            ++ (itoa max_line_len
                ++ codes " characters and were clipped; their full contents are not shown]\n")))

unfoldable pub shown : ReadFileArgs → ReadWindow → Text
unfolding decimal before
shown a w =
    if w.total == 0
    then a.path ++ codes " is empty"
    else if w.from == 0
    then codes "offset "
      ++ (itoa a.offset
          ++ (codes " is past the end of "
              ++ (a.path ++ (codes " (" ++ (itoa w.total ++ codes " lines)")))))
    else (w.text ++ (if before w.to w.total then more_note w else []))
      ++ (if ltb 0 w.clipped then clip_note w else [])

module _ {W : Type 0} (box : Sandbox W) where
  unfoldable read_done : ReadFileArgs → Attempt ExecResult × W → Attempt ToolResult × W
  unfolding shown number_lines exec_err
  read_done a (failure e, w) = (failure e, w)
  read_done a (success res, w) =
      let limit = if ltb 0 a.limit then a.limit else default_read_limit in
      if res.exit_code == 0
      then (success (answer (shown a (number_lines res.stdout a.offset limit))), w)
      else (success (refusal (exec_err res (codes "could not read " ++ a.path))), w)

  unfoldable read_file : ReadFileArgs → W → Attempt ToolResult × W
  unfolding read_done cat_file
  read_file a w = read_done a (cat_file box a.path w)
