-- ===== src/Tools/Edit/Edited.antt =====
-- An edit puts the new text where the old one stood.
use agentgarage.Prelude.{
  ℕ, zero, suc, ◌-◌, ◌==◌, ltb, ◌<◌, ◌≡◌, ◌≢◌, ◌∙◌, ap, refl, false, not, ◌&&◌, List, [], ◌∷◌, Text,
  All, arith, length, text_eq_iff, Attempt, success, if◌then◌else◌, Bool-cases, inl, inr, text_eq,
}
use agentgarage.Agent.Run.{ToolResult}
use agentgarage.Tools.Strings.{count, join, split, replace}
use agentgarage.Tools.Strings.Pieces.{
  Free, replace-join, replace_all-join, split-Free, join-split, length-split,
}
use agentgarage.Tools.Shell.{Sandbox, refusal, cat_file, put_file, put_done}
use agentgarage.Tools.Edit.{EditFileArgs, not_found, not_unique, made, edit, edit_read, edit_file}

pub length_pos : (t : Text) → t ≢ [] → 0 < length t
length_pos [] h = absurd (h refl)
length_pos (c ∷ t) h = omega arith

module _ {W : Type 0} (box : Sandbox W) (a : EditFileArgs) (w w' : W) (content noise : Text)
    (asks : a.old_string ≢ []) where
  -- What an edit does with the pieces between the matches, `n` matches in all.
  abbrev pub decided : ℕ → List Text → Attempt ToolResult × W
  decided n ps =
      if n == 0
      then (success (refusal (not_found a.path)), w')
      else if ltb 1 n && not a.replace_all
      then (success (refusal (not_unique a.path n)), w')
      else put_done box a.path (made n a.path) (put_file box a.path (join a.new_string ps) w')

  once-decided :
      (n : ℕ)
      → a.replace_all ≡ false
      → n ≡ count a.old_string content
      → edit box a content n w' ≡ decided n (split a.old_string content)
  unfolding edit
  once-decided zero one e = refl
  once-decided (suc (suc n)) one e = rw one (ground arith)
  once-decided (suc zero) one e = rw one (
      ap (λ t. put_done box a.path (made 1 a.path) (put_file box a.path t w'))
        (ap (λ k. replace a.old_string a.new_string k content) e
          ∙ replace-join a.old_string (length_pos _ asks) a.new_string content))

  edit-decided :
      (n : ℕ)
      → n ≡ count a.old_string content
      → edit box a content n w' ≡ decided n (split a.old_string content)
  unfolding edit
  edit-decided n e = elim (Bool-cases a.replace_all) [
    | inl every ↦
        rw (every, replace_all-join a.old_string (length_pos _ asks) a.new_string content) refl
    | inr one ↦ once-decided n one e
  ]

  -- Where the old text is not empty and is not the new one, and the file can be read: its contents
  -- are pieces joined by the old text, which occurs in none of them. The edit writes the pieces
  -- joined by the new text, if they are two, or more and all are to be replaced; else it writes
  -- nothing, and says whether there was no match or how many.
  pub edit_file-decided :
      a.old_string ≢ a.new_string
      → cat_file box a.path w
        ≡ (success (record { stdout = content; stderr = noise; exit_code = 0 }), w')
      → (ps : List Text) × (join a.old_string ps ≡ content)
        × All (Free a.old_string (length_pos _ asks)) ps
        × (edit_file box a w ≡ decided (length ps - 1) ps)
  unfolding edit_file edit_read
  edit_file-decided changes shown = (
    split a.old_string content,
    join-split a.old_string (length_pos _ asks) content,
    split-Free a.old_string (length_pos _ asks) content,
    let asked : text_eq a.old_string [] ≡ false =
          ground (arith, text_eq_iff a.old_string [], asks) in
        let changed : text_eq a.old_string a.new_string ≡ false =
          ground (arith, text_eq_iff a.old_string a.new_string, changes) in
        rw (asked, changed, shown)
          (edit-decided (count a.old_string content) refl
            ∙ ap (λ n. decided n (split a.old_string content))
                (let e : count a.old_string content ≡ length (split a.old_string content) - 1 =
                    omega (arith, length-split a.old_string (length_pos _ asks) content) in
                  e)),
  )
