-- ===== src/Tools/Skill.antt =====
-- metaharness/tools/skill.go: the tool that loads a skill from a fixed catalog. The catalog in its
-- description is text/template's, and `quoted` is fmt's %q.
pub mod Loaded
use agentgarage.Prelude.{
  ℕ, ◌==◌, Bool, true, false, ◌&&◌, Option, none, some, List, [], ◌∷◌, ◌++◌, map, Text, codes,
  text_eq, if◌then◌else◌,
}
use agentgarage.Agent.Run.{ToolResult}
use agentgarage.Tools.Strings.{join}
use agentgarage.Tools.Shell.{answer, refusal}

pub record Skill : Type 0 where
  pub name : Text
  pub description : Text
  pub instructions : Text

pub record SkillArgs : Type 0 where
  pub name : Text
  pub args : Text

-- `byName`: a later skill of a name takes the place of an earlier one.
unfoldable pub by_name : List Skill → Text → Option Skill
by_name [] name = none
by_name (s ∷ ss) name = elim (by_name ss name) [
  | some later ↦ some later
  | none ↦ if text_eq s.name name then some s else none
]

unfoldable pub names : List Skill → List Text
names available = map (λ s. s.name) available

-- `strings.TrimRight(s, "\n")`.
unfoldable trim_newlines : Text → Text
trim_newlines [] = []
trim_newlines (c ∷ s) =
    let rest = trim_newlines s in if (c == 10) && text_eq rest [] then [] else c ∷ rest

unfoldable skill_entry : Skill → Text
skill_entry s =
    codes "\n  <skill>\n    <name>"
    ++ (s.name
        ++ (codes "</name>\n    <description>"
            ++ (s.description ++ codes "</description>\n  </skill>")))

unfoldable skill_entries : List Skill → Text
unfolding skill_entry
skill_entries [] = []
skill_entries (s ∷ ss) = skill_entry s ++ skill_entries ss

unfoldable render_catalog : List Skill → Text
unfolding skill_entries
render_catalog available =
    codes "<available_skills>" ++ (skill_entries available ++ codes "\n</available_skills>")

module _ (quoted : Text → Text) where
  unfoldable pub content_of : Skill → Text → Text
  unfolding trim_newlines
  content_of s args =
      codes "<skill_content name="
      ++ (quoted s.name
          ++ (codes ">\n"
              ++ (trim_newlines s.instructions
                  ++ (codes "\n"
                      ++ ((if text_eq args []
                            then []
                            else codes "\nArguments passed to the skill: " ++ (args ++ codes "\n"))
                          ++ codes "</skill_content>")))))

  abbrev pub unknown : List Skill → Text → Text
  unknown available name =
      codes "unknown skill "
      ++ (quoted name ++ (codes "; available skills: " ++ join (codes ", ") (names available)))

  unfoldable looked_up : List Skill → SkillArgs → Option Skill → ToolResult
  unfolding content_of join names
  looked_up available a none = refusal (unknown available a.name)
  looked_up available a (some s) = answer (content_of s a.args)

  unfoldable pub skill : List Skill → SkillArgs → ToolResult
  unfolding looked_up by_name
  skill available a = looked_up available a (by_name available a.name)
