-- ===== src/Memory.antt =====
-- metaharness/memory/memory.go: notes that outlive an agent's sessions, in its system prompt, and the
-- tool that writes them. The store of the notes is an interface over an abstract world.
pub mod Ordered
pub mod Kept
use agentgarage.Prelude.{
  ℕ, Bool, true, false, ◌||◌, Option, none, some, List, [], ◌∷◌, ◌++◌, Text, codes, text_eq,
  sort_by, Attempt, failure, success, if◌then◌else◌,
}
use agentgarage.Agent.Run.{ToolResult}
use agentgarage.Bridge.Lines.{trim_space}

pub record Note : Type 0 where
  pub topic : Text
  pub content : Text
  pub updated : ℕ

-- A write answers with its error, if it has one.
pub record NoteStore (W : Type 0) : Type 0 where
  pub notes : W → Attempt (List Note) × W
  pub append_note : Text → Text → W → Option Text × W
  pub replace_note : Text → Text → W → Option Text × W

unfoldable pub preamble : Text
preamble =
    codes "What you remember about the person you work for. These notes came from things\n"
    ++ (codes "they told you in earlier conversations; treat them as current unless they say\n"
        ++ codes "otherwise.")

unfoldable section_of : Note → Text
section_of n = codes "\n\n## " ++ (n.topic ++ (codes "\n" ++ n.content))

unfoldable pub sections : List Note → Text
unfolding section_of
sections [] = []
sections (n ∷ ns) = section_of n ++ sections ns

unfoldable pub prompt_text : List Note → Text
unfolding sections preamble sort_by
prompt_text [] = []
prompt_text (n ∷ ns) = preamble ++ sections (sort_by (λ m. m.topic) (n ∷ ns))

pub record RememberArgs : Type 0 where
  pub topic : Text
  pub content : Text
  pub replace : Bool

module _ {W : Type 0} (store : NoteStore W) where
  unfoldable pub recalled : Attempt (List Note) × W → Attempt Text × W
  unfolding prompt_text
  recalled (failure e, w) = (failure e, w)
  recalled (success ns, w) = (success (prompt_text ns), w)

  unfoldable pub recall : W → Attempt Text × W
  unfolding recalled
  recall w = recalled (store.notes w)

  unfoldable pub written : Text → Option Text × W → Attempt ToolResult × W
  written topic (some e, w) = (failure e, w)
  written topic (none, w) = (
    success
        (record { content = codes "Remembered under " ++ (topic ++ codes "."); is_error = false }),
    w,
  )

  unfoldable pub remember : RememberArgs → W → Attempt ToolResult × W
  unfolding written trim_space
  remember a w =
      let topic = trim_space a.topic in
      let content = trim_space a.content in
      if text_eq topic [] || text_eq content []
      then (
        success (record { content = codes "topic and content must not be empty"; is_error = true }),
        w,
      )
      else if a.replace
      then written topic (store.replace_note topic content w)
      else written topic (store.append_note topic content w)
