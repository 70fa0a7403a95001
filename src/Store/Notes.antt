-- ===== src/Store/Notes.antt =====
-- metaharness/agentdb/turso/notes.go: the notes of an agent as the rows that the SQL statements keep.
-- As in the key-value table, the database's own errors and the encoding of times are left out.
use agentgarage.Prelude.{
  ℕ, Option, none, some, List, [], ◌∷◌, ◌++◌, map, Text, codes, text_eq, sort_by, Attempt, failure,
  success, if◌then◌else◌,
}
use agentgarage.Memory.{Note, NoteStore}

pub record NoteRow : Type 0 where
  pub topic : Text
  pub content : Text
  pub created_at : ℕ
  pub updated_at : ℕ

-- The rows, and the time that the store's clock shows.
pub record Notebook : Type 0 where
  pub rows : List NoteRow
  pub now : ℕ

-- What an upsert makes of the old content and the new one: `contentExpr`.
abbrev pub Merge : Type 0
Merge = Text → Text → Text

abbrev pub appended : Merge
appended old line = old ++ (codes "\n" ++ line)

abbrev pub replaced : Merge
replaced old content = content

-- `INSERT ... ON CONFLICT(topic) DO UPDATE SET content, updated_at`.
unfoldable pub upsert : Merge → Text → Text → ℕ → List NoteRow → List NoteRow
upsert merge topic content now [] =
    record { topic = topic; content = content; created_at = now; updated_at = now } ∷ []
upsert merge topic content now (r ∷ rs) =
    let rest = upsert merge topic content now rs in
    if text_eq r.topic topic
    then record r { content = merge r.content content; updated_at = now } ∷ rs
    else r ∷ rest

unfoldable pub write_note : Option Text → Merge → Text → Text → Notebook → Option Text × Notebook
unfolding upsert
write_note (some e) merge topic content b = (some e, b)
write_note none merge topic content b =
    (none, record b { rows = upsert merge topic content b.now b.rows })

unfoldable note_of : NoteRow → Note
note_of r = record { topic = r.topic; content = r.content; updated = r.updated_at }

unfoldable pub notes : Option Text → Notebook → Attempt (List Note) × Notebook
unfolding note_of sort_by
notes (some e) b = (failure e, b)
notes none b = (success (map note_of (sort_by (λ r. r.topic) b.rows)), b)

-- The store of an agent's memory, under a context.
abbrev pub note_store : Option Text → NoteStore Notebook
note_store ctx = record {
  notes = notes ctx;
  append_note = write_note ctx appended;
  replace_note = write_note ctx replaced;
}
