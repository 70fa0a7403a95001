-- ===== src/Memory/Kept.antt =====
-- What the tool `remember` leaves in the database.
use agentgarage.Prelude.{
  ℕ, ◌≡◌, ◌≢◌, refl, ap, ◌∙◌, Bool, false, Option, none, some, List, [], ◌∷◌, ◌++◌, Text, codes,
  text_eq, text_eq_iff, text_eq_refl, arith, success, if◌then◌else◌, Bool-cases, inl, inr,
}
use agentgarage.Bridge.Lines.{trim_space}
use agentgarage.Memory.{RememberArgs, remember, written}
use agentgarage.Store.Notes.{
  NoteRow, Notebook, Merge, appended, replaced, upsert, write_note, note_store,
}

-- The content of a topic's note.
abbrev pub content_at : Text → List NoteRow → Option Text
content_at topic [] = none
content_at topic (r ∷ rs) = if text_eq r.topic topic then some r.content else content_at topic rs

-- A note after a write: the new content, or what the write makes of it and the old one.
abbrev merged : Merge → Text → Option Text → Text
merged merge content none = content
merged merge content (some old) = merge old content

content_at-upsert :
    (merge : Merge) (topic content : Text) (now : ℕ) (rows : List NoteRow)
    → content_at topic (upsert merge topic content now rows)
      ≡ some (merged merge content (content_at topic rows))
unfolding upsert
content_at-upsert merge topic content now [] = ground (arith, text_eq_refl topic)
content_at-upsert merge topic content now (r ∷ rs) = elim (Bool-cases (text_eq r.topic topic)) [
  | inl same ↦ rw (same, same) refl
  | inr other ↦ rw (other, other) (content_at-upsert merge topic content now rs)
]

content_at-upsert_ne :
    (merge : Merge) (topic other content : Text) (now : ℕ) (rows : List NoteRow)
    → topic ≢ other
    → content_at other (upsert merge topic content now rows) ≡ content_at other rows
unfolding upsert
content_at-upsert_ne merge topic other content now [] ne =
    ground (arith, text_eq_iff topic other, ne)
content_at-upsert_ne merge topic other content now (r ∷ rs) ne = ground (
  arith,
  content_at-upsert_ne merge topic other content now rs ne,
  text_eq_iff r.topic topic,
  text_eq_iff r.topic other,
  ne,
)

abbrev merge_of : RememberArgs → Merge
merge_of a = if a.replace then replaced else appended

-- What a topic's note ought to be: the old one, a newline and the content, or the content alone.
abbrev pub expected : Bool → Text → Option Text → Text
expected replace content none = content
expected replace content (some old) = if replace then content else old ++ (10 ∷ content)

merged-expected :
    (a : RememberArgs) (content : Text) (old : Option Text)
    → merged (merge_of a) content old ≡ expected a.replace content old
merged-expected a content none = refl
merged-expected a content (some old) = ground arith

-- Where the topic and the content are not blank and the context is not done, the tool `remember`
-- succeeds; the topic's note is then the old one, a newline and the trimmed content, or that content
-- alone where there was none or it is to be replaced; every other topic's note is as it was.
pub remember_kept :
    (a : RememberArgs) (b : Notebook) (other : Text)
    → trim_space a.topic ≢ []
    → trim_space a.content ≢ []
    → trim_space a.topic ≢ other
    → (b' : Notebook) × (remember (note_store none) a b ≡ (
      success (record {
        content = codes "Remembered under " ++ (trim_space a.topic ++ codes ".");
        is_error = false;
      }),
      b',
    ))
      × (content_at (trim_space a.topic) b'.rows
          ≡ some
              (expected a.replace (trim_space a.content) (content_at (trim_space a.topic) b.rows)))
      × (content_at other b'.rows ≡ content_at other b.rows)
unfolding remember written write_note
remember_kept a b other named filled ne =
    let topic = trim_space a.topic in
    let content = trim_space a.content in
    let p : text_eq topic [] ≡ false = ground (arith, text_eq_iff topic [], named) in
    let q : text_eq content [] ≡ false = ground (arith, text_eq_iff content [], filled) in
    (
      record b { rows = upsert (merge_of a) topic content b.now b.rows },
      elim (Bool-cases a.replace) [ inl r ↦ rw (p, q, r) refl | inr r ↦ rw (p, q, r) refl ],
      content_at-upsert (merge_of a) topic content b.now b.rows
          ∙ ap some (merged-expected a content (content_at topic b.rows)),
      content_at-upsert_ne (merge_of a) topic other content b.now b.rows ne,
    )
