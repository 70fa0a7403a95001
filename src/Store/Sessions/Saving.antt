-- ===== src/Store/Sessions/Saving.antt =====
-- metaharness/agentdb/turso/store.go: Save, one transaction over both tables.
use agentgarage.Prelude.{
  ℕ, suc, Option, none, some, List, [], ◌∷◌, ◌++◌, Text, codes, length, drop, Attempt, failure,
  success, if◌then◌else◌,
}
use agentgarage.Agent.Message.{Message}
use agentgarage.Agent.Session.{Session, SessionRecord, to_record}
use agentgarage.Store.Sessions.{
  SessionRow, MessageRow, Tables, count, begin, upsert, commit, insert, Trouble, Codec, rows_of,
  has_seq, upsert_session, session_error, message_error,
}

module _ (codec : Codec) (trouble : Trouble) where
  -- `storedCount`.
  unfoldable pub stored_count : Text → Tables → Attempt ℕ
  unfolding rows_of
  stored_count id t = elim (trouble count) [
    | some e ↦ failure (session_error codec trouble (codes "count stored messages of") id e)
    | none ↦ success (length (rows_of id t.messages))
  ]

  -- The plain INSERT of an encoded message: the primary key is (session_id, seq).
  unfoldable pub insert_row :
      Text → ℕ → Message → ℕ → Text → List MessageRow → Attempt (List MessageRow)
  unfolding rows_of has_seq
  insert_row id seq m now content rows = elim (trouble (insert seq)) [
    | some e ↦ failure (message_error codec trouble (codes "append") seq id e)
    | none ↦
        if has_seq seq (rows_of id rows)
        then failure (message_error codec trouble (codes "append") seq id codec.duplicate)
        else success (
            rows
            ++ record {
              session_id = id;
              seq = seq;
              role = m.role;
              content = content;
              created_at = now;
            }
              ∷ [])
  ]

  unfoldable pub insert_message :
      Text → ℕ → Message → ℕ → List MessageRow → Attempt (List MessageRow)
  unfolding insert_row
  insert_message id seq m now rows = elim (codec.encode m) [
    | failure e ↦ failure (message_error codec trouble (codes "encode") seq id e)
    | success content ↦ insert_row id seq m now content rows
  ]

  unfoldable pub insert_all :
      Text → ℕ → List Message → ℕ → Attempt (List MessageRow) → Attempt (List MessageRow)
  unfolding insert_message
  insert_all id seq ms now (failure e) = failure e
  insert_all id seq [] now (success rows) = success rows
  insert_all id seq (m ∷ ms) now (success rows) =
      insert_all id (suc seq) ms now (insert_message id seq m now rows)

  -- The end of the transaction: what fails before the commit is rolled back.
  unfoldable pub committed :
      Text → List SessionRow → Attempt (List MessageRow) → Tables → Option Text × Tables
  committed id sessions (failure e) t = (some e, t)
  committed id sessions (success rows) t = elim (trouble commit) [
    | some e ↦ (some (session_error codec trouble (codes "commit save of") id e), t)
    | none ↦ (none, record { sessions = sessions; messages = rows })
  ]

  unfoldable pub save_from : SessionRecord → ℕ → Attempt ℕ → Tables → Option Text × Tables
  unfolding committed insert_all upsert_session
  save_from rec now (failure e) t = (some e, t)
  save_from rec now (success stored) t = elim (trouble begin) [
    | some e ↦ (some (session_error codec trouble (codes "begin save of") rec.id e), t)
    | none ↦ elim (trouble upsert) [
      | some e ↦ (some (session_error codec trouble (codes "save") rec.id e), t)
      | none ↦
          committed rec.id (upsert_session rec now t.sessions)
            (insert_all rec.id stored (drop stored rec.messages) now (success t.messages)) t
    ]
  ]

  unfoldable pub save : Option Text → Option Session → ℕ → Tables → Option Text × Tables
  unfolding save_from stored_count to_record
  save (some e) sess now t = (some e, t)
  save none none now t = (some (codes "turso: save nil session"), t)
  save none (some s) now t = let rec = to_record s in save_from rec now (stored_count rec.id t) t
