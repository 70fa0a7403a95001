-- ===== src/Store/Sessions/Loading.antt =====
-- metaharness/agentdb/turso/store.go: Load and ListSessions.
use agentgarage.Prelude.{
  ℕ, zero, suc, Option, none, some, List, [], ◌∷◌, ◌++◌, map, Text, codes, length, take, Attempt,
  failure, success,
}
use agentgarage.Agent.Message.{Message}
use agentgarage.Agent.Session.{SessionRecord}
use agentgarage.Agent.Sessions.{SessionInfo}
use agentgarage.Store.Sessions.{
  SessionRow, MessageRow, Tables, select_session, select_messages, list, Trouble, Codec, rows_of,
  session_at, order, by_seq, most_recent, record_of, session_error, message_error,
}

module _ (codec : Codec) (trouble : Trouble) where
  unfoldable pub decoded : Text → List MessageRow → Attempt (List Message)
  decoded id [] = success []
  decoded id (r ∷ rs) = elim (codec.decode r.content) [
    | failure e ↦ failure (message_error codec trouble (codes "decode") r.seq id e)
    | success m ↦ elim (decoded id rs) [ failure e ↦ failure e | success ms ↦ success (m ∷ ms) ]
  ]

  unfoldable pub load_messages : Text → Tables → Attempt (List Message)
  unfolding decoded order rows_of
  load_messages id t = elim (trouble select_messages) [
    | some e ↦ failure (session_error codec trouble (codes "load messages of") id e)
    | none ↦ decoded id (order by_seq (rows_of id t.messages))
  ]

  unfoldable pub with_row : SessionRow → Attempt (List Message) → Attempt (Option SessionRecord)
  with_row r (failure e) = failure e
  with_row r (success ms) = success (some (record_of r ms))

  unfoldable pub load_row : Text → Tables → Option SessionRow → Attempt (Option SessionRecord)
  unfolding with_row load_messages
  load_row id t none = success none
  load_row id t (some r) = with_row r (load_messages id t)

  -- `none` is `agent.ErrNotFound`.
  unfoldable pub load : Option Text → Text → Tables → Attempt (Option SessionRecord)
  unfolding load_row session_at
  load (some e) id t = failure e
  load none id t = elim (trouble select_session) [
    | some e ↦ failure (session_error codec trouble (codes "load") id e)
    | none ↦ load_row id t (session_at id t.sessions)
  ]

  unfoldable info_of : Tables → SessionRow → SessionInfo
  unfolding rows_of
  info_of t r = record {
    id = r.id;
    model = r.model;
    status = r.status;
    messages = length (rows_of r.id t.messages);
    usage = r.usage;
    updated_at = r.updated_at;
  }

  -- A limit of 0 stands for every one that is not positive.
  unfoldable pub list_sessions : Option Text → ℕ → Tables → Attempt (List SessionInfo)
  unfolding info_of order
  list_sessions (some e) limit t = failure e
  list_sessions none zero t = success []
  list_sessions none (suc n) t = elim (trouble list) [
    | some e ↦ failure (codes "turso: list sessions: " ++ e)
    | none ↦ success (map (info_of t) (take (suc n) (order most_recent t.sessions)))
  ]
