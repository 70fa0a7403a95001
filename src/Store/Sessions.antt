-- ===== src/Store/Sessions.antt =====
-- metaharness/agentdb/turso/store.go: sessions as the rows that the SQL statements keep, one for a
-- session and one for each of its messages. `Trouble` is the error that the database answers a call
-- with, if any; JSON is a codec, times are numbers, and `quoted` is fmt's %q.
pub mod Saving
pub mod Loading
pub mod Rows
pub mod Inserts
pub mod Faults
pub mod Saved
use agentgarage.Prelude.{
  ℕ, zero, suc, ◌+◌, ◌==◌, ltb, leb, Bool, true, false, ◌&&◌, ◌||◌, Option, none, some, List, [],
  ◌∷◌, ◌++◌, map, Text, codes, text_eq, text_leb, itoa, length, take, drop, Attempt, failure,
  success, if◌then◌else◌,
}
use agentgarage.Agent.Message.{Role, Message, Usage}
use agentgarage.Agent.Session.{Session, SessionRecord, Status, to_record}
use agentgarage.Agent.Sessions.{SessionInfo}

pub record SessionRow : Type 0 where
  pub id : Text
  pub model : Text
  pub status : Status
  pub sandbox : Text
  pub usage : Usage
  pub created_at : ℕ
  pub updated_at : ℕ

pub record MessageRow : Type 0 where
  pub session_id : Text
  pub seq : ℕ
  pub role : Role
  pub content : Text
  pub created_at : ℕ

pub record Tables : Type 0 where
  pub sessions : List SessionRow
  pub messages : List MessageRow

-- The calls of the database, a message with its number.
pub data Call : Type 0 where
  count begin upsert commit select_session select_messages list : Call
  insert : ℕ → Call

abbrev pub Trouble : Type 0
Trouble = Call → Option Text

pub record Codec : Type 0 where
  pub encode : Message → Attempt Text
  pub decode : Text → Attempt Message
  pub quoted : Text → Text
  pub duplicate : Text

-- `WHERE session_id = ?`.
unfoldable pub rows_of : Text → List MessageRow → List MessageRow
rows_of id [] = []
rows_of id (r ∷ rs) = let rest = rows_of id rs in if text_eq r.session_id id then r ∷ rest else rest

unfoldable pub has_seq : ℕ → List MessageRow → Bool
has_seq seq [] = false
has_seq seq (r ∷ rs) = (r.seq == seq) || has_seq seq rs

unfoldable pub session_at : Text → List SessionRow → Option SessionRow
session_at id [] = none
session_at id (r ∷ rs) = if text_eq r.id id then some r else session_at id rs

unfoldable pub row_of : SessionRecord → ℕ → ℕ → SessionRow
row_of rec created now = record {
  id = rec.id;
  model = rec.model;
  status = rec.status;
  sandbox = rec.sandbox;
  usage = rec.usage;
  created_at = created;
  updated_at = now;
}

-- `INSERT ... ON CONFLICT(id) DO UPDATE SET` all but `created_at`.
unfoldable pub upsert_session : SessionRecord → ℕ → List SessionRow → List SessionRow
unfolding row_of
upsert_session rec now [] = row_of rec now now ∷ []
upsert_session rec now (r ∷ rs) =
    let rest = upsert_session rec now rs in
    if text_eq r.id rec.id then row_of rec r.created_at now ∷ rs else r ∷ rest

-- `ORDER BY`, by a stable insertion.
module _ {A : Type 0} (le : A → A → Bool) where
  unfoldable pub insert_in : A → List A → List A
  insert_in a [] = a ∷ []
  insert_in a (b ∷ l) = let rest = insert_in a l in if le a b then a ∷ b ∷ l else b ∷ rest

  unfoldable pub order : List A → List A
  unfolding insert_in
  order [] = []
  order (a ∷ l) = insert_in a (order l)

abbrev pub by_seq : MessageRow → MessageRow → Bool
by_seq a b = leb a.seq b.seq

-- `ORDER BY updated_at DESC, id ASC`.
abbrev pub most_recent : SessionRow → SessionRow → Bool
most_recent a b =
    ltb b.updated_at a.updated_at || ((a.updated_at == b.updated_at) && text_leb a.id b.id)

abbrev pub record_of : SessionRow → List Message → SessionRecord
record_of r ms = record {
  id = r.id;
  model = r.model;
  status = r.status;
  usage = r.usage;
  sandbox = r.sandbox;
  messages = ms;
}

module _ (codec : Codec) (trouble : Trouble) where
  abbrev pub session_error : Text → Text → Text → Text
  session_error what id e =
      codes "turso: " ++ (what ++ (codes " session " ++ (codec.quoted id ++ (codes ": " ++ e))))

  abbrev pub message_error : Text → ℕ → Text → Text → Text
  message_error what seq id e =
      codes "turso: "
      ++ (what
          ++ (codes " message "
              ++ (itoa seq ++ (codes " of session " ++ (codec.quoted id ++ (codes ": " ++ e))))))
