-- ===== src/Agent/Session.antt =====
-- metaharness/agent/session.go and store.go: a session, its sandbox, and its stored record.
pub mod Binding
use agentgarage.Prelude.{
  ℕ, Bool, true, false, not, ◌&&◌, Option, none, some, List, [], Text, text_eq, if◌then◌else◌,
}
use agentgarage.Agent.Message.{Message, Usage}

pub data Status : Type 0 where
  active completed failed : Status

-- A live handle: the name of its sandbox, and which handle it is.
pub record Box : Type 0 where
  pub name : Text
  pub handle : ℕ

pub record Session : Type 0 where
  pub id : Text
  pub model : Text
  pub messages : List Message
  pub usage : Usage
  pub status : Status
  pub name : Text
  pub box : Option Box

abbrev pub no_usage : Usage
no_usage = record {
  input = 0;
  output = 0;
  total = 0;
  reasoning = 0;
  cache_creation = 0;
  cache_read = 0;
}

abbrev name_of : Option Box → Text
name_of none = []
name_of (some box) = box.name

unfoldable pub new_session : Text → Text → Option Box → Session
new_session id model box = record {
  id = id;
  model = model;
  messages = [];
  usage = no_usage;
  status = Status.active;
  name = name_of box;
  box = box;
}

pub data BindError : Type 0 where
  nil_sandbox already_bound mismatch : BindError

-- The session as `Bind` leaves it, and its error.
unfoldable pub bind : Option Box → Session → Option BindError × Session
bind none s = (some nil_sandbox, s)
bind (some box) s = elim s.box [
  | some held ↦ (some already_bound, s)
  | none ↦
      if not (text_eq s.name []) && not (text_eq box.name s.name)
      then (some mismatch, s)
      else (none, record s { name = box.name; box = some box })
]

-- The session as `Close` leaves it, and the handle that it closes.
unfoldable pub close : Session → Option Box × Session
close s = (s.box, record s { box = none })

pub record SessionRecord : Type 0 where
  pub id : Text
  pub model : Text
  pub status : Status
  pub usage : Usage
  pub sandbox : Text
  pub messages : List Message

unfoldable pub to_record : Session → SessionRecord
to_record s = record {
  id = s.id;
  model = s.model;
  status = s.status;
  usage = s.usage;
  sandbox = s.name;
  messages = s.messages;
}

unfoldable pub of_record : SessionRecord → Session
of_record r = record {
  id = r.id;
  model = r.model;
  messages = r.messages;
  usage = r.usage;
  status = r.status;
  name = r.sandbox;
  box = none;
}
