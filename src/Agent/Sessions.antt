-- ===== src/Agent/Sessions.antt =====
-- metaharness/agent/sessions.go: putting a stored session back to work. The store and the sandboxes
-- are operations on an abstract world.
use agentgarage.Prelude.{ℕ, Option, none, some, List, Text, codes, ◌++◌, Attempt, failure, success}
use agentgarage.Agent.Message.{Usage}
use agentgarage.Agent.Session.{
  Session, SessionRecord, Box, BindError, Status, nil_sandbox, already_bound, mismatch, bind,
  of_record,
}

pub record SessionInfo : Type 0 where
  pub id : Text
  pub model : Text
  pub status : Status
  pub messages : ℕ
  pub usage : Usage
  pub updated_at : ℕ

pub data ResumeError : Type 0 where
  not_found : ResumeError
  other : Text → ResumeError

pub data Resumed : Type 0 where
  failed : ResumeError → Resumed
  ready : Session → Resumed

-- The sandboxes that are opened by name, and the store; `quoted` is fmt's %q. A load answers `none` where the store has no
-- such session.
pub record Shelf (W : Type 0) : Type 0 where
  pub open_box : Text → W → Attempt Box × W
  pub release : Box → W → Option Text × W
  pub load : Text → W → Attempt (Option SessionRecord) × W
  pub list_sessions : ℕ → W → Attempt (List SessionInfo) × W
  pub quoted : Text → Text

unfoldable bind_text : BindError → Text
bind_text nil_sandbox = codes "agent: nil sandbox"
bind_text already_bound = codes "agent: the session already has a sandbox"
bind_text mismatch = codes "agent: the sandbox is not the one the session recorded"

module _ {W : Type 0} (shelf : Shelf W) where
  abbrev opening_text : Text → Text → Text → Text
  opening_text name id e =
      codes "agent: opening sandbox "
      ++ (shelf.quoted name ++ (codes " for session " ++ (shelf.quoted id ++ (codes ": " ++ e))))

  -- What follows `Bind`: a handle that it refused is released.
  unfoldable pub bound : Box → Option BindError × Session → W → Resumed × W
  unfolding bind_text
  bound box (none, s) w = (Resumed.ready s, w)
  bound box (some e, s) w =
      (Resumed.failed (ResumeError.other (bind_text e)), (shelf.release box w).1)

  -- What follows `Open`.
  unfoldable pub reopened : Text → Session → Attempt Box × W → Resumed × W
  unfolding bound bind
  reopened id s (failure e, w) = (Resumed.failed (ResumeError.other (opening_text s.name id e)), w)
  reopened id s (success box, w) = bound box (bind (some box) s) w

  -- What follows `Load`.
  unfoldable pub loaded : Text → Attempt (Option SessionRecord) × W → Resumed × W
  unfolding reopened of_record
  loaded id (failure e, w) = (Resumed.failed (ResumeError.other e), w)
  loaded id (success none, w) = (Resumed.failed ResumeError.not_found, w)
  loaded id (success (some r), w) = let s = of_record r in reopened id s (shelf.open_box s.name w)

  unfoldable pub resume : Text → W → Resumed × W
  unfolding loaded
  resume id w = loaded id (shelf.load id w)
