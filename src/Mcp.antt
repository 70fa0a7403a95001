-- ===== src/Mcp.antt =====
-- metaharness/mcp: a client of a tool server. The connection and the tools behind it are operations on
-- an abstract world; the observer's events are a list. Calls do not overlap, a timeout is an error of
-- the call, and the HTTP client is left out.
pub mod Names
pub mod Calls
pub mod Exposed
pub mod Advertised
pub mod Redialed
use agentgarage.Prelude.{
  ℕ, Bool, true, false, not, Option, none, some, List, [], ◌∷◌, ◌++◌, Text, text_eq, Attempt,
  failure, success, if◌then◌else◌,
}

-- What the handshake told: a number for the connection, the protocol, and the server's name.
pub record Connection : Type 0 where
  pub id : ℕ
  pub protocol : Text
  pub server_name : Text

pub data Event : Type 0 where
  dialed : Text → Attempt Text → Event
  discovered : Text → ℕ → Event
  skipped called redialed : Text → Text → Option Text → Event

pub data Content : Type 0 where
  text : Text → Content
  other : Text → Content

-- What a tool answered: its contents, structured data as JSON encodes it, and whether it failed.
pub record CallToolResult : Type 0 where
  pub content : List Content
  pub structured : Option (Attempt Text)
  pub is_error : Bool

-- A call ends with an answer, with an error of the protocol, or with another one.
pub data Called : Type 0 where
  answered : CallToolResult → Called
  rejected broken : Text → Called

pub record WireTool : Type 0 where
  pub name : Text
  pub description : Text
  pub schema : Option Text

-- The protocol's library: `list_tools` gives the tools up to the first error, and the error.
pub record Peer (W : Type 0) : Type 0 where
  pub dial : W → Attempt Connection × W
  pub hang_up : ℕ → W → W
  pub call_tool : ℕ → Text → Text → W → Called × W
  pub list_tools : ℕ → W → (List WireTool × Option Text) × W
  pub ctx_done : W → Bool
  pub quoted : Text → Text

pub record Server (W : Type 0) : Type 0 where
  pub label : Text
  pub name : Text
  pub session : Option ℕ
  pub events : List Event
  pub world : W

module _ {W : Type 0} where
  unfoldable pub server_name : Server W → Text
  server_name s = if text_eq s.name [] then s.label else s.name

  unfoldable pub report : Event → Server W → Server W
  report e s = record s { events = s.events ++ e ∷ [] }

module _ {W : Type 0} (peer : Peer W) where
  -- What follows a dial.
  unfoldable pub established : Attempt Connection × W → Server W → Attempt ℕ × Server W
  unfolding report server_name
  established (failure e, w) s =
      let s' = record s { world = w } in
      (failure e, report (dialed (server_name s') (failure e)) s')
  established (success c, w) s =
      let s' = record s {
        session = some c.id;
        name = if text_eq c.server_name [] then s.name else c.server_name;
        world = w;
      } in
      (success c.id, report (dialed (server_name s') (success c.protocol)) s')

  -- `connect`: the connection that is open, or a new one.
  unfoldable pub connect : Server W → Attempt ℕ × Server W
  unfolding established
  connect s = elim s.session [
    | some id ↦ (success id, s)
    | none ↦ established (peer.dial s.world) s
  ]

  unfoldable pub drop_session : ℕ → Server W → Server W
  drop_session id s = record s { session = none; world = peer.hang_up id s.world }

  unfoldable pub close : Server W → Server W
  unfolding drop_session
  close s = elim s.session [ none ↦ s | some id ↦ drop_session id s ]

  unfoldable pub transport_failed : Called × W → Bool
  transport_failed (answered r, w) = false
  transport_failed (rejected e, w) = false
  transport_failed (broken e, w) = not (peer.ctx_done w)
