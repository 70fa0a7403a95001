-- ===== src/Mcp/Calls.antt =====
-- metaharness/mcp/call.go and tools.go: a call of a tool, with one more try on a new connection.
use agentgarage.Prelude.{
  ℕ, Bool, true, false, Option, none, some, List, [], ◌∷◌, ◌++◌, Text, codes, Attempt, failure,
  success, if◌then◌else◌,
}
use agentgarage.Agent.Run.{ToolResult}
use agentgarage.Agent.Wiring.{or_object}
use agentgarage.Tools.Strings.{join}
use agentgarage.Mcp.{
  called, redialed, Content, CallToolResult, Called, answered, rejected, broken, Peer, Server,
  server_name, report, connect, drop_session, transport_failed,
}

abbrev pub redial_note : Text
redial_note =
    codes
      "[the connection to this server was reopened; anything it held from earlier calls is gone]"

unfoldable line_of : Content → Text
line_of (Content.text t) = t
line_of (Content.other kind) = codes "[dropped " ++ (kind ++ codes " content]")

unfoldable pub lines_of : List Content → List Text
unfolding line_of
lines_of [] = []
lines_of (c ∷ cs) = line_of c ∷ lines_of cs

unfoldable has_text : List Content → Bool
has_text [] = false
has_text (Content.text t ∷ cs) = true
has_text (Content.other kind ∷ cs) = has_text cs

unfoldable structured_line : Option (Attempt Text) → List Text
structured_line none = []
structured_line (some (success json)) = json ∷ []
structured_line (some (failure e)) =
    (codes "[structured result could not be encoded: " ++ (e ++ codes "]")) ∷ []

unfoldable pub collapse : CallToolResult → ToolResult
unfolding lines_of has_text structured_line join
collapse r = record {
  content =
      join (codes "\n")
        (lines_of r.content ++ (if has_text r.content then [] else structured_line r.structured));
  is_error = r.is_error;
}

-- The answer or the error of a call, and whether the connection was opened again.
pub record Ended (W : Type 0) : Type 0 where
  pub result : Attempt CallToolResult
  pub again : Bool
  pub server : Server W

unfoldable result_of : Called → Attempt CallToolResult
result_of (answered r) = success r
result_of (rejected e) = failure e
result_of (broken e) = failure e

unfoldable pub error_of : Attempt CallToolResult → Option Text
error_of (success r) = none
error_of (failure e) = some e

module _ {W : Type 0} (peer : Peer W) (tool args : Text) where
  abbrev pub called_on : ℕ → Server W → Called × W
  called_on id s = peer.call_tool id tool args s.world

  -- The second try.
  unfoldable pub call_again : Attempt ℕ × Server W → Ended W
  unfolding result_of
  call_again (failure e, s) = record { result = failure e; again = true; server = s }
  call_again (success id, s) = record {
    result = result_of (called_on id s).0;
    again = true;
    server = record s { world = (called_on id s).1 };
  }

  -- What follows the first try.
  unfoldable pub tried : ℕ → Server W → Ended W
  unfolding call_again transport_failed drop_session report server_name connect result_of error_of
  tried id s =
      let r = called_on id s in
      let s' = record s { world = r.1 } in
      let dropped = drop_session peer id s' in
      if transport_failed peer r
      then call_again (
          connect peer
            (report (redialed (server_name dropped) tool (error_of (result_of r.0))) dropped))
      else record { result = result_of r.0; again = false; server = s' }

  unfoldable pub call_first : Attempt ℕ × Server W → Ended W
  unfolding tried
  call_first (failure e, s) = record { result = failure e; again = false; server = s }
  call_first (success id, s) = tried id s

  unfoldable pub call_once : Server W → Ended W
  unfolding call_first connect
  call_once s = call_first (connect peer s)

  unfoldable pub told : Bool → Attempt CallToolResult → Attempt ToolResult
  unfolding collapse
  told again (failure e) = failure (if again then redial_note ++ (codes ": " ++ e) else e)
  told again (success r) =
      let out = collapse r in
      success
        (if again then record out { content = redial_note ++ (codes "\n" ++ out.content) } else out)

  unfoldable pub call : Server W → Attempt ToolResult × Server W
  unfolding call_once told report server_name error_of
  call s =
      let e = call_once s in
      (
        told e.again e.result,
        report (called (server_name e.server) tool (error_of e.result)) e.server,
      )

-- `reflected.Execute`.
unfoldable execute_wire :
    {W : Type 0} → Peer W → Text → Text → Server W → Attempt ToolResult × Server W
unfolding call or_object
execute_wire peer wire input s = call peer wire (or_object input) s
