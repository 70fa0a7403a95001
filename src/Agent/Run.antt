-- ===== src/Agent/Run.antt =====
-- metaharness/agent/run.go: the loop of a turn. The model, the store, the tools, the memory and the
-- context are operations on an abstract world `W`; a tool does not change the session.
pub mod Answered
pub mod Begin
pub mod Guarded
pub mod Outcome
use agentgarage.Prelude.{
  ℕ, zero, suc, Bool, true, false, not, Option, none, some, List, [], ◌∷◌, ◌++◌, Text, text_eq,
  codes, if◌then◌else◌,
}
use agentgarage.Agent.Message.{
  Message, Role, ToolCall, Usage, add_usage, tool_calls, tool_result_msg,
}
use agentgarage.Agent.Session.{Session, SessionRecord, Box, Status, to_record}

pub record ModelRequest : Type 0 where
  pub model : Text
  pub system : Text
  pub messages : List Message
  pub tools : List Text

pub record ToolResult : Type 0 where
  pub content : Text
  pub is_error : Bool

pub data Event : Type 0 where
  assistant tool_result done : Message → Event
  error : Text → Event

-- `call` is the model's answer, collected, with the usage that comes with an error too; `execute`
-- runs a tool that is registered. An error is its text.
pub record Env (W : Type 0) : Type 0 where
  pub cancelled : W → Option Text × W
  pub call : ModelRequest → W → Message × Usage × Option Text × W
  pub save : SessionRecord → W → Option Text × W
  pub execute : Box → ToolCall → W → ToolResult × Option Text × W

pub record Turn (W : Type 0) : Type 0 where
  pub session : Session
  pub events : List Event
  pub halted : Bool
  pub world : W

unfoldable pub registered : Text → List Text → Bool
registered name [] = false
registered name (t ∷ ts) = if text_eq t name then true else registered name ts

unfoldable pub last_message : List Message → Option Message
last_message [] = none
last_message (m ∷ []) = some m
last_message (m ∷ n ∷ ms) = last_message (n ∷ ms)

abbrev pub calls_of : Option Message → List ToolCall
calls_of none = []
calls_of (some m) = tool_calls m

-- What a tool's answer becomes.
unfoldable pub result_message : ToolCall → ToolResult → Option Text → Message
unfolding tool_result_msg
result_message c res none = tool_result_msg c.id res.content res.is_error
result_message c res (some e) = tool_result_msg c.id e true

module _ {W : Type 0} where
  abbrev pub append : Message → Event → Turn W → Turn W
  append m e t = record t {
    session = record t.session { messages = t.session.messages ++ m ∷ [] };
    events = t.events ++ e ∷ [];
  }

module _ {W : Type 0} (env : Env W) (tools : List Text) (system : Text) (box : Box) where
  unfoldable pub dispatch : ToolCall → W → Message × W
  unfolding registered result_message
  dispatch c w =
      let (res, failure, w') = env.execute box c w in
      if registered c.name tools
      then (result_message c res failure, w')
      else (tool_result_msg c.id (codes "unknown tool: " ++ c.name) true, w)

  unfoldable pub fail : Text → Turn W → Turn W
  fail e t =
      let s = record t.session { status = Status.failed } in
      record {
        session = s;
        events = t.events ++ Event.error e ∷ [];
        halted = true;
        world = (env.save (to_record s) t.world).1;
      }

  -- `if err := Save; err != nil { fail; return }`.
  unfoldable pub saved : Option Text → Turn W → Turn W
  unfolding fail
  saved none t = t
  saved (some e) t = fail e t

  unfoldable pub save : Turn W → Turn W
  unfolding saved
  save t =
      let (failure, w) = env.save (to_record t.session) t.world in
      saved failure (record t { world = w })

  unfoldable pub run_tools : List ToolCall → Turn W → Turn W
  unfolding dispatch
  run_tools [] t = t
  run_tools (c ∷ cs) t =
      let (m, w) = dispatch c t.world in
      run_tools cs (append m (Event.tool_result m) (record t { world = w }))

  unfoldable pub finish : Message → Turn W → Turn W
  finish last t =
      let s = record t.session { status = Status.completed } in
      record {
        session = s;
        events = t.events ++ Event.done last ∷ [];
        halted = true;
        world = (env.save (to_record s) t.world).1;
      }

  abbrev pub request : Session → ModelRequest
  request s = record { model = s.model; system = system; messages = s.messages; tools = tools }

  -- What follows the model's answer, by its error.
  unfoldable pub answered : Message → Option Text → Turn W → Turn W
  unfolding fail save
  answered m (some e) t = fail e t
  answered m none t = save (append m (Event.assistant m) t)

  unfoldable pub ask_model : Turn W → Turn W
  unfolding answered add_usage
  ask_model t =
      let (m, usage, failure, w) = env.call (request t.session) t.world in
      answered m failure (record t {
        session = record t.session { usage = add_usage t.session.usage usage };
        world = w;
      })

  -- No calls are left to answer: the answer is there, or the model is asked.
  unfoldable pub without_calls : Option Message → Turn W → Turn W
  unfolding finish ask_model
  without_calls none t = ask_model t
  without_calls (some m) t = elim m.role [ Role.assistant ↦ finish m t | _ ↦ ask_model t ]

  unfoldable pub by_calls : List ToolCall → Option Message → Turn W → Turn W
  unfolding run_tools save without_calls
  by_calls [] last t = without_calls last t
  by_calls (c ∷ cs) last t = save (run_tools (c ∷ cs) t)

  unfoldable pub by_context : Option Text → Turn W → Turn W
  unfolding fail last_message by_calls
  by_context (some e) t = fail e t
  by_context none t = let last = last_message t.session.messages in by_calls (calls_of last) last t

  -- One round of the loop.
  unfoldable pub step : Turn W → Turn W
  unfolding by_context
  step t = let (failure, w) = env.cancelled t.world in by_context failure (record t { world = w })

  -- At most so many rounds; a turn that has returned stays as it is.
  unfoldable pub rounds : ℕ → Turn W → Turn W
  unfolding step
  rounds zero t = t
  rounds (suc n) t = elim t.halted [ true ↦ t | false ↦ rounds n (step t) ]
