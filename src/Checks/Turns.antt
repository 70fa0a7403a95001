-- ===== src/Checks/Turns.antt =====
-- A turn that resumes at a tool call, with a model that ends it; and a session that is stored.
use agentgarage.Prelude.{
  ◌≡◌, inl, inr, refl, true, false, none, some, List, [], ◌∷◌, ◌++◌, Text, All, All-append, codes,
  text_eq,
}
use agentgarage.Agent.Message.{Message, Role, Part, ToolCall, tool_calls}
use agentgarage.Agent.Session.{Session, Status, Box, no_usage}
use agentgarage.Agent.Run.{ModelRequest, Env, Turn, rounds}
use agentgarage.Agent.Run.Answered.{Answered}
use agentgarage.Agent.Run.Guarded.{Guards, Good, rounds-Good}
use agentgarage.Agent.Run.Outcome.{Running, Outcome, rounds-Outcome}

-- The model records what it is asked, and answers in words.
abbrev scribe : Env (List ModelRequest)
scribe = record {
  cancelled = λ w. (none, w);
  call = λ r w. (
    record { role = Role.assistant; content = Part.text (codes "done") ∷ [] },
    no_usage,
    none,
    w ++ r ∷ [],
  );
  save = λ r w. (none, w);
  execute = λ x c w. (record { content = codes "a file"; is_error = false }, none, w);
}

abbrev IsFair : List ModelRequest → Type 0
IsFair w = All (λ r. Answered [] r.messages) w

scribe-Guards : Guards scribe IsFair
scribe-Guards = record {
  cancelled = λ w h. h;
  save = λ r w h. h;
  execute = λ x c w h. h;
  call = λ r w a h. All-append (λ r. Answered [] r.messages) w (r ∷ []) h (a, tt);
}

abbrev reading : ToolCall
reading = record { id = codes "1"; name = codes "read"; input = [] }

abbrev asked : Message
asked = record { role = Role.assistant; content = Part.tool_call reading ∷ [] }

abbrev question : Message
question = record { role = Role.user; content = Part.text (codes "look") ∷ [] }

abbrev laptop : Box
laptop = record { name = codes "a"; handle = 1 }

abbrev talk : Session
talk = record {
  id = codes "s";
  model = codes "m";
  messages = question ∷ asked ∷ [];
  usage = no_usage;
  status = Status.active;
  name = codes "a";
  box = some laptop;
}

abbrev pending : Turn (List ModelRequest)
pending = record { session = talk; events = []; halted = false; world = [] }

abbrev tools : List Text
tools = codes "read" ∷ []

pending-Good : Good scribe tools [] laptop scribe-Guards pending
unfolding tool_calls
pending-Good = (inr (question ∷ [], asked, refl, tt), tt)

rounds-Good_example :
    Good scribe tools [] laptop scribe-Guards (rounds scribe tools [] laptop 3 pending)
rounds-Good_example = rounds-Good scribe tools [] laptop scribe-Guards 3 pending pending-Good

pending-Running : Running talk.messages pending
pending-Running = record { going = refl; told = refl; progress = tt }

rounds-Outcome_example : Outcome talk.messages (rounds scribe tools [] laptop 3 pending)
rounds-Outcome_example =
    rounds-Outcome scribe tools [] laptop talk.messages 3 pending (inl pending-Running)

-- Three rounds answer the tool call, ask the model and end the turn.
ends : (rounds scribe tools [] laptop 3 pending).halted ≡ true
unfolding rounds tool_calls text_eq
ends = refl

abbrev later : Box
later = record { name = codes "a"; handle = 2 }
