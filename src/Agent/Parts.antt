-- ===== src/Agent/Parts.antt =====
-- metaharness/model/message.go: reading the parts of a message, and building a tool's answer.
use agentgarage.Prelude.{Option, none, some, List, [], ◌∷◌, map, Text}
use agentgarage.Agent.Message.{Message, Role, Part, Output, ToolCall}

-- `ToolResult` of the model package.
pub record ToolAnswer : Type 0 where
  pub id : Text
  pub text : Text
  pub error : Option Text

-- The parts of a message, none of a nil message.
abbrev pub content_of : Option Message → List Part
content_of none = []
content_of (some m) = m.content

unfoldable texts_in : List Part → List Text
texts_in [] = []
texts_in (Part.text t ∷ ps) = t ∷ texts_in ps
texts_in (_ ∷ ps) = texts_in ps

unfoldable pub text_parts : Option Message → List Text
unfolding texts_in
text_parts m = texts_in (content_of m)

unfoldable pub reasoning_in : List Part → List Text
reasoning_in [] = []
reasoning_in (Part.reasoning t ∷ ps) = t ∷ reasoning_in ps
reasoning_in (_ ∷ ps) = reasoning_in ps

unfoldable pub reasoning_parts : Option Message → List Text
unfolding reasoning_in
reasoning_parts m = reasoning_in (content_of m)

-- The calls in a message of any role.
unfoldable all_calls_in : List Part → List ToolCall
all_calls_in [] = []
all_calls_in (Part.tool_call c ∷ ps) = c ∷ all_calls_in ps
all_calls_in (_ ∷ ps) = all_calls_in ps

unfoldable pub all_tool_calls : Option Message → List ToolCall
unfolding all_calls_in
all_tool_calls m = all_calls_in (content_of m)

abbrev answer_of : Text → Output → ToolAnswer
answer_of id (Output.text t) = record { id = id; text = t; error = none }
answer_of id (Output.error e) = record { id = id; text = []; error = some e }

unfoldable answers_in : List Part → List ToolAnswer
answers_in [] = []
answers_in (Part.tool_result id o ∷ ps) = answer_of id o ∷ answers_in ps
answers_in (_ ∷ ps) = answers_in ps

unfoldable pub tool_results : Option Message → List ToolAnswer
unfolding answers_in
tool_results m = answers_in (content_of m)

abbrev output_of : ToolAnswer → Output
output_of r = elim r.error [ none ↦ Output.text r.text | some e ↦ Output.error e ]

unfoldable new_tool_result_message : List ToolAnswer → Message
new_tool_result_message rs = record {
  role = Role.tool;
  content = map (λ r. Part.tool_result r.id (output_of r)) rs;
}
