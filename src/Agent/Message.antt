-- ===== src/Agent/Message.antt =====
-- metaharness/model/message.go, and the message helpers of metaharness/agent/run.go. `Message`
-- stands for the model library's type, with the parts that the source tells apart.
use agentgarage.Prelude.{ℕ, ◌+◌, ◌%◌, ◌^◌, Bool, List, [], ◌∷◌, Text, if◌then◌else◌}

pub data Role : Type 0 where
  system user assistant tool : Role

pub record ToolCall : Type 0 where
  pub id : Text
  pub name : Text
  pub input : Text

pub data Output : Type 0 where
  text error : Text → Output

pub data Part : Type 0 where
  text reasoning : Text → Part
  tool_call : ToolCall → Part
  tool_result : Text → Output → Part

pub record Message : Type 0 where
  pub role : Role
  pub content : List Part

-- Token counts, as 64-bit words.
pub record Usage : Type 0 where
  pub input : ℕ
  pub output : ℕ
  pub total : ℕ
  pub reasoning : ℕ
  pub cache_creation : ℕ
  pub cache_read : ℕ

abbrev add64 : ℕ → ℕ → ℕ
add64 a b = (a + b) % 2 ^ 64

unfoldable pub add_usage : Usage → Usage → Usage
add_usage d u = record {
  input = add64 d.input u.input;
  output = add64 d.output u.output;
  total = add64 d.total u.total;
  reasoning = add64 d.reasoning u.reasoning;
  cache_creation = add64 d.cache_creation u.cache_creation;
  cache_read = add64 d.cache_read u.cache_read;
}

unfoldable new_user_message : Text → Message
new_user_message t = record { role = Role.user; content = Part.text t ∷ [] }

calls_in : List Part → List ToolCall
calls_in [] = []
calls_in (Part.tool_call c ∷ ps) = c ∷ calls_in ps
calls_in (p ∷ ps) = calls_in ps

-- `toolCalls`: none but for a message of the assistant.
unfoldable pub tool_calls : Message → List ToolCall
unfolding calls_in
tool_calls m = elim m.role [ Role.assistant ↦ calls_in m.content | _ ↦ [] ]

unfoldable pub tool_result_msg : Text → Text → Bool → Message
tool_result_msg id content is_err = record {
  role = Role.tool;
  content = Part.tool_result id (if is_err then Output.error content else Output.text content) ∷ [];
}
