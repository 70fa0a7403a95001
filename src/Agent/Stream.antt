-- ===== src/Agent/Stream.antt =====
-- metaharness/model/stream.go: an answer as a stream of parts, and back. An error of a stream is its
-- text; a reasoning part carries the metadata of its provider, which is empty where there is none. The
-- metadata of a stream's last reasoning part for a block is the one that counts.
pub mod Again
use agentgarage.Prelude.{
  ℕ, suc, Bool, true, false, not, ◌&&◌, Option, none, some, List, [], ◌∷◌, ◌++◌, map, Text, codes,
  text_eq, itoa, length, get_elem?, set, Attempt, failure, success, if◌then◌else◌,
}
use agentgarage.Agent.Message.{Usage, ToolCall}
use agentgarage.Agent.Session.{no_usage}

pub record Reasoning : Type 0 where
  pub text : Text
  pub metadata : Text

-- A part of a message of the model library: those that the source tells apart, and any other.
pub data Part : Type 0 where
  reasoning : Reasoning → Part
  text : Text → Part
  tool_call : ToolCall → Part
  other : Part

pub data Finish : Type 0 where
  stop length_limit other : Finish

-- A part of a stream.
pub data StreamPart : Type 0 where
  reasoning_start : Text → Text → StreamPart
  reasoning_delta reasoning_end : Text → Text → Text → StreamPart
  text_delta : Text → StreamPart
  tool_call : Bool → ToolCall → StreamPart
  finish : Usage → Finish → StreamPart
  error : Text → StreamPart
  other : StreamPart

-- What `Collect` has read so far.
pub record Collected : Type 0 where
  pub reasoning : List Reasoning
  pub thinking : List (Text × ℕ)
  pub text : Text
  pub calls : List ToolCall
  pub usage : Usage
  pub finish : Finish

abbrev pub nothing : Collected
nothing = record {
  reasoning = [];
  thinking = [];
  text = [];
  calls = [];
  usage = no_usage;
  finish = Finish.other;
}

-- `thinking[p.ID]`: the last block that was started under an id.
unfoldable pub index_of : Text → List (Text × ℕ) → Option ℕ
index_of id [] = none
index_of id ((i, n) ∷ ts) = if text_eq i id then some n else index_of id ts

unfoldable pub extend : Text → Text → Reasoning → Reasoning
extend delta metadata r = record {
  text = r.text ++ delta;
  metadata = if text_eq metadata [] then r.metadata else metadata;
}

unfoldable pub extend_at : ℕ → Text → Text → List Reasoning → List Reasoning
unfolding extend
extend_at i delta metadata rs = elim (get_elem? rs i) [
  | none ↦ rs
  | some r ↦ set rs i (extend delta metadata r)
]

unfoldable pub more_reasoning : Text → Text → Text → Collected → Collected
unfolding index_of extend_at
more_reasoning id delta metadata c = elim (index_of id c.thinking) [
  | none ↦ c
  | some i ↦ record c { reasoning = extend_at i delta metadata c.reasoning }
]

unfoldable pub take_part : StreamPart → Collected → Collected
unfolding more_reasoning
take_part (StreamPart.reasoning_start id metadata) c = record c {
  thinking = (id, length c.reasoning) ∷ c.thinking;
  reasoning = c.reasoning ++ record { text = []; metadata = metadata } ∷ [];
}
take_part (StreamPart.reasoning_delta id delta metadata) c = more_reasoning id delta metadata c
take_part (StreamPart.reasoning_end id delta metadata) c = more_reasoning id delta metadata c
take_part (StreamPart.text_delta t) c = record c { text = c.text ++ t }
take_part (StreamPart.tool_call executed call) c =
    if executed then c else record c { calls = c.calls ++ call ∷ [] }
take_part (StreamPart.finish u f) c = record c { usage = u; finish = f }
take_part (StreamPart.error e) c = c
take_part StreamPart.other c = c

abbrev output_limit : Text
output_limit = codes "model: ran out of output tokens before answering"

abbrev is_none {ℓ} : {A : Type ℓ} → List A → Bool
is_none [] = true
is_none (a ∷ l) = false

abbrev ran_out : Finish → Bool
ran_out Finish.length_limit = true
ran_out _ = false

unfoldable pub text_part : Text → List Part
text_part [] = []
text_part (c ∷ s) = Part.text (c ∷ s) ∷ []

unfoldable pub message_of : Collected → List Part
unfolding text_part
message_of c = map Part.reasoning c.reasoning ++ (text_part c.text ++ map Part.tool_call c.calls)

unfoldable pub collected : Collected → Attempt (List Part) × Usage
unfolding message_of
collected c =
    if ran_out c.finish && (is_none c.text && is_none c.calls)
    then (failure output_limit, c.usage)
    else (success (message_of c), c.usage)

-- `Collect`: the content of the answer, and its usage.
unfoldable pub collect_from : List StreamPart → Collected → Attempt (List Part) × Usage
unfolding take_part collected
collect_from [] c = collected c
collect_from (StreamPart.error e ∷ ps) c = (failure e, c.usage)
collect_from (p ∷ ps) c = collect_from ps (take_part p c)

unfoldable pub collect : List StreamPart → Attempt (List Part) × Usage
unfolding collect_from
collect ps = collect_from ps nothing

-- The stream of the part with the number i.
unfoldable pub stream_of : ℕ → Part → List StreamPart
stream_of i (Part.reasoning r) =
    StreamPart.reasoning_start (itoa i) []
    ∷ StreamPart.reasoning_delta (itoa i) r.text []
    ∷ StreamPart.reasoning_end (itoa i) [] r.metadata
    ∷ []
stream_of i (Part.text t) = StreamPart.text_delta t ∷ []
stream_of i (Part.tool_call c) = StreamPart.tool_call false c ∷ []
stream_of i Part.other = []

unfoldable pub streams_of : ℕ → List Part → List StreamPart
unfolding stream_of
streams_of i [] = []
streams_of i (p ∷ ps) = stream_of i p ++ streams_of (suc i) ps

-- `Streamed`, read to its end.
unfoldable pub streamed : List Part → Usage → List StreamPart
unfolding streams_of
streamed content usage = streams_of 0 content ++ StreamPart.finish usage Finish.stop ∷ []
