-- ===== src/Agent/Wiring.antt =====
-- metaharness/agent/agent.go, memory.go and adapt.go: an agent from its options, its system prompt,
-- and a typed tool behind the schema of its arguments. A panic is a failure with its text. The order
-- of a map's tools, which Go leaves open, is that of their registration.
pub mod Reached
pub mod Typed
use agentgarage.Prelude.{
  ℕ, Bool, true, false, ◌||◌, Option, none, some, List, [], ◌∷◌, ◌++◌, map, Text, codes, text_eq,
  Attempt, failure, success, if◌then◌else◌,
}
use agentgarage.Agent.Run.{ToolResult}
use agentgarage.Bridge.Lines.{trim_space}

-- What an agent knows between sessions: a text for the prompt, and tools of its own.
pub record Memory (W T : Type 0) : Type 0 where
  pub recall : W → Attempt Text × W
  pub tools : List T

-- The model and the store are what `M` and `S` name.
pub record Agent (W T M S : Type 0) : Type 0 where
  pub system_prompt : Text
  pub tools : List (Text × T)
  pub model : Option M
  pub store : S
  pub memory : Option (Memory W T)

-- The options: `WithModel`, `WithStore`, `WithTools` and `WithMemory`.
pub data Setting (W T M S : Type 0) : Type 0 where
  with_model : M → Setting W T M S
  with_store : S → Setting W T M S
  with_tools : List T → Setting W T M S
  with_memory : Option (Memory W T) → Setting W T M S

module _ {T : Type 0} where
  unfoldable pub lookup : Text → List (Text × T) → Option T
  lookup name [] = none
  lookup name ((n, t) ∷ ts) = if text_eq n name then some t else lookup name ts

  abbrev pub is_taken : Option T → Bool
  is_taken none = false
  is_taken (some t) = true

abbrev pub twice : Text → Text
twice name = codes "agent: tool " ++ (name ++ codes " is registered twice")

unfoldable pub add_tools :
    {T : Type 0} → (T → Text) → List T → List (Text × T) → Attempt (List (Text × T))
unfolding lookup
add_tools name_of [] known = success known
add_tools name_of (t ∷ ts) known =
    let rest = add_tools name_of ts (known ++ (name_of t, t) ∷ []) in
    if is_taken (lookup (name_of t) known) then failure (twice (name_of t)) else rest

module _ {W : Type 0} where
  abbrev pub tools_in : {T : Type 0} → Option (Memory W T) → List T
  tools_in none = []
  tools_in (some m) = m.tools

  -- What follows the recall.
  unfoldable pub recalled : Text → Attempt Text × W → Attempt Text × W
  recalled prompt (failure e, w) = (failure e, w)
  recalled prompt (success notes, w) =
      (success (if text_eq notes [] then prompt else prompt ++ (codes "\n\n" ++ notes)), w)

module _ {W T M S : Type 0} where
  unfoldable tool_defs : {D : Type 0} → (T → D) → Agent W T M S → List D
  tool_defs definition a = map (λ t. definition t.1) a.tools

  unfoldable pub system_prompt : Agent W T M S → W → Attempt Text × W
  unfolding recalled
  system_prompt a w = elim a.memory [
    | none ↦ (success a.system_prompt, w)
    | some m ↦ recalled a.system_prompt (m.recall w)
  ]

  unfoldable pub with_known : Agent W T M S → Attempt (List (Text × T)) → Attempt (Agent W T M S)
  with_known a (failure e) = failure e
  with_known a (success ts) = success (record a { tools = ts })

module _ {W T M S : Type 0} (name_of : T → Text) where
  unfoldable pub apply : Setting W T M S → Agent W T M S → Attempt (Agent W T M S)
  unfolding with_known add_tools
  apply (with_model m) a = success (record a { model = some m })
  apply (with_store s) a = success (record a { store = s })
  apply (with_tools ts) a = with_known a (add_tools name_of ts a.tools)
  apply (with_memory m) a =
      with_known (record a { memory = m }) (add_tools name_of (tools_in m) a.tools)

  unfoldable pub apply_all :
      List (Setting W T M S) → Attempt (Agent W T M S) → Attempt (Agent W T M S)
  unfolding apply
  apply_all os (failure e) = failure e
  apply_all [] (success a) = success a
  apply_all (o ∷ os) (success a) = apply_all os (apply o a)

  unfoldable pub new_agent : Text → S → List (Setting W T M S) → Attempt (Agent W T M S)
  unfolding apply_all
  new_agent prompt discard os = apply_all os (
      success (record {
        system_prompt = prompt;
        tools = [];
        model = none;
        store = discard;
        memory = none;
      }))

-- JSON and the schema of the arguments `A`, through values `V`.
pub record Schema (V A : Type 0) : Type 0 where
  pub parse : Text → Attempt V
  pub validate : V → Option Text
  pub decode : Text → Attempt A

abbrev invalid : Text → ToolResult
invalid e = record { content = codes "invalid arguments: " ++ e; is_error = true }

unfoldable pub or_object : Text → Text
unfolding trim_space
or_object input =
    let trimmed = trim_space input in
    if text_eq trimmed [] || text_eq trimmed (codes "null") then codes "{}" else input

module _ {W V A : Type 0} (schema : Schema V A) (inner : A → W → Attempt ToolResult × W) where
  unfoldable pub decoded : Attempt A → W → Attempt ToolResult × W
  decoded (failure e) w = (success (invalid e), w)
  decoded (success args) w = inner args w

  unfoldable pub validated : Text → Option Text → W → Attempt ToolResult × W
  unfolding decoded
  validated input (some e) w = (success (invalid e), w)
  validated input none w = decoded (schema.decode input) w

  unfoldable pub parsed : Text → Attempt V → W → Attempt ToolResult × W
  unfolding validated
  parsed input (failure e) w = (success (invalid e), w)
  parsed input (success v) w = validated input (schema.validate v) w

  unfoldable pub execute : Text → W → Attempt ToolResult × W
  unfolding parsed or_object
  execute input w = let read = or_object input in parsed read (schema.parse read) w
