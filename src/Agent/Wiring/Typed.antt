-- ===== src/Agent/Wiring/Typed.antt =====
-- A typed tool sees only arguments that its schema accepts.
use agentgarage.Prelude.{◌≡◌, refl, Option, none, some, Text, Attempt, failure, success}
use agentgarage.Agent.Run.{ToolResult}
use agentgarage.Agent.Wiring.{Schema, or_object, decoded, validated, parsed, execute}

module _ {V A : Type 0} (schema : Schema V A) where
  -- Arguments that come of an input which parses and passes the schema.
  abbrev Accepted : A → Type 0
  Accepted args =
      (input : Text) × (v : V) × (schema.parse input ≡ success v)
      × (schema.validate v ≡ none)
      × (schema.decode input ≡ success args)

  -- Two tools that agree on all arguments which the schema accepts answer alike to every input, in
  -- every world: no other arguments reach a tool.
  pub execute-typed :
      {W : Type 0} (inner other : A → W → Attempt ToolResult × W)
      → ((args : A) (w : W) → Accepted args → inner args w ≡ other args w)
      → (input : Text) (w : W) → execute schema inner input w ≡ execute schema other input w
  unfolding execute parsed validated decoded
  execute-typed {W} inner other agree input w =
      by_parse (or_object input) (schema.parse (or_object input)) refl
    where
      by_decode :
          (read : Text) (v : V) (a : Attempt A)
          → schema.parse read ≡ success v
          → schema.validate v ≡ none
          → schema.decode read ≡ a
          → decoded schema inner a w ≡ decoded schema other a w
      by_decode read v (failure e) p q r = refl
      by_decode read v (success args) p q r = agree args w (read, v, p, q, r)

      by_check :
          (read : Text) (v : V) (o : Option Text)
          → schema.parse read ≡ success v
          → schema.validate v ≡ o
          → validated schema inner read o w ≡ validated schema other read o w
      by_check read v (some e) p q = refl
      by_check read v none p q = by_decode read v (schema.decode read) p q refl

      by_parse :
          (read : Text) (a : Attempt V)
          → schema.parse read ≡ a
          → parsed schema inner read a w ≡ parsed schema other read a w
      by_parse read (failure e) p = refl
      by_parse read (success v) p = by_check read v (schema.validate v) p refl
