-- ===== src/Agent/Run/Answered.antt =====
-- The model is asked only with a transcript in which every tool call has its answer.
use mathlib.Core.Path.{subst}
use agentgarage.Prelude.{
  ◌≡◌, refl, ap, sym, ◌∙◌, ◌⊎◌, inl, inr, Bool, true, false, Option, none, some, List, [], ◌∷◌,
  ◌++◌, Text, arith, append_assoc, append-nil, Bool-cases,
}
use agentgarage.Agent.Message.{Message, Role, Part, Output, ToolCall, tool_calls, tool_result_msg}
use agentgarage.Agent.Session.{Box}
use agentgarage.Agent.Run.{
  ToolResult, Event, Env, Turn, registered, last_message, calls_of, append, result_message,
  dispatch, run_tools,
}

-- A tool message that answers one call.
abbrev Answers : ToolCall → Message → Type 0
Answers c m =
    (o : Output) × (m ≡ record { role = Role.tool; content = Part.tool_result c.id o ∷ [] })

-- The first messages answer the pending calls, in order, and each later message that calls tools is
-- followed at once by their answers, in order.
abbrev pub Answered : List ToolCall → List Message → Type 0
Answered [] [] = Unit
Answered (c ∷ cs) [] = ⊥
Answered [] (m ∷ ms) = Answered (tool_calls m) ms
Answered (c ∷ cs) (m ∷ ms) = Answers c m × Answered cs ms

-- A transcript in which all is answered but, perhaps, the calls of the last message.
abbrev pub Open : List Message → Type 0
Open ms =
    Answered [] ms
    ⊎ ((init : List Message) × (m : Message) × (ms ≡ init ++ m ∷ []) × Answered [] init)

Answered-complete :
    (cs : List ToolCall) (init : List Message) (m : Message) (answers : List Message)
    → Answered cs init
    → Answered (tool_calls m) answers
    → Answered cs ((init ++ m ∷ []) ++ answers)
Answered-complete [] [] m answers h k = k
Answered-complete (c ∷ cs) [] m answers h k = absurd h
Answered-complete [] (x ∷ init) m answers h k = Answered-complete (tool_calls x) init m answers h k
Answered-complete (c ∷ cs) (x ∷ init) m answers h k =
    (h.0, Answered-complete cs init m answers h.1 k)

Answers-no_calls : (c : ToolCall) (m : Message) → Answers c m → tool_calls m ≡ []
unfolding tool_calls
Answers-no_calls c m (o, e) = ground (arith, e)

-- The last message of an answered transcript calls no tool.
Answered-last :
    (cs : List ToolCall) (ms : List Message) → Answered cs ms → calls_of (last_message ms) ≡ []
unfolding last_message
Answered-last [] [] h = refl
Answered-last (c ∷ cs) [] h = absurd h
Answered-last [] (x ∷ []) h = go (tool_calls x) h
  where
    go : (cs : List ToolCall) → Answered cs [] → cs ≡ []
    go [] t = refl
    go (c ∷ cs) t = absurd t
Answered-last (c ∷ cs) (x ∷ []) h = Answers-no_calls c x h.0
Answered-last [] (x ∷ y ∷ ms) h = Answered-last (tool_calls x) (y ∷ ms) h
Answered-last (c ∷ cs) (x ∷ y ∷ ms) h = Answered-last cs (y ∷ ms) h.1

last_message-append : (init : List Message) (m : Message) → last_message (init ++ m ∷ []) ≡ some m
unfolding last_message
last_message-append [] m = refl
last_message-append (x ∷ []) m = refl
last_message-append (x ∷ y ∷ init) m = last_message-append (y ∷ init) m

Answered-append :
    (cs : List ToolCall) (ms answers : List Message)
    → Answered cs ms
    → Answered [] answers
    → Answered cs (ms ++ answers)
Answered-append [] [] answers h k = k
Answered-append (c ∷ cs) [] answers h k = absurd h
Answered-append [] (x ∷ ms) answers h k = Answered-append (tool_calls x) ms answers h k
Answered-append (c ∷ cs) (x ∷ ms) answers h k = (h.0, Answered-append cs ms answers h.1 k)

-- The answers to the calls of the last message complete the transcript.
pub Open-complete :
    (ms answers : List Message)
    → Open ms
    → Answered (calls_of (last_message ms)) answers
    → Answered [] (ms ++ answers)
Open-complete ms answers (inl h) k =
    Answered-append [] ms answers h (subst (λ cs. Answered cs answers) (Answered-last [] ms h) k)
Open-complete ms answers (inr (init, m, e, h)) k =
    let calls = ap calls_of (ap last_message e ∙ last_message-append init m) in
    subst (λ l. Answered [] (l ++ answers)) (sym e)
      (Answered-complete [] init m answers h (subst (λ cs. Answered cs answers) calls k))

-- With no calls left, all is answered.
pub Open-Answered : (ms : List Message) → Open ms → calls_of (last_message ms) ≡ [] → Answered [] ms
Open-Answered ms h none_left =
    subst (Answered []) (append-nil ms)
      (Open-complete ms [] h (subst (λ cs. Answered cs []) (sym none_left) tt))

result_message-Answers :
    (c : ToolCall) (res : ToolResult) (failure : Option Text)
    → Answers c (result_message c res failure)
unfolding result_message
result_message-Answers c res (some e) = (Output.error e, refl)
result_message-Answers c res none = go res.is_error
  where
    go : (b : Bool) → Answers c (tool_result_msg c.id res.content b)
    go true = (Output.error res.content, unfold tool_result_msg in refl)
    go false = (Output.text res.content, unfold tool_result_msg in refl)

module _ {W : Type 0} (env : Env W) (tools : List Text) (system : Text) (box : Box) where
  dispatch-Answers : (c : ToolCall) (w : W) → Answers c (dispatch env tools system box c w).0
  unfolding dispatch
  dispatch-Answers c w = elim (Bool-cases (registered c.name tools)) [
    | inl known ↦
        rw known (result_message-Answers c (env.execute box c w).0 (env.execute box c w).1)
    | inr unknown ↦ rw unknown (Output.error _, refl)
  ]

  -- Running the tools appends one answer to each call, in order.
  pub run_tools-Answered :
      (cs : List ToolCall) (t : Turn W)
      → (answers : List Message) × ((run_tools env tools system box cs t).session.messages
          ≡ t.session.messages ++ answers)
        × Answered cs answers
  unfolding run_tools
  run_tools-Answered [] t = ([], sym (append-nil t.session.messages), tt)
  run_tools-Answered (c ∷ cs) t =
      let (m, w) = dispatch env tools system box c t.world in
      let t' = append m (Event.tool_result m) (record t { world = w }) in
      let (answers, e, h) = run_tools-Answered cs t' in
      (
        m ∷ answers,
        e ∙ append_assoc t.session.messages (m ∷ []) answers,
        (dispatch-Answers c t.world, h),
      )
