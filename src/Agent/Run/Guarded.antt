-- ===== src/Agent/Run/Guarded.antt =====
-- The model is asked only with a transcript in which every tool call has its answer.
use agentgarage.Prelude.{
  ℕ, zero, suc, ◌≡◌, refl, sym, inl, inr, Option, none, some, List, [], ◌∷◌, Text, arith,
  Bool-cases,
}
use mathlib.Core.Path.{subst}
use agentgarage.Agent.Message.{Message, ToolCall}
use agentgarage.Agent.Session.{SessionRecord, Box, to_record}
use agentgarage.Agent.Run.{
  ModelRequest, Env, Turn, last_message, calls_of, fail, saved, save, run_tools, dispatch, finish,
  request, answered, ask_model, without_calls, by_calls, by_context, step, rounds,
}
use agentgarage.Agent.Run.Answered.{
  Answered, Open, Open-complete, Open-Answered, run_tools-Answered,
}

-- A property of worlds that each call of the loop keeps, the model's only if every tool call of the
-- transcript that it is given has its answer.
pub record Guards {W : Type 0} (env : Env W) (P : W → Type 0) : Type 0 where
  pub cancelled : (w : W) → P w → P (env.cancelled w).1
  pub save : (r : SessionRecord) (w : W) → P w → P (env.save r w).1
  pub execute : (x : Box) (c : ToolCall) (w : W) → P w → P (env.execute x c w).2
  pub call : (r : ModelRequest) (w : W) → Answered [] r.messages → P w → P (env.call r w).3

module _ {W : Type 0} (env : Env W) (tools : List Text) (system : Text) (box : Box) {P : W → Type 0}
    (guards : Guards env P) where
  -- A turn with such a world, and a transcript open at its end at most.
  abbrev pub Good : Turn W → Type 0
  Good t = Open t.session.messages × P t.world

  fail-Good : (e : Text) (t : Turn W) → Good t → Good (fail env tools system box e t)
  unfolding fail
  fail-Good e t g = (g.0, guards.save _ _ g.1)

  saved-Good : (o : Option Text) (t : Turn W) → Good t → Good (saved env tools system box o t)
  unfolding saved
  saved-Good none t g = g
  saved-Good (some e) t g = fail-Good e t g

  save-Good : (t : Turn W) → Good t → Good (save env tools system box t)
  unfolding save
  save-Good t g =
      saved-Good _ (record t { world = (env.save (to_record t.session) t.world).1 })
        (g.0, guards.save _ _ g.1)

  finish-Good : (m : Message) (t : Turn W) → Good t → Good (finish env tools system box m t)
  unfolding finish
  finish-Good m t g = (g.0, guards.save _ _ g.1)

  dispatch-keeps : (c : ToolCall) (w : W) → P w → P (dispatch env tools system box c w).1
  unfolding dispatch
  dispatch-keeps c w h = ground (arith, guards.execute box c w h)

  run_tools-keeps :
      (cs : List ToolCall) (t : Turn W) → P t.world → P (run_tools env tools system box cs t).world
  unfolding run_tools
  run_tools-keeps [] t h = h
  run_tools-keeps (c ∷ cs) t h = run_tools-keeps cs _ (dispatch-keeps c t.world h)

  answered-Good :
      (m : Message) (o : Option Text) (t : Turn W)
      → Answered [] t.session.messages
      → P t.world
      → Good (answered env tools system box m o t)
  unfolding answered
  answered-Good m (some e) t a h = fail-Good e t (inl a, h)
  answered-Good m none t a h = save-Good _ (inr (t.session.messages, m, refl, a), h)

  ask_model-Good :
      (t : Turn W)
      → Answered [] t.session.messages
      → P t.world
      → Good (ask_model env tools system box t)
  unfolding ask_model
  ask_model-Good t a h =
      answered-Good _ _ (record t { session = record t.session { usage = _ }; world = _ }) a
        (guards.call (request env tools system box t.session) t.world a h)

  without_calls-Good :
      (o : Option Message) (t : Turn W)
      → Answered [] t.session.messages
      → P t.world
      → Good (without_calls env tools system box o t)
  unfolding without_calls
  without_calls-Good none t a h = ask_model-Good t a h
  without_calls-Good (some m) t a h =
      ground (arith, ask_model-Good t a h, finish-Good m t (inl a, h))

  by_calls-Good :
      (cs : List ToolCall) (t : Turn W)
      → calls_of (last_message t.session.messages) ≡ cs
      → Good t
      → Good (by_calls env tools system box cs (last_message t.session.messages) t)
  unfolding by_calls
  by_calls-Good [] t e g =
      without_calls-Good (last_message t.session.messages) t
        (Open-Answered t.session.messages g.0 e) g.1
  by_calls-Good (c ∷ cs) t e g =
      let (answers, grown, all) = run_tools-Answered env tools system box (c ∷ cs) t in
      save-Good (run_tools env tools system box (c ∷ cs) t) (
        inl (
            subst (Answered []) (sym grown) (
              Open-complete t.session.messages answers g.0
                (subst (λ l. Answered l answers) (sym e) all))),
        run_tools-keeps (c ∷ cs) t g.1,
      )

  by_context-Good :
      (o : Option Text) (t : Turn W) → Good t → Good (by_context env tools system box o t)
  unfolding by_context
  by_context-Good (some e) t g = fail-Good e t g
  by_context-Good none t g = by_calls-Good _ t refl g

  step-Good : (t : Turn W) → Good t → Good (step env tools system box t)
  unfolding step
  step-Good t g =
      by_context-Good (env.cancelled t.world).0 (record t { world = (env.cancelled t.world).1 })
        (g.0, guards.cancelled t.world g.1)

  -- For any property of the world that each call keeps, the model's as long as its transcript has
  -- an answer to every tool call: a turn that starts with this property and with a transcript in
  -- which all is answered but, perhaps, the calls of the last message is so again after any number
  -- of rounds, whatever its calls return. So the model is only asked with answered transcripts.
  pub rounds-Good : (n : ℕ) (t : Turn W) → Good t → Good (rounds env tools system box n t)
  unfolding rounds
  rounds-Good zero t g = g
  rounds-Good (suc n) t g = elim (Bool-cases t.halted) [
    | inl h ↦ ground (arith, h)
    | inr h ↦ ground (arith, rounds-Good n (step env tools system box t) (step-Good t g))
  ]
