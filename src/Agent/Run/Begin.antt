-- ===== src/Agent/Run/Begin.antt =====
-- `Agent.Run` of metaharness/agent/run.go, from its checks on: a turn of a session, for at most so many
-- rounds. A turn leaves the session's sandbox and name as they are, and of the world what its calls
-- leave.
use agentgarage.Prelude.{
  ℕ, zero, suc, ◌≡◌, refl, ◌∙◌, Bool, true, false, Option, none, some, List, [], ◌∷◌, Text, codes,
  Attempt, failure, success, if_keeps,
}
use agentgarage.Agent.Message.{Message, Role, ToolCall, add_usage}
use agentgarage.Agent.Session.{Session, SessionRecord, Box, to_record}
use agentgarage.Agent.Run.{
  Event, Env, Turn, ModelRequest, registered, append, dispatch, fail, saved, save, run_tools,
  finish, request, answered, ask_model, without_calls, by_calls, by_context, step, rounds,
}

module _ {W : Type 0} (env : Env W) (tools : List Text) (system_prompt : W → Attempt Text × W) where
  abbrev begin_turn : Session → W → Turn W
  begin_turn s w = record { session = s; events = []; halted = false; world = w }

  abbrev pub result : Turn W → Attempt (List Event) × Session × W
  result t = (success t.events, t.session, t.world)

  -- What follows the system prompt.
  unfoldable with_system : ℕ → Box → Session → Attempt Text × W → Attempt (List Event) × Session × W
  unfolding rounds
  with_system n box s (failure e, w) = (failure e, s, w)
  with_system n box s (success system, w) = result (rounds env tools system box n (begin_turn s w))

  unfoldable pub run : ℕ → Session → W → Attempt (List Event) × Session × W
  unfolding with_system
  run n s w = elim s.box [
    | none ↦ (failure (codes "session has no sandbox"), s, w)
    | some box ↦ with_system n box s (system_prompt w)
  ]

module _ {W V : Type 0} (env : Env W) (kept : W → V) where
  -- What the calls of a turn leave alone.
  pub record Leaves : Type 0 where
    pub cancelled : (w : W) → kept (env.cancelled w).1 ≡ kept w
    pub call : (r : ModelRequest) (w : W) → kept (env.call r w).3 ≡ kept w
    pub save : (r : SessionRecord) (w : W) → kept (env.save r w).1 ≡ kept w
    pub execute : (b : Box) (c : ToolCall) (w : W) → kept (env.execute b c w).2 ≡ kept w

module _ {W V : Type 0} (env : Env W) {kept : W → V} (l : Leaves env kept) (s : Session)
    (v : V) where
  pub record Same (t : Turn W) : Type 0 where
    pub box : t.session.box ≡ s.box
    pub name : t.session.name ≡ s.name
    pub world : kept t.world ≡ v

module _ {W V : Type 0} (env : Env W) (tools : List Text) (system : Text) (box : Box) {kept : W → V}
    (l : Leaves env kept) (s : Session) (v : V) where
  abbrev Keeps : Turn W → Type 0
  Keeps t = Same env l s v t

  fail-Same : (e : Text) (t : Turn W) → Keeps t → Keeps (fail env tools system box e t)
  unfolding fail
  fail-Same e t h = record { box = h.box; name = h.name; world = l.save _ t.world ∙ h.world }

  saved-Same : (e : Option Text) (t : Turn W) → Keeps t → Keeps (saved env tools system box e t)
  unfolding saved
  saved-Same none t h = h
  saved-Same (some e) t h = fail-Same e t h

  save-Same : (t : Turn W) → Keeps t → Keeps (save env tools system box t)
  unfolding save
  save-Same t h =
      saved-Same _ (record t { world = (env.save (to_record t.session) t.world).1 })
        (record { box = h.box; name = h.name; world = l.save _ t.world ∙ h.world })

  dispatch-kept : (c : ToolCall) (w : W) → kept (dispatch env tools system box c w).1 ≡ kept w
  unfolding dispatch
  dispatch-kept c w =
      if_keeps (λ (r : Message × W). kept r.1 ≡ kept w) (registered c.name tools) _ _
        (l.execute box c w) refl

  run_tools-Same :
      (cs : List ToolCall) (t : Turn W) → Keeps t → Keeps (run_tools env tools system box cs t)
  unfolding run_tools
  run_tools-Same [] t h = h
  run_tools-Same (c ∷ cs) t h =
      run_tools-Same cs
        (append (dispatch env tools system box c t.world).0
          (Event.tool_result (dispatch env tools system box c t.world).0)
          (record t { world = (dispatch env tools system box c t.world).1 }))
        (record { box = h.box; name = h.name; world = dispatch-kept c t.world ∙ h.world })

  finish-Same : (m : Message) (t : Turn W) → Keeps t → Keeps (finish env tools system box m t)
  unfolding finish
  finish-Same m t h = record { box = h.box; name = h.name; world = l.save _ t.world ∙ h.world }

  answered-Same :
      (m : Message) (e : Option Text) (t : Turn W)
      → Keeps t
      → Keeps (answered env tools system box m e t)
  unfolding answered
  answered-Same m (some e) t h = fail-Same e t h
  answered-Same m none t h = save-Same _ (record { box = h.box; name = h.name; world = h.world })

  ask_model-Same : (t : Turn W) → Keeps t → Keeps (ask_model env tools system box t)
  unfolding ask_model
  ask_model-Same t h =
      let r = env.call (request env tools system box t.session) t.world in
      answered-Same r.0 r.2
        (record t {
          session = record t.session { usage = add_usage t.session.usage r.1 };
          world = r.3;
        })
        (record {
          box = h.box;
          name = h.name;
          world = l.call (request env tools system box t.session) t.world ∙ h.world;
        })

  without_calls-Same :
      (m : Option Message) (t : Turn W) → Keeps t → Keeps (without_calls env tools system box m t)
  unfolding without_calls
  without_calls-Same none t h = ask_model-Same t h
  without_calls-Same (some m) t h = by_role m.role
    where
      by_role :
          (r : Role)
          → Keeps (elim r [
            | Role.assistant ↦ finish env tools system box m t
            | _ ↦ ask_model env tools system box t
          ])
      by_role Role.assistant = finish-Same m t h
      by_role _ = ask_model-Same t h

  by_calls-Same :
      (cs : List ToolCall) (m : Option Message) (t : Turn W)
      → Keeps t
      → Keeps (by_calls env tools system box cs m t)
  unfolding by_calls
  by_calls-Same [] m t h = without_calls-Same m t h
  by_calls-Same (c ∷ cs) m t h = save-Same _ (run_tools-Same (c ∷ cs) t h)

  step-Same : (t : Turn W) → Keeps t → Keeps (step env tools system box t)
  unfolding step by_context
  step-Same t h = by_failure (env.cancelled t.world).0
    where
      t' : Turn W
      t' = record t { world = (env.cancelled t.world).1 }

      h' : Keeps t'
      h' = record { box = h.box; name = h.name; world = l.cancelled t.world ∙ h.world }

      by_failure : (e : Option Text) → Keeps (by_context env tools system box e t')
      by_failure (some e) = fail-Same e t' h'
      by_failure none = by_calls-Same _ _ t' h'

  rounds-Same : (n : ℕ) (t : Turn W) → Keeps t → Keeps (rounds env tools system box n t)
  unfolding rounds
  rounds-Same zero t h = h
  rounds-Same (suc n) t h =
      let next = rounds-Same n (step env tools system box t) (step-Same t h) in
      by_halted t.halted next
    where
      by_halted :
          (b : Bool)
          → Keeps (rounds env tools system box n (step env tools system box t))
          → Keeps (elim b [
            | true ↦ t
            | false ↦ rounds env tools system box n (step env tools system box t)
          ])
      by_halted true next = h
      by_halted false next = next

module _ {W V : Type 0} (env : Env W) (tools : List Text) (system_prompt : W → Attempt Text × W)
    {kept : W → V} (l : Leaves env kept)
    (prompting : (w : W) → kept (system_prompt w).1 ≡ kept w) where
  abbrev Unmoved : Session → W → Attempt (List Event) × Session × W → Type 0
  Unmoved s w r = (kept r.2 ≡ kept w) × (r.1.box ≡ s.box) × (r.1.name ≡ s.name)

  with_system-Unmoved :
      (n : ℕ) (box : Box) (s : Session) (w : W) (a : Attempt Text × W)
      → kept a.1 ≡ kept w
      → Unmoved s w (with_system env tools system_prompt n box s a)
  unfolding with_system
  with_system-Unmoved n box s w (failure e, w') h = (h, refl, refl)
  with_system-Unmoved n box s w (success system, w') h =
      let r =
        rounds-Same env tools system box l s (kept w) n (begin_turn env tools system_prompt s w')
          (record { box = refl; name = refl; world = h }) in
      (r.world, r.box, r.name)

  pub run-Unmoved : (n : ℕ) (s : Session) (w : W) → Unmoved s w (run env tools system_prompt n s w)
  unfolding run
  run-Unmoved n s w = by_box s.box
    where
      by_box :
          (b : Option Box)
          → Unmoved s w (elim b [
            | none ↦ (failure (codes "session has no sandbox"), s, w)
            | some box ↦ with_system env tools system_prompt n box s (system_prompt w)
          ])
      by_box none = (refl, refl, refl)
      by_box (some box) = with_system-Unmoved n box s w (system_prompt w) (prompting w)
