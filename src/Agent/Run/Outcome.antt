-- ===== src/Agent/Run/Outcome.antt =====
-- What a turn tells its caller: the messages it adds are the events it sends, and its last event
-- says how it ended.
use agentgarage.Prelude.{
  ℕ, zero, suc, ◌≡◌, refl, ap, sym, ◌∙◌, ◌⊎◌, inl, inr, true, false, Option, none, some, List, [],
  ◌∷◌, ◌++◌, Text, arith, append_assoc, append-nil, All, All-append,
}
use agentgarage.Agent.Message.{Message, Role, ToolCall, tool_calls}
use agentgarage.Agent.Session.{Session, Box, Status, to_record}
use agentgarage.Agent.Run.{
  Event, Env, Turn, last_message, calls_of, append, fail, saved, save, run_tools, dispatch, finish,
  answered, ask_model, without_calls, by_calls, by_context, step, rounds,
}

abbrev pub shown : List Event → List Message
shown [] = []
shown (Event.assistant m ∷ es) = m ∷ shown es
shown (Event.tool_result m ∷ es) = m ∷ shown es
shown (Event.done m ∷ es) = shown es
shown (Event.error e ∷ es) = shown es

abbrev IsProgress : Event → Type 0
IsProgress (Event.assistant m) = Unit
IsProgress (Event.tool_result m) = Unit
IsProgress _ = ⊥

shown-append : (es fs : List Event) → shown (es ++ fs) ≡ shown es ++ shown fs
shown-append [] fs = refl
shown-append (Event.assistant m ∷ es) fs = ap (◌∷◌ m) (shown-append es fs)
shown-append (Event.tool_result m ∷ es) fs = ap (◌∷◌ m) (shown-append es fs)
shown-append (Event.done m ∷ es) fs = shown-append es fs
shown-append (Event.error e ∷ es) fs = shown-append es fs

-- How a last event agrees with the session that it leaves.
abbrev Closes : Event → Session → Type 0
Closes (Event.done m) s =
    (s.status ≡ Status.completed)
    × (last_message s.messages ≡ some m)
    × (m.role ≡ Role.assistant)
    × (tool_calls m ≡ [])
Closes (Event.error e) s = s.status ≡ Status.failed
Closes _ s = ⊥

module _ {W : Type 0} (start : List Message) where
  pub record Running (t : Turn W) : Type 0 where
    pub going : t.halted ≡ false
    pub told : t.session.messages ≡ start ++ shown t.events
    pub progress : All IsProgress t.events

  -- One event closes the turn, the last, and all before it are messages.
  pub record Ended (t : Turn W) : Type 0 where
    pub over : t.halted ≡ true
    pub told : t.session.messages ≡ start ++ shown t.events
    pub before : List Event
    pub last : Event
    pub closing : t.events ≡ before ++ last ∷ []
    pub progress : All IsProgress before
    pub closes : Closes last t.session

  abbrev pub Outcome : Turn W → Type 0
  Outcome t = Running t ⊎ Ended t

module _ (start : List Message) where
  told-append :
      (ms : List Message) (es : List Event) (e : Event)
      → ms ≡ start ++ shown es
      → ms ++ shown (e ∷ []) ≡ start ++ shown (es ++ e ∷ [])
  told-append ms es e h =
      ap (λ l. l ++ shown (e ∷ [])) h
      ∙ append_assoc start (shown es) (shown (e ∷ []))
      ∙ ap (◌++◌ start) (sym (shown-append es (e ∷ [])))

module _ {W : Type 0} (env : Env W) (tools : List Text) (system : Text) (box : Box)
    (start : List Message) where
  fail-Ended :
      (e : Text) (t : Turn W) → Running start t → Ended start (fail env tools system box e t)
  unfolding fail
  fail-Ended e t r = record {
    over = refl;
    told =
        sym (append-nil t.session.messages)
        ∙ told-append start t.session.messages t.events (Event.error e) r.told;
    before = t.events;
    last = Event.error e;
    closing = refl;
    progress = r.progress;
    closes = refl;
  }

  saved-Outcome :
      (o : Option Text) (t : Turn W)
      → Running start t
      → Outcome start (saved env tools system box o t)
  unfolding saved
  saved-Outcome none t r = inl r
  saved-Outcome (some e) t r = inr (fail-Ended e t r)

  save-Outcome : (t : Turn W) → Running start t → Outcome start (save env tools system box t)
  unfolding save
  save-Outcome t r =
      saved-Outcome _ (record t { world = (env.save (to_record t.session) t.world).1 })
        (record { going = r.going; told = r.told; progress = r.progress })

  append-Running :
      (m : Message) (e : Event) (t : Turn W)
      → shown (e ∷ []) ≡ m ∷ []
      → IsProgress e
      → Running start t
      → Running start (append m e t)
  append-Running m e t h p r = record {
    going = r.going;
    told =
        ap (λ l. t.session.messages ++ l) (sym h)
        ∙ told-append start t.session.messages t.events e r.told;
    progress = All-append IsProgress t.events (e ∷ []) r.progress (p, tt);
  }

  run_tools-Running :
      (cs : List ToolCall) (t : Turn W)
      → Running start t
      → Running start (run_tools env tools system box cs t)
  unfolding run_tools
  run_tools-Running [] t r = r
  run_tools-Running (c ∷ cs) t r =
      let (m, w) = dispatch env tools system box c t.world in
      run_tools-Running cs (append m (Event.tool_result m) (record t { world = w })) (
        append-Running m (Event.tool_result m) (record t { world = w }) refl tt
          (record { going = r.going; told = r.told; progress = r.progress }))

  finish-Ended :
      (m : Message) (t : Turn W)
      → last_message t.session.messages ≡ some m
      → m.role ≡ Role.assistant
      → tool_calls m ≡ []
      → Running start t
      → Ended start (finish env tools system box m t)
  unfolding finish
  finish-Ended m t last role calls r = record {
    over = refl;
    told =
        sym (append-nil t.session.messages)
        ∙ told-append start t.session.messages t.events (Event.done m) r.told;
    before = t.events;
    last = Event.done m;
    closing = refl;
    progress = r.progress;
    closes = (refl, last, role, calls);
  }

  answered-Outcome :
      (m : Message) (o : Option Text) (t : Turn W)
      → Running start t
      → Outcome start (answered env tools system box m o t)
  unfolding answered
  answered-Outcome m (some e) t r = inr (fail-Ended e t r)
  answered-Outcome m none t r =
      save-Outcome (append m (Event.assistant m) t)
        (append-Running m (Event.assistant m) t refl tt r)

  ask_model-Outcome :
      (t : Turn W) → Running start t → Outcome start (ask_model env tools system box t)
  unfolding ask_model
  ask_model-Outcome t r =
      answered-Outcome _ _ (record t { session = record t.session { usage = _ }; world = _ })
        (record { going = r.going; told = r.told; progress = r.progress })

  by_role-Outcome :
      (m : Message) (t : Turn W)
      → last_message t.session.messages ≡ some m
      → tool_calls m ≡ []
      → Running start t
      → (role : Role) → m.role ≡ role
      → Outcome start (without_calls env tools system box (some m) t)
  unfolding without_calls
  by_role-Outcome m t l c r Role.assistant h = rw h (inr (finish-Ended m t l h c r))
  by_role-Outcome m t l c r Role.system h = rw h (ask_model-Outcome t r)
  by_role-Outcome m t l c r Role.user h = rw h (ask_model-Outcome t r)
  by_role-Outcome m t l c r Role.tool h = rw h (ask_model-Outcome t r)

  without_calls-Outcome :
      (o : Option Message) (t : Turn W)
      → last_message t.session.messages ≡ o
      → calls_of o ≡ []
      → Running start t
      → Outcome start (without_calls env tools system box o t)
  unfolding without_calls
  without_calls-Outcome none t l c r = ask_model-Outcome t r
  without_calls-Outcome (some m) t l c r = by_role-Outcome m t l c r m.role refl

  by_calls-Outcome :
      (cs : List ToolCall) (t : Turn W)
      → calls_of (last_message t.session.messages) ≡ cs
      → Running start t
      → Outcome start (by_calls env tools system box cs (last_message t.session.messages) t)
  unfolding by_calls
  by_calls-Outcome [] t e r = without_calls-Outcome (last_message t.session.messages) t refl e r
  by_calls-Outcome (c ∷ cs) t e r =
      save-Outcome (run_tools env tools system box (c ∷ cs) t) (run_tools-Running (c ∷ cs) t r)

  by_context-Outcome :
      (o : Option Text) (t : Turn W)
      → Running start t
      → Outcome start (by_context env tools system box o t)
  unfolding by_context
  by_context-Outcome (some e) t r = inr (fail-Ended e t r)
  by_context-Outcome none t r = by_calls-Outcome _ t refl r

  step-Outcome : (t : Turn W) → Running start t → Outcome start (step env tools system box t)
  unfolding step
  step-Outcome t r =
      by_context-Outcome (env.cancelled t.world).0 (record t { world = (env.cancelled t.world).1 })
        (record { going = r.going; told = r.told; progress = r.progress })

  -- Let a turn run, with message events only, or have ended, with a session whose messages are
  -- those it started with and those its events carry. After any number of rounds it is so again:
  -- the messages are those it started with and those of its events, in order, and it either runs,
  -- with message events only, or has sent one closing event, its last: an error with the session
  -- failed, or done with the session completed and the transcript's last message, which is the
  -- assistant's and asks for no tool.
  pub rounds-Outcome :
      (n : ℕ) (t : Turn W) → Outcome start t → Outcome start (rounds env tools system box n t)
  unfolding rounds
  rounds-Outcome zero t o = o
  rounds-Outcome (suc n) t (inl r) =
      ground (arith, r.going, rounds-Outcome n (step env tools system box t) (step-Outcome t r))
  rounds-Outcome (suc n) t (inr e) = ground (arith, e.over, e)
