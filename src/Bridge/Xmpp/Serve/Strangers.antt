-- ===== src/Bridge/Xmpp/Serve/Strangers.antt =====
-- Who is answered by the bridge, and who is not.
use agentgarage.Prelude.{
  ◌≡◌, ◌≢◌, true, not, ◌||◌, some, List, [], ◌∷◌, ◌++◌, Text, if_keeps, Attempt, failure, success,
  codes, text_eq, arith,
}
use agentgarage.Agent.Session.{Session}
use agentgarage.Agent.Sessions.{Resumed, ResumeError, SessionInfo, resume}
use agentgarage.Bridge.Commands.{is_command}
use agentgarage.Bridge.Desk.{
  Desk, start_session, handle_command, renewed, list_sessions, resumed, resume_session, list_text,
  resumed_text, status_text, help_text,
}
use agentgarage.Bridge.Turns.{Heard, turn}
use agentgarage.Bridge.Xmpp.Stanzas.{MessageBody}
use agentgarage.Bridge.Xmpp.Serve.{
  Wiring, Options, help, send_all, answer_text, answer_all, run_turn, handle_prompt, split_command,
  may_ask, handle_message,
}

module _ {W J : Type 0} (b : Wiring W J) (o : Options J) where
  module _ (sent : W → List (J × Text))
      (sending : (to : J) (text : Text) (w : W)
        → sent (b.send to text w) ≡ sent w ++ (to, text) ∷ []) where
    -- The last message that was sent went to `to`, and is not empty.
    abbrev Told : J → Desk W → Type 0
    Told to d =
        (before : List (J × Text)) × (text : Text) × (sent d.world ≡ before ++ (to, text) ∷ [])
        × (text ≢ [])

    said-Told :
        (to : J) (text : Text) (d : Desk W)
        → text ≢ []
        → Told to (record d { world = b.send to text d.world })
    said-Told to text d h = (sent d.world, text, sending to text d.world, h)

    renewed-Told :
        (to : J) (a : Attempt Session × W) (d : Desk W)
        → Told to (renewed b.shelf b.new_id b.send (help b o) to a d)
    unfolding renewed
    renewed-Told to (failure e, w) d = (sent w, _, sending to _ w, λ h. ground (arith, h))
    renewed-Told to (success next, w) d = (_, _, sending to _ _, λ h. ground (arith, h))

    list_text-nonempty :
        (current : Text) (a : Attempt (List SessionInfo)) → list_text current a ≢ []
    unfolding list_text
    list_text-nonempty current (failure e) h = ground (arith, h)
    list_text-nonempty current (success []) h = ground (arith, h)
    list_text-nonempty current (success (i ∷ is)) h = ground (arith, h)

    list_sessions-Told :
        (to : J) (d : Desk W) → Told to (list_sessions b.shelf b.new_id b.send (help b o) to d)
    unfolding list_sessions help
    list_sessions-Told to d =
        let (infos, w) = b.shelf.list_sessions 10 d.world in
        if_keeps (Told to) o.setup.stored _ _
          (said-Told to (list_text d.current.id infos) (record d { world = w })
            (list_text-nonempty d.current.id infos))
          (said-Told to (codes "This bridge keeps no session history.") d (λ h. ground (arith, h)))

    resumed-Told :
        (to : J) (id : Text) (a : Resumed × W) (d : Desk W)
        → Told to (resumed b.shelf b.new_id b.send (help b o) to id a d)
    unfolding resumed resumed_text
    resumed-Told to id (Resumed.failed ResumeError.not_found, w) d =
        (_, _, sending to _ _, λ h. ground (arith, h))
    resumed-Told to id (Resumed.failed (ResumeError.other e), w) d =
        (_, _, sending to _ _, λ h. ground (arith, h))
    resumed-Told to id (Resumed.ready next, w) d = (_, _, sending to _ _, λ h. ground (arith, h))

    resume_session-Told :
        (to : J) (id : Text) (d : Desk W)
        → Told to (resume_session b.shelf b.new_id b.send (help b o) to id d)
    unfolding resume_session help text_eq
    resume_session-Told to id d =
        if_keeps (Told to) (not o.setup.stored) _ _
          (said-Told to (codes "This bridge cannot resume sessions.") d (λ h. ground (arith, h)))
          (if_keeps (Told to) (text_eq id []) _ _
            (said-Told to (codes "Usage: /resume <session id>") d (λ h. ground (arith, h)))
            (if_keeps (Told to) (text_eq id d.current.id) _ _
              (said-Told to (codes "That session is already the current one.") d
                (λ h. ground (arith, h)))
              (resumed-Told to id (resume b.shelf id d.world) d)))

    handle_command-Told :
        (to : J) (cmd arg : Text) (d : Desk W)
        → Told to (handle_command b.shelf b.new_id b.send (help b o) to cmd arg d)
    unfolding handle_command status_text help_text
    handle_command-Told to cmd arg d =
        if_keeps (Told to) (text_eq cmd (codes "/new") || text_eq cmd (codes "/clear")) _ _
          (renewed-Told to (start_session b.shelf b.new_id b.send (help b o) d.world) d)
          (if_keeps (Told to) (text_eq cmd (codes "/status")) _ _
            (said-Told to (status_text d.current) d (λ h. ground (arith, h)))
            (if_keeps (Told to) (text_eq cmd (codes "/sessions")) _ _ (list_sessions-Told to d) (
              if_keeps (Told to) (text_eq cmd (codes "/resume")) _ _ (resume_session-Told to arg d)
                (if_keeps (Told to) (text_eq cmd (codes "/help") || text_eq cmd (codes "/start")) _
                  _ (said-Told to (help_text (help b o)) d (λ h. ground (arith, h)))
                  (said-Told to (codes "Unknown command.\n\n" ++ help_text (help b o)) d
                    (λ h. ground (arith, h)))))))

    prompt-Told : (to : J) (text : Text) (d : Desk W) → Told to (handle_prompt b o to text d)
    unfolding handle_prompt run_turn answer_text send_all
    prompt-Told to text d = by_answer (turn b.run b.screen b.json o.show_thinking text (some to) d)
      where
        by_answer :
            (r : Heard × Desk W)
            → Told to (record r.1 {
              world = answer_all b o (to ∷ []) (answer_text b o true r.0) r.1.world;
            })
        by_answer (Heard.not_started e, d) = said-Told to _ d (λ h. ground (arith, h))
        by_answer (Heard.not_finished e, d) = said-Told to _ d (λ h. ground (arith, h))
        by_answer (Heard.finished [], d) = said-Told to _ d (λ h. ground (arith, h))
        by_answer (Heard.finished (c ∷ t), d) = said-Told to _ d (λ h. ground (arith, h))

    -- Where sending adds to the messages sent: a message of someone who may ask is always answered,
    -- whether it is a command or a prompt and whatever fails, and the last message sent in handling it
    -- goes to the sender and is not empty.
    pub handle_message-Told :
        (m : MessageBody J) (d : Desk W)
        → may_ask b o m ≡ true
        → Told (b.addresses.bare m.from) (handle_message b o m d)
    unfolding handle_message
    handle_message-Told m d may =
        let from = b.addresses.bare m.from in
        let (cmd, arg) = split_command m.body in
        rw may (
          if_keeps (Told from) (is_command m.body) _ _ (handle_command-Told from cmd arg d)
            (prompt-Told from m.body d))
