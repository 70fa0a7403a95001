-- ===== src/Bridge/Xmpp/Serve/Holding.antt =====
-- However long the bridge serves, it holds one handle on a sandbox, that of its current session.
use agentgarage.Prelude.{
  arith, ap, ◌≡◌, refl, ◌∙◌, not, Option, none, some, List, [], ◌∷◌, Text, if_keeps, Attempt,
  failure, success,
}
use mathlib.Core.Path.{subst}
use agentgarage.Agent.Session.{close, Session, Box}
use agentgarage.Bridge.Commands.{is_command}
use agentgarage.Bridge.Desk.{release_all, Desk, start_session, replace}
use agentgarage.Bridge.Desk.Handles.{
  let_go, Ledger, Holding, Begun, start_session-Begun, handle_command-Holding,
  replace-Holding-Begun,
}
use agentgarage.Bridge.Turns.Keeping.{Quiet, turn-kept}
use agentgarage.Bridge.Turns.{turn}
use agentgarage.Bridge.Xmpp.Stanzas.{MessageBody}
use agentgarage.Bridge.Xmpp.Serve.{
  Wiring, Options, Happening, Ending, message, due, help, send_all, answer_text, answer_all,
  run_turn, handle_prompt, split_command, may_ask, handle_message, scheduled_turn, with_session,
  run_scheduled, serve_one, ran, run_bridge, serve, is_some,
}

module _ {W J : Type 0} (b : Wiring W J) (o : Options J) {held : W → List Box}
    (l : Ledger b.shelf b.new_id b.send held)
    (q : Quiet b.run b.screen b.json o.show_thinking held) where
  abbrev pub Holds : Desk W → Type 0
  Holds d = Holding b.shelf b.new_id b.send (help b o) l d

  send_all-held : (to : List J) (text : Text) (w : W) → held (send_all b o to text w) ≡ held w
  unfolding send_all
  send_all-held [] text w = refl
  send_all-held (j ∷ js) text w = send_all-held js text (b.send j text w) ∙ l.sending j text w

  answer_all-held :
      (to : List J) (text : Option Text) (w : W) → held (answer_all b o to text w) ≡ held w
  unfolding answer_all
  answer_all-held to none w = refl
  answer_all-held to (some text) w = send_all-held to text w

  run_turn-Holds :
      (text : Text) (to : List J) (watcher : Option J) (d : Desk W)
      → Holds d
      → Holds (run_turn b o text to watcher d)
  unfolding run_turn
  run_turn-Holds text to watcher d (box, has, name, one) =
      let r = turn b.run b.screen b.json o.show_thinking text watcher d in
      let (world, same_box, same_name) =
        turn-kept b.run b.screen b.json o.show_thinking q text watcher d in
      (
        box,
        same_box ∙ has,
        same_name ∙ name,
        answer_all-held to (answer_text b o (is_some b o watcher) r.0) r.1.world ∙ world ∙ one,
      )

  handle_message-Holds : (m : MessageBody J) (d : Desk W) → Holds d → Holds (handle_message b o m d)
  unfolding handle_message handle_prompt
  handle_message-Holds m d h =
      let from = b.addresses.bare m.from in
      let (cmd, arg) = split_command m.body in
      if_keeps Holds (not (may_ask b o m)) _ _ h (
        if_keeps Holds (is_command m.body) _ _
          (handle_command-Holding b.shelf b.new_id b.send (help b o) l from cmd arg d h)
          (run_turn-Holds m.body (from ∷ []) (some from) d h))

  scheduled_turn-Holds : (d : Desk W) → Holds d → Holds (scheduled_turn b o d)
  unfolding scheduled_turn
  scheduled_turn-Holds d h = run_turn-Holds o.schedule.prompt o.allowed_jids none d h

  with_session-Holds :
      (a : Attempt Session × W) (d : Desk W)
      → Holds d
      → Begun b.shelf b.new_id b.send (help b o) l (held d.world) a
      → Holds (with_session b o a d)
  unfolding with_session
  with_session-Holds (failure e, w) d (box, has, name, one) s = (box, has, name, s ∙ one)
  with_session-Holds (success next, w) d h s =
      scheduled_turn-Holds
        (replace b.shelf b.new_id b.send (help b o) next (record d { world = w }))
        (replace-Holding-Begun b.shelf b.new_id b.send (help b o) l next w d h s)

  run_scheduled-Holds : (d : Desk W) → Holds d → Holds (run_scheduled b o d)
  unfolding run_scheduled
  run_scheduled-Holds d h = if_keeps Holds o.schedule.is_continuing _ _ (scheduled_turn-Holds d h) (
      with_session-Holds (start_session b.shelf b.new_id b.send (help b o) d.world) d h
        (start_session-Begun b.shelf b.new_id b.send (help b o) l d.world))

  serve_one-Holds : (h : Happening J) (d : Desk W) → Holds d → Holds (serve_one b o h d)
  unfolding serve_one
  serve_one-Holds (message m) d h = handle_message-Holds m d h
  serve_one-Holds due d h = run_scheduled-Holds d h

  -- Where opening and releasing a session add and remove its handle and the other calls leave the open
  -- handles alone: if exactly one handle is open, that of the current session, on the sandbox of the
  -- session's name, then it stays so, whatever messages come and scheduled turns fall due, and whatever
  -- the sandboxes, the store and the agent answer.
  pub serve-Holds :
      (hs : List (Happening J)) (last : Ending) (d : Desk W)
      → Holds d
      → Holds (serve b o hs last d).1
  unfolding serve
  serve-Holds [] last d g = g
  serve-Holds (h ∷ hs) last d g = serve-Holds hs last (serve_one b o h d) (serve_one-Holds h d g)

  released-Holds :
      (d : Desk W)
      → Holds d
      → held (release_all b.shelf b.new_id b.send (help b o) (close d.current).0 d.world) ≡ []
  unfolding release_all close
  released-Holds d (box, has, name, one) =
      rw has (l.released box d.world ∙ ap (let_go box.handle) one ∙ ground arith)

  ran-none_held :
      (hs : List (Happening J)) (last : Ending) (a : Attempt Session × W)
      → Begun b.shelf b.new_id b.send (help b o) l [] a
      → held (ran b o hs last a).1 ≡ []
  unfolding ran
  ran-none_held hs last (failure e, w) s = s
  ran-none_held hs last (success first, w) (box, has, name, one, fresh) =
      released-Holds (serve b o hs last (record { current = first; world = w })).1
        (serve-Holds hs last (record { current = first; world = w }) (box, has, name, one))

  -- Where opening and releasing a session add and remove its handle and the other calls leave the open
  -- handles alone: a bridge that starts with no handle open ends with none open, whether its first
  -- session could be started or not and whatever it serves until the stream ends.
  pub run_bridge-none_held :
      (hs : List (Happening J)) (last : Ending) (w : W)
      → held w ≡ []
      → held (run_bridge b o hs last w).1 ≡ []
  unfolding run_bridge
  run_bridge-none_held hs last w none_held =
      ran-none_held hs last (start_session b.shelf b.new_id b.send (help b o) w) (
        subst
          (λ bs.
            Begun b.shelf b.new_id b.send (help b o) l bs
              (start_session b.shelf b.new_id b.send (help b o) w))
          none_held (start_session-Begun b.shelf b.new_id b.send (help b o) l w))
