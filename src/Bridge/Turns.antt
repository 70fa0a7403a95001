-- ===== src/Bridge/Turns.antt =====
-- A turn as the two chat bridges run it: the first part of `runTurn` in metaharness/bridge/xmpp/bridge.go and of
-- `handlePrompt` in metaharness/bridge/telegram/bot.go. The agent runs the turn to its end before its
-- events are read; a turn that nobody watches has no status message.
pub mod Keeping
use agentgarage.Prelude.{
  ℕ, Bool, true, false, Option, none, some, List, [], ◌∷◌, ◌++◌, Text, codes, Attempt, failure,
  success,
}
use agentgarage.Agent.Message.{Message, Role, Part}
use agentgarage.Agent.Session.{Session, Status}
use agentgarage.Agent.Run.{Event}
use agentgarage.Bridge.Lines.{Json, step_line, final_text, one_line}
use agentgarage.Bridge.Split.{clip}
use agentgarage.Bridge.Status.{Trail, start, add_line, flush}
use agentgarage.Bridge.Desk.{Desk}

-- What came of a turn.
pub data Heard : Type 0 where
  not_started not_finished finished : Text → Heard

-- `id` is the id that no message has.
pub record Screen (W To Tag : Type 0) : Type 0 where
  pub update : To → Tag → Text → W → Tag × W
  pub clock : W → ℕ × W
  pub gap : ℕ
  pub id : Tag

-- `final` and `failed` are what the last events said.
pub record Progress (W Tag : Type 0) : Type 0 where
  pub trail : Option (Trail Tag)
  pub final : Text
  pub failed : Option Text
  pub world : W

abbrev user_message : Text → Message
user_message text = record { role = Role.user; content = Part.text text ∷ [] }

abbrev pub prompted : Text → Session → Session
prompted text s = record s {
  messages = s.messages ++ user_message text ∷ [];
  status = Status.active;
}

abbrev heard : Option Text → Text → Heard
heard (some e) final = Heard.not_finished e
heard none final = Heard.finished final

module _ {W To Tag : Type 0} (run : Session → W → Attempt (List Event) × Session × W)
    (screen : Screen W To Tag) (json : Json) (show_thinking : Bool) where
  unfoldable pub begin : Option To → W → Option (Trail Tag) × W
  unfolding start
  begin none w = (none, w)
  begin (some to) w =
      let (s, w') = start (screen.update to) screen.clock screen.gap screen.id w in (some s, w')

  unfoldable pub note : Option To → Option Text → Option (Trail Tag) × W → Option (Trail Tag) × W
  unfolding add_line
  note (some to) (some line) (some s, w) =
      let (s', w') = add_line (screen.update to) screen.clock screen.gap line s w in (some s', w')
  note _ _ (s, w) = (s, w)

  unfoldable pub settle : Option To → Option (Trail Tag) × W → Option (Trail Tag) × W
  unfolding flush
  settle (some to) (some s, w) =
      let (s', w') = flush (screen.update to) screen.clock screen.gap true s w in (some s', w')
  settle _ (s, w) = (s, w)

  abbrev pub final_of : Event → Text → Text
  unfolding final_text
  final_of (Event.done m) final = final_text m
  final_of _ final = final

  abbrev failure_of : Event → Option Text → Option Text
  failure_of (Event.error e) failed = some e
  failure_of _ failed = failed

  unfoldable pub take_event : Option To → Event → Progress W Tag → Progress W Tag
  unfolding note step_line
  take_event to ev p =
      let (s, w) = note to (step_line json show_thinking ev) (p.trail, p.world) in
      record { trail = s; final = final_of ev p.final; failed = failure_of ev p.failed; world = w }

  unfoldable pub take_events : Option To → List Event → Progress W Tag → Progress W Tag
  unfolding take_event
  take_events to [] p = p
  take_events to (ev ∷ evs) p = take_events to evs (take_event to ev p)

  -- What follows `Run`.
  unfoldable pub followed :
      Option To → Option (Trail Tag) → Attempt (List Event) × Session × W → Heard × Desk W
  unfolding note settle take_events clip one_line
  followed to s (failure e, sess, w) =
      let (s', w') = settle to (note to (some (codes "❌ " ++ clip (one_line e) 120)) (s, w)) in
      (Heard.not_started e, record { current = sess; world = w' })
  followed to s (success evs, sess, w) =
      let p = take_events to evs (record { trail = s; final = []; failed = none; world = w }) in
      let (s', w') = settle to (p.trail, p.world) in
      (heard p.failed p.final, record { current = sess; world = w' })

  -- `to` is who watches.
  unfoldable pub turn : Text → Option To → Desk W → Heard × Desk W
  unfolding begin followed
  turn text to d = let (s, w) = begin to d.world in followed to s (run (prompted text d.current) w)
