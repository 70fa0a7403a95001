-- ===== src/Bridge/Xmpp/Serve.antt =====
-- The serving loop of metaharness/bridge/xmpp/bridge.go: messages and scheduled turns, one at a time.
-- The list of happenings is what the loop's `select` takes, round by round. When the slot's timer fires
-- is no part of this: the loop arms it anew in each round for the first slot after that moment, so
-- that a slot which comes due while a turn runs is passed over, and one that comes due together with
-- a message may be.
pub mod Holding
pub mod Strangers
use agentgarage.Prelude.{
  ℕ, ◌==◌, Bool, true, false, not, ◌&&◌, ◌||◌, Option, none, some, List, [], ◌∷◌, ◌++◌, Text,
  text_eq, codes, if◌then◌else◌, Attempt, failure, success,
}
use agentgarage.Agent.Session.{Session, close}
use agentgarage.Agent.Sessions.{Shelf}
use agentgarage.Agent.Run.{Event}
use agentgarage.Bridge.Lines.{Json, trim_space}
use agentgarage.Bridge.Commands.{cut_space, is_command}
use agentgarage.Bridge.Desk.{Desk, Setup, start_session, replace, release_all, handle_command}
use agentgarage.Bridge.Turns.{Heard, Screen, turn}
use agentgarage.Bridge.Xmpp.Schedule.{Schedule, zero_schedule}
use agentgarage.Bridge.Xmpp.Stanzas.{Addresses, MessageBody, is_allowed}

unfoldable pub split_command : Text → Text × Text
unfolding trim_space cut_space
split_command text = let (cmd, arg) = cut_space (trim_space text) in (cmd, trim_space arg)

-- `strings.Join(times, " and ")`.
unfoldable join_and : List Text → Text
join_and [] = []
join_and (t ∷ []) = t
join_and (t ∷ u ∷ ts) = t ++ (codes " and " ++ join_and (u ∷ ts))

-- The end of the help.
unfoldable schedule_help : Schedule → Text
unfolding zero_schedule join_and
schedule_help s =
    if zero_schedule s
    then []
    else codes "\n\nI also start a turn on my own at "
      ++ (join_and s.times ++ codes ", and send what comes of it here.")

-- What the loop serves next.
pub data Happening (J : Type 0) : Type 0 where
  message : MessageBody J → Happening J
  due : Happening J

-- What the loop ends with: the context is done, or the stream has ended, with an error or without.
pub data Ending : Type 0 where
  cancelled : Text → Ending
  stream_closed : Ending
  stream_failed : Text → Ending

-- The error that the loop returns, which is never none.
unfoldable ended : Ending → Text
ended (cancelled e) = e
ended stream_closed = codes "xmpp: stream closed"
ended (stream_failed e) = codes "xmpp: serving stream: " ++ e

-- The bridge's wiring. A failed send is only logged.
pub record Wiring (W J : Type 0) : Type 1 where
  pub addresses : Addresses J
  pub shelf : Shelf W
  pub new_id : W → Text × W
  pub send : J → Text → W → W
  pub run : Session → W → Attempt (List Event) × Session × W
  pub screen : Screen W J Text
  pub json : Json

pub record Options (J : Type 0) : Type 0 where
  pub setup : Setup
  pub allowed : List Text
  pub allowed_jids : List J
  pub show_thinking : Bool
  pub schedule : Schedule

module _ {W J : Type 0} (b : Wiring W J) (o : Options J) where
  abbrev pub help : Setup
  unfolding schedule_help
  help = record o.setup { more_help = schedule_help o.schedule }

  unfoldable pub send_all : List J → Text → W → W
  send_all [] text w = w
  send_all (j ∷ js) text w = send_all js text (b.send j text w)

  -- What is said of a turn, if anything is: a turn that nobody watches ends in silence where it has
  -- nothing to say.
  unfoldable pub answer_text : Bool → Heard → Option Text
  answer_text watched (Heard.not_started e) =
      some (codes "Sorry, I couldn't start that turn: " ++ e)
  answer_text watched (Heard.not_finished e) = some (codes "Sorry, that turn failed: " ++ e)
  answer_text watched (Heard.finished []) =
      if watched then some (codes "(the agent finished without any text to show)") else none
  answer_text watched (Heard.finished (c ∷ final)) = some (c ∷ final)

  abbrev pub answer_all : List J → Option Text → W → W
  unfolding send_all
  answer_all to none w = w
  answer_all to (some text) w = send_all to text w

  abbrev pub is_some : Option J → Bool
  is_some none = false
  is_some (some j) = true

  unfoldable pub run_turn : Text → List J → Option J → Desk W → Desk W
  unfolding turn answer_text answer_all
  run_turn text to watcher d =
      let (h, d') = turn b.run b.screen b.json o.show_thinking text watcher d in
      record d' { world = answer_all to (answer_text (is_some watcher) h) d'.world }

  unfoldable pub handle_prompt : J → Text → Desk W → Desk W
  unfolding run_turn
  handle_prompt to text d = run_turn text (to ∷ []) (some to) d

  -- `b.allowed[from.String()]`, for an address that has a localpart.
  abbrev pub may_ask : MessageBody J → Bool
  unfolding is_allowed text_eq
  may_ask m =
      let from = b.addresses.bare m.from in
      not (text_eq (b.addresses.localpart from) []) && is_allowed o.allowed (b.addresses.shown from)

  unfoldable pub handle_message : MessageBody J → Desk W → Desk W
  unfolding handle_prompt split_command handle_command may_ask help
  handle_message m d =
      let from = b.addresses.bare m.from in
      let (cmd, arg) = split_command m.body in
      if not (may_ask m)
      then d
      else if is_command m.body
      then handle_command b.shelf b.new_id b.send help from cmd arg d
      else handle_prompt from m.body d

  abbrev pub scheduled_turn : Desk W → Desk W
  unfolding run_turn
  scheduled_turn d = run_turn o.schedule.prompt o.allowed_jids none d

  -- What follows the start of a scheduled turn's session.
  unfoldable pub with_session : Attempt Session × W → Desk W → Desk W
  unfolding scheduled_turn replace
  with_session (failure e, w) d = record d { world = w }
  with_session (success next, w) d =
      scheduled_turn (replace b.shelf b.new_id b.send help next (record d { world = w }))

  unfoldable pub run_scheduled : Desk W → Desk W
  unfolding with_session scheduled_turn start_session help
  run_scheduled d =
      if o.schedule.is_continuing
      then scheduled_turn d
      else with_session (start_session b.shelf b.new_id b.send help d.world) d

  unfoldable pub serve_one : Happening J → Desk W → Desk W
  unfolding handle_message run_scheduled
  serve_one (message m) d = handle_message m d
  serve_one due d = run_scheduled d

  unfoldable pub serve : List (Happening J) → Ending → Desk W → Text × Desk W
  unfolding serve_one ended
  serve [] last d = (ended last, d)
  serve (h ∷ hs) last d = serve hs last (serve_one h d)

  -- `Run` from the first session to the release of the last, when the stream or the context has ended.
  unfoldable pub ran : List (Happening J) → Ending → Attempt Session × W → Option Text × W
  unfolding serve release_all close
  ran hs last (failure e, w) = (some (codes "xmpp: starting the first session: " ++ e), w)
  ran hs last (success first, w) =
      let (e, d) = serve hs last (record { current = first; world = w }) in
      (some e, release_all b.shelf b.new_id b.send help (close d.current).0 d.world)

  unfoldable pub run_bridge : List (Happening J) → Ending → W → Option Text × W
  unfolding ran start_session help
  run_bridge hs last w = ran hs last (start_session b.shelf b.new_id b.send help w)
