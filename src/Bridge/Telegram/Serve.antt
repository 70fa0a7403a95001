-- ===== src/Bridge/Telegram/Serve.antt =====
-- metaharness/bridge/telegram/bot.go: the updates that a bot is sent, one at a time. The chat action
-- "typing" is sent once as a turn starts; the ticker that repeats it is not modelled.
pub mod Private
use agentgarage.Prelude.{
  ℕ, ◌==◌, Bool, true, false, not, ◌&&◌, ◌||◌, Option, none, some, List, [], ◌∷◌, ◌++◌, Text,
  text_eq, codes, if◌then◌else◌, Attempt, failure, success,
}
use agentgarage.Agent.Session.{Session}
use agentgarage.Agent.Sessions.{Shelf}
use agentgarage.Agent.Run.{Event}
use agentgarage.Bridge.Lines.{Json, trim_space}
use agentgarage.Bridge.Split.{split_message, telegram_max_message}
use agentgarage.Bridge.Commands.{cut_space, is_command}
use agentgarage.Bridge.Desk.{Desk, Setup, handle_command, start_session}
use agentgarage.Bridge.Turns.{Heard, Screen, turn}

pub record Config : Type 0 where
  pub token : Text
  pub has_agent : Bool
  pub has_sandboxes : Bool
  pub sandbox_name : Text
  pub model : Text
  pub allowed_users : List ℕ
  pub show_thinking : Bool

pub data ConfigError : Type 0 where
  empty_token nil_agent nil_sandboxes empty_sandbox_name empty_model nobody_allowed : ConfigError

abbrev pub is_none : List ℕ → Bool
is_none [] = true
is_none (u ∷ us) = false

unfoldable pub validate : Config → Option ConfigError
unfolding trim_space text_eq
validate c =
    if text_eq (trim_space c.token) []
    then some empty_token
    else if not c.has_agent
    then some nil_agent
    else if not c.has_sandboxes
    then some nil_sandboxes
    else if text_eq (trim_space c.sandbox_name) []
    then some empty_sandbox_name
    else if text_eq (trim_space c.model) []
    then some empty_model
    else if is_none c.allowed_users
    then some nobody_allowed
    else none

-- A message: its chat, whether that is private, who sent it, if anybody is named.
pub record Message : Type 0 where
  pub chat : ℕ
  pub is_private : Bool
  pub from : Option ℕ
  pub text : Text

unfoldable pub is_allowed : List ℕ → ℕ → Bool
is_allowed [] user = false
is_allowed (u ∷ us) user = (u == user) || is_allowed us user

abbrev pub named : List ℕ → Option ℕ → Bool
unfolding is_allowed
named allowed none = false
named allowed (some user) = is_allowed allowed user

-- What stands before the first '@'.
unfoldable without_bot : Text → Text
without_bot [] = []
without_bot (c ∷ s) = let rest = without_bot s in if c == 64 then [] else c ∷ rest

unfoldable pub split_command : Text → Text × Text
unfolding trim_space cut_space without_bot
split_command text =
    let (cmd, arg) = cut_space (trim_space text) in (without_bot cmd, trim_space arg)

-- The bot's wiring. A failed send is only logged.
pub record Wiring (W : Type 0) : Type 1 where
  pub shelf : Shelf W
  pub new_id : W → Text × W
  pub send : ℕ → Text → W → W
  pub typing : ℕ → W → W
  pub run : Session → W → Attempt (List Event) × Session × W
  pub screen : Screen W ℕ ℕ
  pub json : Json

module _ {W : Type 0} (b : Wiring W) (c : Config) (p : Setup) where
  unfoldable pub send_chunks : ℕ → List Text → W → W
  send_chunks chat [] w = w
  send_chunks chat (t ∷ ts) w = send_chunks chat ts (b.send chat t w)

  abbrev or_empty : Option (List Text) → List Text
  or_empty none = []
  or_empty (some ts) = ts

  -- The messages that a turn ends with; `split_message` always has an answer.
  unfoldable pub answer_texts : Heard → List Text
  unfolding split_message
  answer_texts (Heard.not_started e) = (codes "Sorry, I couldn't start that turn: " ++ e) ∷ []
  answer_texts (Heard.not_finished e) = (codes "Sorry, that turn failed: " ++ e) ∷ []
  answer_texts (Heard.finished []) = codes "(the agent finished without any text to show)" ∷ []
  answer_texts (Heard.finished (x ∷ final)) =
      or_empty (split_message (x ∷ final) telegram_max_message)

  unfoldable pub handle_prompt : ℕ → Text → Desk W → Desk W
  unfolding turn answer_texts send_chunks
  handle_prompt chat text d =
      let (h, d') =
        turn b.run b.screen b.json c.show_thinking text (some chat)
          (record d { world = b.typing chat d.world }) in
      record d' { world = send_chunks chat (answer_texts h) d'.world }

  unfoldable pub may_ask : Message → Bool
  unfolding named text_eq
  may_ask m = m.is_private && not (text_eq m.text []) && named c.allowed_users m.from

  -- An update that is no message has none.
  unfoldable pub handle_update : Option Message → Desk W → Desk W
  unfolding may_ask handle_prompt split_command handle_command
  handle_update none d = d
  handle_update (some m) d =
      let (cmd, arg) = split_command m.text in
      if not (may_ask m)
      then d
      else if is_command m.text
      then handle_command b.shelf b.new_id b.send p m.chat cmd arg d
      else handle_prompt m.chat m.text d

  unfoldable pub poll : List (Option Message) → Desk W → Desk W
  unfolding handle_update
  poll [] d = d
  poll (u ∷ us) d = poll us (handle_update u d)
