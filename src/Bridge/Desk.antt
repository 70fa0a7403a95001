-- ===== src/Bridge/Desk.antt =====
-- What the two chat bridges, metaharness/bridge/xmpp/bridge.go and metaharness/bridge/telegram/bot.go,
-- have in common: the current session, and the commands of a chat. `To` is where an answer goes.
pub mod Handles
use agentgarage.Prelude.{
  ℕ, Bool, true, false, not, ◌||◌, Option, none, some, List, [], ◌∷◌, ◌++◌, Text, text_eq, codes,
  itoa, length, if◌then◌else◌, Attempt, failure, success,
}
use agentgarage.Agent.Session.{Session, Box, new_session, close}
use agentgarage.Agent.Sessions.{Shelf, SessionInfo, Resumed, ResumeError, resume}

pub record Desk (W : Type 0) : Type 0 where
  pub current : Session
  pub world : W

-- `stored` says whether the agent keeps a history; `more_help` ends the help.
pub record Setup : Type 0 where
  pub sandbox_name : Text
  pub model_id : Text
  pub stored : Bool
  pub more_help : Text

abbrev session_list_limit : ℕ
session_list_limit = 10

unfoldable pub help_text : Setup → Text
help_text p =
    codes "I run a Meta Harness agent. Just send a message to give it a task.\n\nCommands:\n"
    ++ (codes "/new, /clear — discard the current context and start a fresh task\n"
        ++ (codes "/status — show the current session id, model, message count, and token usage\n"
            ++ ((if p.stored
                  then codes "/sessions — list the sessions that can be resumed\n"
                    ++ codes "/resume <id> — continue a stored session where it left off\n"
                  else [])
                ++ (codes "/help, /start — show this help" ++ p.more_help))))

unfoldable pub status_text : Session → Text
unfolding itoa
status_text s =
    codes "session "
    ++ (s.id
        ++ (codes "\nsandbox "
            ++ (s.name
                ++ (codes "\nmodel "
                    ++ (s.model
                        ++ (codes "\nmessages "
                            ++ (itoa (length s.messages)
                                ++ (codes "\ntokens: "
                                    ++ (itoa s.usage.input
                                        ++ (codes " in / "
                                            ++ (itoa s.usage.output ++ codes " out")))))))))))

unfoldable info_line : Text → SessionInfo → Text
unfolding itoa
info_line current i =
    codes "\n"
    ++ (i.id
        ++ (codes " — "
            ++ (itoa i.messages
                ++ (codes " messages, "
                    ++ (itoa i.usage.input
                        ++ (codes " tokens in / "
                            ++ (itoa i.usage.output
                                ++ (codes " out"
                                    ++ (if text_eq i.id current
                                        then codes " (current)"
                                        else [])))))))))

unfoldable info_lines : Text → List SessionInfo → Text
unfolding info_line
info_lines current [] = []
info_lines current (i ∷ is) = info_line current i ++ info_lines current is

-- What `/sessions` answers.
unfoldable pub list_text : Text → Attempt (List SessionInfo) → Text
unfolding info_lines
list_text current (failure e) = codes "Sorry, I couldn't list the sessions: " ++ e
list_text current (success []) = codes "No stored sessions yet."
list_text current (success (i ∷ is)) =
    codes "Sessions, most recent first:\n"
    ++ (info_lines current (i ∷ is) ++ codes "\n\nSend /resume <id> to continue one.")

unfoldable pub resumed_text : Session → Text
unfolding itoa
resumed_text s =
    codes "Resumed "
    ++ (s.id
        ++ (codes ": "
            ++ (itoa (length s.messages)
                ++ (codes " messages, working in " ++ (s.name ++ codes ".")))))

module _ {W To : Type 0} (shelf : Shelf W) (new_id : W → Text × W) (send : To → Text → W → W)
    (p : Setup) where
  -- What follows `Open`.
  unfoldable pub begun : Attempt Box × W → Attempt Session × W
  unfolding new_session
  begun (failure e, w) = (failure e, w)
  begun (success box, w) =
      let (id, w') = new_id w in (success (new_session id p.model_id (some box)), w')

  unfoldable pub start_session : W → Attempt Session × W
  unfolding begun
  start_session w = begun (shelf.open_box p.sandbox_name w)

  -- Closing a session, and with it its handle, if it holds one.
  unfoldable pub release_all : Option Box → W → W
  release_all none w = w
  release_all (some box) w = (shelf.release box w).1

  -- `closeCurrent`, and the next session takes its place.
  unfoldable pub replace : Session → Desk W → Desk W
  unfolding release_all close
  replace next d = record { current = next; world = release_all (close d.current).0 d.world }

  abbrev pub say : To → Text → Desk W → Desk W
  say to text d = record d { world = send to text d.world }

  -- `/new`, once the session was started or not.
  unfoldable pub renewed : To → Attempt Session × W → Desk W → Desk W
  unfolding replace
  renewed to (failure e, w) d =
      say to (codes "Sorry, I couldn't start a fresh session: " ++ e) (record d { world = w })
  renewed to (success next, w) d =
      say to (codes "Started a fresh session: " ++ next.id) (replace next (record d { world = w }))

  unfoldable pub list_sessions : To → Desk W → Desk W
  unfolding list_text
  list_sessions to d =
      let (infos, w) = shelf.list_sessions session_list_limit d.world in
      if p.stored
      then say to (list_text d.current.id infos) (record d { world = w })
      else say to (codes "This bridge keeps no session history.") d

  -- What follows `Resume`.
  unfoldable pub resumed : To → Text → Resumed × W → Desk W → Desk W
  unfolding replace resumed_text
  resumed to id (Resumed.failed ResumeError.not_found, w) d =
      say to (codes "I have no session called " ++ (shelf.quoted id ++ codes "."))
        (record d { world = w })
  resumed to id (Resumed.failed (ResumeError.other e), w) d =
      say to (codes "Sorry, I couldn't resume " ++ (shelf.quoted id ++ (codes ": " ++ e)))
        (record d { world = w })
  resumed to id (Resumed.ready next, w) d =
      say to (resumed_text next) (replace next (record d { world = w }))

  unfoldable pub resume_session : To → Text → Desk W → Desk W
  unfolding resumed resume
  resume_session to id d =
      if not p.stored
      then say to (codes "This bridge cannot resume sessions.") d
      else if text_eq id []
      then say to (codes "Usage: /resume <session id>") d
      else if text_eq id d.current.id
      then say to (codes "That session is already the current one.") d
      else resumed to id (resume shelf id d.world) d

  unfoldable pub handle_command : To → Text → Text → Desk W → Desk W
  unfolding renewed start_session status_text list_sessions resume_session help_text text_eq
  handle_command to cmd arg d =
      if text_eq cmd (codes "/new") || text_eq cmd (codes "/clear")
      then renewed to (start_session d.world) d
      else if text_eq cmd (codes "/status")
      then say to (status_text d.current) d
      else if text_eq cmd (codes "/sessions")
      then list_sessions to d
      else if text_eq cmd (codes "/resume")
      then resume_session to arg d
      else if text_eq cmd (codes "/help") || text_eq cmd (codes "/start")
      then say to (help_text p) d
      else say to (codes "Unknown command.\n\n" ++ help_text p) d
