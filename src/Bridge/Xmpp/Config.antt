-- ===== src/Bridge/Xmpp/Config.antt =====
-- The configuration of metaharness/bridge/xmpp/bridge.go and its checks. A nil pointer or interface is a
-- flag.
pub mod Allowed
use agentgarage.Prelude.{
  ℕ, Bool, true, false, not, ◌||◌, Option, none, some, List, [], ◌∷◌, ◌++◌, Text, text_eq, codes,
  map, if◌then◌else◌, Attempt, failure, success,
}
use agentgarage.Bridge.Lines.{trim_space}
use agentgarage.Bridge.Xmpp.Schedule.{Schedule, ScheduleError, validate}
use agentgarage.Bridge.Xmpp.Stanzas.{Addresses, is_allowed}

pub record Config : Type 0 where
  pub username : Text
  pub password : Text
  pub has_agent : Bool
  pub has_sandboxes : Bool
  pub sandbox_name : Text
  pub model : Text
  pub allowed_jids : List Text
  pub schedule : Schedule

pub data ConfigError : Type 0 where
  empty_username empty_password nil_agent nil_sandboxes empty_sandbox_name empty_model
        nobody_allowed :
      ConfigError
  bad_username bad_jid : Text → Text → ConfigError
  bad_schedule : ScheduleError → ConfigError

pub data Checked (A : Type 0) : Type 0 where
  refused : ConfigError → Checked A
  accepted : A → Checked A

-- The library's parser, and the domain of an address.
pub record Parser (J : Type 0) : Type 0 where
  pub parse : Text → Attempt J
  pub domainpart : J → Text

module _ {J : Type 0} (a : Addresses J) (p : Parser J) where
  -- The address of a user at a domain, or why it is none.
  unfoldable pub user_address : Text → Attempt J
  unfolding text_eq
  user_address raw = elim (p.parse raw) [
    | failure e ↦ failure e
    | success j ↦
        if text_eq (a.localpart j) [] || text_eq (p.domainpart j) []
        then failure (codes "a user and domain are required")
        else success j
  ]

  -- The people that are allowed so far, with the next one's bare address, if that is not among them.
  unfoldable pub with_bare : J → List J → List J
  unfolding is_allowed
  with_bare j allowed =
      if is_allowed (map a.shown allowed) (a.shown (a.bare j))
      then allowed
      else allowed ++ a.bare j ∷ []

  unfoldable pub allow_all : List Text → List J → Checked (List J)
  unfolding user_address with_bare trim_space
  allow_all [] allowed = accepted allowed
  allow_all (raw ∷ rs) allowed = elim (user_address (trim_space raw)) [
    | failure e ↦ refused (bad_jid (trim_space raw) e)
    | success j ↦ allow_all rs (with_bare j allowed)
  ]

  abbrev pub for_account : J → Checked (List J) → Checked (J × List J)
  for_account account (refused e) = refused e
  for_account account (accepted allowed) = accepted (account, allowed)

  abbrev pub is_none : List Text → Bool
  is_none [] = true
  is_none (j ∷ js) = false

  abbrev pub by_schedule : Config → J → Option ScheduleError → Checked (J × List J)
  unfolding allow_all
  by_schedule c account (some e) = refused (bad_schedule e)
  by_schedule c account none = for_account account (allow_all c.allowed_jids [])

  -- What follows the check of the username.
  unfoldable pub for_user : Config → J → Checked (J × List J)
  unfolding by_schedule validate trim_space text_eq
  for_user c account =
      if text_eq c.password []
      then refused empty_password
      else if not c.has_agent
      then refused nil_agent
      else if not c.has_sandboxes
      then refused nil_sandboxes
      else if text_eq (trim_space c.sandbox_name) []
      then refused empty_sandbox_name
      else if text_eq (trim_space c.model) []
      then refused empty_model
      else if is_none c.allowed_jids
      then refused nobody_allowed
      else by_schedule c account (validate c.schedule)

  unfoldable pub check : Config → Checked (J × List J)
  unfolding for_user user_address trim_space text_eq
  check c =
      if text_eq (trim_space c.username) []
      then refused empty_username
      else elim (user_address (trim_space c.username)) [
        | failure e ↦ refused (bad_username (trim_space c.username) e)
        | success account ↦ for_user c account
      ]
