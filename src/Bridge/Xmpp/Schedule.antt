-- ===== src/Bridge/Xmpp/Schedule.antt =====
-- metaharness/bridge/xmpp/schedule.go: the prompt that a bridge starts by itself, at times of day. An
-- instant is a number of seconds; the zone database is the record Zone.
pub mod Next
use agentgarage.Prelude.{
  ℕ, ◌+◌, ◌*◌, ◌-◌, ltb, leb, ◌==◌, Bool, true, false, not, ◌&&◌, Option, none, some, List, [], ◌∷◌,
  ◌++◌, Text, text_eq, codes, if◌then◌else◌,
}
use agentgarage.Bridge.Lines.{trim_space}

pub record Schedule : Type 0 where
  pub prompt : Text
  pub times : List Text
  pub is_continuing : Bool

-- Of an instant: the number of its day, and the seconds of its clock; `at` is `time.Date`, which
-- gives another clock where the zone skips the one asked for.
pub record Zone : Type 0 where
  pub day_of : ℕ → ℕ
  pub clock_of : ℕ → ℕ
  pub at : ℕ → ℕ → ℕ

unfoldable daily : Text → List Text → Schedule
daily prompt times = record { prompt = prompt; times = times; is_continuing = false }

unfoldable continuing : Schedule → Schedule
continuing s = record s { is_continuing = true }

unfoldable pub zero_schedule : Schedule → Bool
unfolding text_eq
zero_schedule s = elim s.times [ [] ↦ text_eq s.prompt [] | t ∷ ts ↦ false ]

abbrev pub is_digit : ℕ → Bool
is_digit c = leb 48 c && leb c 57

-- An hour of one digit or two, and what follows it.
abbrev pub hour : Text → Option (ℕ × Text)
hour [] = none
hour (c ∷ []) = if is_digit c then some (c - 48, []) else none
hour (c ∷ d ∷ s) =
    if not (is_digit c)
    then none
    else if is_digit d
    then some (10 * (c - 48) + (d - 48), s)
    else some (c - 48, d ∷ s)

-- A colon and a minute of two digits, which end the text.
abbrev pub minute : Text → Option ℕ
minute (k ∷ c ∷ d ∷ []) =
    if (k == 58) && is_digit c && is_digit d then some (10 * (c - 48) + (d - 48)) else none
minute _ = none

abbrev pub clock : ℕ → Option ℕ → Option ℕ
clock h none = none
clock h (some m) = if ltb h 24 && ltb m 60 then some (3600 * h + 60 * m) else none

abbrev pub with_minute : Option (ℕ × Text) → Option ℕ
with_minute none = none
with_minute (some (h, s)) = clock h (minute s)

-- `time.Parse("15:04", strings.TrimSpace(raw))`, as the seconds of the clock.
unfoldable pub time_of_day : Text → Option ℕ
unfolding trim_space
time_of_day raw = with_minute (hour (trim_space raw))

pub data ScheduleError : Type 0 where
  no_prompt no_time : ScheduleError
  bad_time : Text → ScheduleError

unfoldable valid_times : List Text → Option ScheduleError
unfolding time_of_day
valid_times [] = none
valid_times (raw ∷ rs) = elim (time_of_day raw) [
  | none ↦ some (bad_time raw)
  | some t ↦ valid_times rs
]

unfoldable pub validate : Schedule → Option ScheduleError
unfolding zero_schedule valid_times trim_space text_eq
validate s =
    if zero_schedule s
    then none
    else if text_eq (trim_space s.prompt) []
    then some no_prompt
    else elim s.times [ [] ↦ some no_time | t ∷ ts ↦ valid_times (t ∷ ts) ]

module _ (z : Zone) where
  -- `due.AddDate(0, 0, 1)`.
  abbrev day_after : ℕ → ℕ
  day_after t = z.at (z.day_of t + 1) (z.clock_of t)

  unfoldable pub due_at : ℕ → ℕ → ℕ
  due_at now c = let due = z.at (z.day_of now) c in if ltb now due then due else day_after due

  abbrev pub sooner : Option ℕ → ℕ → ℕ
  sooner none due = due
  sooner (some next) due = if ltb due next then due else next

  unfoldable pub next_from : ℕ → Option ℕ → List Text → Option ℕ
  unfolding time_of_day due_at
  next_from now next [] = next
  next_from now next (raw ∷ rs) = elim (time_of_day raw) [
    | none ↦ next_from now next rs
    | some c ↦ next_from now (some (sooner next (due_at now c))) rs
  ]

  unfoldable pub next_due : ℕ → List Text → Option ℕ
  unfolding next_from
  next_due now times = next_from now none times
