-- ===== src/Bridge/Status.antt =====
-- `statusMessage` of metaharness/bridge/xmpp/bridge.go and metaharness/bridge/telegram/bot.go: the one
-- message of a turn that is edited as the turn proceeds. `update id text` sends the text as a new
-- message, where there is no id yet, or as the message's new text, and answers the id from then on;
-- a failed send is only logged.
pub mod Shown
use agentgarage.Prelude.{
  ℕ, ◌-◌, ltb, Bool, true, false, not, ◌&&◌, ◌||◌, Option, none, some, List, [], ◌∷◌, ◌++◌, Text,
  text_eq, codes, if◌then◌else◌,
}

pub record Trail (Tag : Type 0) : Type 0 where
  pub id : Tag
  pub lines : List Text
  pub shown : Text
  pub last_at : ℕ

-- `strings.Join(lines, "\n")`.
unfoldable pub join_lines : List Text → Text
join_lines [] = []
join_lines (l ∷ []) = l
join_lines (l ∷ m ∷ ls) = l ++ (10 ∷ join_lines (m ∷ ls))

abbrev pub is_empty : List Text → Bool
is_empty [] = true
is_empty (l ∷ ls) = false

-- `now().Sub(lastAt) < minGap`, also where the clock went back.
abbrev pub too_soon : ℕ → ℕ → ℕ → Bool
too_soon now last gap = ltb now last || ltb (now - last) gap

-- A turn that nobody watches has no trail.
module _ {W Tag : Type 0} (update : Tag → Text → W → Tag × W) (clock : W → ℕ × W) (gap : ℕ) where
  unfoldable pub start : Tag → W → Trail Tag × W
  start none_yet w =
      let (id, w1) = update none_yet (codes "…") w in
      let (now, w2) = clock w1 in (record { id = id; lines = []; shown = []; last_at = now }, w2)

  unfoldable pub show : Trail Tag → W → Trail Tag × W
  show s w =
      let text = join_lines s.lines in
      let (id, w1) = update s.id text w in
      let (now, w2) = clock w1 in (record s { id = id; shown = text; last_at = now }, w2)

  -- What follows the tests of the gap.
  unfoldable pub show_new : Trail Tag → W → Trail Tag × W
  unfolding show join_lines text_eq
  show_new s w = if text_eq (join_lines s.lines) s.shown then (s, w) else show s w

  -- The clock is read only where the flush is not forced.
  unfoldable pub flush_soon : Trail Tag → W → Trail Tag × W
  unfolding show_new
  flush_soon s w =
      let (now, w') = clock w in if too_soon now s.last_at gap then (s, w') else show_new s w'

  unfoldable pub flush : Bool → Trail Tag → W → Trail Tag × W
  unfolding show_new flush_soon
  flush force s w =
      if is_empty s.lines then (s, w) else if force then show_new s w else flush_soon s w

  unfoldable pub add_line : Text → Trail Tag → W → Trail Tag × W
  unfolding flush
  add_line line s w = flush false (record s { lines = s.lines ++ line ∷ [] }) w
