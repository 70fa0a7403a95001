-- ===== src/Bridge/Turns/Keeping.antt =====
-- A turn changes no handle of its bridge: what its status messages and its run leave alone stays.
use agentgarage.Prelude.{
  ℕ, ◌≡◌, refl, ap, ◌∙◌, Bool, true, false, Option, none, some, List, [], ◌∷◌, ◌++◌, Text, if_keeps,
  Attempt, failure, success,
}
use agentgarage.Agent.Session.{Session}
use agentgarage.Agent.Run.{Event}
use agentgarage.Bridge.Lines.{Json}
use agentgarage.Bridge.Status.{
  Trail, start, show, show_new, flush_soon, flush, add_line, too_soon, is_empty, join_lines,
}
use agentgarage.Bridge.Desk.{Desk}
use agentgarage.Bridge.Turns.{
  Screen, Progress, prompted, begin, note, settle, take_event, take_events, followed, turn,
}
use agentgarage.Prelude.{text_eq}

-- What an update and a reading of the clock keep of the world.
module _ {W Tag V : Type 0} (update : Tag → Text → W → Tag × W) (clock : W → ℕ × W) (gap : ℕ)
    (kept : W → V) (updates : (id : Tag) (t : Text) (w : W) → kept (update id t w).1 ≡ kept w)
    (reads : (w : W) → kept (clock w).1 ≡ kept w) where
  abbrev Stays : W → Trail Tag × W → Type 0
  Stays w r = kept r.1 ≡ kept w

  start-kept : (id : Tag) (w : W) → Stays w (start update clock gap id w)
  unfolding start
  start-kept id w = reads _ ∙ updates id _ w

  show_new-kept : (s : Trail Tag) (w : W) → Stays w (show_new update clock gap s w)
  unfolding show_new show
  show_new-kept s w =
      if_keeps (Stays w) (text_eq (join_lines s.lines) s.shown) _ _ refl
        (reads _ ∙ updates s.id (join_lines s.lines) w)

  flush-kept : (force : Bool) (s : Trail Tag) (w : W) → Stays w (flush update clock gap force s w)
  unfolding flush flush_soon
  flush-kept force s w = if_keeps (Stays w) (is_empty s.lines) _ _ refl (
      if_keeps (Stays w) force _ _ (show_new-kept s w) (
        if_keeps (Stays w) (too_soon (clock w).0 s.last_at gap) _ _ (reads w)
          (show_new-kept s (clock w).1 ∙ reads w)))

  add_line-kept : (l : Text) (s : Trail Tag) (w : W) → Stays w (add_line update clock gap l s w)
  unfolding add_line
  add_line-kept l s w = flush-kept false (record s { lines = s.lines ++ l ∷ [] }) w

module _ {W To Tag V : Type 0} (run : Session → W → Attempt (List Event) × Session × W)
    (screen : Screen W To Tag) (json : Json) (show_thinking : Bool) (kept : W → V) where
  -- What the calls of a turn leave alone.
  pub record Quiet : Type 0 where
    pub updates :
        (to : To) (id : Tag) (t : Text) (w : W) → kept (screen.update to id t w).1 ≡ kept w
    pub reads : (w : W) → kept (screen.clock w).1 ≡ kept w
    pub runs : (s : Session) (w : W) → kept (run s w).2 ≡ kept w
    pub same_box : (s : Session) (w : W) → (run s w).1.box ≡ s.box
    pub same_name : (s : Session) (w : W) → (run s w).1.name ≡ s.name

module _ {W To Tag V : Type 0} (run : Session → W → Attempt (List Event) × Session × W)
    (screen : Screen W To Tag) (json : Json) (show_thinking : Bool) {kept : W → V}
    (q : Quiet run screen json show_thinking kept) where
  begin-kept : (to : Option To) (w : W) → kept (begin run screen json show_thinking to w).1 ≡ kept w
  unfolding begin
  begin-kept none w = refl
  begin-kept (some to) w =
      start-kept (screen.update to) screen.clock screen.gap kept (q.updates to) q.reads screen.id w

  note-kept :
      (to : Option To) (line : Option Text) (r : Option (Trail Tag) × W)
      → kept (note run screen json show_thinking to line r).1 ≡ kept r.1
  unfolding note
  note-kept none line r = refl
  note-kept (some to) none r = refl
  note-kept (some to) (some line) (none, w) = refl
  note-kept (some to) (some line) (some s, w) =
      add_line-kept (screen.update to) screen.clock screen.gap kept (q.updates to) q.reads line s w

  settle-kept :
      (to : Option To) (r : Option (Trail Tag) × W)
      → kept (settle run screen json show_thinking to r).1 ≡ kept r.1
  unfolding settle
  settle-kept none r = refl
  settle-kept (some to) (none, w) = refl
  settle-kept (some to) (some s, w) =
      flush-kept (screen.update to) screen.clock screen.gap kept (q.updates to) q.reads true s w

  take_events-kept :
      (to : Option To) (evs : List Event) (p : Progress W Tag)
      → kept (take_events run screen json show_thinking to evs p).world ≡ kept p.world
  unfolding take_events take_event
  take_events-kept to [] p = refl
  take_events-kept to (ev ∷ evs) p = take_events-kept to evs _ ∙ note-kept to _ (p.trail, p.world)

  followed-kept :
      (to : Option To) (s : Option (Trail Tag)) (a : Attempt (List Event) × Session × W)
      → let r = followed run screen json show_thinking to s a in
        (kept r.1.world ≡ kept a.2) × (r.1.current ≡ a.1)
  unfolding followed
  followed-kept to s (failure e, sess, w) = (settle-kept to _ ∙ note-kept to _ (s, w), refl)
  followed-kept to s (success evs, sess, w) = (settle-kept to _ ∙ take_events-kept to evs _, refl)

  pub turn-kept :
      (text : Text) (to : Option To) (d : Desk W)
      → let r = turn run screen json show_thinking text to d in
        (kept r.1.world ≡ kept d.world)
        × (r.1.current.box ≡ d.current.box)
        × (r.1.current.name ≡ d.current.name)
  unfolding turn
  turn-kept text to d =
      let b = begin run screen json show_thinking to d.world in
      let s = prompted text d.current in
      let f = followed-kept to b.0 (run s b.1) in
      (
        f.0 ∙ q.runs s b.1 ∙ begin-kept to d.world,
        ap (λ c. c.box) f.1 ∙ q.same_box s b.1,
        ap (λ c. c.name) f.1 ∙ q.same_name s b.1,
      )
