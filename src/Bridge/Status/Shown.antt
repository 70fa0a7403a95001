-- ===== src/Bridge/Status/Shown.antt =====
-- What the status message of a turn has shown, and how often it was edited.
use agentgarage.Prelude.{
  ℕ, ◌+◌, ◌≤◌, ◌≡◌, ◌≢◌, ◌⊎◌, refl, sym, ap, ◌∙◌, inl, inr, true, false, List, [], ◌∷◌, ◌++◌, Text,
  arith, codes, text_eq, text_eq_iff, if_keeps, Bool-cases, append_assoc, append-nil,
}
use agentgarage.Bridge.Status.{
  Trail, join_lines, is_empty, too_soon, start, show, show_new, flush_soon, flush, add_line,
}

-- The messages sent for a trail, each with the id that it was sent under, the times that they were
-- sent at, the latest first, and a clock that does not go back.
pub record Watch {W Tag : Type 0} (update : Tag → Text → W → Tag × W) (clock : W → ℕ × W)
    (log : W → List (Tag × Text)) (times : W → List ℕ) (time : W → ℕ) : Type 0 where
  pub updated : (id : Tag) (t : Text) (w : W) → log (update id t w).1 ≡ log w ++ (id, t) ∷ []
  pub read : (w : W) → log (clock w).1 ≡ log w
  pub stamped : (id : Tag) (t : Text) (w : W) → times (update id t w).1 ≡ time w ∷ times w
  pub unstamped : (w : W) → times (clock w).1 ≡ times w
  pub passes : (id : Tag) (t : Text) (w : W) → time w ≤ time (update id t w).1
  pub ticks : (w : W) → (time w ≤ (clock w).0) × (time (clock w).1 ≡ (clock w).0)

-- Each time at least a gap after the one before it, the latest first.
abbrev pub Spaced : ℕ → List ℕ → Type 0
Spaced gap [] = Unit
Spaced gap (t ∷ []) = Unit
Spaced gap (t ∷ u ∷ ts) = (u + gap ≤ t) × Spaced gap (u ∷ ts)

module _ {W Tag : Type 0} (update : Tag → Text → W → Tag × W) (clock : W → ℕ × W) (gap : ℕ)
    {log : W → List (Tag × Text)} {times : W → List ℕ} {time : W → ℕ}
    (o : Watch update clock log times time) where
  -- The lines of a turn, one after the other.
  abbrev pub add_lines : List Text → Trail Tag × W → Trail Tag × W
  add_lines [] s = s
  add_lines (l ∷ ls) (s, w) = add_lines ls (add_line update clock gap l s w)

  -- What the trail has sent was sent at least a gap apart; the last message that was sent is what is
  -- shown.
  pub record Paced (base : List ℕ) (ls : List Text) (s : Trail Tag) (w : W) : Type 0 where
    pub told : s.lines ≡ ls
    pub latest : ℕ
    pub earlier : List ℕ
    pub sent_at : times w ≡ (latest ∷ earlier) ++ base
    pub apart : Spaced gap (latest ∷ earlier)
    pub before : latest ≤ s.last_at
    pub past : s.last_at ≤ time w
    pub seen :
        (s.shown ≡ [])
        ⊎ ((front : List (Tag × Text)) × (id : Tag) × (log w ≡ front ++ (id, s.shown) ∷ []))

  start-Paced :
      (none_yet : Tag) (w : W)
      → let r = start update clock gap none_yet w in Paced (times w) [] r.0 r.1
  unfolding start
  start-Paced none_yet w =
      let w1 = (update none_yet (codes "…") w).1 in
      record {
        told = refl;
        latest = time w;
        earlier = [];
        sent_at = o.unstamped w1 ∙ o.stamped none_yet (codes "…") w;
        apart = tt;
        before = omega (arith, o.passes none_yet (codes "…") w, (o.ticks w1).0);
        past = omega (arith, (o.ticks w1).1);
        seen = inl refl;
      }

  -- The text is sent, and is what is shown from then on.
  show-log :
      (s : Trail Tag) (w : W)
      → log (show update clock gap s w).1 ≡ log w ++ (s.id, join_lines s.lines) ∷ []
  unfolding show
  show-log s w = o.read _ ∙ o.updated s.id (join_lines s.lines) w

  show-times : (s : Trail Tag) (w : W) → times (show update clock gap s w).1 ≡ time w ∷ times w
  unfolding show
  show-times s w = o.unstamped _ ∙ o.stamped s.id (join_lines s.lines) w

  show-last_at :
      (s : Trail Tag) (w : W)
      → let r = show update clock gap s w in (time w ≤ r.0.last_at) × (r.0.last_at ≤ time r.1)
  unfolding show
  show-last_at s w =
      let w1 = (update s.id (join_lines s.lines) w).1 in
      (
        omega (arith, o.passes s.id (join_lines s.lines) w, (o.ticks w1).0),
        omega (arith, (o.ticks w1).1),
      )

  show-Paced :
      (base : List ℕ) (ls : List Text) (s : Trail Tag) (w : W)
      → gap + s.last_at ≤ time w
      → Paced base ls s w
      → let r = show update clock gap s w in Paced base ls r.0 r.1
  unfolding show
  show-Paced base ls s w h p = record {
    told = p.told;
    latest = time w;
    earlier = p.latest ∷ p.earlier;
    sent_at = show-times s w ∙ ap (λ ts. time w ∷ ts) p.sent_at;
    apart = (omega (arith, p.before, h), p.apart);
    before = (show-last_at s w).0;
    past = (show-last_at s w).1;
    seen = inr (log w, _, show-log s w);
  }

  -- Nothing was sent, and no time was lost.
  idle-Paced :
      (base : List ℕ) (ls : List Text) (s : Trail Tag) (w w' : W)
      → log w' ≡ log w
      → times w' ≡ times w
      → time w ≤ time w'
      → Paced base ls s w
      → Paced base ls s w'
  idle-Paced base ls s w w' same stamps later p = record {
    told = p.told;
    latest = p.latest;
    earlier = p.earlier;
    sent_at = stamps ∙ p.sent_at;
    apart = p.apart;
    before = p.before;
    past = omega (arith, p.past, later);
    seen = elim p.seen [ inl hidden ↦ inl hidden | inr (front, id, h) ↦ inr (front, id, same ∙ h) ];
  }

  abbrev Held : List ℕ → List Text → Trail Tag × W → Type 0
  Held base ls r = Paced base ls r.0 r.1

  soon_enough : (now last : ℕ) → too_soon now last gap ≡ false → gap + last ≤ now
  soon_enough now last h = ground arith

  -- The clock is read, and nothing else is done.
  waited-Paced :
      (base : List ℕ) (ls : List Text) (s : Trail Tag) (w : W)
      → Paced base ls s w
      → Paced base ls s (clock w).1
  waited-Paced base ls s w p =
      idle-Paced base ls s w (clock w).1 (o.read w) (o.unstamped w)
        (omega (arith, (o.ticks w).0, (o.ticks w).1)) p

  show_new-Paced :
      (base : List ℕ) (ls : List Text) (s : Trail Tag) (w : W)
      → gap + s.last_at ≤ time w
      → Paced base ls s w
      → Held base ls (show_new update clock gap s w)
  unfolding show_new
  show_new-Paced base ls s w h p =
      if_keeps (Held base ls) (text_eq (join_lines s.lines) s.shown) _ _ p
        (show-Paced base ls s w h p)

  flush_soon-Paced :
      (base : List ℕ) (ls : List Text) (s : Trail Tag) (w : W)
      → Paced base ls s w
      → Held base ls (flush_soon update clock gap s w)
  unfolding flush_soon
  flush_soon-Paced base ls s w p = elim (Bool-cases (too_soon (clock w).0 s.last_at gap)) [
    | inl early ↦ rw early (waited-Paced base ls s w p)
    | inr due ↦ rw due (
        show_new-Paced base ls s (clock w).1
          (omega (arith, soon_enough (clock w).0 s.last_at due, (o.ticks w).1))
          (waited-Paced base ls s w p))
  ]

  add_line-Paced :
      (base : List ℕ) (ls : List Text) (l : Text) (s : Trail Tag) (w : W)
      → Paced base ls s w
      → Held base (ls ++ l ∷ []) (add_line update clock gap l s w)
  unfolding add_line flush
  add_line-Paced base ls l s w p =
      let s' : Trail Tag = record s { lines = s.lines ++ l ∷ [] } in
      let p' : Paced base (ls ++ l ∷ []) s' w = record {
        told = ap (λ k. k ++ l ∷ []) p.told;
        latest = p.latest;
        earlier = p.earlier;
        sent_at = p.sent_at;
        apart = p.apart;
        before = p.before;
        past = p.past;
        seen = p.seen;
      } in
      if_keeps (Held base (ls ++ l ∷ [])) (is_empty s'.lines) _ _ p'
        (flush_soon-Paced base (ls ++ l ∷ []) s' w p')

  add_lines-Paced :
      (base : List ℕ) (done ls : List Text) (r : Trail Tag × W)
      → Held base done r
      → Held base (done ++ ls) (add_lines ls r)
  add_lines-Paced base done [] r p = rw (append-nil done) p
  add_lines-Paced base done (l ∷ ls) (s, w) p =
      rw (sym (append_assoc done (l ∷ []) ls))
        (add_lines-Paced base (done ++ l ∷ []) ls _ (add_line-Paced base done l s w p))

  -- Until the turn is over.
  add_lines-Spaced :
      (none_yet : Tag) (w : W) (ls : List Text)
      → let last = add_lines ls (start update clock gap none_yet w) in
        (sends : List ℕ) × (times last.1 ≡ sends ++ times w) × Spaced gap sends
  add_lines-Spaced none_yet w ls =
      let p = add_lines-Paced _ [] ls _ (start-Paced none_yet w) in
      (p.latest ∷ p.earlier, p.sent_at, p.apart)

  is_empty-join_lines : (ls : List Text) → join_lines ls ≢ [] → is_empty ls ≡ false
  unfolding join_lines
  is_empty-join_lines ls h = ground arith

  -- A forced flush shows all the lines.
  abbrev pub Showing : Text → Trail Tag × W → Type 0
  Showing text r = (front : List (Tag × Text)) × (id : Tag) × (log r.1 ≡ front ++ (id, text) ∷ [])

  flushed-Showing :
      (base : List ℕ) (ls : List Text) (r : Trail Tag × W)
      → join_lines ls ≢ []
      → Held base ls r
      → Showing (join_lines ls) (flush update clock gap true r.0 r.1)
  unfolding flush show_new
  flushed-Showing base ls (s, w) h p =
      rw (is_empty-join_lines s.lines (rw p.told h))
        (elim (Bool-cases (text_eq (join_lines s.lines) s.shown)) [
          | inl same ↦ rw same (shown_before ((text_eq_iff (join_lines s.lines) s.shown).0 same))
          | inr new ↦ rw new (log w, s.id, rw (sym p.told) (show-log s w))
        ])
    where
      shown_before : join_lines s.lines ≡ s.shown → Showing (join_lines ls) (s, w)
      shown_before same = elim p.seen [
        | inl hidden ↦ absurd (h (ap join_lines (sym p.told) ∙ same ∙ hidden))
        | inr (front, id, e) ↦
            (front, id, e ∙ ap (λ t. front ++ (id, t) ∷ []) (sym same ∙ ap join_lines p.told))
      ]

  -- The last message that a turn sends shows all its lines, unless they are all empty.
  flush-Showing :
      (none_yet : Tag) (w : W) (ls : List Text)
      → join_lines ls ≢ []
      → let last = add_lines ls (start update clock gap none_yet w) in
        Showing (join_lines ls) (flush update clock gap true last.0 last.1)
  flush-Showing none_yet w ls h =
      flushed-Showing _ ls _ h (add_lines-Paced _ [] ls _ (start-Paced none_yet w))

  -- With a clock that does not go back, and lines that are not all empty: the status message of a turn
  -- and its edits while the turn runs are each sent at least a gap after the one before; and once the
  -- turn is over, the last message that was sent, which waits for no gap, shows all its lines.
  pub trail_shown :
      (none_yet : Tag) (w : W) (ls : List Text)
      → join_lines ls ≢ []
      → let last = add_lines ls (start update clock gap none_yet w) in
        ((sends : List ℕ) × (times last.1 ≡ sends ++ times w) × Spaced gap sends)
        × Showing (join_lines ls) (flush update clock gap true last.0 last.1)
  trail_shown none_yet w ls h = (add_lines-Spaced none_yet w ls, flush-Showing none_yet w ls h)
