-- ===== src/Bridge/Desk/Handles.antt =====
-- A bridge holds one handle on a sandbox, that of its current session, whatever its commands meet.
use agentgarage.Prelude.{
  ℕ, ◌≡◌, ◌≢◌, refl, ap, ◌∙◌, inl, inr, not, ◌&&◌, ◌||◌, Option, none, some, List, [], ◌∷◌, Text,
  All, arith, ◌==◌, if◌then◌else◌, if_keeps, ◌++◌, text_eq, codes, Attempt, failure, success,
  Bool-cases,
}
use mathlib.Core.Path.{subst}
use agentgarage.Agent.Session.{Session, SessionRecord, Box, new_session, bind, close, of_record}
use agentgarage.Agent.Sessions.{Shelf, Resumed, ResumeError, bound, reopened, loaded, resume}
use agentgarage.Bridge.Desk.{
  Desk, Setup, begun, start_session, release_all, replace, renewed, status_text, help_text,
  list_sessions, resumed, resume_session, handle_command,
}

-- The handles without the first of that number.
abbrev pub let_go : ℕ → List Box → List Box
let_go h [] = []
let_go h (b ∷ bs) = let rest = let_go h bs in if b.handle == h then bs else b ∷ rest

-- How the calls change the handles that a bridge has open: an opened handle is a new one, for the
-- name that was asked for; a release closes it; nothing else opens or closes any.
pub record Ledger {W To : Type 0} (shelf : Shelf W) (new_id : W → Text × W)
    (send : To → Text → W → W) (held : W → List Box) : Type 0 where
  pub opened :
      (name : Text) (w : W) (b : Box)
      → (shelf.open_box name w).0 ≡ success b
      → (held (shelf.open_box name w).1 ≡ b ∷ held w)
        × All (λ c. b.handle ≢ c.handle) (held w)
        × (b.name ≡ name)
  pub unopened :
      (name : Text) (w : W) (e : Text)
      → (shelf.open_box name w).0 ≡ failure e
      → held (shelf.open_box name w).1 ≡ held w
  pub released : (b : Box) (w : W) → held (shelf.release b w).1 ≡ let_go b.handle (held w)
  pub loading : (id : Text) (w : W) → held (shelf.load id w).1 ≡ held w
  pub listing : (n : ℕ) (w : W) → held (shelf.list_sessions n w).1 ≡ held w
  pub naming : (w : W) → held (new_id w).1 ≡ held w
  pub sending : (to : To) (text : Text) (w : W) → held (send to text w) ≡ held w

module _ {W To : Type 0} (shelf : Shelf W) (new_id : W → Text × W) (send : To → Text → W → W)
    (p : Setup) {held : W → List Box} (l : Ledger shelf new_id send held) where
  -- The current session's handle is the one handle that is open, and has the session's name.
  abbrev pub Holding : Desk W → Type 0
  Holding d =
      (b : Box) × (d.current.box ≡ some b) × (d.current.name ≡ b.name) × (held d.world ≡ b ∷ [])

  -- An opened handle beside those that were open, or those that were.
  abbrev Opened : Text → List Box → Attempt Box × W → Type 0
  Opened name hs (failure e, w) = held w ≡ hs
  Opened name hs (success b, w) =
      (held w ≡ b ∷ hs) × All (λ c. b.handle ≢ c.handle) hs × (b.name ≡ name)

  open_box-Opened : (name : Text) (w : W) → Opened name (held w) (shelf.open_box name w)
  open_box-Opened name w = by_answer (shelf.open_box name w).0 refl
    where
      by_answer :
          (a : Attempt Box)
          → (shelf.open_box name w).0 ≡ a
          → Opened name (held w) (a, (shelf.open_box name w).1)
      by_answer (failure e) h = l.unopened name w e h
      by_answer (success b) h = l.opened name w b h

  -- So for a session that was begun or resumed: it has the new handle.
  abbrev Fresh : List Box → Session → W → Type 0
  Fresh hs s w =
      (b : Box) × (s.box ≡ some b)
      × (s.name ≡ b.name)
      × (held w ≡ b ∷ hs)
      × All (λ c. b.handle ≢ c.handle) hs

  abbrev pub Begun : List Box → Attempt Session × W → Type 0
  Begun hs (failure e, w) = held w ≡ hs
  Begun hs (success s, w) = Fresh hs s w

  abbrev Readied : List Box → Resumed × W → Type 0
  Readied hs (Resumed.failed e, w) = held w ≡ hs
  Readied hs (Resumed.ready s, w) = Fresh hs s w

  begun-Begun :
      (name : Text) (hs : List Box) (a : Attempt Box × W)
      → Opened name hs a
      → Begun hs (begun shelf new_id send p a)
  unfolding begun new_session
  begun-Begun name hs (failure e, w) o = o
  begun-Begun name hs (success b, w) o = (b, refl, refl, l.naming w ∙ o.0, o.1)

  pub start_session-Begun : (w : W) → Begun (held w) (start_session shelf new_id send p w)
  unfolding start_session
  start_session-Begun w =
      begun-Begun p.sandbox_name (held w) (shelf.open_box p.sandbox_name w)
        (open_box-Opened p.sandbox_name w)

  let_go-head : (b : Box) (hs : List Box) → let_go b.handle (b ∷ hs) ≡ hs
  let_go-head b hs = ground arith

  bound-Readied :
      (b : Box) (hs : List Box) (s : Session) (w : W)
      → s.box ≡ none
      → held w ≡ b ∷ hs
      → All (λ c. b.handle ≢ c.handle) hs
      → Readied hs (bound shelf b (bind (some b) s) w)
  unfolding bound bind
  bound-Readied b hs s w unbound h fresh =
      elim (Bool-cases (not (text_eq s.name []) && not (text_eq b.name s.name))) [
        | inl bad ↦ rw (unbound, bad) (l.released b w ∙ ap (let_go b.handle) h ∙ let_go-head b hs)
        | inr good ↦ rw (unbound, good) (b, refl, refl, h, fresh)
      ]

  reopened-Readied :
      (id : Text) (hs : List Box) (s : Session) (a : Attempt Box × W)
      → s.box ≡ none
      → Opened s.name hs a
      → Readied hs (reopened shelf id s a)
  unfolding reopened
  reopened-Readied id hs s (failure e, w) unbound o = o
  reopened-Readied id hs s (success b, w) unbound o = bound-Readied b hs s w unbound o.0 o.1

  loaded-Readied :
      (id : Text) (hs : List Box) (a : Attempt (Option SessionRecord) × W)
      → held a.1 ≡ hs
      → Readied hs (loaded shelf id a)
  unfolding loaded of_record
  loaded-Readied id hs (failure e, w) h = h
  loaded-Readied id hs (success none, w) h = h
  loaded-Readied id hs (success (some r), w) h =
      reopened-Readied id hs (of_record r) (shelf.open_box r.sandbox w) refl (
        subst (λ hs. Opened r.sandbox hs (shelf.open_box r.sandbox w)) h
          (open_box-Opened r.sandbox w))

  resume-Readied : (id : Text) (w : W) → Readied (held w) (resume shelf id w)
  unfolding resume
  resume-Readied id w = loaded-Readied id (held w) (shelf.load id w) (l.loading id w)

  -- The old session gives its handle up to the new one.
  replace-Holding :
      (next : Session) (d : Desk W) (b : Box)
      → d.current.box ≡ some b
      → Fresh (b ∷ []) next d.world
      → Holding (replace shelf new_id send p next d)
  unfolding replace release_all close
  replace-Holding next d b h (n, box, name, both, fresh) =
      rw h
        (n, box, name, l.released b d.world ∙ ap (let_go b.handle) both ∙ ground (arith, fresh.0))

  moved :
      (d : Desk W) (w : W) (b : Box)
      → d.current.box ≡ some b
      → d.current.name ≡ b.name
      → held w ≡ b ∷ []
      → Holding (record d { world = w })
  moved d w b h n e = (b, h, n, e)

  renewed-Holding :
      (to : To) (a : Attempt Session × W) (d : Desk W)
      → Holding d
      → Begun (held d.world) a
      → Holding (renewed shelf new_id send p to a d)
  unfolding renewed
  renewed-Holding to (failure e, w) d (b, h, n, one) o = (b, h, n, l.sending to _ w ∙ o ∙ one)
  renewed-Holding to (success next, w) d (b, h, n, one) o =
      let (c, h', n', one') =
        replace-Holding next (record d { world = w }) b h (subst (λ hs. Fresh hs next w) one o) in
      (c, h', n', l.sending to _ _ ∙ one')

  resumed-Holding :
      (to : To) (id : Text) (a : Resumed × W) (d : Desk W)
      → Holding d
      → Readied (held d.world) a
      → Holding (resumed shelf new_id send p to id a d)
  unfolding resumed
  resumed-Holding to id (Resumed.failed ResumeError.not_found, w) d (b, h, n, one) o =
      (b, h, n, l.sending to _ w ∙ o ∙ one)
  resumed-Holding to id (Resumed.failed (ResumeError.other e), w) d (b, h, n, one) o =
      (b, h, n, l.sending to _ w ∙ o ∙ one)
  resumed-Holding to id (Resumed.ready next, w) d (b, h, n, one) o =
      let (c, h', n', one') =
        replace-Holding next (record d { world = w }) b h (subst (λ hs. Fresh hs next w) one o) in
      (c, h', n', l.sending to _ _ ∙ one')

  said-Holding :
      (to : To) (text : Text) (d : Desk W)
      → Holding d
      → Holding (record d { world = send to text d.world })
  said-Holding to text d (b, h, n, one) = (b, h, n, l.sending to text d.world ∙ one)

  list_sessions-Holding :
      (to : To) (d : Desk W) → Holding d → Holding (list_sessions shelf new_id send p to d)
  unfolding list_sessions
  list_sessions-Holding to d (b, h, n, one) = elim (Bool-cases p.stored) [
    | inl yes_stored ↦ rw yes_stored (b, h, n, l.sending to _ _ ∙ l.listing _ d.world ∙ one)
    | inr not_stored ↦ rw not_stored (b, h, n, l.sending to _ _ ∙ one)
  ]

  resume_session-Holding :
      (to : To) (id : Text) (d : Desk W)
      → Holding d
      → Holding (resume_session shelf new_id send p to id d)
  unfolding resume_session
  resume_session-Holding to id d g =
      if_keeps Holding (not p.stored) _ _
        (said-Holding to (codes "This bridge cannot resume sessions.") d g)
        (if_keeps Holding (text_eq id []) _ _
          (said-Holding to (codes "Usage: /resume <session id>") d g)
          (if_keeps Holding (text_eq id d.current.id) _ _
            (said-Holding to (codes "That session is already the current one.") d g)
            (resumed-Holding to id (resume shelf id d.world) d g (resume-Readied id d.world))))

  pub handle_command-Holding :
      (to : To) (cmd arg : Text) (d : Desk W)
      → Holding d
      → Holding (handle_command shelf new_id send p to cmd arg d)
  unfolding handle_command
  handle_command-Holding to cmd arg d g =
      if_keeps Holding (text_eq cmd (codes "/new") || text_eq cmd (codes "/clear")) _ _
        (renewed-Holding to (start_session shelf new_id send p d.world) d g
          (start_session-Begun d.world))
        (if_keeps Holding (text_eq cmd (codes "/status")) _ _
          (said-Holding to (status_text d.current) d g)
          (if_keeps Holding (text_eq cmd (codes "/sessions")) _ _ (list_sessions-Holding to d g) (
            if_keeps Holding (text_eq cmd (codes "/resume")) _ _ (resume_session-Holding to arg d g)
              (if_keeps Holding (text_eq cmd (codes "/help") || text_eq cmd (codes "/start")) _ _
                (said-Holding to (help_text p) d g)
                (said-Holding to (codes "Unknown command.\n\n" ++ help_text p) d g)))))

  -- A scheduled session takes the current one's place, or is not begun.
  pub replace-Holding-Begun :
      (next : Session) (w : W) (d : Desk W)
      → Holding d
      → Begun (held d.world) (success next, w)
      → Holding (replace shelf new_id send p next (record d { world = w }))
  replace-Holding-Begun next w d (b, h, n, one) o =
      replace-Holding next (record d { world = w }) b h (subst (λ hs. Fresh hs next w) one o)
