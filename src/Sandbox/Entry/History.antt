-- ===== src/Sandbox/Entry/History.antt =====
-- The snapshots that `Inspect` can see, in order, against the lifecycle's table.
use mathlib.Core.List.{head?}
use agentgarage.Prelude.{
  ℕ, suc, ◌+◌, ◌≤◌, ◌≡◌, refl, Bool, true, ◌||◌, ◌&&◌, not, Option, none, some, List, [], ◌∷◌,
  arith, if◌then◌else◌,
}
use agentgarage.Sandbox.Types.{State, state_eq, Time, Spec, Info, Backend, Config, Request, Command}
use agentgarage.Sandbox.Entry.{
  Entry, Machine, new_entry, do_exec, do_idle, do_destroy, do_observe, spend, serve,
}
use agentgarage.Sandbox.Entry.Invariant.{Inv, Admissible, is_set, rests}

-- The lifecycle's table. A snapshot may also repeat its state.
unfoldable pub may_follow : State → State → Bool
unfolding state_eq
may_follow State.unknown t = rests t || state_eq t State.preparing || state_eq t State.destroying
may_follow State.preparing t =
    state_eq t State.preparing
    || state_eq t State.executing
    || state_eq t State.unknown
    || state_eq t State.stopped
may_follow State.executing t = state_eq t State.executing || state_eq t State.ready
may_follow State.ready t =
    state_eq t State.ready
    || state_eq t State.executing
    || state_eq t State.stopping
    || state_eq t State.destroying
may_follow State.stopping t =
    state_eq t State.stopping || state_eq t State.ready || state_eq t State.stopped
may_follow State.stopped t =
    state_eq t State.stopped || state_eq t State.preparing || state_eq t State.destroying
may_follow State.destroying t = rests t || state_eq t State.destroying || state_eq t State.destroyed
may_follow State.destroyed t = state_eq t State.destroyed

-- An observation puts a found state on a sandbox that rests, whatever was believed of it.
abbrev pub may_be_seen : State → State → Bool
unfolding state_eq
may_be_seen s t = rests s && (state_eq t State.ready || state_eq t State.stopped)

abbrev follows : Option Info → State → Bool
follows none t = true
follows (some i) t = may_follow i.state t

abbrev follows_or_seen : Option Info → State → Bool
follows_or_seen none t = true
follows_or_seen (some i) t = may_follow i.state t || may_be_seen i.state t

abbrev pub clock_shown : Info → Bool
unfolding state_eq
clock_shown i =
    not (is_set i.due_at)
    || state_eq i.state State.ready
    || state_eq i.state State.stopping
    || state_eq i.state State.stopped

-- The newest first. `spec` is the sandbox's.
abbrev IsHistory : Spec → List Info → Type 0
IsHistory spec [] = Unit
IsHistory spec (i ∷ older) =
    (follows_or_seen (head? older) i.state ≡ true)
    × (clock_shown i ≡ true)
    × (i.name ≡ spec.name)
    × (i.image ≡ spec.image)
    × IsHistory spec older

abbrev pub Recorded : Entry → Type 0
Recorded e = IsHistory e.spec e.snaps

-- How many snapshots do not follow the one before them in the lifecycle's table.
abbrev pub strays : List Info → ℕ
strays [] = 0
strays (i ∷ older) =
    let rest = strays older in if follows (head? older) i.state then rest else suc rest

-- How many of them a request may add: an observation one, if something is believed of the sandbox.
abbrev pub strays_of : Request → State → ℕ
unfolding state_eq
strays_of (Request.observe found) s = if state_eq s State.unknown then 0 else 1
strays_of _ s = 0

pub new_entry-Recorded : (spec : Spec) → Recorded (new_entry spec)
unfolding new_entry clock_shown state_eq
new_entry-Recorded spec = (refl, refl, refl, refl, tt)

module _ {W : Type 0} (b : Backend W) (cfg : Config) where
  -- What a machine's history is after one that had so many strays.
  abbrev pub Told : ℕ → Entry → Type 0
  Told n e = Recorded e × (strays e.snaps ≤ n)

  do_idle-Told :
      (due : Time) (m : Machine W)
      → Inv cfg m.entry
      → Recorded m.entry
      → Told (strays m.entry.snaps) (do_idle b cfg due (spend due m)).1.entry
  unfolding do_idle spend clock_shown may_follow
  do_idle-Told due m v h = (ground arith, ground arith)

  do_exec-Told :
      (cmd : Command) (m : Machine W)
      → Inv cfg m.entry
      → Recorded m.entry
      → Told (strays m.entry.snaps) (do_exec b cfg cmd m).1.entry
  unfolding do_exec clock_shown may_follow
  do_exec-Told cmd m v h = (ground arith, ground arith)

  do_destroy-Told :
      (m : Machine W)
      → Inv cfg m.entry
      → Recorded m.entry
      → Told (strays m.entry.snaps) (do_destroy b cfg m).2.entry
  unfolding do_destroy clock_shown may_follow
  do_destroy-Told m v h = (ground arith, ground arith)

  do_observe-Told :
      (found : State) (m : Machine W)
      → Inv cfg m.entry
      → Admissible (Request.observe found)
      → Recorded m.entry
      → Told
          (strays m.entry.snaps + strays_of (Request.observe found) m.entry.state)
          (do_observe b cfg found m).1.entry
  unfolding do_observe clock_shown may_follow
  do_observe-Told State.ready m v a h = (ground arith, ground arith)
  do_observe-Told State.stopped m v a h = (ground arith, ground arith)
  do_observe-Told _ m v a h = absurd a

  -- Let a sandbox keep the invariant, and be observed only ready or stopped, but whatever is believed
  -- of it. Whatever the backend answers, a request that is not an observation, or an observation of a
  -- sandbox that nothing is known of, publishes only snapshots that follow one another in the
  -- lifecycle's table; another observation adds at most one that does not, from a state at rest to
  -- ready or stopped. Each snapshot has the sandbox's name and image, and a deadline only if its
  -- state is ready, stopping or stopped.
  pub serve-Recorded :
      (r : Request) (m : Machine W)
      → Inv cfg m.entry
      → Admissible r
      → Recorded m.entry
      → Recorded (serve b cfg r m).2.entry
        × (strays (serve b cfg r m).2.entry.snaps
            ≤ strays m.entry.snaps + strays_of r m.entry.state)
  unfolding serve
  serve-Recorded (Request.exec cmd) m v a h =
      let (told, few) = do_exec-Told cmd m v h in (told, omega (arith, few))
  serve-Recorded (Request.idle due) m v a h =
      let (told, few) = do_idle-Told due m v h in (told, omega (arith, few))
  serve-Recorded (Request.observe found) m v a h = do_observe-Told found m v a h
  serve-Recorded Request.destroy m v a h =
      let (told, few) = do_destroy-Told m v h in (told, omega (arith, few))
