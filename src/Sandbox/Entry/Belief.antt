-- ===== src/Sandbox/Entry/Belief.antt =====
-- What the goroutine believes, against the backend's own state: compute that runs is never
-- forgotten, and a stale wakeup is dropped.
use agentgarage.Prelude.{
  ◌≡◌, refl, ◌≢◌, ◌⊎◌, inl, inr, Option-cases, ==_iff, true, false, none, some, arith, Text, ◌<◌,
  ◌==◌, ◌+◌, if◌then◌else◌,
}
use agentgarage.Sandbox.Types.{
  State, state_eq, Time, time_eq, Spec, Backend, Config, Request, Command,
}
use agentgarage.Sandbox.Entry.{Machine, do_exec, do_idle, do_destroy, do_observe, spend, serve}
use agentgarage.Sandbox.Entry.Invariant.{Inv}

-- The documented behaviour of a backend, for a predicate `Up name w` that says that the compute
-- under a name runs: a ready sandbox runs, a command leaves it running, a stopped or destroyed one
-- does not run, a refused stop or destroy leaves it running, and the clock changes nothing.
pub record Laws {W : Type 0} (b : Backend W) (Up : Text → W → Type 0) : Type 0 where
  pub ready_up :
      (s : Spec) (w : W) → (b.ensure_ready s w).0 ≡ none → Up s.name (b.ensure_ready s w).1
  pub exec_up : (n : Text) (c : Command) (w : W) → Up n w → Up n (b.exec n c w).2
  pub stop_down : (n : Text) (w : W) → (b.stop n w).0 ≡ none → ¬ Up n (b.stop n w).1
  pub stop_up : (n : Text) (w : W) → (b.stop n w).0 ≢ none → Up n w → Up n (b.stop n w).1
  pub destroy_down : (n : Text) (w : W) → (b.destroy n w).0 ≡ none → ¬ Up n (b.destroy n w).1
  pub destroy_up : (n : Text) (w : W) → (b.destroy n w).0 ≢ none → Up n w → Up n (b.destroy n w).1
  pub now_up : (n : Text) (w : W) → Up n w → Up n (b.now w).1
  pub now_down : (n : Text) (w : W) → ¬ Up n w → ¬ Up n (b.now w).1

time_eq_refl : (t : Time) → time_eq t t ≡ true
unfolding time_eq
time_eq_refl none = refl
time_eq_refl (some a) = (==_iff a a).1 refl

module _ {W : Type 0} (b : Backend W) (cfg : Config) where
  -- A wakeup for a deadline that is not the current one changes nothing at all.
  do_idle_stale :
      (due : Time) (m : Machine W) → time_eq due m.entry.due ≡ false → (do_idle b cfg due m).1 ≡ m
  unfolding do_idle
  do_idle_stale due m h = ground arith

module _ {W : Type 0} (b : Backend W) (cfg : Config) {Up : Text → W → Type 0}
    (laws : Laws b Up) where
  open laws use {ready_up, exec_up, stop_down, stop_up, destroy_down, destroy_up, now_up, now_down}

  -- Compute believed to run does run, and a destroyed sandbox has none.
  pub record Sound (m : Machine W) : Type 0 where
    pub runs : m.entry.state ≡ State.ready → Up m.entry.spec.name m.world
    pub ended : m.entry.state ≡ State.destroyed → ¬ Up m.entry.spec.name m.world

  do_exec-Sound :
      (cmd : Command) (m : Machine W) → Inv cfg m.entry → Sound m → Sound (do_exec b cfg cmd m).1
  unfolding do_exec state_eq
  do_exec-Sound cmd m v s =
      let n : Text = m.entry.spec.name in
      let w = m.world in
      let we = (b.ensure_ready m.entry.spec w).1 in
      let wx = (b.exec n cmd w).2 in
      let wp = (b.exec n cmd we).2 in
      ground (
        arith,
        s.runs,
        exec_up n cmd w,
        now_up n wx,
        now_up n (b.now wx).1,
        ready_up m.entry.spec w,
        exec_up n cmd we,
        now_up n wp,
        now_up n (b.now wp).1,
      )

  do_idle-Sound : (due : Time) (m : Machine W) → Sound m → Sound (do_idle b cfg due (spend due m)).1
  unfolding do_idle spend state_eq
  do_idle-Sound due m s =
      let n : Text = m.entry.spec.name in
      let w = (b.stop n m.world).1 in ground (arith, stop_up n m.world, now_up n w, s.runs)

  do_destroy-Sound : (m : Machine W) → Inv cfg m.entry → Sound m → Sound (do_destroy b cfg m).2
  unfolding do_destroy state_eq
  do_destroy-Sound m v s =
      let n : Text = m.entry.spec.name in
      let w = (b.destroy n m.world).1 in
      ground (arith, destroy_up n m.world, destroy_down n m.world, now_up n w, s.runs)

  do_observe-Sound :
      (found : State) (m : Machine W)
      → (found ≡ State.ready → Up m.entry.spec.name m.world)
      → found ≢ State.destroyed
      → Sound (do_observe b cfg found m).1
  unfolding do_observe state_eq
  do_observe-Sound found m up live = ground (arith, now_up m.entry.spec.name m.world)

  -- A state that the backend was found in is true of it, and is no in-between state.
  abbrev Observed : Request → Machine W → Type 0
  Observed (Request.observe found) m =
      (found ≡ State.ready → Up m.entry.spec.name m.world) × (found ≢ State.destroyed)
  Observed _ m = Unit

  -- With a backend of the documented behaviour, and for an observation that is true, every request
  -- to a sandbox that keeps the invariant keeps this true: a sandbox believed ready has its compute
  -- running, and one believed destroyed has none running.
  pub serve-Sound :
      (r : Request) (m : Machine W)
      → Inv cfg m.entry
      → Observed r m
      → Sound m
      → Sound (serve b cfg r m).2
  unfolding serve
  serve-Sound (Request.exec cmd) m v o s = do_exec-Sound cmd m v s
  serve-Sound (Request.idle due) m v o s = do_idle-Sound due m s
  serve-Sound (Request.observe found) m v o s = do_observe-Sound found m o.0 o.1
  serve-Sound Request.destroy m v o s = do_destroy-Sound m v s

  -- With a backend of the documented behaviour, after the wakeup for the current deadline of a
  -- ready sandbox that keeps the invariant, either no compute runs and nothing is on the clock, or
  -- the backend refused and the sandbox is ready, and its deadline, with a timer armed for it, is
  -- the idle timeout from the time that the clock then shows, if there is an idle timeout.
  pub do_idle_due :
      (m : Machine W)
      → Inv cfg m.entry
      → m.entry.state ≡ State.ready
      → let after = (serve b cfg (Request.idle m.entry.due) m).2 in
        let refused = b.stop m.entry.spec.name m.world in
        let next : Time = if cfg.idle == 0 then none else some ((b.now refused.1).0 + cfg.idle) in
        ((after.entry.state ≡ State.stopped)
          × (after.entry.due ≡ none)
          × (after.entry.timer ≡ none)
          × ¬ Up m.entry.spec.name after.world)
        ⊎ ((after.entry.state ≡ State.ready)
            × (after.entry.due ≡ next)
            × (after.entry.timer ≡ next)
            × (refused.0 ≢ none))
  unfolding serve do_idle spend state_eq
  do_idle_due m v h =
      let n : Text = m.entry.spec.name in
      let same = time_eq_refl m.entry.due in
      elim (Option-cases (b.stop n m.world).0) [
        | inl e ↦ inl (
          ground (arith, same, v.timed h),
          ground (arith, same, v.timed h),
          ground (arith, same, v.timed h),
          ground (arith, same, v.timed h, stop_down n m.world),
        )
        | inr (t, e) ↦ inr (
          ground (arith, same, v.timed h),
          ground (arith, same, v.timed h),
          ground (arith, same, v.timed h),
          ground arith,
        )
      ]

module _ {W : Type 0} (b : Backend W) (cfg : Config) where
  -- Let a sandbox that keeps the invariant be ready, with an idle timeout. An observation "stopped"
  -- that is served then overrides the belief and keeps the deadline, and the wakeup for that
  -- deadline is dropped: it changes nothing and the backend is not asked to stop the compute.
  pub observe_loses_compute :
      (m : Machine W)
      → Inv cfg m.entry
      → m.entry.state ≡ State.ready
      → 0 < cfg.idle
      → let m' = (do_observe b cfg State.stopped m).1 in
        (m'.entry.state ≡ State.stopped)
        × (m'.entry.due ≡ m.entry.due)
        × (m'.entry.due ≢ none)
        × ((do_idle b cfg m'.entry.due m').1 ≡ m')
  unfolding do_observe do_idle state_eq
  observe_loses_compute m v r h = (ground arith, ground arith, ground arith, ground arith)
