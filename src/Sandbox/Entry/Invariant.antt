-- ===== src/Sandbox/Entry/Invariant.antt =====
-- The invariant of one sandbox between requests: it rests; while it is ready and there is an idle
-- timeout, it has a deadline and a timer that is armed for it and has not run out; while nothing is
-- known of it, it has no deadline; and its newest snapshot shows its fields. A sandbox that is stopped
-- may have a deadline, since an observation leaves the clock alone.
use mathlib.Core.List.{head?}
use agentgarage.Prelude.{◌≡◌, refl, Bool, true, false, Option, none, some, arith, ltb, Text}
use agentgarage.Sandbox.Types.{State, state_eq, Time, Spec, Backend, Config, Request, Command}
use agentgarage.Sandbox.Entry.{
  Entry, Machine, snapshot, new_entry, run_command, prepare_done, do_exec, do_idle, do_destroy,
  do_observe, spend, serve,
}

abbrev pub is_set : Time → Bool
is_set none = false
is_set (some t) = true

-- The states that no backend call is in flight in, but for `destroyed`.
abbrev pub rests : State → Bool
rests State.unknown = true
rests State.ready = true
rests State.stopped = true
rests _ = false

pub record Inv (cfg : Config) (e : Entry) : Type 0 where
  pub resting : rests e.state ≡ true
  pub clocked : e.state ≡ State.ready → is_set e.due ≡ ltb 0 cfg.idle
  pub timed : e.state ≡ State.ready → e.timer ≡ e.due
  pub unclocked : e.state ≡ State.unknown → (e.due ≡ none) × (e.timer ≡ none)
  pub shown : head? e.snaps ≡ some (snapshot e)

pub new_entry-Inv : (cfg : Config) (spec : Spec) → Inv cfg (new_entry spec)
unfolding new_entry state_eq
new_entry-Inv cfg spec = record {
  resting = refl;
  clocked = λ h. ground (arith, h);
  timed = λ h. refl;
  unclocked = λ h. (refl, refl);
  shown = refl;
}

-- A sandbox is found ready or stopped, whatever is believed of it; all else is unconditional.
abbrev pub Admissible : Request → Type 0
Admissible (Request.observe State.ready) = Unit
Admissible (Request.observe State.stopped) = Unit
Admissible (Request.observe _) = ⊥
Admissible _ = Unit

module _ {W : Type 0} (b : Backend W) (cfg : Config) where
  run_command-Inv : (cmd : Command) (m : Machine W) → Inv cfg (run_command b cfg cmd m).1.entry
  unfolding run_command state_eq
  run_command-Inv cmd m = ground arith

  prepare_done-Inv :
      (cmd : Command) (prior : State) (error : Option Text) (m : Machine W)
      → rests prior ≡ true
      → state_eq prior State.ready ≡ false
      → m.entry.due ≡ none
      → m.entry.timer ≡ none
      → Inv cfg (prepare_done b cfg cmd prior error m).1.entry
  unfolding prepare_done state_eq
  prepare_done-Inv cmd prior error m r n d t = ground arith

  do_exec-Inv :
      (cmd : Command) (m : Machine W) → Inv cfg m.entry → Inv cfg (do_exec b cfg cmd m).1.entry
  unfolding do_exec
  do_exec-Inv cmd m v = ground arith

  pub do_idle-Inv :
      (due : Time) (m : Machine W)
      → Inv cfg m.entry
      → Inv cfg (do_idle b cfg due (spend due m)).1.entry
  unfolding do_idle state_eq spend
  do_idle-Inv due m v = ground arith

  -- What a request leaves behind: the invariant, or a destroyed sandbox that is off the clock.
  abbrev Left : Bool → Entry → Type 0
  Left false e = Inv cfg e
  Left true e = (e.state ≡ State.destroyed) × (e.due ≡ none) × (e.timer ≡ none)

  do_destroy-Left :
      (m : Machine W) → Inv cfg m.entry → Left (do_destroy b cfg m).1 (do_destroy b cfg m).2.entry
  unfolding do_destroy state_eq
  do_destroy-Left m v = ground arith

  do_observe-Inv :
      (found : State) (m : Machine W)
      → Inv cfg m.entry
      → Admissible (Request.observe found)
      → Inv cfg (do_observe b cfg found m).1.entry
  unfolding do_observe state_eq
  do_observe-Inv State.ready m v a = ground arith
  do_observe-Inv State.stopped m v a = ground arith
  do_observe-Inv _ m v a = absurd a

  -- Every request to a sandbox that keeps the invariant (an observation of a ready or a stopped
  -- sandbox at any time), whatever the backend answers, keeps it, or, if it destroyed the sandbox,
  -- leaves it destroyed and with no timer.
  pub serve-Inv :
      (r : Request) (m : Machine W)
      → Inv cfg m.entry
      → Admissible r
      → Left (serve b cfg r m).1 (serve b cfg r m).2.entry
  unfolding serve
  serve-Inv (Request.exec cmd) m v a = do_exec-Inv cmd m v
  serve-Inv (Request.idle due) m v a = do_idle-Inv due m v
  serve-Inv (Request.observe found) m v a = do_observe-Inv found m v a
  serve-Inv Request.destroy m v a = do_destroy-Left m v

  -- No request changes what a sandbox is made from, or marks its goroutine as gone.
  pub serve-spec : (r : Request) (m : Machine W) → (serve b cfg r m).2.entry.spec ≡ m.entry.spec
  unfolding serve
  serve-spec (Request.exec cmd) m = ground arith
  serve-spec (Request.idle due) m = ground arith
  serve-spec (Request.observe found) m = ground arith
  serve-spec Request.destroy m = ground arith

  pub serve-why : (r : Request) (m : Machine W) → (serve b cfg r m).2.entry.why ≡ m.entry.why
  unfolding serve
  serve-why (Request.exec cmd) m = ground arith
  serve-why (Request.idle due) m = ground arith
  serve-why (Request.observe found) m = ground arith
  serve-why Request.destroy m = ground arith
