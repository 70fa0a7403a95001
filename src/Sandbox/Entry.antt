-- ===== src/Sandbox/Entry.antt =====
-- metaharness/sandbox/manager.go: one sandbox's lifecycle, `entry`, and what its goroutine does
-- with each request. The proofs are in the modules below.
pub mod Invariant
pub mod History
pub mod Belief
use agentgarage.Prelude.{
  ℕ, ◌+◌, Bool, true, false, ◌&&◌, not, Option, none, some, List, [], ◌∷◌, ◌++◌, Text, ◌==◌,
  if◌then◌else◌,
}
use agentgarage.Sandbox.Types
use agentgarage.Sandbox.Types.{
  State, state_eq, Err, Time, time_eq, Spec, EventType, Event, Info, Command, ExecResult, Backend,
  Config, Request, Reply, no_result, lift_error,
}

-- `timer` is the deadline that the armed timer carries. `snaps` holds every snapshot published,
-- the newest first; the newest is what `Inspect` reads. `why` is set when the goroutine has gone.
pub record Entry : Type 0 where
  pub spec : Spec
  pub state : State
  pub due : Time
  pub last_exec : Time
  pub timer : Time
  pub snaps : List Info
  pub why : Option Err

unfoldable pub snapshot : Entry → Info
snapshot e = record {
  name = e.spec.name;
  state = e.state;
  image = e.spec.image;
  last_exec = e.last_exec;
  due_at = e.due;
}

unfoldable pub publish : Entry → Entry
unfolding snapshot
publish e = record e { snaps = snapshot e ∷ e.snaps }

unfoldable pub new_entry : Spec → Entry
unfolding publish
new_entry spec = publish (record {
  spec = spec;
  state = State.unknown;
  due = none;
  last_exec = none;
  timer = none;
  snaps = [];
  why = none;
})

unfoldable pub commit : State → Entry → Entry
unfolding publish
commit s e = publish (record e { state = s })

unfoldable stop_timer : Entry → Entry
unfolding publish
stop_timer e = publish (record e { timer = none; due = none })

unfoldable pub exit : Err → Entry → Entry
unfolding stop_timer
exit why e = record (stop_timer e) { why = some why }

-- An entry, the world its backend and clock live in, and the events observed, the oldest first.
pub record Machine (W : Type 0) : Type 0 where
  pub entry : Entry
  pub world : W
  pub events : List Event

module _ {W : Type 0} where
  unfoldable on_entry : (Entry → Entry) → Machine W → Machine W
  on_entry f m = record m { entry = f m.entry }

  -- The timer that carries the deadline of a wakeup has run out: it sends no second one.
  unfoldable spend : Time → Machine W → Machine W
  unfolding time_eq on_entry
  spend due m = if time_eq due m.entry.timer then on_entry (λ e. record e { timer = none }) m else m

  unfoldable emit : Config → EventType → State → State → Option Err → Machine W → Machine W
  emit cfg t from to error m =
      if cfg.observer
      then record m {
        events =
            m.events
            ++ (record { type = t; name = m.entry.spec.name; from = from; to = to; error = error })
              ∷ [];
      }
      else m

abbrev pub answer {ℓ} : {A : Type ℓ} → A → Option Err → Reply × A
answer a e = (record { res = no_result; error = e }, a)

module _ {W : Type 0} (b : Backend W) (cfg : Config) where
  unfoldable arm_idle : Machine W → Machine W
  unfolding stop_timer publish
  arm_idle m =
      let e = stop_timer m.entry in
      let (t, w) = b.now m.world in
      if cfg.idle == 0 then record m { entry = e } else record m {
        entry = record (publish (record e { due = some (t + cfg.idle) })) {
          timer = some (t + cfg.idle);
        };
        world = w;
      }

  -- The part of `doExec` behind a ready sandbox.
  unfoldable pub run_command : Command → Machine W → Reply × Machine W
  unfolding commit arm_idle
  run_command cmd m =
      let (res, error, w) = b.exec m.entry.spec.name cmd m.world in
      let (t, w') = b.now w in
      (
        record { res = res; error = lift_error error },
        arm_idle (record m {
          entry = commit State.ready (record m.entry { last_exec = some t });
          world = w';
        }),
      )

  -- What follows `EnsureReady`, by its error.
  unfoldable pub prepare_done : Command → State → Option Text → Machine W → Reply × Machine W
  unfolding commit emit on_entry run_command
  prepare_done cmd prior (some t) m =
      answer
        (emit cfg EventType.prepare_failed State.preparing prior (some (Err.backend t))
          (on_entry (commit prior) m))
        (some (Err.backend t))
  prepare_done cmd prior none m = run_command cmd (
      emit cfg EventType.prepared State.preparing State.executing none
        (on_entry (commit State.executing) m))

  unfoldable pub do_exec : Command → Machine W → Reply × Machine W
  unfolding state_eq stop_timer commit on_entry run_command prepare_done
  do_exec cmd m =
      let prior = m.entry.state in
      let e = stop_timer m.entry in
      let p = commit State.preparing e in
      let (error, w) = b.ensure_ready p.spec m.world in
      if state_eq prior State.ready
      then run_command cmd (record m { entry = commit State.executing e })
      else prepare_done cmd prior error (record m { entry = p; world = w })

  -- What follows `Stop`, by its error.
  unfoldable stop_done : Option Text → Machine W → Machine W
  unfolding commit emit on_entry arm_idle stop_timer
  stop_done (some t) m =
      emit cfg EventType.stop_failed State.stopping State.ready (some (Err.backend t))
        (arm_idle (on_entry (commit State.ready) m))
  stop_done none m =
      emit cfg EventType.stopped State.stopping State.stopped none
        (on_entry (λ e. commit State.stopped (stop_timer e)) m)

  unfoldable pub do_idle : Time → Machine W → Reply × Machine W
  unfolding state_eq time_eq commit stop_done
  do_idle due m =
      let e = commit State.stopping m.entry in
      let (error, w) = b.stop e.spec.name m.world in
      if state_eq m.entry.state State.ready && time_eq due m.entry.due
      then answer (stop_done error (record m { entry = e; world = w })) none
      else answer m none

  -- What follows `Destroy`, by its error.
  unfoldable destroy_done : State → Option Text → Machine W → Reply × Bool × Machine W
  unfolding commit emit on_entry arm_idle state_eq
  destroy_done prior (some t) m =
      let back = on_entry (commit prior) m in
      (
        record { res = no_result; error = some (Err.backend t) },
        false,
        emit cfg EventType.destroy_failed State.destroying prior (some (Err.backend t))
            (if state_eq prior State.ready then arm_idle back else back),
      )
  destroy_done prior none m = (
    record { res = no_result; error = none },
    true,
    emit cfg EventType.destroyed State.destroying State.destroyed none
        (on_entry (commit State.destroyed) m),
  )

  unfoldable pub do_destroy : Machine W → Reply × Bool × Machine W
  unfolding stop_timer commit destroy_done
  do_destroy m =
      let e = commit State.destroying (stop_timer m.entry) in
      let (error, w) = b.destroy e.spec.name m.world in
      destroy_done m.entry.state error (record m { entry = e; world = w })

  unfoldable pub do_observe : State → Machine W → Reply × Machine W
  unfolding commit emit on_entry arm_idle state_eq
  do_observe found m =
      let seen = on_entry (commit found) m in
      answer
        (emit cfg EventType.observed State.unknown found none
          (if state_eq found State.ready then arm_idle seen else seen))
        none

  abbrev stays : Reply × Machine W → Reply × Bool × Machine W
  stays (r, m) = (r, false, m)

  -- The flag says whether the sandbox went with the request.
  unfoldable pub serve : Request → Machine W → Reply × Bool × Machine W
  unfolding do_exec do_idle do_observe do_destroy spend
  serve (Request.exec cmd) m = stays (do_exec cmd m)
  serve (Request.idle due) m = stays (do_idle due (spend due m))
  serve (Request.observe found) m = stays (do_observe found m)
  serve Request.destroy m = do_destroy m
