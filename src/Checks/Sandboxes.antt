-- ===== src/Checks/Sandboxes.antt =====
-- A host with one switch, on or off, as the backend, and one sandbox on it.
use agentgarage.Prelude.{
  ◌+◌, ◌≤◌, ◌==◌, if◌then◌else◌, some, ◌≡◌, ◌≢◌, ◌⊎◌, refl, Bool, true, false, none, [], ◌∷◌, Text,
  arith, codes, text_eq,
}
use agentgarage.Sandbox.Types.{
  Time, State, ok, Spec, Command, BackendState, BackendSandbox, Backend, Config, Request, no_result,
}
use agentgarage.Sandbox.Entry.{Machine, new_entry, serve, do_idle, do_observe}
use agentgarage.Sandbox.Entry.Invariant.{Inv, new_entry-Inv, serve-Inv}
use agentgarage.Sandbox.Entry.History.{
  Recorded, strays, strays_of, new_entry-Recorded, serve-Recorded,
}
use agentgarage.Sandbox.Entry.Belief.{Laws, Sound, serve-Sound, do_idle_due, observe_loses_compute}
use agentgarage.Sandbox.Manager.{
  Manager, Handle, Report, new_manager, open_name, handle_exec, take_in, take_in_all, adopt, ask,
  ask_entry, lookup,
}
use agentgarage.Sandbox.Manager.InTurn.{InTurn}
use agentgarage.Sandbox.Manager.Steps.{Reachable}

abbrev switch : Backend Bool
switch = record {
  ensure_ready = λ s w. (none, true);
  exec = λ n c w. (no_result, none, w);
  stop = λ n w. (none, false);
  destroy = λ n w. (none, false);
  list_all =
      λ w. (record { name = codes "b"; image = []; state = BackendState.running } ∷ [], none, w);
  close = λ w. (none, w);
  now = λ w. (5, w);
}

abbrev cfg : Config
cfg = record { idle = 10; image = []; observer = true }

abbrev IsOn : Text → Bool → Type 0
IsOn n w = w ≡ true

switch-Laws : Laws switch IsOn
switch-Laws = record {
  ready_up = λ s w h. refl;
  exec_up = λ n c w h. h;
  stop_down = λ n w h on. ground (arith, on);
  stop_up = λ n w h on. absurd (h refl);
  destroy_down = λ n w h on. ground (arith, on);
  destroy_up = λ n w h on. absurd (h refl);
  now_up = λ n w h. h;
  now_down = λ n w h. h;
}

abbrev box : Spec
box = record { name = codes "a"; image = [] }

abbrev command : Command
command = record { cmd = codes "ls"; args = [] }

abbrev fresh : Machine Bool
fresh = record { entry = new_entry box; world = false; events = [] }

serve-Recorded_example :
    Recorded (serve switch cfg (Request.exec command) fresh).2.entry
    × (strays (serve switch cfg (Request.exec command) fresh).2.entry.snaps
        ≤ strays fresh.entry.snaps + strays_of (Request.exec command) fresh.entry.state)
serve-Recorded_example =
    serve-Recorded switch cfg (Request.exec command) fresh (new_entry-Inv cfg box) tt
      (new_entry-Recorded box)

fresh-Sound : Sound switch cfg switch-Laws fresh
unfolding new_entry
fresh-Sound = record { runs = λ h. ground (arith, h); ended = λ h. ground (arith, h) }

serve-Sound_example : Sound switch cfg switch-Laws (serve switch cfg (Request.exec command) fresh).2
serve-Sound_example =
    serve-Sound switch cfg switch-Laws (Request.exec command) fresh (new_entry-Inv cfg box) tt
      fresh-Sound

-- The sandbox after a command.
abbrev used : Machine Bool
used = (serve switch cfg (Request.exec command) fresh).2

used-ready : used.entry.state ≡ State.ready
unfolding serve new_entry
used-ready = refl

used-Inv : Inv cfg used.entry
unfolding serve
used-Inv = serve-Inv switch cfg (Request.exec command) fresh (new_entry-Inv cfg box) tt

do_idle_due_example :
    let after = (serve switch cfg (Request.idle used.entry.due) used).2 in
    let refused = switch.stop used.entry.spec.name used.world in
    let next : Time = if cfg.idle == 0 then none else some ((switch.now refused.1).0 + cfg.idle) in
    ((after.entry.state ≡ State.stopped)
      × (after.entry.due ≡ none)
      × (after.entry.timer ≡ none)
      × ¬ IsOn used.entry.spec.name after.world)
    ⊎ ((after.entry.state ≡ State.ready)
        × (after.entry.due ≡ next)
        × (after.entry.timer ≡ next)
        × (refused.0 ≢ none))
do_idle_due_example = do_idle_due switch cfg switch-Laws used used-Inv used-ready

observe_loses_compute_example :
    let m' = (do_observe switch cfg State.stopped used).1 in
    (m'.entry.state ≡ State.stopped)
    × (m'.entry.due ≡ used.entry.due)
    × (m'.entry.due ≢ none)
    × ((do_idle switch cfg m'.entry.due m').1 ≡ m')
observe_loses_compute_example =
    observe_loses_compute switch cfg used used-Inv used-ready (omega arith)

abbrev a : Text
a = codes "a"

abbrev empty : Manager Bool
empty = new_manager false

abbrev opened : Manager Bool
opened = (adopt box empty).1

abbrev first : Handle
first = record { entry = 0; closed = false }

abbrev other_spec : Spec
other_spec = record { name = codes "b"; image = [] }

-- A pass takes in a name, a command runs on it, and only then the pass sends its observation.
abbrev named : Manager Bool
named = (adopt other_spec opened).1

abbrev at_work : Manager Bool
at_work = (ask switch cfg 1 (Request.exec command) named).1

abbrev overtaken : Manager Bool
overtaken = (ask switch cfg 1 (Request.observe State.stopped) at_work).1

-- After a command, which also takes in the sandbox that the host lists.
abbrev busy : Manager Bool
busy = (handle_exec switch cfg command first (open_name switch cfg a empty).1).1

opens : (open_name switch cfg a empty).0 ≡ ok first
unfolding handle_exec open_name new_manager lookup adopt ask ask_entry text_eq take_in_all take_in
opens = refl

abbrev other : BackendSandbox
other = record { name = codes "b"; image = []; state = BackendState.running }

abbrev none_yet : Report
none_yet = record { adopted = []; asleep = [] }

opened-open : opened.closing ≡ false
unfolding handle_exec open_name new_manager lookup adopt ask ask_entry text_eq take_in_all take_in
opened-open = refl

other-unknown : lookup other.name opened.table ≡ none
unfolding handle_exec open_name new_manager lookup adopt ask ask_entry text_eq take_in_all take_in
other-unknown = refl
