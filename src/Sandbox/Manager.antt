-- ===== src/Sandbox/Manager.antt =====
-- metaharness/sandbox/manager.go and handle.go: the manager, its table of names and the handles.
-- Each call is what it does where no other call comes between its steps; Steps lets them come. A
-- pointer to an entry is its index in the heap of all entries ever made.
pub mod Names
pub mod Invariant
pub mod Preserved
pub mod Destroyed
pub mod Adopted
pub mod Steps
pub mod Reachable
pub mod InTurn
pub mod Alone
pub mod Lifecycle
pub mod Inspection
pub mod Adoption
use agentgarage.Prelude.{
  ℕ, Bool, true, false, ◌||◌, Option, none, some, List, [], ◌∷◌, ◌++◌, map, Text, ◌==◌, codes,
  text_eq, length, get_elem?, set, sort_by, if◌then◌else◌,
}
use agentgarage.Sandbox.Types
use agentgarage.Sandbox.Types.{
  State, Err, Result, ok, err, Spec, EventType, Event, Info, Command, BackendState, BackendSandbox,
  Backend, Config, Request, Reply, no_result,
}
use agentgarage.Sandbox.Entry.{Entry, Machine, new_entry, snapshot, exit, serve}

abbrev pub Table : Type 0
Table = List (Text × ℕ)

unfoldable pub lookup : Text → Table → Option ℕ
lookup name [] = none
lookup name ((n, p) ∷ t) = if text_eq n name then some p else lookup name t

unfoldable pub without : Text → Table → Table
without name [] = []
without name ((n, p) ∷ t) =
    let rest = without name t in if text_eq n name then rest else (n, p) ∷ rest

-- `table` is the field `entries`. `closed` holds what `Close` returned, once it has run.
pub record Manager (W : Type 0) : Type 0 where
  pub table : Table
  pub heap : List Entry
  pub closing : Bool
  pub adopted : Bool
  pub closed : Option (Option Text)
  pub world : W
  pub events : List Event

pub record Report : Type 0 where
  pub adopted : List Text
  pub asleep : List Text

pub record Handle : Type 0 where
  pub entry : ℕ
  pub closed : Bool

unfoldable pub info : Entry → Info
unfolding snapshot
info e = elim e.snaps [ [] ↦ snapshot e | i ∷ older ↦ i ]

-- The goroutine sees the manager closing, unless it has gone already.
unfoldable pub shut : Entry → Entry
unfolding exit
shut e = elim e.why [ none ↦ exit Err.shutdown e | some w ↦ e ]

infos : List Entry → Table → List Info
infos heap [] = []
infos heap ((n, p) ∷ t) = elim (get_elem? heap p) [
  | none ↦ infos heap t
  | some e ↦ info e ∷ infos heap t
]

module _ {W A B : Type 0} where
  -- `if err != nil { return err }`, and on with the value.
  abbrev pub and_then :
      Result A × Manager W → (A → Manager W → Result B × Manager W) → Result B × Manager W
  and_then (err e, m) k = (err e, m)
  and_then (ok a, m) k = k a m

  pub and_then-keeps :
      (P : Manager W → Type 0) (r : Result A × Manager W) (k : A → Manager W → Result B × Manager W)
      → P r.1
      → ((a : A) (m : Manager W) → P m → P (k a m).1)
      → P (and_then r k).1
  and_then-keeps P (err e, m) k h step = h
  and_then-keeps P (ok a, m) k h step = step a m h

module _ {W : Type 0} where
  unfoldable pub new_manager : W → Manager W
  new_manager w = record {
    table = [];
    heap = [];
    closing = false;
    adopted = false;
    closed = none;
    world = w;
    events = [];
  }

  -- The entry's pointer, and whether the name was known.
  unfoldable pub adopt : Spec → Manager W → Result (ℕ × Bool) × Manager W
  unfolding lookup new_entry
  adopt spec m = if m.closing then (err Err.shutdown, m) else elim (lookup spec.name m.table) [
    | some p ↦ (ok (p, true), m)
    | none ↦ (
      ok (length m.heap, false),
      record m {
        heap = m.heap ++ new_entry spec ∷ [];
        table = (spec.name, length m.heap) ∷ m.table;
      },
    )
  ]

  unfoldable pub forget : Text → ℕ → Manager W → Manager W
  unfolding lookup without
  forget name p m = elim (lookup name m.table) [
    | none ↦ m
    | some q ↦ if q == p then record m { table = without name m.table } else m
  ]

  unfoldable pub known_infos : Manager W → List Info
  unfolding infos info
  known_infos m = infos m.heap m.table

  unfoldable pub inspect : Manager W → List Info
  unfolding known_infos sort_by
  inspect m = sort_by (λ i. i.name) (known_infos m)

unfoldable handle_close : Handle → Handle
handle_close h = record h { closed = true }

module _ {W : Type 0} where
  -- What follows the request to destroy, by its error.
  unfoldable pub destroy_answer : Text → ℕ → Option Err → Manager W → Option Err × Manager W
  destroy_answer name p none m = (none, forget name p m)
  destroy_answer name p (some e) m = (some e, m)

unfoldable pub found_state : BackendState → State
found_state BackendState.running = State.ready
found_state BackendState.stopped = State.stopped

unfoldable pub noted : BackendState → Text → Report → Report
noted BackendState.running name r = record r { adopted = r.adopted ++ name ∷ [] }
noted BackendState.stopped name r = record r { asleep = r.asleep ++ name ∷ [] }

unfoldable pub sorted : Report → Report
unfolding sort_by
sorted r = record { adopted = sort_by (λ n. n) r.adopted; asleep = sort_by (λ n. n) r.asleep }

unfoldable pub listed : List BackendSandbox → Option Text → Result (List BackendSandbox)
listed found none = ok found
listed found (some t) = err (Err.backend t)

module _ {W : Type 0} (b : Backend W) (cfg : Config) where
  -- The goroutine of a live entry serves the request; one that has gone answers why it went.
  unfoldable pub ask_entry : ℕ → Request → Entry → Option Err → Manager W → Reply × Manager W
  unfolding serve exit
  ask_entry p r e (some w) m = (record { res = no_result; error = some w }, m)
  ask_entry p r e none m =
      let (reply, gone, s) =
        serve b cfg r (record { entry = e; world = m.world; events = m.events }) in
      (
        reply,
        record m {
          heap = set m.heap p (if gone then exit Err.destroyed s.entry else s.entry);
          world = s.world;
          events = s.events;
        },
      )

  unfoldable pub ask : ℕ → Request → Manager W → Reply × Manager W
  ask p r m = elim (get_elem? m.heap p) [
    | none ↦ (record { res = no_result; error = none }, m)
    | some e ↦ ask_entry p r e e.why m
  ]

  unfoldable pub open_name : Text → Manager W → Result Handle × Manager W
  open_name name m =
      if text_eq name []
      then (err Err.name_required, m)
      else and_then (adopt (record { name = name; image = cfg.image }) m)
          λ at m'. (ok (record { entry = at.0; closed = false }), m')

  -- What follows `entryFor`.
  unfoldable pub destroy_at : Text → Result (ℕ × Bool) × Manager W → Option Err × Manager W
  unfolding destroy_answer
  destroy_at name (err e, m) = (some e, m)
  destroy_at name (ok (p, known), m) =
      let (reply, m') = ask p Request.destroy m in destroy_answer name p reply.error m'

  unfoldable pub destroy : Text → Manager W → Option Err × Manager W
  unfolding destroy_at
  destroy name m =
      if text_eq name []
      then (some Err.name_required, m)
      else destroy_at name (adopt (record { name = name; image = [] }) m)

  -- What follows the request to observe, by its error.
  unfoldable pub observed_answer :
      BackendSandbox → Report → Option Err → Manager W → Result Report × Manager W
  unfolding noted
  observed_answer bs report (some e) m = (err e, m)
  observed_answer bs report none m = (ok (noted bs.state bs.name report), m)

  -- What follows `adopt`.
  unfoldable pub take_in_at :
      BackendSandbox → Report → Result (ℕ × Bool) × Manager W → Result Report × Manager W
  unfolding found_state observed_answer
  take_in_at bs report (err e, m) = (err e, m)
  take_in_at bs report (ok (p, true), m) = (ok report, m)
  take_in_at bs report (ok (p, false), m) =
      let (reply, m') = ask p (Request.observe (found_state bs.state)) m in
      observed_answer bs report reply.error m'

  -- One sandbox that the backend listed.
  unfoldable pub take_in : BackendSandbox → Report → Manager W → Result Report × Manager W
  unfolding take_in_at
  take_in bs report m = take_in_at bs report (adopt (record { name = bs.name; image = bs.image }) m)

  unfoldable pub take_in_all : List BackendSandbox → Report → Manager W → Result Report × Manager W
  take_in_all [] report m = (ok report, m)
  take_in_all (bs ∷ rest) report m = and_then (take_in bs report m) (take_in_all rest)

  -- The pass behind the backend's answer.
  unfoldable pub take_listed : List BackendSandbox → Manager W → Result Report × Manager W
  unfolding sorted
  take_listed bss m =
      and_then (take_in_all bss (record { adopted = []; asleep = [] }) m)
        λ report m'. (ok (sorted report), m')

  -- The pass itself, `reconcile`.
  unfoldable pub pass : Manager W → Result Report × Manager W
  unfolding listed take_listed
  pass m =
      let (found, error, w) = b.list_all m.world in
      and_then (listed found error, record m { world = w }) take_listed

  unfoldable pub reconcile : Manager W → Result Report × Manager W
  unfolding pass
  reconcile m =
      if m.closing
      then (err Err.shutdown, m)
      else and_then (pass m) (λ report m'. (ok report, record m' { adopted = true }))

  unfoldable pub report_event : Event → Manager W → Manager W
  report_event ev m = if cfg.observer then record m { events = m.events ++ ev ∷ [] } else m

  -- A pass that failed is reported, and nothing else.
  unfoldable pub pass_done : Result Report × Manager W → Manager W
  unfolding report_event
  pass_done (ok report, m) = record m { adopted = true }
  pass_done (err e, m) =
      report_event
        (record {
          type = EventType.reconcile_failed;
          name = [];
          from = State.unknown;
          to = State.unknown;
          error = some e;
        })
        m

  unfoldable pub ensure_adopted : Manager W → Manager W
  unfolding pass pass_done
  ensure_adopted m = if m.adopted || m.closing then m else pass_done (pass m)

  unfoldable pub handle_exec : Command → Handle → Manager W → Reply × Manager W
  unfolding ensure_adopted
  handle_exec cmd h m =
      if h.closed
      then (record { res = no_result; error = some Err.closed }, m)
      else ask h.entry (Request.exec cmd) (ensure_adopted m)

  -- A timer that has run out sends its wakeup.
  unfoldable pub wake : ℕ → Option ℕ → Manager W → Manager W
  wake p due m = (ask p (Request.idle due) m).1

  unfoldable pub close : Manager W → Option Text × Manager W
  unfolding shut
  close m =
      let (error, w) = b.close m.world in
      elim m.closed [
        | some e ↦ (e, m)
        | none ↦ (
          error,
          record m { closing = true; heap = map shut m.heap; world = w; closed = some error },
        )
      ]
