-- ===== src/Sandbox/Types.antt =====
-- metaharness/sandbox/state.go, observer.go and backend.go: states, events, errors, requests, and
-- the backend and the clock as a record of operations on an abstract world `W`.
use agentgarage.Prelude.{ℕ, Bool, true, false, Option, none, some, List, Text, ◌==◌}

pub data State : Type 0 where
  unknown preparing ready executing stopping stopped destroying destroyed : State

unfoldable pub state_eq : State → State → Bool
state_eq State.unknown State.unknown = true
state_eq State.preparing State.preparing = true
state_eq State.ready State.ready = true
state_eq State.executing State.executing = true
state_eq State.stopping State.stopping = true
state_eq State.stopped State.stopped = true
state_eq State.destroying State.destroying = true
state_eq State.destroyed State.destroyed = true
state_eq _ _ = false

pub data Err : Type 0 where
  name_required destroyed closed shutdown : Err
  backend : Text → Err

pub data Result {ℓ} (A : Type ℓ) : Type ℓ where
  ok : A → Result A
  err : Err → Result A

-- `none` is the zero `time.Time`, `some t` the time t.
abbrev pub Time : Type 0
Time = Option ℕ

unfoldable pub time_eq : Time → Time → Bool
time_eq none none = true
time_eq none (some b) = false
time_eq (some a) none = false
time_eq (some a) (some b) = a == b

pub record Spec : Type 0 where
  pub name : Text
  pub image : Text

pub data EventType : Type 0 where
  prepared prepare_failed stopped stop_failed : EventType
  destroyed destroy_failed observed reconcile_failed : EventType

pub record Event : Type 0 where
  pub type : EventType
  pub name : Text
  pub from : State
  pub to : State
  pub error : Option Err

pub record Info : Type 0 where
  pub name : Text
  pub state : State
  pub image : Text
  pub last_exec : Time
  pub due_at : Time

pub record Command : Type 0 where
  pub cmd : Text
  pub args : List Text

pub record ExecResult : Type 0 where
  pub stdout : Text
  pub stderr : Text
  pub exit_code : ℕ

pub data BackendState : Type 0 where
  stopped running : BackendState

pub record BackendSandbox : Type 0 where
  pub name : Text
  pub image : Text
  pub state : BackendState

-- The backend and the clock. Every call may change the world; an error carries the backend's text.
pub record Backend (W : Type 0) : Type 0 where
  pub ensure_ready : Spec → W → Option Text × W
  pub exec : Text → Command → W → ExecResult × Option Text × W
  pub stop : Text → W → Option Text × W
  pub destroy : Text → W → Option Text × W
  pub list_all : W → List BackendSandbox × Option Text × W
  pub close : W → Option Text × W
  pub now : W → ℕ × W

-- What a manager was built with. An idle timeout of 0 stands for every non-positive one.
pub record Config : Type 0 where
  pub idle : ℕ
  pub image : Text
  pub observer : Bool

pub data Request : Type 0 where
  exec : Command → Request
  idle : Time → Request
  destroy : Request
  observe : State → Request

pub record Reply : Type 0 where
  pub res : ExecResult
  pub error : Option Err

abbrev pub no_result : ExecResult
no_result = record { stdout = List.[]; stderr = List.[]; exit_code = 0 }

abbrev pub lift_error : Option Text → Option Err
lift_error none = none
lift_error (some t) = some (backend t)
