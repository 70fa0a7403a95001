-- ===== src/Sandbox/Manager/InTurn.antt =====
-- The states that whole calls bring a manager to, one after the other.
use agentgarage.Prelude.{ℕ, Option, Text}
use agentgarage.Sandbox.Types.{Backend, Config, Command}
use agentgarage.Sandbox.Manager.{
  Manager, Handle, new_manager, open_name, destroy, reconcile, close, handle_exec, wake,
}
use agentgarage.Sandbox.Manager.Invariant.{WellFormed, new_manager-WellFormed}
use agentgarage.Sandbox.Manager.Preserved.{wake-WellFormed, open_name-WellFormed, close-WellFormed}
use agentgarage.Sandbox.Manager.Destroyed.{destroy-WellFormed}
use agentgarage.Sandbox.Manager.Adopted.{reconcile-WellFormed, handle_exec-WellFormed}

module _ {W : Type 0} (b : Backend W) (cfg : Config) where
  -- The operations of a manager, in any order. A timer may wake any sandbox with any deadline, and a
  -- handle may name any sandbox.
  pub data InTurn : Manager W → Type 0 where
    new : (w : W) → InTurn (new_manager w)
    opened : (name : Text) (m : Manager W) → InTurn m → InTurn (open_name b cfg name m).1
    ran :
        (cmd : Command) (h : Handle) (m : Manager W)
        → InTurn m
        → InTurn (handle_exec b cfg cmd h m).1
    woke : (p : ℕ) (due : Option ℕ) (m : Manager W) → InTurn m → InTurn (wake b cfg p due m)
    ended : (name : Text) (m : Manager W) → InTurn m → InTurn (destroy b cfg name m).1
    adopted : (m : Manager W) → InTurn m → InTurn (reconcile b cfg m).1
    shut_down : (m : Manager W) → InTurn m → InTurn (close b cfg m).1

  -- Whatever the backend answers, every state that whole calls lead to, one after the other, is
  -- well-formed: the invariant of every moment holds, every sandbox that the table knows has its
  -- goroutine unless the manager is closing, and a manager that is closing has closed.
  pub in_turn-WellFormed : {m : Manager W} → InTurn m → WellFormed cfg m
  in_turn-WellFormed (InTurn.new w) = new_manager-WellFormed cfg w
  in_turn-WellFormed (InTurn.opened name m r) =
      open_name-WellFormed b cfg name m (in_turn-WellFormed r)
  in_turn-WellFormed (InTurn.ran cmd h m r) =
      handle_exec-WellFormed b cfg cmd h m (in_turn-WellFormed r)
  in_turn-WellFormed (InTurn.woke p due m r) = wake-WellFormed b cfg p due m (in_turn-WellFormed r)
  in_turn-WellFormed (InTurn.ended name m r) =
      destroy-WellFormed b cfg name m (in_turn-WellFormed r)
  in_turn-WellFormed (InTurn.adopted m r) = reconcile-WellFormed b cfg m (in_turn-WellFormed r)
  in_turn-WellFormed (InTurn.shut_down m r) = close-WellFormed b cfg m (in_turn-WellFormed r)
