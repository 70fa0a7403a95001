-- ===== src/Sandbox/Manager/Alone.antt =====
-- Calls that run one after the other, each as a sequence of the steps that calls share.
use agentgarage.Sandbox.Types.{Backend, Config}
use agentgarage.Sandbox.Entry.{Entry}
use agentgarage.Sandbox.Manager.{Manager}
use agentgarage.Sandbox.Manager.InTurn.{InTurn}
use agentgarage.Sandbox.Manager.Steps.{Reachable}

module _ {W : Type 0} (b : Backend W) (cfg : Config) where
  abbrev R : Manager W → Type 0
  R m = Reachable b cfg m
