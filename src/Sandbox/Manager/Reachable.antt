-- ===== src/Sandbox/Manager/Reachable.antt =====
-- What holds at every moment of a manager's life, whatever calls are under way.
use agentgarage.Prelude.{ℕ, ◌≡◌, none, some, get_elem?}
use agentgarage.Sandbox.Types.{Config}
use agentgarage.Sandbox.Entry.{Entry}
use agentgarage.Sandbox.Manager.{lookup, Manager}
use agentgarage.Sandbox.Manager.Invariant.{Base}

module _ {W : Type 0} (cfg : Config) where
  -- The invariant, and that the table knows every sandbox whose goroutine runs.
  pub record Held (m : Manager W) : Type 0 where
    pub base : Base cfg m
    pub tracked :
        (p : ℕ) (e : Entry)
        → get_elem? m.heap p ≡ some e
        → e.why ≡ none
        → lookup e.spec.name m.table ≡ some p
