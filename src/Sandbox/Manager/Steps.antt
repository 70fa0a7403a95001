-- ===== src/Sandbox/Manager/Steps.antt =====
-- metaharness/sandbox/manager.go: the steps of a manager's callers, timers and goroutines, each of
-- which is one piece since the table's lock or a sandbox's goroutine makes it so. The steps of several
-- calls mix in any order: `adopt` and `forget` under the lock, a request that a goroutine serves, the
-- parts of `reconcile` and those of `Close`. The reply to a request and the end of its goroutine are
-- one step.
use agentgarage.Prelude.{ℕ, ◌≡◌, ◌≢◌, true, none, some, Text, get_elem?, set}
use agentgarage.Sandbox.Types.{Spec, Event, Backend, Config, Request}
use agentgarage.Sandbox.Entry.{Entry}
use agentgarage.Sandbox.Entry.Invariant.{Admissible}
use agentgarage.Sandbox.Manager.{
  lookup, Manager, new_manager, adopt, ask, forget, report_event, shut,
}

module _ {W : Type 0} (b : Backend W) (cfg : Config) where
  -- A name is forgotten only for a sandbox that has gone; the backend is released once every
  -- goroutine that the table knows has gone.
  pub data Reachable : Manager W → Type 0 where
    new : (w : W) → Reachable (new_manager w)
    named : (spec : Spec) (m : Manager W) → Reachable m → Reachable (adopt spec m).1
    asked :
        (p : ℕ) (r : Request) (m : Manager W)
        → Admissible r
        → Reachable m
        → Reachable (ask b cfg p r m).1
    forgot :
        (name : Text) (p : ℕ) (e : Entry) (m : Manager W)
        → get_elem? m.heap p ≡ some e
        → e.why ≢ none
        → Reachable m
        → Reachable (forget name p m)
    looked : (m : Manager W) → Reachable m → Reachable (record m { world = (b.list_all m.world).2 })
    passed : (m : Manager W) → Reachable m → Reachable (record m { adopted = true })
    told : (ev : Event) (m : Manager W) → Reachable m → Reachable (report_event b cfg ev m)
    closing : (m : Manager W) → Reachable m → Reachable (record m { closing = true })
    left :
        (p : ℕ) (e : Entry) (m : Manager W)
        → m.closing ≡ true
        → get_elem? m.heap p ≡ some e
        → Reachable m
        → Reachable (record m { heap = set m.heap p (shut e) })
    released :
        (m : Manager W)
        → m.closing ≡ true
        → ((n : Text) (p : ℕ) (e : Entry)
            → lookup n m.table ≡ some p
            → get_elem? m.heap p ≡ some e
            → e.why ≢ none)
        → Reachable m
        → Reachable (record m { closed = some (b.close m.world).0; world = (b.close m.world).1 })
