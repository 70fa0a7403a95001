-- ===== src/Sandbox/Manager/Lifecycle.antt =====
-- What a caller of the manager sees over a sandbox's life: one sandbox to a name, handles that
-- stop working, a closed manager.
use mathlib.Core.Path.{subst}
use agentgarage.Prelude.{
  ℕ, ◌≡◌, ◌≢◌, refl, sym, true, false, none, some, [], Text, arith, text_eq, text_eq_refl, length,
  get_elem?, set, get_elem?-lt, get_elem?-set_self, get_elem?-append_length, if◌then◌else◌,
  Option-cases, inl, inr,
}
use agentgarage.Sandbox.Types.{Err, ok, err, Spec, Backend, Config, Request, Command, no_result}
use agentgarage.Sandbox.Entry.{Entry, new_entry, exit}
use agentgarage.Sandbox.Manager.{
  lookup, without, Manager, Handle, forget, open_name, destroy, reconcile, ensure_adopted,
  handle_exec,
}
use agentgarage.Sandbox.Manager.Names.{
  served, ask-live, ask-gone, adopt-known, adopt-fresh, adopt-closing, lookup-without,
}
use agentgarage.Sandbox.Manager.Invariant.{WellFormed}
use agentgarage.Sandbox.Manager.Destroyed.{served-destroy}

exit-why : (w : Err) (e : Entry) → (exit w e).why ≡ some w
unfolding exit
exit-why w e = refl

module _ {W : Type 0} (b : Backend W) (cfg : Config) where
  ensure_adopted-closing : (m : Manager W) → m.closing ≡ true → ensure_adopted b cfg m ≡ m
  unfolding ensure_adopted
  ensure_adopted-closing m c = ground arith

  ensure_adopted-done : (m : Manager W) → m.adopted ≡ true → ensure_adopted b cfg m ≡ m
  unfolding ensure_adopted
  ensure_adopted-done m c = ground arith

  -- A sandbox that has gone answers why, and nothing else happens.
  handle_exec-gone :
      (m : Manager W) (cmd : Command) (h : Handle) (e : Entry) (w : Err)
      → ensure_adopted b cfg m ≡ m
      → get_elem? m.heap h.entry ≡ some e
      → e.why ≡ some w
      → handle_exec b cfg cmd h m
        ≡ (record { res = no_result; error = if h.closed then some Err.closed else some w }, m)
  unfolding handle_exec
  handle_exec-gone m cmd h e w same at why =
      ground (arith, same, ask-gone b cfg h.entry (Request.exec cmd) e w m at why)

  -- In a well-formed manager that is closing, Open, Destroy and Reconcile are refused with
  -- ErrShutdown, for a name that is not empty, and a command on a handle to any sandbox fails; none
  -- of them changes the manager or its world.
  closing_refuses :
      (m : Manager W) (name : Text) (cmd : Command) (h : Handle) (e : Entry)
      → WellFormed cfg m
      → m.closing ≡ true
      → text_eq name [] ≡ false
      → get_elem? m.heap h.entry ≡ some e
      → (open_name b cfg name m ≡ (err Err.shutdown, m))
        × (destroy b cfg name m ≡ (some Err.shutdown, m))
        × (reconcile b cfg m ≡ (err Err.shutdown, m))
        × ((handle_exec b cfg cmd h m).0.error ≢ none)
        × ((handle_exec b cfg cmd h m).1 ≡ m)
  unfolding open_name destroy reconcile
  closing_refuses m name cmd h e v c n at = elim (Option-cases e.why) [
    | inl live ↦ absurd (v.base.shut_down (v.over c) h.entry e at live)
    | inr (w, why) ↦
        let used = handle_exec-gone m cmd h e w (ensure_adopted-closing m c) at why in
        (
          ground (arith, adopt-closing (record { name = name; image = cfg.image }) m c),
          ground (arith, adopt-closing (record { name = name; image = [] }) m c),
          ground arith,
          ground (arith, used),
          ground (arith, used),
        )
  ]

  -- What a successful `Destroy` of a known name leaves.
  abbrev ended : Text → ℕ → Entry → Manager W → Manager W
  ended name p e m =
      let r = served b cfg Request.destroy e m in
      record m {
        heap = set m.heap p (exit Err.destroyed r.2.entry);
        table = without name m.table;
        world = r.2.world;
        events = r.2.events;
      }

  destroy-ended :
      (m : Manager W) (name : Text) (p : ℕ) (e : Entry)
      → m.closing ≡ false
      → text_eq name [] ≡ false
      → lookup name m.table ≡ some p
      → get_elem? m.heap p ≡ some e
      → e.why ≡ none
      → (destroy b cfg name m).0 ≡ none
      → (destroy b cfg name m).1 ≡ ended name p e m
  unfolding destroy forget
  destroy-ended m name p e c n known at live done = ground (
    arith,
    adopt-known (record { name = name; image = [] }) m p c known,
    ask-live b cfg p Request.destroy e m at live,
    served-destroy b cfg e m,
  )

  -- What callers meet on a manager: a handle to a dead sandbox, and a name that is free again.
  abbrev Renewed : Text → ℕ → Command → Manager W → Type 0
  Renewed name p cmd m =
      ((handle_exec b cfg cmd (record { entry = p; closed = false }) m).0.error
        ≡ some Err.destroyed)
      × ((open_name b cfg name m).0 ≡ ok (record { entry = length m.heap; closed = false }))
      × (get_elem? (open_name b cfg name m).1.heap (length m.heap)
          ≡ some (new_entry (record { name = name; image = cfg.image })))

  ended-Renewed :
      (m : Manager W) (name : Text) (p : ℕ) (cmd : Command) (e : Entry)
      → m.closing ≡ false
      → m.adopted ≡ true
      → text_eq name [] ≡ false
      → get_elem? m.heap p ≡ some e
      → Renewed name p cmd (ended name p e m)
  unfolding open_name
  ended-Renewed m name p cmd e c a n at =
      let gone = exit Err.destroyed (served b cfg Request.destroy e m).2.entry in
      let m' = ended name p e m in
      let spec : Spec = record { name = name; image = cfg.image } in
      let free : lookup name m'.table ≡ none =
        ground (arith, lookup-without name name m.table, text_eq_refl name) in
      let opened = adopt-fresh spec m' c free in
      let set_at = get_elem?-set_self m.heap p gone (get_elem?-lt m.heap p at) in
      (
        ground (
          arith,
          handle_exec-gone m' cmd (record { entry = p; closed = false }) gone Err.destroyed
              (ensure_adopted-done m' a) set_at (exit-why Err.destroyed _),
        ),
        ground (arith, opened, n),
        ground (arith, opened, n, get_elem?-append_length m'.heap (new_entry spec)),
      )

  -- In a well-formed manager that is not closing and has made its adoption pass, after `Destroy`
  -- succeeded on a known name, a handle to the sandbox answers that it is destroyed, and the name
  -- opens a sandbox of its own that nothing is known of.
  destroy_ends :
      (m : Manager W) (name : Text) (p : ℕ) (cmd : Command)
      → WellFormed cfg m
      → m.closing ≡ false
      → m.adopted ≡ true
      → text_eq name [] ≡ false
      → lookup name m.table ≡ some p
      → (destroy b cfg name m).0 ≡ none
      → Renewed name p cmd (destroy b cfg name m).1
  destroy_ends m name p cmd v c a n known done =
      let (e, at, s) = v.base.named name p known in
      subst (Renewed name p cmd)
        (sym (destroy-ended m name p e c n known at (v.live name p e known at c) done))
        (ended-Renewed m name p cmd e c a n at)
