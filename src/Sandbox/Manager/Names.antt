-- ===== src/Sandbox/Manager/Names.antt =====
-- The table of names, and a step of the manager's own through `ask`.
use agentgarage.Prelude.{
  ℕ, ◌≡◌, ap, Bool, true, false, none, some, [], ◌∷◌, Text, arith, text_eq, text_eq_iff,
  text_eq_refl, get_elem?, set, if◌then◌else◌, Option-cases, inl, inr, Bool-cases, length, ◌++◌,
}
use agentgarage.Sandbox.Types.{
  Result, ok, err, Spec, Err, Backend, Config, Request, Reply, no_result,
}
use agentgarage.Sandbox.Entry.{Entry, Machine, exit, serve, new_entry}
use agentgarage.Sandbox.Manager.{Table, lookup, without, Manager, ask_entry, ask, adopt}

pub lookup-without :
    (k j : Text) (t : Table) → lookup j (without k t) ≡ (if text_eq k j then none else lookup j t)
unfolding lookup without
lookup-without k j [] = ground arith
lookup-without k j ((n, p) ∷ t) =
    ground (arith, lookup-without k j t, text_eq_iff n k, text_eq_iff n j, text_eq_iff k j)

-- No name stands twice in the table.
abbrev pub Distinct : Table → Type 0
Distinct [] = Unit
Distinct ((n, p) ∷ t) = (lookup n t ≡ none) × Distinct t

pub without-Distinct : (k : Text) (t : Table) → Distinct t → Distinct (without k t)
unfolding without
without-Distinct k [] d = tt
without-Distinct k ((n, p) ∷ t) d =
    ground (arith, without-Distinct k t d.1, lookup-without k n t, d.0)

abbrev pub left_entry : Bool → Entry → Entry
left_entry gone e = if gone then exit Err.destroyed e else e

module _ {W : Type 0} where
  abbrev pub store : ℕ → Reply × Bool × Machine W → Manager W → Manager W
  store p (reply, gone, s) m = record m {
    heap = set m.heap p (left_entry gone s.entry);
    world = s.world;
    events = s.events;
  }

module _ {W : Type 0} (b : Backend W) (cfg : Config) where
  abbrev pub served : Request → Entry → Manager W → Reply × Bool × Machine W
  served r e m = serve b cfg r (record { entry = e; world = m.world; events = m.events })

  pub ask-gone :
      (p : ℕ) (r : Request) (e : Entry) (w : Err) (m : Manager W)
      → get_elem? m.heap p ≡ some e
      → e.why ≡ some w
      → ask b cfg p r m ≡ (record { res = no_result; error = some w }, m)
  unfolding ask ask_entry
  ask-gone p r e w m at h = rw (at, ask) (ap (λ o. ask_entry b cfg p r e o m) h)

  pub ask-live :
      (p : ℕ) (r : Request) (e : Entry) (m : Manager W)
      → get_elem? m.heap p ≡ some e
      → e.why ≡ none
      → ask b cfg p r m ≡ ((served r e m).0, store p (served r e m) m)
  unfolding ask ask_entry
  ask-live p r e m at h = rw (at, ask) (ap (λ o. ask_entry b cfg p r e o m) h)

  ask-dangling :
      (p : ℕ) (r : Request) (m : Manager W)
      → get_elem? m.heap p ≡ none
      → ask b cfg p r m ≡ (record { res = no_result; error = none }, m)
  unfolding ask
  ask-dangling p r m at = rw (at, ask)

  -- What holds in each of the three cases holds of a request.
  pub ask-cases :
      (P : Manager W → Type 0) (p : ℕ) (r : Request) (m : Manager W)
      → P m
      → ((e : Entry) → get_elem? m.heap p ≡ some e → e.why ≡ none → P (store p (served r e m) m))
      → P (ask b cfg p r m).1
  ask-cases P p r m same step = elim (Option-cases (get_elem? m.heap p)) [
    | inl at ↦ rw (ask-dangling p r m at) same
    | inr (e, at) ↦ elim (Option-cases e.why) [
      | inl live ↦ rw (ask-live p r e m at live) (step e at live)
      | inr (w, gone) ↦ rw (ask-gone p r e w m at gone) same
    ]
  ]

module _ {W : Type 0} where
  pub adopt-closing :
      (spec : Spec) (m : Manager W) → m.closing ≡ true → adopt spec m ≡ (err Err.shutdown, m)
  unfolding adopt
  adopt-closing spec m c = ground arith

  pub adopt-known :
      (spec : Spec) (m : Manager W) (p : ℕ)
      → m.closing ≡ false
      → lookup spec.name m.table ≡ some p
      → adopt spec m ≡ (ok (p, true), m)
  unfolding adopt
  adopt-known spec m p c k = ground arith

  -- A name that `adopt` does not know gets a new entry.
  abbrev pub enrol : Spec → Manager W → Manager W
  enrol spec m = record m {
    heap = m.heap ++ new_entry spec ∷ [];
    table = (spec.name, length m.heap) ∷ m.table;
  }

  pub lookup-enrol :
      (spec : Spec) (m : Manager W) → lookup spec.name (enrol spec m).table ≡ some (length m.heap)
  unfolding lookup
  lookup-enrol spec m = ground (arith, text_eq_refl spec.name)

  pub adopt-fresh :
      (spec : Spec) (m : Manager W)
      → m.closing ≡ false
      → lookup spec.name m.table ≡ none
      → adopt spec m ≡ (ok (length m.heap, false), enrol spec m)
  unfolding adopt
  adopt-fresh spec m c k = ground arith

  pub adopt-cases :
      (P : Result (ℕ × Bool) × Manager W → Type 0) (spec : Spec) (m : Manager W)
      → (m.closing ≡ true → P (err Err.shutdown, m))
      → ((p : ℕ) → m.closing ≡ false → lookup spec.name m.table ≡ some p → P (ok (p, true), m))
      → (m.closing ≡ false
          → lookup spec.name m.table ≡ none
          → P (ok (length m.heap, false), enrol spec m))
      → P (adopt spec m)
  adopt-cases P spec m closing known fresh = elim (Bool-cases m.closing) [
    | inl c ↦ rw (adopt-closing spec m c) (closing c)
    | inr c ↦ elim (Option-cases (lookup spec.name m.table)) [
      | inl k ↦ rw (adopt-fresh spec m c k) (fresh c k)
      | inr (p, k) ↦ rw (adopt-known spec m p c k) (known p c k)
    ]
  ]
