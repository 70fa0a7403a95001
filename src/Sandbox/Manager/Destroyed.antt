-- ===== src/Sandbox/Manager/Destroyed.antt =====
-- Destroying a sandbox keeps the manager's invariant: its name is forgotten with it.
use mathlib.Core.Path.{subst}
use agentgarage.Prelude.{
  ℕ, ◌≡◌, ◌≢◌, sym, true, false, Option, none, some, [], ◌⊎◌, inl, inr, Text, arith, text_eq,
  text_eq_iff, get_elem?, get_elem?-lt, length, Bool-cases, Option-cases,
}
use agentgarage.Sandbox.Types.{Err, Spec, Backend, Config, Request, Reply}
use agentgarage.Sandbox.Entry.{Entry, serve}
use agentgarage.Sandbox.Manager.{
  Table, lookup, without, Manager, forget, ask, destroy, destroy_at, destroy_answer,
}
use agentgarage.Sandbox.Manager.Names.{
  served, without-Distinct, store, ask-live, lookup-without, adopt-cases, enrol, lookup-enrol,
}
use agentgarage.Sandbox.Manager.Invariant.{
  Base, WellFormed, enrol-WellFormed, store-Base, store-Live, set-cases,
}

pub lookup-kept :
    (k n : Text) (t : Table) {q : ℕ}
    → lookup n (without k t) ≡ some q
    → (lookup n t ≡ some q) × (k ≢ n)
lookup-kept k n t h =
    let e = lookup-without k n t in
    (ground (arith, e), λ s. ground (arith, e, (text_eq_iff k n).1 s))

module _ {W : Type 0} (b : Backend W) (cfg : Config) where
  -- The backend's answer to a request to destroy decides whether the sandbox goes with it.
  pub served-destroy :
      (e : Entry) (m : Manager W)
      → let r = served b cfg Request.destroy e m in
        ((r.0.error ≡ none) × (r.1 ≡ true)) ⊎ ((t : Err) × (r.0.error ≡ some t) × (r.1 ≡ false))
  unfolding serve
  served-destroy e m = elim (Option-cases (b.destroy e.spec.name m.world).0) [
    | inl h ↦ inl (ground arith, ground arith)
    | inr (t, h) ↦ inr (Err.backend t, ground arith, ground arith)
  ]

  -- The name of a sandbox that is gone is forgotten with it, and only its own.
  without-WellFormed :
      (name : Text) (p : ℕ) (m : Manager W)
      → lookup name m.table ≡ some p
      → Base cfg m
      → ((n : Text) (q : ℕ) (y : Entry)
          → lookup n m.table ≡ some q
          → get_elem? m.heap q ≡ some y
          → m.closing ≡ false
          → (q ≡ p) ⊎ (y.why ≡ none))
      → (m.closing ≡ true → m.closed ≢ none)
      → WellFormed cfg (record m { table = without name m.table })
  without-WellFormed name p m known v others over = record {
    base = record {
      distinct = without-Distinct name m.table v.distinct;
      named = λ n q l. v.named n q (lookup-kept name n m.table l).0;
      kept = v.kept;
      refuses = v.refuses;
      shut_down = v.shut_down;
    };
    over = over;
    live = λ n q y l g c.
        let (l', other) = lookup-kept name n m.table l in
        let (x, gx, sx) = v.named n q l' in
        let (z, gz, sz) = v.named name p known in
        elim (others n q y l' g c) [
          | inl same ↦ absurd (other (ground (arith, same, gx, gz, sx, sz)))
          | inr live ↦ live
        ];
  }

  forget-WellFormed :
      (name : Text) (p : ℕ) (m : Manager W)
      → lookup name m.table ≡ some p
      → WellFormed cfg (record m { table = without name m.table })
      → WellFormed cfg (forget name p m)
  unfolding forget
  forget-WellFormed name p m known v = ground arith

  destroy_entry-WellFormed :
      (name : Text) (p : ℕ) (e : Entry) (m : Manager W)
      → lookup name m.table ≡ some p
      → get_elem? m.heap p ≡ some e
      → e.why ≡ none
      → WellFormed cfg m
      → let r = served b cfg Request.destroy e m in
        WellFormed cfg (destroy_answer name p r.0.error (store p r m)).1
  unfolding destroy_answer
  destroy_entry-WellFormed name p e m known at live v =
      let r = served b cfg Request.destroy e m in
      let P = λ (o : Option Err). WellFormed cfg (destroy_answer name p o (store p r m)).1 in
      let base = store-Base b cfg p Request.destroy e m at live tt v.base in
      elim (served-destroy e m) [
        | inl (done, gone) ↦ subst P (sym done) (
            forget-WellFormed name p (store p r m) known (
              without-WellFormed name p (store p r m) known base
                (λ n q y l g c. elim (set-cases m.heap p q g (get_elem?-lt m.heap p at)) [
                  | inl (same, new) ↦ inl same
                  | inr old ↦ inr (v.live n q y l old c)
                ])
                v.over))
        | inr (t, bad, stays) ↦ subst P (sym bad) (record {
          base = base;
          live = store-Live b cfg p Request.destroy e m at live stays v.live;
          over = v.over;
        })
      ]

  -- `ask` and its answer together, at a name that the table has.
  known-WellFormed :
      (name : Text) (p : ℕ) (m : Manager W)
      → m.closing ≡ false
      → lookup name m.table ≡ some p
      → WellFormed cfg m
      → let r = ask b cfg p Request.destroy m in
        WellFormed cfg (destroy_answer name p r.0.error r.1).1
  known-WellFormed name p m c known v =
      let (e, at, s) = v.base.named name p known in
      let live = v.live name p e known at c in
      subst (λ (r : Reply × Manager W). WellFormed cfg (destroy_answer name p r.0.error r.1).1)
        (sym (ask-live b cfg p Request.destroy e m at live))
        (destroy_entry-WellFormed name p e m known at live v)

  pub destroy-WellFormed :
      (name : Text) (m : Manager W) → WellFormed cfg m → WellFormed cfg (destroy b cfg name m).1
  unfolding destroy
  destroy-WellFormed name m v = elim (Bool-cases (text_eq name [])) [
    | inl h ↦ ground arith
    | inr h ↦
        let spec : Spec = record { name = name; image = [] } in
        ground (
          arith,
          adopt-cases (λ r. WellFormed cfg (destroy_at b cfg name r).1) spec m (λ c. v)
              (λ p c k. known-WellFormed name p m c k v)
              (λ c k.
                known-WellFormed name (length m.heap) (enrol spec m) c (lookup-enrol spec m)
                  (enrol-WellFormed cfg spec m c k v)),
        )
  ]
