-- ===== src/Store/Migrations/Once.antt =====
-- Each migration is applied once, in order, and whole.
use mathlib.Core.Path.{subst}
use agentgarage.Prelude.{
  ℕ, ◌≡◌, ◌≢◌, refl, sym, ap, ◌∙◌, ◌⊎◌, inl, inr, true, false, ◌||◌, Option, none, some, List, [],
  ◌∷◌, ◌++◌, map, Text, codes, All, arith, failure, success, if◌then◌else◌, append_assoc,
  append-nil, Bool-cases, Option-cases,
}
use agentgarage.Store.Migrations.{
  Statement, Migration, Schema, Call, create_table, inspect, begin, record_version, commit, apply,
  Trouble, migrations, applied, migration_error, exec_all, end_migration, apply_migration,
  migrate_one, migrate_all, migrate,
}

-- The migrations that a database has not seen.
abbrev pub pending : List ℕ → List Migration → List Migration
pending vs [] = []
pending vs (m ∷ ms) = let rest = pending vs ms in if applied m.version vs then rest else m ∷ rest

abbrev versions_of : List Migration → List ℕ
versions_of ms = map (λ m. m.version) ms

abbrev statements_of : List Migration → List Statement
statements_of [] = []
statements_of (m ∷ ms) = m.statements ++ statements_of ms

abbrev Distinct : List Migration → Type 0
Distinct [] = Unit
Distinct (m ∷ ms) = All (λ (n : Migration). m.version ≢ n.version) ms × Distinct ms

applied-append : (v : ℕ) (us ws : List ℕ) → applied v (us ++ ws) ≡ (applied v us || applied v ws)
unfolding applied
applied-append v [] ws = refl
applied-append v (u ∷ us) ws = ground (arith, applied-append v us ws)

-- A version that none of them has makes no other pending.
pending-snoc :
    (vs : List ℕ) (v : ℕ) (ms : List Migration)
    → All (λ (n : Migration). v ≢ n.version) ms
    → pending (vs ++ v ∷ []) ms ≡ pending vs ms
unfolding applied
pending-snoc vs v [] h = refl
pending-snoc vs v (m ∷ ms) h =
    ground (arith, applied-append m.version vs (v ∷ []), h.0, pending-snoc vs v ms h.1)

module _ (trouble : Trouble) where
  -- The database answers a call with an error.
  abbrev Troubled : Type 0
  Troubled = (c : Call) × (f : Text) × (trouble c ≡ some f)

  exec_all-cases :
      (v : ℕ) (ss old : List Statement)
      → (exec_all trouble v ss old ≡ success (old ++ ss))
        ⊎ ((e : Text) × (exec_all trouble v ss old ≡ failure e) × Troubled)
  unfolding exec_all
  exec_all-cases v [] old = inl (ap success (sym (append-nil old)))
  exec_all-cases v (s ∷ ss) old = elim (Option-cases (trouble (apply v s))) [
    | inr (e, h) ↦
        inr (migration_error trouble (codes "apply") v e, ground (arith, h), (apply v s, e, h))
    | inl h ↦ elim (exec_all-cases v ss (old ++ s ∷ [])) [
      | inl ok ↦ inl (ground (arith, h, ok) ∙ ap success (append_assoc old (s ∷ []) ss))
      | inr (e, f, b) ↦ inr (e, ground (arith, h, f), b)
    ]
  ]

  apply_migration-cases :
      (m : Migration) (d : Schema)
      → (apply_migration trouble m d ≡ (
        none,
        record d { versions = d.versions ++ m.version ∷ []; created = d.created ++ m.statements },
      ))
        ⊎ ((e : Text) × (apply_migration trouble m d ≡ (some e, d)) × Troubled)
  unfolding apply_migration end_migration
  apply_migration-cases m d = elim (Option-cases (trouble (begin m.version))) [
    | inr (e, h) ↦ inr (
      migration_error trouble (codes "begin") m.version e,
      ground (arith, h),
      (begin m.version, e, h),
    )
    | inl h ↦ elim (exec_all-cases m.version m.statements d.created) [
      | inr (e, f, b) ↦ inr (e, ground (arith, h, f), b)
      | inl f ↦ elim (Option-cases (trouble (record_version m.version))) [
        | inr (e, g) ↦ inr (
          migration_error trouble (codes "record") m.version e,
          ground (arith, h, f, g),
          (record_version m.version, e, g),
        )
        | inl g ↦ elim (Option-cases (trouble (commit m.version))) [
          | inr (e, k) ↦ inr (
            migration_error trouble (codes "commit") m.version e,
            ground (arith, h, f, g, k),
            (commit m.version, e, k),
          )
          | inl k ↦ inl (ground (arith, h, f, g, k))
        ]
      ]
    ]
  ]

  abbrev extended : Migration → Schema → Schema
  extended m d = record d {
    versions = d.versions ++ m.version ∷ [];
    created = d.created ++ m.statements;
  }

  migrate_one-cases :
      (m : Migration) (d : Schema)
      → ((e : Text) × (migrate_one trouble m d ≡ (some e, d)) × Troubled)
        ⊎ (((applied m.version d.versions ≡ true) × (migrate_one trouble m d ≡ (none, d)))
            ⊎ ((applied m.version d.versions ≡ false)
                × (migrate_one trouble m d ≡ (none, extended m d))))
  unfolding migrate_one
  migrate_one-cases m d = elim (Option-cases (trouble (inspect m.version))) [
    | inr (e, h) ↦ inl (
      migration_error trouble (codes "inspect") m.version e,
      ground (arith, h),
      (inspect m.version, e, h),
    )
    | inl h ↦ elim (Bool-cases (applied m.version d.versions)) [
      | inl seen ↦ inr (inl (seen, ground (arith, h, seen)))
      | inr new ↦ elim (apply_migration-cases m d) [
        | inl whole ↦ inr (inr (new, ground (arith, h, new, whole)))
        | inr (e, f, b) ↦ inl (e, ground (arith, h, new, f), b)
      ]
    ]
  ]

  -- The pending migrations split into those applied and those left: either none is left and there is
  -- no error, or the error is the context's or a call of the database had one.
  abbrev pub Applied : Option Text → List Migration → Schema → Option Text × Schema → Type 0
  Applied ctx ms d r =
      (done : List Migration) × (left : List Migration) × (pending d.versions ms ≡ done ++ left)
      × (r.1.versions ≡ d.versions ++ versions_of done)
      × (r.1.created ≡ d.created ++ statements_of done)
      × (((r.0 ≡ none) × (left ≡ [])) ⊎ ((e : Text) × (r.0 ≡ some e) × ((ctx ≡ some e) ⊎ Troubled)))

  migrate_all-Applied :
      (ctx : Option Text) (ms : List Migration) (d : Schema)
      → Distinct ms
      → Applied ctx ms d (migrate_all trouble ms (none, d))
  unfolding migrate_all
  migrate_all-Applied ctx [] d h =
      ([], [], refl, sym (append-nil d.versions), sym (append-nil d.created), inl (refl, refl))
  migrate_all-Applied ctx (m ∷ ms) d h = elim (migrate_one-cases m d) [
    | inl (e, f, b) ↦
        subst (λ r. Applied ctx (m ∷ ms) d (migrate_all trouble ms r)) (sym f)
          (
            [],
            _,
            refl,
            sym (append-nil d.versions),
            sym (append-nil d.created),
            inr (e, refl, inr b),
          )
    | inr (inl (seen, f)) ↦
        subst (λ r. Applied ctx (m ∷ ms) d (migrate_all trouble ms r)) (sym f)
          (rw seen (migrate_all-Applied ctx ms d h.1))
    | inr (inr (new, f)) ↦
        let (done, left, parts, vs, cs, end) = migrate_all-Applied ctx ms (extended m d) h.1 in
        subst (λ r. Applied ctx (m ∷ ms) d (migrate_all trouble ms r)) (sym f)
          (
            m ∷ done,
            left,
            rw new (ap (λ l. m ∷ l) (sym (pending-snoc d.versions m.version ms h.0) ∙ parts)),
            vs ∙ append_assoc d.versions (m.version ∷ []) (versions_of done),
            cs ∙ append_assoc d.created m.statements (statements_of done),
            end,
          )
  ]

  -- The versions differ.
  three-Distinct : Distinct migrations
  three-Distinct = ground arith

  -- Whatever database calls fail: of the three migrations, those that the database has not seen are
  -- applied in order up to some point, each of them whole, with its version recorded, and no other
  -- statement is carried out; either none is left and there is no error, or there is an error, which is
  -- the context's or comes where a call of the database had one.
  pub migrate-Applied :
      (ctx : Option Text) (d : Schema) → Applied ctx migrations d (migrate trouble ctx d)
  unfolding migrate
  migrate-Applied (some e) d = (
    [],
    _,
    refl,
    sym (append-nil d.versions),
    sym (append-nil d.created),
    inr (e, refl, inl refl),
  )
  migrate-Applied none d = elim (Option-cases (trouble create_table)) [
    | inr (e, f) ↦
        let stopped : migrate trouble none d
            ≡ (some (codes "turso: create migrations table: " ++ e), d) =
          ground (arith, f) in
        subst (Applied none migrations d) (sym stopped) (
          [],
          _,
          refl,
          sym (append-nil d.versions),
          sym (append-nil d.created),
          inr (_, refl, inr (create_table, e, f)),
        )
    | inl f ↦
        let begun : migrate trouble none d
            ≡ migrate_all trouble migrations (none, record d { tracked = true }) =
          ground (arith, f) in
        subst (Applied none migrations d) (sym begun)
          (migrate_all-Applied none migrations (record d { tracked = true }) three-Distinct)
  ]
