-- ===== src/Sandbox/Manager/Inspection.antt =====
-- `Inspect`: the newest snapshot of every known sandbox, sorted by name.
use mathlib.Core.List.{Perm, head?}
use agentgarage.Prelude.{
  ℕ, ◌≡◌, refl, ap, ◌∙◌, false, some, List, [], ◌∷◌, map, Text, arith, text_eq_iff, text_eq_refl,
  get_elem?, IsSorted, sort_by-IsSorted, sort_by-perm,
}
use agentgarage.Sandbox.Types.{Info, Config}
use agentgarage.Sandbox.Entry.{Entry, snapshot}
use agentgarage.Sandbox.Manager.{Table, lookup, Manager, info, infos, known_infos, inspect}
use agentgarage.Sandbox.Manager.Names.{Distinct}
use agentgarage.Sandbox.Manager.Invariant.{WellFormed}

info-snapshot : (e : Entry) → head? e.snaps ≡ some (snapshot e) → info e ≡ snapshot e
unfolding info
info-snapshot e h = ground arith

infos-names :
    (heap : List Entry) (t : Table)
    → Distinct t
    → ((n : Text) (p : ℕ)
        → lookup n t ≡ some p
        → (e : Entry) × (get_elem? heap p ≡ some e) × ((info e).name ≡ n))
    → map (λ i. i.name) (infos heap t) ≡ map (λ r. r.0) t
unfolding infos lookup
infos-names heap [] d h = refl
infos-names heap ((n, p) ∷ t) d h =
    let (e, at, named) = h n p (ground (arith, text_eq_refl n)) in
    let rest = infos-names heap t d.1 (λ k q l. h k q (ground (arith, text_eq_iff n k, d.0, l))) in
    ground (arith, rest)

module _ {W : Type 0} (cfg : Config) (m : Manager W) where
  -- In a well-formed manager that is not closing, `Inspect` returns the snapshots of the known
  -- sandboxes, sorted by name; their names are the names in the table, each as often as it stands
  -- there.
  inspect_lists_names :
      WellFormed cfg m
      → m.closing ≡ false
      → (map (λ i. i.name) (known_infos m) ≡ map (λ r. r.0) m.table)
        × Perm (inspect m) (known_infos m)
        × IsSorted (λ i. i.name) (inspect m)
  unfolding inspect known_infos snapshot
  inspect_lists_names v c = (
    infos-names m.heap m.table v.base.distinct λ n p l.
        let (e, at, s) = v.base.named n p l in
        let shown = (v.base.kept p e at (v.live n p e l at c)).0.shown in
        (e, at, ap (λ (i : Info). i.name) (info-snapshot e shown) ∙ s),
    sort_by-perm (λ i. i.name) (known_infos m),
    sort_by-IsSorted (λ i. i.name) (known_infos m),
  )
