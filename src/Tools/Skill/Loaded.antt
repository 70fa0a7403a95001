-- ===== src/Tools/Skill/Loaded.antt =====
-- Which skills the tool loads.
use agentgarage.Prelude.{
  ◌≡◌, refl, ap, ◌⊎◌, inl, inr, none, some, List, [], ◌∷◌, ◌++◌, Text, text_eq, text_eq_iff, arith,
  All, ◌≢◌, Bool-cases,
}
use agentgarage.Tools.Shell.{answer, refusal}
use agentgarage.Tools.Skill.{Skill, SkillArgs, by_name, content_of, unknown, skill}

-- The last skill of the name, and the skills on both sides of it.
abbrev LastNamed : Text → List Skill → Skill → Type 0
LastNamed name available s =
    (before : List Skill) × (behind : List Skill) × (available ≡ before ++ s ∷ behind)
    × (s.name ≡ name)
    × All (λ t. t.name ≢ name) behind

by_name-cases :
    (available : List Skill) (name : Text)
    → ((s : Skill) × (by_name available name ≡ some s) × LastNamed name available s)
      ⊎ ((by_name available name ≡ none) × All (λ t. t.name ≢ name) available)
unfolding by_name
by_name-cases [] name = inr (refl, tt)
by_name-cases (s ∷ ss) name = elim (by_name-cases ss name) [
  | inl (t, found, (before, behind, parts, named, rest)) ↦
      inl (t, rw found refl, (s ∷ before, behind, ap (λ l. s ∷ l) parts, named, rest))
  | inr (nothing, others) ↦ elim (Bool-cases (text_eq s.name name)) [
    | inl same ↦
        inl (s, rw (nothing, same) refl, ([], ss, refl, (text_eq_iff s.name name).0 same, others))
    | inr other ↦ inr (
      rw (nothing, other) refl,
      ((λ e. ground (arith, other, text_eq_iff s.name name, e)), others),
    )
  ]
]

-- The tool loads the last skill of the name that it is asked for, with the arguments; if the catalog
-- has no skill of that name, it refuses with the names that there are.
skill_lem :
    (quoted : Text → Text) (available : List Skill) (a : SkillArgs)
    → ((s : Skill) × LastNamed a.name available s
        × (skill quoted available a ≡ answer (content_of quoted s a.args)))
      ⊎ (All (λ t. t.name ≢ a.name) available
          × (skill quoted available a ≡ refusal (unknown quoted available a.name)))
unfolding skill
skill_lem quoted available a = elim (by_name-cases available a.name) [
  | inl (s, found, last) ↦ inl (s, last, rw found refl)
  | inr (nothing, others) ↦ inr (others, rw nothing refl)
]
