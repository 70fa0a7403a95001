-- ===== src/Agent/Wiring/Reached.antt =====
-- Every tool that an agent was given is reached under its own name.
use agentgarage.Prelude.{
  ◌≡◌, refl, sym, ap, ◌∙◌, none, some, List, [], ◌∷◌, ◌++◌, map, Text, text_eq_refl, All,
  All-append, arith, Attempt, failure, success, append_assoc, append-nil, inl, inr, Option-cases,
}
use mathlib.Core.Path.{subst}
use agentgarage.Agent.Wiring.{
  Agent, Setting, with_model, with_store, with_tools, with_memory, lookup, add_tools, tools_in,
  with_known, apply, apply_all, new_agent,
}

module _ {T : Type 0} (name_of : T → Text) where
  -- Each of the tools is what its name leads to.
  abbrev Reaches : List T → List (Text × T) → Type 0
  Reaches ts known = All (λ t. lookup (name_of t) known ≡ some t) ts

  lookup-append :
      (name : Text) (known more : List (Text × T)) (t : T)
      → lookup name known ≡ some t
      → lookup name (known ++ more) ≡ some t
  unfolding lookup
  lookup-append name [] more t h = ground arith
  lookup-append name ((n, u) ∷ known) more t h = ground (arith, lookup-append name known more t)

  lookup-append_none :
      (name : Text) (known : List (Text × T)) (t : T)
      → lookup name known ≡ none
      → lookup name (known ++ (name, t) ∷ []) ≡ some t
  unfolding lookup
  lookup-append_none name [] t h = rw (text_eq_refl name) refl
  lookup-append_none name ((n, u) ∷ known) t h = ground (arith, lookup-append_none name known t)

  Reaches-append :
      (ts : List T) (known more : List (Text × T)) → Reaches ts known → Reaches ts (known ++ more)
  Reaches-append [] known more h = tt
  Reaches-append (t ∷ ts) known more h =
      (lookup-append (name_of t) known more t h.0, Reaches-append ts known more h.1)

  abbrev names : List (Text × T) → List T
  names known = map (λ p. p.1) known

  map-snoc :
      (known : List (Text × T)) (n : Text) (t : T)
      → names (known ++ (n, t) ∷ []) ≡ names known ++ t ∷ []
  map-snoc [] n t = refl
  map-snoc (p ∷ known) n t = ap (λ l. p.1 ∷ l) (map-snoc known n t)

  -- The tools known are those given, in order, and each is reached.
  abbrev pub Given : List T → List (Text × T) → Type 0
  Given ts known = (names known ≡ ts) × Reaches ts known

  add_tools-Given :
      (ts old : List T) (known out : List (Text × T))
      → Given old known
      → add_tools name_of ts known ≡ success out
      → Given (old ++ ts) out
  unfolding add_tools
  add_tools-Given [] old known out g e =
      let same : known ≡ out = cc in
      subst (λ ts. Given ts out) (sym (append-nil old)) (subst (Given old) same g)
  add_tools-Given (t ∷ ts) old known out g e = elim (Option-cases (lookup (name_of t) known)) [
    | inl free ↦
        subst (λ l. Given l out) (append_assoc old (t ∷ []) ts)
          (add_tools-Given ts (old ++ t ∷ []) (known ++ (name_of t, t) ∷ []) out
            (
              map-snoc known (name_of t) t ∙ ap (λ l. l ++ t ∷ []) g.0,
              All-append (λ x. lookup (name_of x) (known ++ (name_of t, t) ∷ []) ≡ some x) old
                  (t ∷ []) (Reaches-append old known ((name_of t, t) ∷ []) g.1)
                  (lookup-append_none (name_of t) known t free, tt),
            )
            (ground (arith, e, free)))
    | inr (u, taken) ↦ ground (arith, e, taken)
  ]

-- The tools that options give an agent, in order.
abbrev pub tools_of : {W T M S : Type 0} → List (Setting W T M S) → List T
tools_of [] = []
tools_of (with_model m ∷ os) = tools_of os
tools_of (with_store s ∷ os) = tools_of os
tools_of (with_tools ts ∷ os) = ts ++ tools_of os
tools_of (with_memory m ∷ os) = tools_in m ++ tools_of os

module _ {W T M S : Type 0} (name_of : T → Text) where
  with_known-Given :
      (a : Agent W T M S) (r : Attempt (List (Text × T))) (os : List (Setting W T M S))
      {out : Agent W T M S}
      → apply_all name_of os (with_known a r) ≡ success out
      → (known : List (Text × T)) × (r ≡ success known)
        × (apply_all name_of os (success (record a { tools = known })) ≡ success out)
  unfolding with_known apply_all
  with_known-Given a (failure e) os h = cc
  with_known-Given a (success known) os h = (known, refl, h)

  apply_all-Given :
      (os : List (Setting W T M S)) (old : List T) (a out : Agent W T M S)
      → Given name_of old a.tools
      → apply_all name_of os (success a) ≡ success out
      → Given name_of (old ++ tools_of os) out.tools
  unfolding apply_all apply
  apply_all-Given [] old a out g h =
      let same : a ≡ out = cc in
      subst (λ (b : Agent W T M S). Given name_of (old ++ []) b.tools) same
        (subst (λ ts. Given name_of ts a.tools) (sym (append-nil old)) g)
  apply_all-Given (with_model m ∷ os) old a out g h =
      apply_all-Given os old (record a { model = some m }) out g h
  apply_all-Given (with_store s ∷ os) old a out g h =
      apply_all-Given os old (record a { store = s }) out g h
  apply_all-Given (with_tools ts ∷ os) old a out g h =
      let (known, e, h') = with_known-Given a (add_tools name_of ts a.tools) os h in
      subst (λ l. Given name_of l out.tools) (append_assoc old ts (tools_of os))
        (apply_all-Given os (old ++ ts) (record a { tools = known }) out
          (add_tools-Given name_of ts old a.tools known g e) h')
  apply_all-Given (with_memory m ∷ os) old a out g h =
      let (known, e, h') =
        with_known-Given (record a { memory = m }) (add_tools name_of (tools_in m) a.tools) os h in
      subst (λ l. Given name_of l out.tools) (append_assoc old (tools_in m) (tools_of os))
        (apply_all-Given os (old ++ tools_in m) (record a { memory = m; tools = known }) out
          (add_tools-Given name_of (tools_in m) old a.tools known g e) h')

  -- Where building an agent does not panic: its tools are those of its options, those of a memory
  -- among them, in order, and each is what its own name leads to, so that what the model is told of is
  -- what it reaches.
  pub new_agent-Given :
      (prompt : Text) (discard : S) (os : List (Setting W T M S)) (a : Agent W T M S)
      → new_agent name_of prompt discard os ≡ success a
      → Given name_of (tools_of os) a.tools
  unfolding new_agent
  new_agent-Given prompt discard os a h = apply_all-Given os [] _ a (refl, tt) h
