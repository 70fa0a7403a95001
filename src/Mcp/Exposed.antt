-- ===== src/Mcp/Exposed.antt =====
-- The names under which a server's tools are exposed.
use agentgarage.Prelude.{
  ℕ, ◌≤◌, ◌≡◌, refl, ltb, true, Option, none, some, List, [], ◌∷◌, ◌++◌, Text, All, All-append,
  codes, length, text_eq, arith, Attempt, failure, success, inl, inr, Bool-cases,
}
use agentgarage.Bridge.Lines.{trim_space}
use agentgarage.Mcp.{WireTool, Peer, Server, server_name, connect}
use agentgarage.Mcp.Names.{
  is_allowed, sanitize_rune, sanitize, exposed_name, max_name_len, Reflected, Discovery, expose,
  expose_all, listed, tools_on, tools,
}

-- A name that a model may use for a tool.
abbrev pub IsName : Text → Type 0
IsName name = All (λ c. is_allowed c ≡ true) name × (length name ≤ 128)

sanitize_rune-allowed : (c : ℕ) → is_allowed (sanitize_rune c) ≡ true
unfolding is_allowed sanitize_rune
sanitize_rune-allowed c = ground arith

sanitize-allowed : (s : Text) → All (λ c. is_allowed c ≡ true) (sanitize s)
unfolding sanitize
sanitize-allowed [] = tt
sanitize-allowed (c ∷ s) = (sanitize_rune-allowed c, sanitize-allowed s)

underscore-allowed : is_allowed b'_' ≡ true
unfolding is_allowed
underscore-allowed = refl

abbrev IsNamed : Attempt Text → Type 0
IsNamed (failure e) = Unit
IsNamed (success name) = IsName name

exposed_name-IsNamed :
    (quoted : Text → Text) (server wire : Text)
    → IsNamed (exposed_name quoted (sanitize server) wire)
unfolding exposed_name
exposed_name-IsNamed quoted server wire = elim (Bool-cases (text_eq (trim_space wire) [])) [
  | inl blank ↦ rw blank tt
  | inr named ↦
      let name = sanitize server ++ (codes "_" ++ sanitize wire) in
      elim (Bool-cases (ltb max_name_len (length name))) [
        | inl long ↦ rw (named, long) tt
        | inr short ↦
            rw (named, short)
              (
                All-append (λ c. is_allowed c ≡ true) (sanitize server) (codes "_" ++ sanitize wire)
                    (sanitize-allowed server) (underscore-allowed, sanitize-allowed wire),
                ground (arith, short),
              )
      ]
]

abbrev pub AllNamed : List Reflected → Type 0
AllNamed ts = All (λ t. IsName t.name) ts

module _ {W : Type 0} (peer : Peer W) where
  expose-AllNamed :
      (t : WireTool) (a : Attempt Text) (d : Discovery W)
      → IsNamed a
      → AllNamed d.0
      → AllNamed (expose peer t a d).0
  unfolding expose
  expose-AllNamed t (failure e) (ts, s) n h = h
  expose-AllNamed t (success name) (ts, s) n h = All-append (λ r. IsName r.name) ts _ h (n, tt)

  pub expose_all-AllNamed :
      (server : Text) (ws : List WireTool) (d : Discovery W)
      → AllNamed d.0
      → AllNamed (expose_all peer (sanitize server) ws d).0
  unfolding expose_all
  expose_all-AllNamed server [] d h = h
  expose_all-AllNamed server (t ∷ ws) d h =
      expose_all-AllNamed server ws _
        (expose-AllNamed t _ d (exposed_name-IsNamed peer.quoted server t.name) h)

  -- The tools of an answer.
  abbrev pub Exposes : Attempt (List Reflected) → Type 0
  Exposes (failure e) = Unit
  Exposes (success ts) = AllNamed ts

  listed-Exposes : (o : Option Text) (d : Discovery W) → AllNamed d.0 → Exposes (listed peer o d).0
  unfolding listed
  listed-Exposes (some e) (ts, s) h = tt
  listed-Exposes none (ts, s) h = h

  tools_on-Exposes : (c : Attempt ℕ × Server W) → Exposes (tools_on peer c).0
  unfolding tools_on
  tools_on-Exposes (failure e, s) = tt
  tools_on-Exposes (success id, s) = listed-Exposes (peer.list_tools id s.world).0.1 _ (
      expose_all-AllNamed (server_name s) (peer.list_tools id s.world).0.0
        ([], record s { world = (peer.list_tools id s.world).1 }) tt)

  -- Whatever a server calls itself and its tools: each name under which a tool of it is exposed has at
  -- most 128 characters, all of them letters, digits, dashes or underscores of ASCII.
  pub tools-Exposes : (s : Server W) → Exposes (tools peer s).0
  unfolding tools
  tools-Exposes s = tools_on-Exposes (connect peer s)
