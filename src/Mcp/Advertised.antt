-- ===== src/Mcp/Advertised.antt =====
-- Which of a server's tools are exposed.
use agentgarage.Prelude.{
  ℕ, suc, ◌+◌, ◌≡◌, refl, sym, ap, ◌∙◌, leb, ltb, not, ◌&&◌, Bool, true, false, none, some, List,
  [], ◌∷◌, ◌++◌, map, Text, codes, length, length-append, text_eq, arith, success, if◌then◌else◌,
  inl, inr, Bool-cases, append_assoc, append-nil,
}
use agentgarage.Bridge.Lines.{trim_space}
use agentgarage.Mcp.{WireTool, Peer, Server, server_name, connect}
use agentgarage.Mcp.Names.{
  sanitize, exposed_name, max_name_len, Reflected, Discovery, expose, expose_all, listed, tools_on,
  tools,
}
use agentgarage.Mcp.Exposed.{AllNamed, expose_all-AllNamed}

length-sanitize : (s : Text) → length (sanitize s) ≡ length s
unfolding sanitize
length-sanitize [] = refl
length-sanitize (c ∷ s) = ap suc (length-sanitize s)

-- The tool has a name, and a short one beside its server's.
abbrev pub fits : Text → Text → Bool
fits server wire = not (text_eq (trim_space wire) []) && leb (length server + 1 + length wire) 128

-- The names of the advertised tools that can be exposed, in order.
abbrev pub fitting : Text → List WireTool → List Text
fitting server [] = []
fitting server (t ∷ ts) =
    let rest = fitting server ts in if fits server t.name then t.name ∷ rest else rest

abbrev pub wires : List Reflected → List Text
wires ts = map (λ r. r.wire) ts

wires-snoc : (ts : List Reflected) (r : Reflected) → wires (ts ++ r ∷ []) ≡ wires ts ++ r.wire ∷ []
wires-snoc [] r = refl
wires-snoc (t ∷ ts) r = ap (λ l. t.wire ∷ l) (wires-snoc ts r)

length-exposed :
    (server wire : Text)
    → length (sanitize server ++ (codes "_" ++ sanitize wire)) ≡ length server + 1 + length wire
length-exposed server wire = omega (
  arith,
  length-append (sanitize server) (codes "_" ++ sanitize wire),
  length-sanitize server,
  length-sanitize wire,
)

module _ {W : Type 0} (peer : Peer W) where
  expose-wires :
      (server : Text) (t : WireTool) (d : Discovery W)
      → wires (expose peer t (exposed_name peer.quoted (sanitize server) t.name) d).0
        ≡ wires d.0 ++ (if fits server t.name then t.name ∷ [] else [])
  unfolding expose exposed_name
  expose-wires server t (ts, s) = elim (Bool-cases (text_eq (trim_space t.name) [])) [
    | inl blank ↦ rw blank (sym (append-nil (wires ts)))
    | inr named ↦
        let name = sanitize server ++ (codes "_" ++ sanitize t.name) in
        elim (Bool-cases (ltb max_name_len (length name))) [
          | inl long ↦
              let over : leb (length server + 1 + length t.name) 128 ≡ false =
                ground (arith, long, length-exposed server t.name) in
              rw (named, long, over) (sym (append-nil (wires ts)))
          | inr short ↦
              let within : leb (length server + 1 + length t.name) 128 ≡ true =
                ground (arith, short, length-exposed server t.name) in
              rw (named, short, within) (wires-snoc ts _)
        ]
  ]

  expose_all-wires :
      (server : Text) (ws : List WireTool) (d : Discovery W)
      → wires (expose_all peer (sanitize server) ws d).0 ≡ wires d.0 ++ fitting server ws
  unfolding expose_all
  expose_all-wires server [] d = sym (append-nil (wires d.0))
  expose_all-wires server (t ∷ ws) d =
      expose_all-wires server ws _
      ∙ ap (λ l. l ++ fitting server ws) (expose-wires server t d)
      ∙ append_assoc (wires d.0) (if fits server t.name then t.name ∷ [] else [])
          (fitting server ws)
      ∙ elim (Bool-cases (fits server t.name)) [ inl h ↦ rw h refl | inr h ↦ rw h refl ]

  -- For a connected server whose list of tools comes without an error, whatever the server calls itself
  -- and its tools: the tools exposed are those that have a name which is not blank and which, with the
  -- server's and a character between them, has at most 128 characters, each once for each time it is
  -- advertised, in order; and each is exposed under a name of at most 128 characters, all of them
  -- letters, digits, dashes or underscores of ASCII.
  pub tools-advertised :
      (s : Server W) (id : ℕ)
      → s.session ≡ some id
      → (peer.list_tools id s.world).0.1 ≡ none
      → (ts : List Reflected) × ((tools peer s).0 ≡ success ts)
        × (wires ts ≡ fitting (server_name s) (peer.list_tools id s.world).0.0)
        × AllNamed ts
  unfolding tools tools_on connect listed server_name
  tools-advertised s id open_one whole =
      let page = peer.list_tools id s.world in
      let start : Discovery W = ([], record s { world = page.1 }) in
      (
        (expose_all peer (sanitize (server_name s)) page.0.0 start).0,
        rw (open_one, whole) refl,
        expose_all-wires (server_name s) page.0.0 start,
        expose_all-AllNamed peer (server_name s) page.0.0 start tt,
      )
