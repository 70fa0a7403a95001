-- ===== src/Mcp/Names.antt =====
-- metaharness/mcp/tools.go: the tools of a server under names that a model may use.
use agentgarage.Prelude.{
  ℕ, ◌==◌, leb, ltb, Bool, ◌&&◌, ◌||◌, Option, none, some, List, [], ◌∷◌, ◌++◌, map, Text, codes,
  text_eq, itoa, length, Attempt, failure, success, if◌then◌else◌,
}
use agentgarage.Bridge.Lines.{trim_space}
use agentgarage.Mcp.{discovered, skipped, WireTool, Peer, Server, server_name, report, connect}

abbrev pub max_name_len : ℕ
max_name_len = 128

is_between : ℕ → ℕ → ℕ → Bool
is_between lo hi c = leb lo c && leb c hi

unfoldable pub is_allowed : ℕ → Bool
unfolding is_between
is_allowed c =
    is_between b'a' b'z' c
    || (is_between b'A' b'Z' c || (is_between b'0' b'9' c || ((c == b'_') || (c == b'-'))))

unfoldable pub sanitize_rune : ℕ → ℕ
unfolding is_allowed
sanitize_rune c = if is_allowed c then c else b'_'

unfoldable pub sanitize : Text → Text
unfolding sanitize_rune
sanitize s = map sanitize_rune s

module _ (quoted : Text → Text) where
  abbrev too_long : Text → Text
  too_long name =
      codes "name "
      ++ (quoted name
          ++ (codes " is "
              ++ (itoa (length name)
                  ++ (codes " characters, over the "
                      ++ (itoa max_name_len ++ codes " a tool name may have")))))

  unfoldable pub exposed_name : Text → Text → Attempt Text
  unfolding sanitize trim_space
  exposed_name prefix wire =
      let name = prefix ++ (codes "_" ++ sanitize wire) in
      if text_eq (trim_space wire) []
      then failure (codes "tool has no name")
      else if ltb max_name_len (length name)
      then failure (too_long name)
      else success name

-- An advertised tool, wrapped.
pub record Reflected : Type 0 where
  pub wire : Text
  pub name : Text
  pub description : Text
  pub schema : Text

-- A schema as JSON; a server that publishes none still has one.
unfoldable schema_or_object : Option Text → Text
schema_or_object none = codes "{\"type\":\"object\"}"
schema_or_object (some t) = t

abbrev pub Discovery : Type 0 → Type 0
Discovery W = List Reflected × Server W

module _ {W : Type 0} (peer : Peer W) where
  -- One advertised tool, under its name or reported.
  unfoldable pub expose : WireTool → Attempt Text → Discovery W → Discovery W
  unfolding report server_name schema_or_object
  expose t (failure e) (ts, s) = (ts, report (skipped (server_name s) t.name (some e)) s)
  expose t (success name) (ts, s) = (
    ts
        ++ record {
          wire = t.name;
          name = name;
          description = t.description;
          schema = schema_or_object t.schema;
        }
          ∷ [],
    s,
  )

  unfoldable pub expose_all : Text → List WireTool → Discovery W → Discovery W
  unfolding expose exposed_name
  expose_all prefix [] d = d
  expose_all prefix (t ∷ ts) d =
      expose_all prefix ts (expose t (exposed_name peer.quoted prefix t.name) d)

  -- An error of the listing ends it, whatever was exposed before.
  unfoldable pub listed : Option Text → Discovery W → Attempt (List Reflected) × Server W
  unfolding report server_name
  listed (some e) (ts, s) = (failure e, s)
  listed none (ts, s) = (success ts, report (discovered (server_name s) (length ts)) s)

  unfoldable pub tools_on : Attempt ℕ × Server W → Attempt (List Reflected) × Server W
  unfolding listed expose_all sanitize server_name
  tools_on (failure e, s) = (failure e, s)
  tools_on (success id, s) =
      let (page, w) = peer.list_tools id s.world in
      listed page.1 (expose_all (sanitize (server_name s)) page.0 ([], record s { world = w }))

  unfoldable pub tools : Server W → Attempt (List Reflected) × Server W
  unfolding tools_on connect
  tools s = tools_on (connect peer s)
