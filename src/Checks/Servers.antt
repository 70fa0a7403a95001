-- ===== src/Checks/Servers.antt =====
-- A tool server whose connection breaks at the first call: its world is how many calls it got.
use agentgarage.Prelude.{
  ℕ, suc, ◌+◌, ◌==◌, ◌≤◌, ◌≡◌, ◌⊎◌, refl, false, none, some, List, [], ◌∷◌, codes, arith, success,
  if◌then◌else◌,
}
use agentgarage.Mcp.{Content, answered, broken, WireTool, Peer, Server, server_name}
use agentgarage.Mcp.Names.{Reflected, tools}
use agentgarage.Mcp.Exposed.{AllNamed}
use agentgarage.Mcp.Advertised.{wires, fitting, tools-advertised}
use agentgarage.Mcp.Calls.{call}
use agentgarage.Mcp.Redialed.{Marked, call-Marked}

abbrev page : WireTool
page = record { name = codes "go to"; description = []; schema = none }

abbrev browser : Peer ℕ
browser = record {
  dial = λ w.
      (success (record { id = w; protocol = codes "1"; server_name = codes "light/panda" }), w);
  hang_up = λ id w. w;
  call_tool = λ id tool args w. (
    if w == 0
        then broken (codes "EOF")
        else answered (record {
          content = Content.text (codes "a page") ∷ [];
          structured = none;
          is_error = false;
        }),
    suc w,
  );
  list_tools = λ id w. ((page ∷ page ∷ [], none), w);
  ctx_done = λ w. false;
  quoted = λ t. t;
}

abbrev server : Server ℕ
server = record { label = codes "web"; name = []; session = none; events = []; world = 0 }

abbrev connected : Server ℕ
connected = record server { session = some 0 }

tools-advertised_example :
    (ts : List Reflected) × ((tools browser connected).0 ≡ success ts)
    × (wires ts ≡ fitting (server_name connected) (page ∷ page ∷ []))
    × AllNamed ts
tools-advertised_example = tools-advertised browser connected 0 refl refl

abbrev calls : ℕ → ℕ
calls w = w

one_more : (id w : ℕ) → suc w ≡ w + 1
one_more id w = omega arith

call-Marked_example :
    ((call browser (codes "goto") (codes "{}") server).1.world ≤ 1)
    ⊎ (((call browser (codes "goto") (codes "{}") server).1.world ≡ 2)
        × Marked (call browser (codes "goto") (codes "{}") server).0)
call-Marked_example =
    call-Marked browser (codes "goto") (codes "{}") calls one_more (λ w. refl) (λ id w. refl) server
