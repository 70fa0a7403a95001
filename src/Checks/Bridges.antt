-- ===== src/Checks/Bridges.antt =====
-- A bridge whose sandboxes always open, whose store is empty, and whose model answers in words.
use agentgarage.Prelude.{
  ℕ, suc, ◌+◌, ◌≤◌, ◌≡◌, ◌≢◌, refl, true, false, Option, none, some, List, [], ◌∷◌, ◌++◌, Text,
  codes, All, arith, Attempt, failure, success, text_eq,
}
use mathlib.Core.Path.{ap, subst}
use agentgarage.Agent.Message.{Role, Part}
use agentgarage.Agent.Session.{Session, Box, no_usage, new_session}
use agentgarage.Agent.Sessions.{Shelf}
use agentgarage.Agent.Run.{Env, Event}
use agentgarage.Agent.Run.Begin.{Leaves, run, run-Unmoved}
use agentgarage.Bridge.Lines.{Json}
use agentgarage.Bridge.Desk.{Desk, Setup}
use agentgarage.Bridge.Desk.Handles.{Ledger, Holding, let_go}
use agentgarage.Bridge.Turns.{Screen}
use agentgarage.Bridge.Turns.Keeping.{Quiet}
use agentgarage.Bridge.Xmpp.Stanzas.{Addresses, MessageBody, is_allowed}
use agentgarage.Bridge.Xmpp.Schedule.{Schedule}
use agentgarage.Bridge.Xmpp.Serve.{
  run_bridge, Wiring, Options, Happening, Ending, message, due, help, handle_message, serve,
}
use agentgarage.Bridge.Xmpp.Serve.Holding.{serve-Holds, run_bridge-none_held}
use agentgarage.Bridge.Xmpp.Serve.Strangers.{handle_message-Told}
use agentgarage.Bridge.Telegram.Serve as Telegram
use agentgarage.Bridge.Telegram.Serve.{poll}

pub record Office : Type 0 where
  pub held : List Box
  pub sent : List (ℕ × Text)
  pub time : ℕ

abbrev handles : List Box → ℕ
handles [] = 0
handles (b ∷ bs) = b.handle + handles bs

fresh_handle : (k : ℕ) (bs : List Box) → handles bs ≤ k → All (λ c. suc k ≢ c.handle) bs
fresh_handle k [] h = tt
fresh_handle k (b ∷ bs) h = (λ e. omega (arith, e, h), fresh_handle k bs (omega (arith, h)))

abbrev opened : Text → Office → Box
opened name w = record { name = name; handle = suc (handles w.held) }

abbrev office : Shelf Office
office = record {
  open_box = λ name w. (success (opened name w), record w { held = opened name w ∷ w.held });
  release = λ b w. (none, record w { held = let_go b.handle w.held });
  load = λ id w. (success none, w);
  list_sessions = λ n w. (success [], w);
  quoted = λ t. t;
}

abbrev new_id : Office → Text × Office
new_id w = (codes "sess", w)

abbrev send : ℕ → Text → Office → Office
send to text w = record w { sent = w.sent ++ (to, text) ∷ [] }

success-inj : {A : Type 0} {x y : A} → success x ≡ success y → x ≡ y
success-inj {A} {x} h = ap (λ r. elim r [ success z ↦ z | failure e ↦ x ]) h

abbrev IsOpened : Text → Office → Box → Type 0
IsOpened name w b =
    (opened name w ∷ w.held ≡ b ∷ w.held) × All (λ c. b.handle ≢ c.handle) w.held × (b.name ≡ name)

office-Ledger : Ledger office new_id send (λ w. w.held)
office-Ledger = record {
  opened = λ name w b h.
      subst (IsOpened name w) (success-inj h)
        (refl, fresh_handle (handles w.held) w.held (omega arith), refl);
  unopened = λ name w e h. absurd (ground (arith, h));
  released = λ b w. refl;
  loading = λ id w. refl;
  listing = λ n w. refl;
  naming = λ w. refl;
  sending = λ to text w. refl;
}

abbrev writer : Env Office
writer = record {
  cancelled = λ w. (none, w);
  call = λ r w. (
    record { role = Role.assistant; content = Part.text (codes "done") ∷ [] },
    no_usage,
    none,
    w,
  );
  save = λ r w. (none, w);
  execute = λ x c w. (record { content = []; is_error = false }, none, w);
}

writer-Leaves : Leaves writer (λ w. w.held)
writer-Leaves = record {
  cancelled = λ w. refl;
  call = λ r w. refl;
  save = λ r w. refl;
  execute = λ b c w. refl;
}

abbrev silent : Office → Attempt Text × Office
silent w = (success [], w)

abbrev work : Session → Office → Attempt (List Event) × Session × Office
work s w = run writer [] silent 3 s w

-- An update takes two seconds.
abbrev wall : Screen Office ℕ Text
wall = record {
  update = λ to id t w. (codes "msg", record w { time = w.time + 2 });
  clock = λ w. (w.time, w);
  gap = 1;
  id = [];
}

abbrev no_json : Json
no_json = record { object = λ t. none }

work-Quiet : Quiet work wall no_json true (λ w. w.held)
work-Quiet = record {
  updates = λ to id t w. refl;
  reads = λ w. refl;
  runs = λ s w. (run-Unmoved writer [] silent writer-Leaves (λ w. refl) 3 s w).0;
  same_box = λ s w. (run-Unmoved writer [] silent writer-Leaves (λ w. refl) 3 s w).1;
  same_name = λ s w. (run-Unmoved writer [] silent writer-Leaves (λ w. refl) 3 s w).2;
}

abbrev plain : Addresses ℕ
plain = record { bare = λ j. j; localpart = λ j. codes "u"; shown = λ j. j ∷ [] }

abbrev setup : Setup
setup = record { sandbox_name = codes "box"; model_id = codes "m"; stored = true; more_help = [] }

abbrev bridge : Wiring Office ℕ
bridge = record {
  addresses = plain;
  shelf = office;
  new_id = new_id;
  send = send;
  run = work;
  screen = wall;
  json = no_json;
}

abbrev digest : Schedule
digest = record {
  prompt = codes "digest";
  times = codes "07:30" ∷ codes "19:30" ∷ [];
  is_continuing = false;
}

abbrev options : Options ℕ
options = record {
  setup = setup;
  allowed = (7 ∷ []) ∷ [];
  allowed_jids = 7 ∷ [];
  show_thinking = true;
  schedule = digest;
}

abbrev desk : Desk Office
unfolding new_session
desk = record {
  current =
      new_session (codes "sess") (codes "m") (some (record { name = codes "box"; handle = 1 }));
  world = record { held = record { name = codes "box"; handle = 1 } ∷ []; sent = []; time = 0 };
}

abbrev from : ℕ → Text → MessageBody ℕ
from j body = record { from = j; kind = codes "chat"; body = body; replace = none; delay = none }

abbrev morning : List (Happening ℕ)
morning =
    message (from 7 (codes "hello"))
    ∷ message (from 8 (codes "hello"))
    ∷ due
    ∷ message (from 7 (codes "/new"))
    ∷ []

serve-Holds_example :
    Holding office new_id send
      (help bridge options)
      office-Ledger
      (serve bridge options morning Ending.stream_closed desk).1
unfolding new_session
serve-Holds_example =
    serve-Holds bridge options office-Ledger work-Quiet morning Ending.stream_closed desk
      (record { name = codes "box"; handle = 1 }, refl, refl, refl)

run_bridge-none_held_example :
    (run_bridge bridge options morning Ending.stream_closed
      (record { held = []; sent = []; time = 0 })).1.held
    ≡ []
run_bridge-none_held_example =
    run_bridge-none_held bridge options office-Ledger work-Quiet morning Ending.stream_closed
      (record { held = []; sent = []; time = 0 }) refl

handle_message-Told_example :
    (before : List (ℕ × Text)) × (text : Text) × ((handle_message bridge options
        (from 7 (codes "/status"))
        desk).world.sent
      ≡ before ++ (7, text) ∷ [])
    × (text ≢ [])
unfolding is_allowed text_eq
handle_message-Told_example =
    handle_message-Told bridge options (λ w. w.sent) (λ to text w. refl) (from 7 (codes "/status"))
      desk refl

abbrev text_from : ℕ → Text → Option Telegram.Message
text_from user text = some (record { chat = 1; is_private = true; from = some user; text = text })

abbrev updates : List (Option Telegram.Message)
updates =
    text_from 7 (codes "hello")
    ∷ none
    ∷ text_from 8 (codes "/new")
    ∷ text_from 7 (codes "/new@bot")
    ∷ []
