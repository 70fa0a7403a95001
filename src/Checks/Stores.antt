-- ===== src/Checks/Stores.antt =====
-- A session that is saved, a database that is migrated, and a workspace with a host that agrees to all.
use agentgarage.Prelude.{
  ℕ, suc, ◌≡◌, ◌≢◌, ◌⊎◌, refl, true, Option, none, some, List, [], ◌∷◌, Text, codes, text_eq, leb,
  ◌==◌, arith, All, if◌then◌else◌, Attempt, failure, success,
}
use agentgarage.Agent.Message.{Role, Part, Message}
use agentgarage.Agent.Session.{Session, Status, no_usage}
use agentgarage.Store.Sessions.{Trouble, Codec, Tables, rows_of}
use agentgarage.Store.Sessions.Rows.{Holds}
use agentgarage.Store.Sessions.Saved.{Refused, Kept, save_load}
use agentgarage.Store.Migrations
use agentgarage.Store.Migrations.{Schema, migrations, migrate}
use agentgarage.Store.Migrations.Once.{Applied, migrate-Applied}
use agentgarage.Workspace.{Workspace, PullRequest, exited, there, Host, redact}
use agentgarage.Workspace.Tasks.{start, resume, checkout}
use agentgarage.Workspace.Named.{Inside, tasks-Inside}
use agentgarage.Workspace.Redacted.{Absent, NoBracket, Unlabelled, length_pos, redact-Absent}
use agentgarage.Store.Keys.Range.{has_prefix}
use agentgarage.Tools.Shell.{byte_len, rune_len}

-- The codec writes what a person says, and nothing else.
unfoldable encode_parts : Role → List Part → Attempt Text
encode_parts Role.user (Part.text t ∷ []) = success t
encode_parts Role.user (Part.text t ∷ p ∷ ps) = failure (codes "unsupported")
encode_parts Role.user (Part.reasoning t ∷ ps) = failure (codes "unsupported")
encode_parts Role.user (Part.tool_call c ∷ ps) = failure (codes "unsupported")
encode_parts Role.user (Part.tool_result id o ∷ ps) = failure (codes "unsupported")
encode_parts Role.user [] = failure (codes "unsupported")
encode_parts Role.system ps = failure (codes "unsupported")
encode_parts Role.assistant ps = failure (codes "unsupported")
encode_parts Role.tool ps = failure (codes "unsupported")

abbrev words : Codec
words = record {
  encode = λ m. encode_parts m.role m.content;
  decode = λ t. success (record { role = Role.user; content = Part.text t ∷ [] });
  quoted = λ t. t;
  duplicate = codes "UNIQUE constraint failed";
}

encode_parts_sound :
    (r : Role) (ps : List Part) (t : Text)
    → encode_parts r ps ≡ success t
    → words.decode t ≡ success (record { role = r; content = ps })
unfolding encode_parts
encode_parts_sound Role.user (Part.text s ∷ []) t e = cc
encode_parts_sound Role.user (Part.text s ∷ p ∷ ps) t e = ground (arith, e)
encode_parts_sound Role.user (Part.reasoning s ∷ ps) t e = ground (arith, e)
encode_parts_sound Role.user (Part.tool_call c ∷ ps) t e = ground (arith, e)
encode_parts_sound Role.user (Part.tool_result id o ∷ ps) t e = ground (arith, e)
encode_parts_sound Role.user [] t e = ground (arith, e)
encode_parts_sound Role.system ps t e = ground (arith, e)
encode_parts_sound Role.assistant ps t e = ground (arith, e)
encode_parts_sound Role.tool ps t e = ground (arith, e)

words_sound : (m : Message) (t : Text) → words.encode m ≡ success t → words.decode t ≡ success m
words_sound m t e = encode_parts_sound m.role m.content t e

abbrev calm : Trouble
calm c = none

abbrev said : Text → Message
said t = record { role = Role.user; content = Part.text t ∷ [] }

abbrev session : Session
session = record {
  id = codes "s";
  model = codes "m";
  messages = said (codes "hi") ∷ said (codes "there") ∷ [];
  usage = no_usage;
  status = Status.active;
  name = codes "a";
  box = none;
}

-- The first message is stored already.
abbrev tables : Tables
tables = record {
  sessions = [];
  messages =
      record {
        session_id = codes "s";
        seq = 0;
        role = Role.user;
        content = codes "hi";
        created_at = 1;
      }
      ∷ [];
}

first_held : Holds words 0 (said (codes "hi") ∷ []) (rows_of session.id tables.messages)
unfolding rows_of text_eq
first_held = (refl, refl, tt)

elsewhere : session.id ≢ codes "t"
elsewhere = λ e. ground (arith, e)

save_load_example :
    Refused words calm calm words_sound session
      (said (codes "hi") ∷ [])
      (said (codes "there") ∷ [])
      7
      tables
      refl
      first_held
      (codes "t")
      elsewhere
    ⊎ Kept words calm calm words_sound session
        (said (codes "hi") ∷ [])
        (said (codes "there") ∷ [])
        7
        tables
        refl
        first_held
        (codes "t")
        elsewhere
save_load_example =
    save_load words calm calm words_sound session (said (codes "hi") ∷ [])
      (said (codes "there") ∷ []) 7 tables refl first_held (codes "t") elsewhere refl refl

-- The database of an older version, and a last migration that cannot be committed.
abbrev older : Schema
older = record { tracked = true; versions = 1 ∷ []; created = [] }

unfoldable locked : Migrations.Call → Option Text
locked (Migrations.Call.commit v) = if v == 3 then some (codes "locked") else none
locked c = none

migrate-Applied_example : Applied locked none migrations older (migrate locked none older)
migrate-Applied_example = migrate-Applied locked none older

token-long : leb 4 (byte_len (codes "tok-1")) ≡ true
unfolding byte_len rune_len
token-long = refl

token-NoBracket : NoBracket (codes "tok-1") (length_pos (codes "tok-1") token-long)
token-NoBracket = ground arith

token-Unlabelled :
    All
      (Unlabelled (codes "tok-1") (length_pos (codes "tok-1") token-long))
      ((codes "GH", codes "tok-1") ∷ (codes "B", codes "word") ∷ [])
unfolding has_prefix
token-Unlabelled = ground arith

redact-Absent_example : Absent (codes "tok-1") (
    redact
      ((codes "A", codes "secret") ∷ (codes "GH", codes "tok-1") ∷ (codes "B", codes "word") ∷ [])
      (codes "push tok-1 failed"))
redact-Absent_example =
    redact-Absent ((codes "A", codes "secret") ∷ []) ((codes "B", codes "word") ∷ []) (codes "GH")
      (codes "tok-1") (codes "push tok-1 failed") token-long token-NoBracket token-Unlabelled

-- Every program ends well, and every file is there.
abbrev host : Host ℕ
host = record {
  run = λ dir env name args w. (record { stdout = []; stderr = []; ended = exited 0 }, suc w);
  stat = λ path w. there;
  mkdir_all = λ path w. (none, w);
  lookup_env = λ k. none;
  read_pull_request = λ t. failure t;
  quoted = λ t. t;
}

abbrev workspace : Workspace
workspace = record {
  config = record {
    name = codes "w";
    remote = codes "r";
    root = codes "/srv";
    identity = record { name = codes "grug"; email = codes "g@x" };
    env = [];
    gh = codes "gh";
    mise = codes "mise";
  };
  repo = codes "/srv/w/repo";
  base = codes "main";
  env = [];
}

abbrev proposed : PullRequest
proposed = record {
  url = codes "u";
  state = codes "OPEN";
  head = codes "garage/fix";
  head_sha = codes "abcdef1";
  base = codes "main";
}

tasks-Inside_example :
    Inside workspace (start host workspace (codes "fix") 0).0
    × Inside workspace (resume host workspace (codes "fix") 0).0
    × Inside workspace (checkout host workspace (codes "fix") proposed 0).0
tasks-Inside_example = tasks-Inside host workspace (codes "fix") proposed 0
