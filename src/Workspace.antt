-- ===== src/Workspace.antt =====
-- workspace/workspace.go: one clone of a repository, and a worktree for each task. The host's files,
-- programs and environment are operations on an abstract world; the mutex that keeps the garage's own
-- commands apart is the order of the calls, and a program ends by its exit code.
pub mod Tasks
pub mod Pulls
pub mod Redacted
pub mod Named
use agentgarage.Prelude.{
  ℕ, zero, suc, ◌==◌, leb, Bool, true, false, not, ◌&&◌, ◌||◌, Option, none, some, List, [], ◌∷◌,
  ◌++◌, Text, codes, text_eq, itoa, length, drop, Attempt, failure, success, if◌then◌else◌,
}
use agentgarage.Sandbox.Types.{Command, ExecResult}
use agentgarage.Bridge.Lines.{trim_space}
use agentgarage.Store.Keys.Range.{has_prefix}
use agentgarage.Tools.Strings.{replace_all, split, join}
use agentgarage.Tools.Shell.{byte_len}

pub record Identity : Type 0 where
  pub name : Text
  pub email : Text

pub record Config : Type 0 where
  pub name : Text
  pub remote : Text
  pub root : Text
  pub identity : Identity
  pub env : List (Text × Text)
  pub gh : Text
  pub mise : Text

pub record Workspace : Type 0 where
  pub config : Config
  pub repo : Text
  pub base : Text
  pub env : List Text

pub record Task : Type 0 where
  pub id : Text
  pub branch : Text
  pub dir : Text

pub record PullRequest : Type 0 where
  pub url : Text
  pub state : Text
  pub head : Text
  pub head_sha : Text
  pub base : Text

pub data Ended : Type 0 where
  exited : ℕ → Ended
  broken : Text → Ended

pub record Outcome : Type 0 where
  pub stdout : Text
  pub stderr : Text
  pub ended : Ended

pub data Stat : Type 0 where
  there missing : Stat
  other : Text → Stat

-- `run` is given the directory, the environment, the program and its arguments.
pub record Host (W : Type 0) : Type 0 where
  pub run : Text → List Text → Text → List Text → W → Outcome × W
  pub stat : Text → W → Stat
  pub mkdir_all : Text → W → Option Text × W
  pub lookup_env : Text → Option Text
  pub read_pull_request : Text → Attempt PullRequest
  pub quoted : Text → Text

is_between : ℕ → ℕ → ℕ → Bool
is_between lo hi c = leb lo c && leb c hi

unfoldable pub is_alnum : ℕ → Bool
unfolding is_between
is_alnum c = is_between b'A' b'Z' c || (is_between b'a' b'z' c || is_between b'0' b'9' c)

unfoldable pub is_plain_rest : Text → Bool
unfolding is_alnum
is_plain_rest [] = true
is_plain_rest (c ∷ s) =
    (is_alnum c || ((c == b'_') || ((c == b'.') || (c == b'-')))) && is_plain_rest s

-- `^[A-Za-z0-9][A-Za-z0-9_.-]*$`.
unfoldable pub plain_name : Text → Bool
unfolding is_plain_rest
plain_name [] = false
plain_name (c ∷ s) = is_alnum c && is_plain_rest s

unfoldable pub all_hex : Text → Bool
unfolding is_between
all_hex [] = true
all_hex (c ∷ s) = (is_between b'0' b'9' c || is_between b'a' b'f' c) && all_hex s

-- `^[0-9a-f]{7,40}$`.
unfoldable pub commit_sha : Text → Bool
unfolding all_hex
commit_sha s = all_hex s && (leb 7 (length s) && leb (length s) 40)

-- `filepath.Join`, for parts that need no cleaning.
unfoldable pub path_of : List Text → Text
unfolding join
path_of parts = join (codes "/") parts

unfoldable pub label : Text → Text
label name = codes "[" ++ ((codes "redacted " ++ name) ++ codes "]")

unfoldable pub redact : List (Text × Text) → Text → Text
unfolding label replace_all byte_len
redact [] s = s
redact ((name, value) ∷ env) s =
    redact env (if leb 4 (byte_len value) then replace_all value (label name) s else s)

abbrev assign : Text → Text → Text
assign name value = name ++ (codes "=" ++ value)

unfoldable inherited : (Text → Option Text) → List Text → List Text
inherited lookup [] = []
inherited lookup (k ∷ ks) =
    let rest = inherited lookup ks in elim (lookup k) [ none ↦ rest | some v ↦ assign k v ∷ rest ]

unfoldable has_key : Text → List (Text × Text) → Bool
has_key name [] = false
has_key name ((n, v) ∷ env) = text_eq n name || has_key name env

unfoldable assignments : List (Text × Text) → List Text
assignments [] = []
assignments ((n, v) ∷ env) = assign n v ∷ assignments env

unfoldable pub environ : (Text → Option Text) → Config → List Text
unfolding inherited has_key assignments path_of
environ lookup cfg =
    let root = path_of (cfg.root ∷ cfg.name ∷ []) in
    let cache = path_of (root ∷ codes "cache" ∷ []) in
    inherited lookup
      (codes "PATH" ∷ codes "HOME" ∷ codes "USER" ∷ codes "TMPDIR" ∷ codes "LANG" ∷ [])
    ++ ((assign (codes "MISE_DATA_DIR") (path_of (root ∷ codes "tools" ∷ []))
          ∷ assign (codes "MISE_CACHE_DIR") (path_of (cache ∷ codes "mise" ∷ []))
          ∷ assign (codes "MISE_TRUSTED_CONFIG_PATHS") root
          ∷ assign (codes "MISE_CONFIG_DIR") (path_of (root ∷ codes "mise-config" ∷ []))
          ∷ assign (codes "MISE_GLOBAL_CONFIG_FILE")
              (path_of (root ∷ codes "mise-config" ∷ codes "config.toml" ∷ []))
          ∷ assign (codes "MISE_CEILING_PATHS") (path_of (root ∷ codes "tasks" ∷ []))
          ∷ assign (codes "GOMODCACHE") (path_of (cache ∷ codes "gomod" ∷ []))
          ∷ assign (codes "GOCACHE") (path_of (cache ∷ codes "gobuild" ∷ []))
          ∷ assign (codes "npm_config_cache") (path_of (cache ∷ codes "npm" ∷ []))
          ∷ codes "GIT_TERMINAL_PROMPT=0"
          ∷ assign (codes "GIT_AUTHOR_NAME") cfg.identity.name
          ∷ assign (codes "GIT_AUTHOR_EMAIL") cfg.identity.email
          ∷ assign (codes "GIT_COMMITTER_NAME") cfg.identity.name
          ∷ assign (codes "GIT_COMMITTER_EMAIL") cfg.identity.email
          ∷ [])
        ++ ((if has_key (codes "GH_TOKEN") cfg.env
              then codes "GIT_CONFIG_COUNT=1"
                ∷ codes "GIT_CONFIG_KEY_0=credential.helper"
                ∷ codes
                    "GIT_CONFIG_VALUE_0=!f() { echo username=x-access-token; echo \"password=$GH_TOKEN\"; }; f"
                ∷ []
              else [])
            ++ assignments cfg.env))

unfoldable pub head_of : List Text → Text
head_of [] = []
head_of (a ∷ as') = a

unfoldable pub last_of : List Text → Text
last_of [] = []
last_of (a ∷ []) = a
last_of (a ∷ b ∷ as') = last_of (b ∷ as')

unfoldable pub trim_prefix : Text → Text → Text
unfolding has_prefix
trim_prefix prefix s = if has_prefix prefix s then drop (length prefix) s else s

abbrev pub not_plain : Text → Text → Text
not_plain what q = codes "workspace: " ++ (q ++ (codes " is not a plain " ++ what))

-- A step in the world that may fail, and what follows it.
abbrev pub Step : Type 0 → Type 0 → Type 0
Step W A = W → Attempt A × W

abbrev pub and_then : {W A B : Type 0} → Attempt A → (A → Step W B) → Step W B
and_then (failure e) f w = (failure e, w)
and_then (success a) f w = f a w

infixl 5 ◌>>=◌ ◌>>◌
abbrev pub ◌>>=◌ : {W A B : Type 0} → Step W A → (A → Step W B) → Step W B
◌>>=◌ m f w = and_then (m w).0 f (m w).1

abbrev pub ◌>>◌ : {W A B : Type 0} → Step W A → Step W B → Step W B
m >> k = m >>= λ _. k

abbrev pub guard : {W : Type 0} → Bool → Text → Step W (Unit {0})
guard true e w = (success tt, w)
guard false e w = (failure e, w)

abbrev pub done : {W A : Type 0} → A → Step W A
done a w = (success a, w)
