-- ===== src/Hosting/Release.antt =====
-- hosting/release.go: publishing a release through the bucket, and a host that installs it. The host's
-- directory is a record; errors of its file system are left out. `runs body` says whether the binary
-- runs here, when it is called with "help".
pub mod Installed
use agentgarage.Prelude.{
  ℕ, suc, leb, Bool, true, false, not, ◌&&◌, ◌||◌, Option, none, some, List, [], ◌∷◌, ◌++◌, Text,
  text_eq, codes, length, if◌then◌else◌,
}
use agentgarage.Bucket.Types.{Object, Err, Result, err, ok, Store, find}
use agentgarage.Bucket.Client.{Crypto, Client, Sent, get, put, create, swap}
use agentgarage.Bridge.Lines.{trim_space}

abbrev pub current_key : Text
current_key = codes "releases/current"

unfoldable pub binary_key : Text → Text
binary_key sha = codes "releases/" ++ (sha ++ codes "/garage")

abbrev is_hex : ℕ → Bool
is_hex c = (leb 48 c && leb c 57) || (leb 97 c && leb c 102)

abbrev pub all_hex : Text → Bool
all_hex [] = true
all_hex (c ∷ s) = is_hex c && all_hex s

-- ^[0-9a-f]{7,40}$
unfoldable pub is_release : Text → Bool
is_release sha = leb 7 (length sha) && leb (length sha) 40 && all_hex sha

pub data ReleaseError : Type 0 where
  not_a_sha does_not_run : Text → ReleaseError
  no_release : Text → Err → ReleaseError
  moved : Text → Err → ReleaseError
  failed : Err → ReleaseError

-- Another release was faster.
abbrev pointed : Text → Result Text → Option ReleaseError
pointed sha (ok etag) = none
pointed sha (err Err.already_exists) = some (moved sha Err.already_exists)
pointed sha (err Err.conflict) = some (moved sha Err.conflict)
pointed sha (err e) = some (failed e)

module _ {W : Type 0} (c : Crypto) (store : Store W) (cl : Client) (name : Text) where
  -- What follows `Get`.
  unfoldable point_from : Text → Result Object → Sent W → Option ReleaseError × Sent W
  unfolding create swap
  point_from sha (err Err.not_found) s =
      let (r, s') = create c store cl name current_key sha s in (pointed sha r, s')
  point_from sha (ok cur) s =
      let (r, s') = swap c store cl name current_key sha cur.etag s in (pointed sha r, s')
  point_from sha (err e) s = (pointed sha (err e), s)

  unfoldable point : Text → Sent W → Option ReleaseError × Sent W
  unfolding point_from get
  point sha s = let (r, s') = get c store cl name current_key s in point_from sha r s'

  abbrev after_put : Text → Result Text × Sent W → Option ReleaseError × Sent W
  unfolding point
  after_put sha (err e, s) = (some (failed e), s)
  after_put sha (ok etag, s) = point sha s

  unfoldable pub publish : Text → Text → Sent W → Option ReleaseError × Sent W
  unfolding after_put put is_release binary_key
  publish sha binary s =
      if not (is_release sha)
      then (some (not_a_sha sha), s)
      else after_put sha (put c store cl name (binary_key sha) binary s)

  abbrev after_get : Text → Result Object × Sent W → Option ReleaseError × Sent W
  unfolding point
  after_get sha (err e, s) = (some (no_release sha e), s)
  after_get sha (ok o, s) = point sha s

  unfoldable point_back : Text → Sent W → Option ReleaseError × Sent W
  unfolding after_get get is_release binary_key
  point_back sha s =
      if not (is_release sha)
      then (some (not_a_sha sha), s)
      else after_get sha (get c store cl name (binary_key sha) s)

-- The directory of releases: the file `seen`, the binaries by their names, the release that `current`
-- points at, or the empty text.
pub record Dir : Type 0 where
  pub seen : Option Text
  pub binaries : List (Text × Text)
  pub current : Text

abbrev pub is_seen : Option Text → Text → Bool
unfolding text_eq
is_seen none want = false
is_seen (some seen) want = text_eq want seen

abbrev pub is_first : Option Text → Bool
is_first none = true
is_first (some seen) = false

-- What a look at the bucket ends with: the release that was installed, or the empty text.
pub data Looked : Type 0 where
  broken : ReleaseError → Looked
  done : Text → Looked

module _ {W : Type 0} (c : Crypto) (store : Store W) (cl : Client) (name : Text)
    (runs : Text → Bool) where
  -- What follows the download.
  unfoldable pub downloaded : Text → Dir → Result Object × Sent W → Looked × Dir × Sent W
  downloaded sha d (err e, s) = (broken (failed e), d, s)
  downloaded sha d (ok o, s) =
      if runs o.body
      then (done sha, record d { binaries = (sha, o.body) ∷ d.binaries; current = sha }, s)
      else (broken (does_not_run sha), d, s)

  unfoldable pub install : Text → Dir → Sent W → Looked × Dir × Sent W
  unfolding downloaded is_release binary_key find get
  install sha d s =
      if not (is_release sha) then (broken (not_a_sha sha), d, s) else elim (find sha d.binaries) [
        | some body ↦ (done sha, record d { current = sha }, s)
        | none ↦ downloaded sha d (get c store cl name (binary_key sha) s)
      ]

  -- What follows the look at the pointer.
  unfoldable pub update_to : Text → Dir → Sent W → Looked × Dir × Sent W
  unfolding install text_eq
  update_to want d s =
      if is_seen d.seen want
      then (done [], d, s)
      else if is_first d.seen || text_eq want [] || text_eq want d.current
      then (done [], record d { seen = some want }, s)
      else install want (record d { seen = some want }) s

  unfoldable pub looked : Dir → Result Object × Sent W → Looked × Dir × Sent W
  unfolding update_to trim_space
  looked d (ok cur, s) = update_to (trim_space cur.body) d s
  looked d (err Err.not_found, s) = update_to [] d s
  looked d (err e, s) = (broken (failed e), d, s)

  unfoldable pub update : Dir → Sent W → Looked × Dir × Sent W
  unfolding looked get
  update d s = looked d (get c store cl name current_key s)
