-- ===== src/Hosting/Backup.antt =====
-- hosting/backup.go: snapshots of databases in the bucket. A disk is an association list from paths to
-- what the files hold; errors of its file system are left out, and `snapshot owner` is what the owner's
-- process writes, if it can.
pub mod Restored
use agentgarage.Prelude.{
  ℕ, leb, ltb, ◌==◌, ◌+◌, ◌*◌, ◌-◌, ◌%◌, Bool, true, false, not, ◌&&◌, ◌||◌, Option, none, some,
  List, [], ◌∷◌, ◌++◌, Text, codes, text_eq, if◌then◌else◌, Attempt, failure, success, sort_by,
}
use agentgarage.Bucket.Types.{Object, Err, Result, err, ok, Store, find, assign}
use agentgarage.Bucket.Client.{Crypto, Client, Sent, get, put}

unfoldable pub snapshot_key : Text → Text → Text
snapshot_key owner day = owner ++ (codes "/db/" ++ (day ++ codes ".db"))

unfoldable pub latest_key : Text → Text
latest_key owner = owner ++ codes "/db/latest"

abbrev pub is_digit : ℕ → Bool
is_digit c = leb 48 c && leb c 57

abbrev is_leap : ℕ → Bool
is_leap y = (y % 4 == 0) && (not (y % 100 == 0) || (y % 400 == 0))

abbrev days_in : ℕ → ℕ → ℕ
days_in y m =
    if m == 2
    then (if is_leap y then 29 else 28)
    else if (m == 4) || (m == 6) || (m == 9) || (m == 11)
    then 30
    else 31

abbrev is_date : ℕ → ℕ → ℕ → Bool
is_date y m d = leb 1 m && leb m 12 && leb 1 d && leb d (days_in y m)

-- `time.Parse(time.DateOnly, day)` succeeds.
unfoldable pub is_day : Text → Bool
is_day (a ∷ b ∷ c ∷ d ∷ h ∷ e ∷ f ∷ i ∷ g ∷ k ∷ []) =
    is_digit a
    && is_digit b
    && is_digit c
    && is_digit d
    && (h == 45)
    && is_digit e
    && is_digit f
    && (i == 45)
    && is_digit g
    && is_digit k
    && is_date (1000 * (a - 48) + 100 * (b - 48) + 10 * (c - 48) + (d - 48))
        (10 * (e - 48) + (f - 48)) (10 * (g - 48) + (k - 48))
is_day _ = false

pub data BackupError : Type 0 where
  no_snapshot : Text → Text → BackupError
  failed : Err → BackupError
  not_a_day : Text → Text → BackupError

-- What a pass returns, with what it has written.
pub record Passed (W : Type 0) : Type 0 where
  pub error : Option BackupError
  pub written : List Text
  pub disk : List (Text × Text)
  pub sent : Sent W

-- Where a snapshot is written before it takes its place.
unfoldable pub restoring : Text → Text
restoring path = path ++ codes ".restoring"

-- A directory without one of its names.
unfoldable pub removed : Text → List (Text × Text) → List (Text × Text)
removed path [] = []
removed path ((p, body) ∷ disk) =
    let rest = removed path disk in if text_eq path p then rest else (p, body) ∷ rest

-- `os.Rename` of a file that holds the body.
unfoldable pub renamed : Text → Text → Text → List (Text × Text) → List (Text × Text)
unfolding assign removed
renamed from to body disk = assign to body (removed from disk)

module _ {W : Type 0} (c : Crypto) (store : Store W) (cl : Client) (name : Text) where
  abbrev uploaded : Result Text → Option BackupError
  uploaded (err e) = some (failed e)
  uploaded (ok etag) = none

  -- What follows the snapshot: two uploads, the second only after the first.
  unfoldable upload : Text → Text → Text → Sent W → Option BackupError × Sent W
  unfolding put snapshot_key latest_key
  upload owner day body s =
      let (r, s1) = put c store cl name (snapshot_key owner day) body s in
      let (q, s2) = put c store cl name (latest_key owner) day s1 in
      elim (uploaded r) [ some e ↦ (some e, s1) | none ↦ (uploaded q, s2) ]

  unfoldable backup_one : (Text → Attempt Text) → Text → Text → Sent W → Option BackupError × Sent W
  unfolding upload
  backup_one snapshot day owner s = elim (snapshot owner) [
    | failure e ↦ (some (no_snapshot owner e), s)
    | success body ↦ upload owner day body s
  ]

  unfoldable backup_from : (Text → Attempt Text) → Text → List Text → Passed W → Passed W
  unfolding backup_one snapshot_key
  backup_from snapshot day [] p = p
  backup_from snapshot day (owner ∷ os) p =
      let (e, s) = backup_one snapshot day owner p.sent in
      elim e [
        | some x ↦ record p { error = some x; sent = s }
        | none ↦
            backup_from snapshot day os
              (record p { written = p.written ++ snapshot_key owner day ∷ []; sent = s })
      ]

  unfoldable pub backup : (Text → Attempt Text) → Text → List Text → Sent W → Passed W
  unfolding backup_from sort_by
  backup snapshot day owners s =
      backup_from snapshot day (sort_by (λ o. o) owners)
        (record { error = none; written = []; disk = []; sent = s })

  -- What follows the download of a snapshot.
  unfoldable pub placed : Text → Result Object × Sent W → Passed W → Passed W
  unfolding assign renamed restoring
  placed path (err e, s) p = record p { error = some (failed e); sent = s }
  placed path (ok o, s) p = record p {
    written = p.written ++ path ∷ [];
    disk = renamed (restoring path) path o.body (assign (restoring path) o.body p.disk);
    sent = s;
  }

  -- What follows the look at the latest day.
  unfoldable pub restore_day : Text → Text → Result Object × Sent W → Passed W → Passed W
  unfolding placed get is_day snapshot_key
  restore_day owner path (err Err.not_found, s) p = record p { sent = s }
  restore_day owner path (err e, s) p = record p { error = some (failed e); sent = s }
  restore_day owner path (ok o, s) p =
      if is_day o.body
      then placed path (get c store cl name (snapshot_key owner o.body) s) p
      else record p { error = some (not_a_day owner o.body); sent = s }

  unfoldable pub restore_one : Text → Text → Passed W → Passed W
  unfolding restore_day get latest_key find
  restore_one owner path p = elim (find path p.disk) [
    | some body ↦ p
    | none ↦ restore_day owner path (get c store cl name (latest_key owner) p.sent) p
  ]

  unfoldable pub restore_from : List (Text × Text) → Passed W → Passed W
  unfolding restore_one
  restore_from [] p = p
  restore_from ((owner, path) ∷ ds) p = elim p.error [
    | some e ↦ p
    | none ↦ restore_from ds (restore_one owner path p)
  ]

  unfoldable pub restore : List (Text × Text) → List (Text × Text) → Sent W → Passed W
  unfolding restore_from sort_by
  restore dbs disk s =
      restore_from (sort_by (λ d. d.0) dbs)
        (record { error = none; written = []; disk = disk; sent = s })
