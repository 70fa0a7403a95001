-- ===== src/Hosting/Backup/Restored.antt =====
-- What a restore leaves alone, and what it writes.
use agentgarage.Prelude.{◌≡◌, ◌≢◌, ◌⊎◌, true, Option, some, List, Text}
use agentgarage.Bucket.Types.{Object, Store, find}
use agentgarage.Bucket.Client.{Crypto, Client}
use agentgarage.Bucket.Client.Signing.{IsGenuine}
use agentgarage.Hosting.Backup.{snapshot_key, is_day, Passed, restoring}

module _ {W : Type 0} (c : Crypto) (store : Store W) (cl : Client) (name : Text)
    (before : List (Text × Text)) where
  -- The body of a signed snapshot of a day.
  abbrev Snapshot : Text → Type 0
  Snapshot body =
      (owner : Text) × (day : Text) × (o : Object) × (is_day day ≡ true)
      × (o.body ≡ body)
      × IsGenuine c store cl name (snapshot_key owner day) o

  -- The files that were there are as they were, but for one with the name of a file that is being
  -- restored, and each new one holds a snapshot.
  pub record Intact (disk : List (Text × Text)) : Type 0 where
    pub kept :
        (path body : Text)
        → ((p : Text) → path ≢ restoring p)
        → find path before ≡ some body
        → find path disk ≡ some body
    pub new :
        (path body : Text)
        → find path disk ≡ some body
        → (find path before ≡ some body) ⊎ Snapshot body

  abbrev Leaves : Passed W → Type 0
  Leaves p = Intact p.disk
