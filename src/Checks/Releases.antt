-- ===== src/Checks/Releases.antt =====
-- A host with a binary that was put there by hand, and a release that a laptop published.
use agentgarage.Prelude.{
  text_leb, List, success, ◌≡◌, refl, inl, inr, Bool, true, some, [], ◌∷◌, Text, codes, text_eq,
}
use agentgarage.Bucket.Types.{assign, find}
use agentgarage.Bucket.Fake.{refused, Fake, fake_store, get as fake_get, put as fake_put, etag_of}
use agentgarage.Bucket.Client.{Sent, get, put, verify, verifies, trusts, signed}
use agentgarage.Checks.Buckets.{toy, laptop, host, start}
use agentgarage.Hosting.Release.{Dir, publish, update}
use agentgarage.Hosting.Release.Installed.{Sound, update-Sound}
use agentgarage.Hosting.Backup.{backup, restore}

abbrev published : Sent Fake
published = (publish toy fake_store laptop (codes "a") (codes "abcdef1") (codes "new") start).1

abbrev by_hand : Text × Text
by_hand = (codes "abcdef0", codes "old")

abbrev releases : Dir
releases = record { seen = some []; binaries = by_hand ∷ []; current = codes "abcdef0" }

abbrev runs : Text → Bool
runs body = true

releases-Sound : Sound toy fake_store host (codes "b") runs (λ b. b ≡ by_hand) releases
unfolding find text_eq
releases-Sound = record { approved = (inl refl, tt); leads = inr (codes "old", refl) }

update-Sound_example :
    Sound toy fake_store host
      (codes "b")
      runs
      (λ b. b ≡ by_hand)
      (update toy fake_store host (codes "b") runs releases published).1
update-Sound_example =
    update-Sound toy fake_store host (codes "b") runs (λ b. b ≡ by_hand) releases published
      releases-Sound

abbrev databases : List (Text × Text)
databases = (codes "chat", codes "/chat.db") ∷ (codes "grug", codes "/grug.db") ∷ []

abbrev disk : List (Text × Text)
disk = (codes "/grug.db", codes "memory") ∷ []

abbrev saved : Sent Fake
saved =
    (backup toy fake_store laptop (codes "a") (λ o. success (codes "rooms")) (codes "2026-02-28")
      (codes "chat" ∷ []) start).sent

-- The file that was missing is restored.
restored :
    (restore toy fake_store host (codes "b") databases disk saved).written ≡ codes "/chat.db" ∷ []
unfolding restore backup get find text_eq etag_of fake_get fake_put put verify verifies trusts
    signed refused assign text_leb
restored = refl
