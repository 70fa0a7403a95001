-- ===== src/Bucket/Client.antt =====
-- bucket/client.go: the client that signs what it writes and drops what it cannot verify, as one
-- named caller sees it.
pub mod Signing
pub mod Writing
use agentgarage.Prelude.{
  ℕ, suc, Bool, true, false, ◌&&◌, ◌||◌, ◌==◌, Option, none, some, List, [], ◌∷◌, ◌++◌, Text, codes,
  length, if◌then◌else◌,
}
use agentgarage.Bucket.Types.{Object, Cond, Counts, Err, Result, err, ok, Store, find}

-- ed25519 and base64.
pub record Crypto : Type 0 where
  pub public : Text → Text
  pub sign : Text → Text → Text
  pub verify : Text → Text → Text → Bool
  pub encode : Text → Text
  pub decode : Text → Option Text

pub record Client : Type 0 where
  pub key : Text
  pub trusted : List Text

-- What a client has sent, and the world.
pub record Sent (W : Type 0) : Type 0 where
  pub counts : Counts
  pub world : W

abbrev pub sig_meta : Text
sig_meta = codes "garage-sig"

abbrev pub prefix : Text
prefix = codes "garage-v1" ++ 0 ∷ []

unfoldable pub signed : Text → Text → Text
signed key body = prefix ++ key ++ 0 ∷ body

unfoldable pub trusts : Crypto → List Text → Text → Text → Bool
trusts c [] msg sig = false
trusts c (pub_key ∷ ks) msg sig =
    let rest = trusts c ks msg sig in if c.verify pub_key msg sig then true else rest

-- A metadata key that is missing reads as the empty text.
abbrev pub meta_or_empty : Option Text → Text
meta_or_empty none = []
meta_or_empty (some t) = t

unfoldable pub verifies : Crypto → List Text → Text → Option Text → Bool
unfolding trusts
verifies c trusted msg none = false
verifies c trusted msg (some sig) = (length sig == 64) && trusts c trusted msg sig

module _ (c : Crypto) where
  unfoldable new_client : Text → List Text → Client
  new_client key trusted = record { key = key; trusted = c.public key ∷ trusted }

  unfoldable pub verify : Client → Text → Object → Bool
  unfolding verifies signed find
  verify cl key o =
      verifies c cl.trusted (signed key o.body) (c.decode (meta_or_empty (find sig_meta o.meta)))

module _ {W : Type 0} where
  abbrev pub count : Bool → Sent W → Sent W
  count true s = record s { counts = record s.counts { class_a = suc s.counts.class_a } }
  count false s = record s { counts = record s.counts { class_b = suc s.counts.class_b } }

-- A refused condition is the caller's error.
unfoldable pub refusal : Err → Result Text → Result Text
refusal e (err Err.precondition) = err e
refusal e r = r

module _ {W : Type 0} (c : Crypto) (store : Store W) (cl : Client) (name : Text) where
  unfoldable pub verified : Text → Result Object → Result Object
  unfolding verify
  verified key (err e) = err e
  verified key (ok o) = if verify c cl key o then ok o else err Err.bad_signature

  -- What follows the limiter.
  unfoldable pub get_after : Option Text → Text → Sent W → Result Object × Sent W
  unfolding verified
  get_after (some e) key s = (err (Err.other e), s)
  get_after none key s =
      let (r, w) = store.get key s.world in (verified key r, count false (record s { world = w }))

  unfoldable pub get : Text → Sent W → Result Object × Sent W
  unfolding get_after
  get key s = let (e, w) = store.wait name s.world in get_after e key (record s { world = w })

  abbrev pub sealed : Text → Text → Object
  sealed key body = record {
    body = body;
    meta = (sig_meta, c.encode (c.sign cl.key (signed key body))) ∷ [];
    etag = [];
  }

  unfoldable pub put_after : Option Text → Text → Text → Cond → Sent W → Result Text × Sent W
  unfolding signed
  put_after (some e) key body cond s = (err (Err.other e), s)
  put_after none key body cond s =
      let (r, w) = store.put key (sealed key body) cond s.world in
      (r, count true (record s { world = w }))

  unfoldable pub put_if : Text → Text → Cond → Sent W → Result Text × Sent W
  unfolding put_after
  put_if key body cond s =
      let (e, w) = store.wait name s.world in put_after e key body cond (record s { world = w })

  unfoldable pub put : Text → Text → Sent W → Result Text × Sent W
  unfolding put_if
  put key body s = put_if key body (record { if_none_match = false; if_match = [] }) s

  unfoldable pub create : Text → Text → Sent W → Result Text × Sent W
  unfolding put_if refusal
  create key body s =
      let (r, s') = put_if key body (record { if_none_match = true; if_match = [] }) s in
      (refusal Err.already_exists r, s')

  unfoldable pub swap : Text → Text → Text → Sent W → Result Text × Sent W
  unfolding put_if refusal
  swap key body etag s =
      let (r, s') = put_if key body (record { if_none_match = false; if_match = etag }) s in
      (refusal Err.conflict r, s')
