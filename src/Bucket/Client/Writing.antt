-- ===== src/Bucket/Client/Writing.antt =====
-- The client over the store in memory: what it writes can be read, a create succeeds once, a swap
-- only replaces the version it asks for.
use agentgarage.Prelude.{
  suc, ◌≡◌, ◌≢◌, refl, ◌⊎◌, inl, inr, true, false, Option, none, some, List, [], ◌∷◌, Text, arith,
  text_eq_iff, text_eq_refl, length,
}
use agentgarage.Bucket.Types.{Object, Cond, Counts, Err, err, ok, find}
use agentgarage.Bucket.Fake.{
  Fake, fake_store, put as fake_put, get as fake_get, outdated, refused, exists, etag_of,
}
use agentgarage.Bucket.Fake.Writes.{find-assign}
use agentgarage.Bucket.Client.{
  Crypto, Client, Sent, sig_meta, signed, trusts, verifies, verify, verified, get_after, get,
  sealed, refusal, put_if, put_after, put, create, swap,
}

-- ed25519 and base64, as documented: a signature has 64 bytes, its key's public half verifies it, and
-- an encoding decodes.
pub record Laws (c : Crypto) : Type 0 where
  pub decode-encode : (t : Text) → c.decode (c.encode t) ≡ some t
  pub length-sign : (k t : Text) → length (c.sign k t) ≡ 64
  pub verify-sign : (k t : Text) → c.verify (c.public k) t (c.sign k t) ≡ true

abbrev pub Trusts : List Text → Text → Type 0
Trusts [] k = ⊥
Trusts (x ∷ xs) k = (x ≡ k) ⊎ Trusts xs k

trusts-sign :
    (c : Crypto)
    → Laws c
    → (ks : List Text) (k msg : Text) → Trusts ks (c.public k)
    → trusts c ks msg (c.sign k msg) ≡ true
unfolding trusts
trusts-sign c l [] k msg t = absurd t
trusts-sign c l (x ∷ xs) k msg (inl e) = ground (arith, l.verify-sign k msg, e)
trusts-sign c l (x ∷ xs) k msg (inr t) = ground (arith, trusts-sign c l xs k msg t)

outdated-same : (o : Object) (etag : Text) → o.etag ≡ etag → outdated (some o) etag ≡ false
unfolding outdated
outdated-same o [] h = refl
outdated-same o (x ∷ xs) h = ground (arith, h, text_eq_iff o.etag (x ∷ xs))

outdated-other :
    (found : Option Object) (etag : Text)
    → etag ≢ []
    → ((o : Object) → found ≡ some o → o.etag ≢ etag)
    → outdated found etag ≡ true
unfolding outdated
outdated-other found [] ne h = absurd (ne refl)
outdated-other none (x ∷ xs) ne h = refl
outdated-other (some o) (x ∷ xs) ne h = ground (arith, h o refl, text_eq_iff o.etag (x ∷ xs))

module _ (c : Crypto) (writer : Client) (w_name : Text) where
  -- A write that is not refused.
  put_if-accepted :
      (key body : Text) (cond : Cond) (s : Sent Fake)
      → refused (find key s.world.objects) cond ≡ false
      → let r = put_if c fake_store writer w_name key body cond s in
        (r.0 ≡ ok (etag_of (suc s.world.version)))
        × (find key r.1.world.objects
            ≡ some (record (sealed c fake_store writer w_name key body) {
              etag = etag_of (suc s.world.version);
            }))
  unfolding put_if put_after fake_put
  put_if-accepted key body cond s h = ground (
    arith,
    h,
    find-assign key
        (record (sealed c fake_store writer w_name key body) {
          etag = etag_of (suc s.world.version);
        })
        s.world.objects,
  )

  put_if-refused :
      (key body : Text) (cond : Cond) (s : Sent Fake)
      → refused (find key s.world.objects) cond ≡ true
      → let r = put_if c fake_store writer w_name key body cond s in
        (r.0 ≡ err Err.precondition) × (r.1.world.objects ≡ s.world.objects)
  unfolding put_if put_after fake_put
  put_if-refused key body cond s h = ground (arith, h)

  pub create-free :
      (key body : Text) (s : Sent Fake)
      → find key s.world.objects ≡ none
      → let r = create c fake_store writer w_name key body s in
        (r.0 ≡ ok (etag_of (suc s.world.version)))
        × (find key r.1.world.objects
            ≡ some (record (sealed c fake_store writer w_name key body) {
              etag = etag_of (suc s.world.version);
            }))
  unfolding create refused outdated refusal
  create-free key body s free =
      let cond : Cond = record { if_none_match = true; if_match = [] } in
      let (done, found) = put_if-accepted key body cond s (ground (arith, free)) in
      (ground (arith, done), found)

  pub create-taken :
      (key body : Text) (s : Sent Fake)
      → exists (find key s.world.objects) ≡ true
      → let r = create c fake_store writer w_name key body s in
        (r.0 ≡ err Err.already_exists) × (r.1.world.objects ≡ s.world.objects)
  unfolding create refused outdated refusal
  create-taken key body s taken =
      let cond : Cond = record { if_none_match = true; if_match = [] } in
      let (failed, same) = put_if-refused key body cond s (ground (arith, taken)) in
      (ground (arith, failed), same)

module _ (c : Crypto) (l : Laws c) (writer reader : Client) (w_name r_name : Text) where
  verify-sealed :
      (key body etag : Text)
      → Trusts reader.trusted (c.public writer.key)
      → verify c reader key (record (sealed c fake_store writer w_name key body) { etag = etag })
        ≡ true
  unfolding verify find verifies
  verify-sealed key body etag t = rw (text_eq_refl sig_meta) (
      rw (l.decode-encode (c.sign writer.key (signed key body))) (
        ground (
          arith,
          l.length-sign writer.key (signed key body),
          trusts-sign c l reader.trusted writer.key (signed key body) t,
        )))

  pub get-found :
      (key body etag : Text) (n : Sent Fake)
      → Trusts reader.trusted (c.public writer.key)
      → find key n.world.objects
        ≡ some (record (sealed c fake_store writer w_name key body) { etag = etag })
      → (get c fake_store reader r_name key n).0
        ≡ ok (record (sealed c fake_store writer w_name key body) { etag = etag })
  unfolding get get_after verified fake_get
  get-found key body etag n t h = rw h (ground (arith, verify-sealed key body etag t))

  -- With a signature scheme of the documented behaviour and the store in memory, whatever is
  -- stored, a client that trusts the writer reads back what was last put under a key, with the
  -- version that the write returned.
  put_get :
      (key body : Text) (s : Sent Fake) (reads : Counts)
      → Trusts reader.trusted (c.public writer.key)
      → let r = put c fake_store writer w_name key body s in
        let n : Sent Fake = record { counts = reads; world = r.1.world } in
        (o : Object) × ((get c fake_store reader r_name key n).0 ≡ ok o)
        × (o.body ≡ body)
        × (r.0 ≡ ok o.etag)
  unfolding put refused outdated
  put_get key body s reads t =
      let cond : Cond = record { if_none_match = false; if_match = [] } in
      let (done, found) = put_if-accepted c writer w_name key body cond s (ground arith) in
      (
        record (sealed c fake_store writer w_name key body) {
          etag = etag_of (suc s.world.version);
        },
        get-found key body (etag_of (suc s.world.version)) _ t found,
        refl,
        done,
      )

  -- With a signature scheme of the documented behaviour and the store in memory, a swap that asks
  -- for the version under the key replaces it, and a client that trusts the writer reads the new
  -- object; one that asks for another version, or for a key with no object, is a conflict and
  -- changes no object. (The version asked for is not empty.)
  swap_current :
      (key body etag : Text) (s : Sent Fake) (reads : Counts)
      → etag ≢ []
      → Trusts reader.trusted (c.public writer.key)
      → let r = swap c fake_store writer w_name key body etag s in
        let n : Sent Fake = record { counts = reads; world = r.1.world } in
        ((o : Object)
          → find key s.world.objects ≡ some o
          → o.etag ≡ etag
          → (x : Object) × (r.0 ≡ ok x.etag)
            × (x.body ≡ body)
            × ((get c fake_store reader r_name key n).0 ≡ ok x))
        × (((o : Object) → find key s.world.objects ≡ some o → o.etag ≢ etag)
            → (r.0 ≡ err Err.conflict) × (r.1.world.objects ≡ s.world.objects))
  unfolding swap refused refusal
  swap_current key body etag s reads ne t =
      let cond : Cond = record { if_none_match = false; if_match = etag } in
      (
        λ o h same.
            let (done, found) =
              put_if-accepted c writer w_name key body cond s (rw h (outdated-same o etag same)) in
            (
              record (sealed c fake_store writer w_name key body) {
                etag = etag_of (suc s.world.version);
              },
              ground (arith, done),
              refl,
              get-found key body (etag_of (suc s.world.version)) _ t found,
            ),
        λ other.
            let (failed, same) =
              put_if-refused c writer w_name key body cond s
                (outdated-other (find key s.world.objects) etag ne other) in
            (ground (arith, failed), same),
      )
