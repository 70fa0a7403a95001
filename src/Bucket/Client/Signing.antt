-- ===== src/Bucket/Client/Signing.antt =====
-- What a client lets through.
use agentgarage.Prelude.{
  ◌≡◌, ◌≢◌, refl, sym, ap, drop, ◌++◌, ◌⊎◌, inl, inr, true, Option, none, some, List, [], ◌∷◌, Text,
  arith, length, Bool-cases,
}
use mathlib.Core.Path.{subst}
use agentgarage.Bucket.Types.{Object, Result, err, ok, Store, find}
use agentgarage.Bucket.Client.{
  Crypto, Client, Sent, sig_meta, signed, trusts, meta_or_empty, verifies, verify, verified,
  get_after, get,
}

-- Some trusted key verifies it.
abbrev pub VerifiedBy : Crypto → List Text → Text → Text → Type 0
VerifiedBy c [] msg sig = ⊥
VerifiedBy c (k ∷ ks) msg sig = (c.verify k msg sig ≡ true) ⊎ VerifiedBy c ks msg sig

trusts-VerifiedBy :
    (c : Crypto) (ks : List Text) (msg sig : Text)
    → trusts c ks msg sig ≡ true
    → VerifiedBy c ks msg sig
unfolding trusts
trusts-VerifiedBy c [] msg sig h = ground (arith, h)
trusts-VerifiedBy c (k ∷ ks) msg sig h = ground (arith, h, trusts-VerifiedBy c ks msg sig)

verifies-VerifiedBy :
    (c : Crypto) (ks : List Text) (msg : Text) (o : Option Text)
    → verifies c ks msg o ≡ true
    → (sig : Text) × (o ≡ some sig) × (length sig ≡ 64) × VerifiedBy c ks msg sig
unfolding verifies
verifies-VerifiedBy c ks msg none h = ground (arith, h)
verifies-VerifiedBy c ks msg (some sig) h =
    (sig, refl, ground (arith, h), trusts-VerifiedBy c ks msg sig (ground (arith, h)))

module _ {W : Type 0} (c : Crypto) (store : Store W) (cl : Client) (name : Text) where
  abbrev pub IsGenuine : Text → Object → Type 0
  IsGenuine key o =
      (sig : Text) × (c.decode (meta_or_empty (find sig_meta o.meta)) ≡ some sig)
      × (length sig ≡ 64)
      × VerifiedBy c cl.trusted (signed key o.body) sig

  verify-IsGenuine : (key : Text) (o : Object) → verify c cl key o ≡ true → IsGenuine key o
  unfolding verify
  verify-IsGenuine key o h = verifies-VerifiedBy c cl.trusted (signed key o.body) _ h

  verified-IsGenuine :
      (key : Text) (r : Result Object) (o : Object)
      → verified c store cl name key r ≡ ok o
      → (r ≡ ok o) × IsGenuine key o
  unfolding verified
  verified-IsGenuine key (err e) o h = ground (arith, h)
  verified-IsGenuine key (ok x) o h = elim (Bool-cases (verify c cl key x)) [
    | inl good ↦
        let same : ok x ≡ ok o = ground (arith, h, good) in
        (
          same,
          subst (IsGenuine key) {x = x} {y = o} (ground (arith, same))
              (verify-IsGenuine key x good),
        )
    | inr bad ↦ absurd (ground (arith, h, bad))
  ]

  get_after-IsGenuine :
      (e : Option Text) (key : Text) (s : Sent W) (o : Object)
      → (get_after c store cl name e key s).0 ≡ ok o
      → ((store.get key s.world).0 ≡ ok o) × IsGenuine key o
  unfolding get_after
  get_after-IsGenuine (some e) key s o h = absurd (ground (arith, h))
  get_after-IsGenuine none key s o h = verified-IsGenuine key (store.get key s.world).0 o h

  pub get-IsGenuine :
      (key : Text) (s : Sent W) (o : Object)
      → (get c store cl name key s).0 ≡ ok o
      → let w = (store.wait name s.world).1 in ((store.get key w).0 ≡ ok o) × IsGenuine key o
  unfolding get
  get-IsGenuine key s o h =
      let (e, w) = store.wait name s.world in get_after-IsGenuine e key (record s { world = w }) o h

abbrev pub NulFree : Text → Type 0
NulFree [] = Unit
NulFree (x ∷ xs) = (x ≢ 0) × NulFree xs

-- The NUL behind the key marks where the key ends.
cut-inj :
    (k k' b b' : Text) → NulFree k → NulFree k' → k ++ 0 ∷ b ≡ k' ++ 0 ∷ b' → (k ≡ k') × (b ≡ b')
cut-inj [] [] b b' f f' h = (refl, ap (drop 1) h)
cut-inj [] (x ∷ k') b b' f f' h = absurd (f'.0 (ground (arith, h)))
cut-inj (x ∷ k) [] b b' f f' h = absurd (f.0 (ground (arith, h)))
cut-inj (x ∷ k) (y ∷ k') b b' f f' h =
    let (e, e') = cut-inj k k' b b' f.1 f'.1 (ap (drop 1) h) in (ground (arith, h, e), e')

signed-inj :
    (k k' b b' : Text) → NulFree k → NulFree k' → signed k b ≡ signed k' b' → (k ≡ k') × (b ≡ b')
unfolding signed
signed-inj k k' b b' f f' h = cut-inj k k' b b' f f' (ap (drop 10) h)

module _ {W : Type 0} (c : Crypto) (store : Store W) (cl : Client) (name : Text)
    (Wrote : Text → Text → Type 0)
    (unforged : (msg sig : Text)
      → VerifiedBy c cl.trusted msg sig
      → (key : Text) × (body : Text) × NulFree key × Wrote key body × (msg ≡ signed key body)) where
  -- Where a trusted key verifies nothing but what its owner signed, each the body of an object together
  -- with its key, which has no NUL: an object that a client returns for a key without a NUL is the
  -- store's, unchanged, and its body is one that was signed for this very key.
  pub get-Wrote :
      (key : Text) (s : Sent W) (o : Object)
      → NulFree key
      → (get c store cl name key s).0 ≡ ok o
      → ((store.get key (store.wait name s.world).1).0 ≡ ok o) × Wrote key o.body
  get-Wrote key s o f h =
      let (same, genuine) = get-IsGenuine c store cl name key s o h in
      let (sig, decoded, long, by) = genuine in
      let (key', body, f', wrote, e) = unforged (signed key o.body) sig by in
      let (e1, e2) = signed-inj key key' o.body body f f' e in
      (same, subst (λ k. Wrote k o.body) (sym e1) (subst (Wrote key') (sym e2) wrote))
