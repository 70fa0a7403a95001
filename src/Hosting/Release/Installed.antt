-- ===== src/Hosting/Release/Installed.antt =====
-- What a host installs.
use agentgarage.Prelude.{
  ◌≡◌, ◌⊎◌, refl, sym, ap, ◌∙◌, inl, inr, Bool, true, not, ◌||◌, Option, none, some, [], Text,
  text_eq, text_eq_refl, All, if_keeps, Bool-cases,
}
use mathlib.Core.Path.{subst}
use agentgarage.Bucket.Types.{Object, Err, Result, err, ok, Store, find}
use agentgarage.Bucket.Client.{Crypto, Client, Sent, get}
use agentgarage.Bucket.Client.Signing.{IsGenuine, get-IsGenuine}
use agentgarage.Bridge.Lines.{trim_space}
use agentgarage.Hosting.Release.{
  Dir, Looked, done, current_key, binary_key, is_release, is_seen, is_first, downloaded, install,
  update_to, looked, update,
}

module _ {W : Type 0} (c : Crypto) (store : Store W) (cl : Client) (name : Text)
    (runs : Text → Bool) (ByHand : Text × Text → Type 0) where
  -- The bucket's object for this release, signed by a key that the host trusts for this release and this
  -- body, and it runs here.
  abbrev Approved : Text × Text → Type 0
  Approved b =
      (o : Object) × (o.body ≡ b.1)
      × IsGenuine c store cl name (binary_key b.0) o
      × (runs b.1 ≡ true)

  -- Each binary was put there by hand or is approved, and `current` leads to a binary.
  pub record Sound (d : Dir) : Type 0 where
    pub approved : All (λ b. ByHand b ⊎ Approved b) d.binaries
    pub leads : (d.current ≡ []) ⊎ ((body : Text) × (find d.current d.binaries ≡ some body))

  abbrev Kept : Looked × Dir × Sent W → Type 0
  Kept r = Sound r.1

  downloaded-Sound :
      (sha : Text) (d : Dir) (r : Result Object) (s : Sent W)
      → Sound d
      → ((o : Object) → r ≡ ok o → IsGenuine c store cl name (binary_key sha) o)
      → Kept (downloaded c store cl name runs sha d (r, s))
  unfolding downloaded find
  downloaded-Sound sha d (err e) s h g = h
  downloaded-Sound sha d (ok o) s h g = elim (Bool-cases (runs o.body)) [
    | inl good ↦ rw good (record {
      approved = (inr (o, refl, g o refl, good), h.approved);
      leads = inr (o.body, rw (text_eq_refl sha) refl);
    })
    | inr bad ↦ rw bad h
  ]

  install-Sound :
      (sha : Text) (d : Dir) (s : Sent W) → Sound d → Kept (install c store cl name runs sha d s)
  unfolding install
  install-Sound sha d s h =
      if_keeps Kept (not (is_release sha)) _ _ h (by_binary (find sha d.binaries) refl)
    where
      by_binary :
          (b : Option Text)
          → find sha d.binaries ≡ b
          → Kept (elim b [
            | some body ↦ (done sha, record d { current = sha }, s)
            | none ↦ downloaded c store cl name runs sha d (get c store cl name (binary_key sha) s)
          ])
      by_binary (some body) there = record { approved = h.approved; leads = inr (body, there) }
      by_binary none missing =
          let r = get c store cl name (binary_key sha) s in
          downloaded-Sound sha d r.0 r.1 h
            (λ o e. (get-IsGenuine c store cl name (binary_key sha) s o e).1)

  update_to-Sound :
      (want : Text) (d : Dir) (s : Sent W)
      → Sound d
      → Kept (update_to c store cl name runs want d s)
  unfolding update_to
  update_to-Sound want d s h =
      let d' : Dir = record d { seen = some want } in
      let h' : Sound d' = record { approved = h.approved; leads = h.leads } in
      if_keeps Kept (is_seen d.seen want) _ _ h (
        if_keeps Kept (is_first d.seen || text_eq want [] || text_eq want d.current) _ _ h'
          (install-Sound want d' s h'))

  looked-Sound :
      (d : Dir) (r : Result Object) (s : Sent W)
      → Sound d
      → Kept (looked c store cl name runs d (r, s))
  unfolding looked
  looked-Sound d (ok cur) s h = update_to-Sound (trim_space cur.body) d s h
  looked-Sound d (err Err.not_found) s h = update_to-Sound [] d s h
  looked-Sound d (err _) s h = h

  -- However often a host looks, every binary in its directory was put there by hand or is the body of an
  -- object that a trusted key signed for that release and that body, and runs here; and what it runs
  -- next is one of these.
  pub update-Sound : (d : Dir) (s : Sent W) → Sound d → Sound (update c store cl name runs d s).1
  unfolding update
  update-Sound d s h = let r = get c store cl name current_key s in looked-Sound d r.0 r.1 h

module _ {W : Type 0} (c : Crypto) (store : Store W) (cl : Client) (name : Text)
    (runs : Text → Bool) where
  install-seen :
      (sha : Text) (d : Dir) (s : Sent W) → (install c store cl name runs sha d s).1.seen ≡ d.seen
  unfolding install downloaded
  install-seen sha d s =
      if_keeps (λ (r : Looked × Dir × Sent W). r.1.seen ≡ d.seen) (not (is_release sha)) _ _ refl
        (by_binary (find sha d.binaries))
    where
      by_get :
          (r : Result Object) (s : Sent W)
          → (downloaded c store cl name runs sha d (r, s)).1.seen ≡ d.seen
      by_get (err e) s = refl
      by_get (ok o) s =
          if_keeps (λ (r : Looked × Dir × Sent W). r.1.seen ≡ d.seen) (runs o.body) _ _ refl refl

      by_binary :
          (b : Option Text)
          → let r : Looked × Dir × Sent W = elim b [
            | some body ↦ (done sha, record d { current = sha }, s)
            | none ↦ downloaded c store cl name runs sha d (get c store cl name (binary_key sha) s)
          ] in
            r.1.seen ≡ d.seen
      by_binary (some body) = refl
      by_binary none = let r = get c store cl name (binary_key sha) s in by_get r.0 r.1

  is_seen_self : (want : Text) (seen : Option Text) → seen ≡ some want → is_seen seen want ≡ true
  unfolding is_seen
  is_seen_self want seen h = rw h (text_eq_refl want)

  update_to-seen :
      (want : Text) (d : Dir) (s : Sent W)
      → is_seen (update_to c store cl name runs want d s).1.seen want ≡ true
  unfolding update_to
  update_to-seen want d s = elim (Bool-cases (is_seen d.seen want)) [
    | inl seen ↦ rw seen seen
    | inr new ↦ rw new (
        is_seen_self want _ (
          if_keeps (λ (r : Looked × Dir × Sent W). r.1.seen ≡ some want)
            (is_first d.seen || text_eq want [] || text_eq want d.current) _ _ refl
            (install-seen want (record d { seen = some want }) s)))
  ]

  update_to-nothing :
      (want : Text) (d : Dir) (s : Sent W)
      → is_seen d.seen want ≡ true
      → update_to c store cl name runs want d s ≡ (done [], d, s)
  unfolding update_to
  update_to-nothing want d s h = rw h refl

  -- The pointer, if it could be read.
  abbrev Readable : Result Object → Type 0
  Readable r = (r ≡ err Err.not_found) ⊎ ((o : Object) × (r ≡ ok o))

  abbrev want_of : Result Object → Text
  unfolding trim_space
  want_of (ok cur) = trim_space cur.body
  want_of (err e) = []

  looked-want :
      (d : Dir) (r : Result Object) (s : Sent W)
      → Readable r
      → looked c store cl name runs d (r, s) ≡ update_to c store cl name runs (want_of r) d s
  unfolding looked want_of
  looked-want d r s (inl e) =
      subst
        (λ r. looked c store cl name runs d (r, s) ≡ update_to c store cl name runs (want_of r) d s)
        (sym e) refl
  looked-want d r s (inr (o, e)) =
      subst
        (λ r. looked c store cl name runs d (r, s) ≡ update_to c store cl name runs (want_of r) d s)
        (sym e) refl

  -- A release is tried once: when a host that could read the pointer looks again and reads the same, it
  -- does nothing, whether it installed the release or failed to.
  update-again :
      (d : Dir) (s s' : Sent W)
      → Readable (get c store cl name current_key s).0
      → (get c store cl name current_key s').0 ≡ (get c store cl name current_key s).0
      → let first = update c store cl name runs d s in
        let second = update c store cl name runs first.1 s' in
        (second.0 ≡ done []) × (second.1 ≡ first.1)
  unfolding update
  update-again d s s' readable same =
      let r = get c store cl name current_key s in
      let r' = get c store cl name current_key s' in
      let want = want_of r.0 in
      let first = looked-want d r.0 r.1 readable in
      let seen : is_seen (looked c store cl name runs d r).1.seen want ≡ true =
        ap (λ x. is_seen x.1.seen want) first ∙ update_to-seen want d r.1 in
      let second =
        ap (λ x. looked c store cl name runs (looked c store cl name runs d r).1 (x, r'.1)) same
        ∙ looked-want (looked c store cl name runs d r).1 r.0 r'.1 readable
        ∙ update_to-nothing want (looked c store cl name runs d r).1 r'.1 seen in
      (ap (λ x. x.0) second, ap (λ x. x.1) second)
