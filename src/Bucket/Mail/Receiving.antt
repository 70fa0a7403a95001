-- ===== src/Bucket/Mail/Receiving.antt =====
-- Receiving over the store in memory: what was posted is handed on, in order and once.
use agentgarage.Prelude.{
  ℕ, zero, suc, ◌+◌, ◌<◌, ◌≡◌, refl, sym, ap, ◌∙◌, false, ◌||◌, Option, none, some, List, [], ◌∷◌,
  ◌++◌, Text, arith, length, text_eq, append_assoc, append-nil,
}
use mathlib.Core.Path.{subst, ap₂}
use agentgarage.Bucket.Types.{Object, Err, err, ok, find}
use agentgarage.Bucket.Fake.{Fake, fake_store, get as fake_get}
use agentgarage.Bucket.Client.{Crypto, Client, Sent, sealed, get, get_after, verified}
use agentgarage.Bucket.Client.Writing.{Laws, Trusts, get-found}
use agentgarage.Bucket.Mail.{Message, Codec, key, Move, receive, move}

-- A callback that keeps what it is given, and never fails.
abbrev pub keep : ℕ → Message → List (ℕ × Message) → Option Err × List (ℕ × Message)
keep n m seen = (none, seen ++ (n, m) ∷ [])

abbrev pub numbered : ℕ → List Message → List (ℕ × Message)
numbered n [] = []
numbered n (m ∷ ms) = (n, m) ∷ numbered (suc n) ms

-- JSON as documented: what was encoded decodes to itself.
abbrev pub RoundTrips : Codec → Type 0
RoundTrips j = (m : Message) → j.unmarshal (j.marshal m) ≡ some m

-- Mail with a room and a text; the source drops other mail as malformed.
abbrev IsMail : Message → Type 0
IsMail m = (text_eq m.room [] || text_eq m.text []) ≡ false

module _ (c : Crypto) (l : Laws c) (writer reader : Client) (w_name r_name : Text) (j : Codec)
    (box : Text) where
  -- The messages stand under the numbers from n on, sent by the writer, and then a number is free.
  abbrev pub Posts : ℕ → List Message → List (Text × Object) → Type 0
  Posts n [] objs = find (key box n) objs ≡ none
  Posts n (m ∷ ms) objs =
      IsMail m
      × ((etag : Text) × (find (key box n) objs
            ≡ some (record (sealed c fake_store writer w_name (key box n) (j.marshal m)) {
              etag = etag;
            })))
      × Posts (suc n) ms objs

  get-objects :
      (k : Text) (s : Sent Fake)
      → (get c fake_store reader r_name k s).1.world.objects ≡ s.world.objects
  unfolding get get_after fake_get
  get-objects k s = refl

  get-missing :
      (k : Text) (s : Sent Fake)
      → find k s.world.objects ≡ none
      → (get c fake_store reader r_name k s).0 ≡ err Err.not_found
  unfolding get get_after fake_get verified
  get-missing k s h = ground (arith, h)

  move-sealed :
      RoundTrips j
      → (k : Text) (m : Message) (etag : Text) → IsMail m
      → move j (ok (record (sealed c fake_store writer w_name k (j.marshal m)) { etag = etag }))
        ≡ Move.take m
  unfolding move
  move-sealed r k m etag h = ground (arith, r m, h)

  receive-stop :
      (fuel n : ℕ) (seen : List (ℕ × Message)) (s : Sent Fake)
      → move j (get c fake_store reader r_name (key box n) s).0 ≡ Move.stop
      → receive c fake_store reader r_name j keep box (suc fuel) n seen s
        ≡ some (record {
          next = n;
          error = none;
          seen = seen;
          sent = (get c fake_store reader r_name (key box n) s).1;
        })
  unfolding receive fake_get
  receive-stop fuel n seen s h = rw h refl

  receive-take :
      (fuel n : ℕ) (m : Message) (seen : List (ℕ × Message)) (s : Sent Fake)
      → move j (get c fake_store reader r_name (key box n) s).0 ≡ Move.take m
      → receive c fake_store reader r_name j keep box (suc fuel) n seen s
        ≡ receive c fake_store reader r_name j keep box fuel
            (suc n)
            (seen ++ (n, m) ∷ [])
            (get c fake_store reader r_name (key box n) s).1
  unfolding receive fake_get
  receive-take fuel n m seen s h = rw h refl

  stop-missing : move j (err Err.not_found) ≡ Move.stop
  unfolding move
  stop-missing = refl

  -- Where ed25519, base64 and JSON behave as documented and the store in memory holds messages
  -- under consecutive numbers, sent by a writer that the reader trusts, each with a room and a
  -- text: with more fuel than messages, each is handed to the callback with its number, in order
  -- and once; reading ends at the first number that is missing, returns it, and leaves the objects
  -- as they are.
  pub receive_all :
      RoundTrips j
      → Trusts reader.trusted (c.public writer.key)
      → (ms : List Message) (fuel n : ℕ) (seen : List (ℕ × Message)) (s : Sent Fake)
      → length ms < fuel
      → Posts n ms s.world.objects
      → (s' : Sent Fake) × (receive c fake_store reader r_name j keep box fuel n seen s
          ≡ some (record {
            next = n + length ms;
            error = none;
            seen = seen ++ numbered n ms;
            sent = s';
          }))
        × (s'.world.objects ≡ s.world.objects)
  receive_all r t ms zero n seen s lt p = absurd (omega (arith, lt))
  receive_all r t [] (suc fuel) n seen s lt p = (
    (get c fake_store reader r_name (key box n) s).1,
    rw (append-nil seen) (
        receive-stop fuel n seen s (ap (move j) (get-missing (key box n) s p) ∙ stop-missing)
        ∙ ap
            (λ i. some (record {
              next = i;
              error = none;
              seen = seen;
              sent = (get c fake_store reader r_name (key box n) s).1;
            }))
            (omega arith)),
    get-objects (key box n) s,
  )
  receive_all r t (m ∷ ms) (suc fuel) n seen s lt (mail, (etag, at), rest) =
      let k = key box n in
      let s1 = (get c fake_store reader r_name k s).1 in
      let same = get-objects k s in
      let got = get-found c l writer reader w_name r_name k (j.marshal m) etag s t at in
      let (s', is, objs) =
        receive_all r t ms fuel (suc n) (seen ++ (n, m) ∷ []) s1 (omega (arith, lt))
          (subst (Posts (suc n) ms) (sym same) rest) in
      (
        s',
        receive-take fuel n m seen s (ap (move j) got ∙ move-sealed r k m etag mail)
            ∙ is
            ∙ ap₂ (λ i x. some (record { next = i; error = none; seen = x; sent = s' }))
                (omega arith) (append_assoc seen ((n, m) ∷ []) (numbered (suc n) ms)),
        objs ∙ same,
      )
