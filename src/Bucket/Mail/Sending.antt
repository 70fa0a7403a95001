-- ===== src/Bucket/Mail/Sending.antt =====
-- Sending over the store in memory: a message takes the first number that is free.
use agentgarage.Prelude.{
  ℕ, zero, suc, ◌+◌, ◌≤◌, ◌<◌, ◌≡◌, ◌≢◌, refl, sym, ap, ◌∙◌, inl, inr, true, Option, none, some,
  List, [], ◌∷◌, Text, arith, if◌then◌else◌, length, text_eq, text_eq_iff, ◌==◌, ==_iff, itoa-inj,
  Bool-cases, Option-cases,
}
use mathlib.Core.List.{append_cancel_left}
use agentgarage.Bucket.Types.{Object, find}
use agentgarage.Bucket.Fake.{Fake, fake_store, exists, etag_of}
use agentgarage.Bucket.Client.{Crypto, Client, Sent, create, sealed}
use agentgarage.Bucket.Client.Writing.{create-free, create-taken}
use mathlib.Core.Path.{subst}
use agentgarage.Bucket.Mail.{send, Message, Codec, stamped, key, Posted, send_from}

key-inj : (box : Text) (m n : ℕ) → key box m ≡ key box n → m ≡ n
unfolding key
key-inj box m n h = itoa-inj m n (append_cancel_left box _ _ h)

abbrev Objects : Type 0
Objects = List (Text × Object)

-- The pairs with another key.
abbrev drop_key : Text → Objects → Objects
drop_key k [] = []
drop_key k ((n, a) ∷ m) = let rest = drop_key k m in if text_eq n k then rest else (n, a) ∷ rest

length-drop_key : (k : Text) (m : Objects) → length (drop_key k m) ≤ length m
length-drop_key k [] = omega arith
length-drop_key k ((n, a) ∷ m) = ground (arith, length-drop_key k m)

drop_key-shorter :
    (k : Text) (m : Objects) (o : Object) → find k m ≡ some o → length (drop_key k m) < length m
unfolding find
drop_key-shorter k [] o h = ground (arith, h)
drop_key-shorter k ((n, a) ∷ m) o h = ground (arith, h, length-drop_key k m, drop_key-shorter k m o)

find-drop_key : (k l : Text) (m : Objects) → k ≢ l → find l (drop_key k m) ≡ find l m
unfolding find
find-drop_key k l [] ne = refl
find-drop_key k l ((n, a) ∷ m) ne =
    ground (arith, ne, find-drop_key k l m ne, text_eq_iff n k, text_eq_iff n l)

-- Some number from the next on, at most as far as there are objects, is free.
free_number :
    (box : Text) (n : ℕ) (objs : Objects) (next : ℕ)
    → length objs ≤ n
    → (k : ℕ) × (k ≤ n) × (find (key box (k + next)) objs ≡ none)
unfolding find
free_number box zero [] next h = (0, omega arith, refl)
free_number box zero (o ∷ objs) next h = ground (arith, h)
free_number box (suc n) objs next h = elim (Option-cases (find (key box next) objs)) [
  | inl free ↦ (0, omega arith, ap (λ i. find (key box i) objs) (omega arith) ∙ free)
  | inr (o, taken) ↦
      let rest = drop_key (key box next) objs in
      let shorter = drop_key-shorter (key box next) objs o taken in
      let (k, le, free) = free_number box n rest (suc next) (omega (arith, shorter, h)) in
      let other =
        find-drop_key (key box next) (key box (k + suc next)) objs
          (λ e. let same = key-inj box next (k + suc next) e in omega (arith, same)) in
      (suc k, omega (arith, le), ap (λ i. find (key box i) objs) (omega arith) ∙ sym other ∙ free)
]

module _ (c : Crypto) (writer : Client) (w_name : Text) (box : Text) where
  -- The first free number from the next on, and the object that stands there afterwards.
  abbrev pub Placed : Text → ℕ → Sent Fake → Option (Posted Fake) → Type 0
  Placed body next s r =
      (seq : ℕ) × (sent : Sent Fake) × (etag : Text) × (r
        ≡ some (record { seq = seq; error = none; sent = sent }))
      × (next ≤ seq)
      × ((i : ℕ) → next ≤ i → i < seq → exists (find (key box i) s.world.objects) ≡ true)
      × (find (key box seq) s.world.objects ≡ none)
      × (find (key box seq) sent.world.objects
          ≡ some (record (sealed c fake_store writer w_name (key box seq) body) { etag = etag }))

  here-Placed :
      (fuel next : ℕ) (body : Text) (s : Sent Fake)
      → find (key box next) s.world.objects ≡ none
      → Placed body next s (send_from c fake_store writer w_name box (suc fuel) next body s)
  unfolding send_from
  here-Placed fuel next body s free =
      let (done, found) = create-free c writer w_name (key box next) body s free in
      (
        next,
        (create c fake_store writer w_name (key box next) body s).1,
        etag_of (suc s.world.version),
        ground (arith, done),
        omega arith,
        (λ i ge less. ground (arith, ge, less)),
        free,
        found,
      )

  there-Placed :
      (fuel next : ℕ) (body : Text) (s : Sent Fake)
      → exists (find (key box next) s.world.objects) ≡ true
      → let s' = (create c fake_store writer w_name (key box next) body s).1 in
        (s'.world.objects ≡ s.world.objects
          → Placed body
              (suc next)
              s'
              (send_from c fake_store writer w_name box fuel (suc next) body s'))
        → Placed body next s (send_from c fake_store writer w_name box (suc fuel) next body s)
  unfolding send_from
  there-Placed fuel next body s taken rest =
      let (failed, same) = create-taken c writer w_name (key box next) body s taken in
      let (seq, sent, etag, posted, ge, below, unused, found) = rest same in
      (
        seq,
        sent,
        etag,
        ground (arith, failed, posted),
        omega (arith, ge),
        (λ i from less. elim (Bool-cases (next == i)) [
          | inl e ↦
              let n = (==_iff next i).0 e in
              subst (λ j. exists (find (key box j) s.world.objects) ≡ true) n taken
          | inr ne ↦
              ap (λ o. exists (find (key box i) o)) (sym same)
              ∙ below i (ground (arith, from, ne, ==_iff next i)) less
        ]),
        ap (λ o. find (key box seq) o) (sym same) ∙ unused,
        found,
      )

  send_from-Placed :
      (fuel k next : ℕ) (body : Text) (s : Sent Fake)
      → k < fuel
      → find (key box (k + next)) s.world.objects ≡ none
      → Placed body next s (send_from c fake_store writer w_name box fuel next body s)
  send_from-Placed zero k next body s lt free = absurd (omega (arith, lt))
  send_from-Placed (suc fuel) zero next body s lt free =
      here-Placed fuel next body s (ap (λ i. find (key box i) s.world.objects) (omega arith) ∙ free)
  send_from-Placed (suc fuel) (suc k) next body s lt free =
      elim (Option-cases (find (key box next) s.world.objects)) [
        | inl none_there ↦ here-Placed fuel next body s none_there
        | inr (o, there) ↦ there-Placed fuel next body s (rw there refl) λ same.
            send_from-Placed fuel k (suc next) body
              (create c fake_store writer w_name (key box next) body s).1 (omega (arith, lt))
              (ap (λ o. find (key box (k + suc next)) o) same
                ∙ ap (λ i. find (key box i) s.world.objects) (omega arith)
                ∙ free)
      ]

  -- Over the store in memory, sending ends, after at most as many tries as there are objects and
  -- one more: it takes the first free number from the next on, and leaves the message there, as the
  -- sender's own object.
  pub send_first_free :
      (j : Codec) (now next : ℕ) (m : Message) (s : Sent Fake)
      → Placed
          (j.marshal (stamped now m))
          next
          s
          (send c fake_store writer w_name box j now (suc (length s.world.objects)) next m s)
  unfolding send
  send_first_free j now next m s =
      let (k, le, free) =
        free_number box (length s.world.objects) s.world.objects next (omega arith) in
      send_from-Placed (suc (length s.world.objects)) k next (j.marshal (stamped now m)) s
        (omega (arith, le)) free
