-- ===== src/Chatroom/Relay/Arrived.antt =====
-- The mail that a pass posts.
use agentgarage.Prelude.{
  ℕ, suc, ◌+◌, ◌<◌, ◌≡◌, refl, ap, ◌∙◌, inl, inr, Bool, true, ◌||◌, none, some, List, [], ◌∷◌, ◌++◌,
  Text, codes, text_eq_refl, length, arith, All, Bool-cases,
}
use agentgarage.Bucket.Types.{find}
use agentgarage.Bucket.Fake.{Fake, fake_store}
use agentgarage.Bucket.Fake.Writes.{find-assign}
use agentgarage.Bucket.Client.{Crypto, Client, Sent}
use agentgarage.Bucket.Client.Writing.{Laws, Trusts}
use agentgarage.Bucket.Mail as Mail
use agentgarage.Bucket.Mail.{Codec, to_host}
use agentgarage.Bucket.Mail.Receiving.{RoundTrips, Posts, numbered, receive_all}
use agentgarage.Bucket.Mail.Folding.{through, folded, receive-folded}
use agentgarage.Chatroom.Rooms.{Draft, post_all, contains}
use agentgarage.Chatroom.Relay.{Relay, or_zero, set_cursor, insert_room, take_mail, relay_in}

-- The posts that mail under numbers from n on becomes.
abbrev pub drafts : (ℕ → ℕ) → ℕ → List Mail.Message → List Draft
drafts clock n [] = []
drafts clock n (m ∷ ms) =
    record { now = clock n; room = m.room; author = m.author; text = m.text }
    ∷ drafts clock (suc n) ms

unfoldable pub host_cursor : Relay → ℕ
unfolding find
host_cursor r = or_zero (find (codes "to-host") r.cursors)

module _ (clock : ℕ → ℕ) where
  abbrev taken : ℕ → List Mail.Message → Relay → Relay
  taken n ms r = folded (take_mail clock) (numbered n ms) r

  taken-service :
      (n : ℕ) (ms : List Mail.Message) (r : Relay)
      → (taken n ms r).service ≡ post_all (drafts clock n ms) r.service
  unfolding take_mail set_cursor post_all
  taken-service n [] r = refl
  taken-service n (m ∷ ms) r = taken-service (suc n) ms (take_mail clock n m r)

  take_mail-host_cursor :
      (n : ℕ) (m : Mail.Message) (r : Relay) → host_cursor (take_mail clock n m r) ≡ suc n
  unfolding take_mail set_cursor host_cursor
  take_mail-host_cursor n m r = ap or_zero (find-assign (codes "to-host") (suc n) r.cursors)

  taken-host_cursor :
      (n : ℕ) (ms : List Mail.Message) (r : Relay)
      → host_cursor r ≡ n
      → host_cursor (taken n ms r) ≡ n + length ms
  taken-host_cursor n [] r h = h ∙ omega arith
  taken-host_cursor n (m ∷ ms) r h =
      taken-host_cursor (suc n) ms (take_mail clock n m r) (take_mail-host_cursor n m r)
      ∙ omega arith

  contains-append :
      (ts us : List Text) (k : Text) → contains (ts ++ us) k ≡ (contains ts k || contains us k)
  unfolding contains
  contains-append [] us k = refl
  contains-append (t ∷ ts) us k = rw (contains-append ts us k) (ground arith)

  insert_room_self :
      (room : Text) (rooms : List Text) → contains (insert_room room rooms) room ≡ true
  unfolding insert_room
  insert_room_self room rooms = elim (Bool-cases (contains rooms room)) [
    | inl there ↦ rw there there
    | inr new ↦ rw new (contains-append rooms (room ∷ []) room ∙ last room (contains rooms room))
  ]
    where
      last : (k : Text) (b : Bool) → (b || contains (k ∷ []) k) ≡ true
      last k b = rw (text_eq_refl k) (ground arith)

  insert_room_other :
      (room k : Text) (rooms : List Text)
      → contains rooms k ≡ true
      → contains (insert_room room rooms) k ≡ true
  unfolding insert_room
  insert_room_other room k rooms h = elim (Bool-cases (contains rooms room)) [
    | inl there ↦ rw there h
    | inr new ↦ rw new (contains-append rooms (room ∷ []) k ∙ ground (arith, h))
  ]

  taken-room :
      (n : ℕ) (ms : List Mail.Message) (r : Relay) (k : Text)
      → contains r.mail_rooms k ≡ true
      → contains (taken n ms r).mail_rooms k ≡ true
  unfolding take_mail set_cursor
  taken-room n [] r k h = h
  taken-room n (m ∷ ms) r k h =
      taken-room (suc n) ms (take_mail clock n m r) k (insert_room_other m.room k r.mail_rooms h)

  taken-mail_rooms :
      (n : ℕ) (ms : List Mail.Message) (r : Relay)
      → All (λ m. contains (taken n ms r).mail_rooms m.room ≡ true) ms
  unfolding take_mail set_cursor
  taken-mail_rooms n [] r = tt
  taken-mail_rooms n (m ∷ ms) r = (
    taken-room (suc n) ms (take_mail clock n m r) m.room (insert_room_self m.room r.mail_rooms),
    taken-mail_rooms (suc n) ms (take_mail clock n m r),
  )

module _ (c : Crypto) (l : Laws c) (writer host : Client) (w_name name : Text) (j : Codec)
    (clock : ℕ → ℕ) (fuel : ℕ) where
  -- Where ed25519, base64 and JSON behave as documented and mail with a room and a text stands under
  -- consecutive numbers from the host's cursor on, sent by a writer that the host trusts: with more
  -- fuel than messages, a pass posts each in its room under its author, in order and once, notes the
  -- rooms, and leaves the cursor at the first number that is missing, where the next pass begins.
  pub relay_in-posted :
      RoundTrips j
      → Trusts host.trusted (c.public writer.key)
      → (ms : List Mail.Message) (r : Relay) (s : Sent Fake) → length ms < fuel
      → Posts c l writer host w_name name j to_host (host_cursor r) ms s.world.objects
      → (r' : Relay) × (s' : Sent Fake) × (relay_in c fake_store host name j clock fuel r s
          ≡ some (record { next = host_cursor r + length ms; error = none; seen = r'; sent = s' }))
        × (r'.service ≡ post_all (drafts clock (host_cursor r) ms) r.service)
        × (host_cursor r' ≡ host_cursor r + length ms)
        × All (λ m. contains r'.mail_rooms m.room ≡ true) ms
  unfolding relay_in host_cursor
  relay_in-posted round trust ms r s enough posts =
      let n = host_cursor r in
      let (s', got, same) =
        receive_all c l writer host w_name name j to_host round trust ms fuel n [] s enough posts in
      (
        taken clock n ms r,
        s',
        receive-folded c fake_store host name j (take_mail clock) to_host fuel n r [] s
            ∙ ap (through (take_mail clock) r) got,
        taken-service clock n ms r,
        taken-host_cursor clock n ms r refl,
        taken-mail_rooms clock n ms r,
      )
