-- ===== src/Checks/Buckets.antt =====
-- A bucket in memory with two parties, and a signature scheme and an encoding to run them with.
use agentgarage.Prelude.{
  ℕ, zero, suc, ◌+◌, ◌≡◌, inl, inr, refl, true, false, Option, none, some, List, [], ◌∷◌, ◌++◌,
  Text, All, arith, codes, length, take, drop, text_eq, text_eq_iff, text_eq_refl,
}
use agentgarage.Bucket.Types.{Object, Cond, Counts, Err, ok, err, find}
use agentgarage.Bucket.Fake.{
  Fake, new_fake, fake_store, get as fake_get, put as fake_put, refused, etag_of,
}
use agentgarage.Bucket.Fake.Writes.{Write, writes, stale_etag}
use agentgarage.Bucket.Client.{Crypto, Client, Sent, signed, get, put, create}
use agentgarage.Bucket.Client.Signing.{VerifiedBy, NulFree, get-Wrote}
use agentgarage.Bucket.Client.Writing.{Laws, Trusts}
use agentgarage.Bucket.Mail.{Message, Codec, to_host, key, stamped, send, receive}
use agentgarage.Bucket.Mail.Sending.{Placed, send_first_free}
use agentgarage.Bucket.Mail.Receiving.{keep, numbered, RoundTrips, Posts, receive_all}
use agentgarage.Chatroom.Rooms.{post_all, contains}
use agentgarage.Chatroom.Relay.{Relay, relay_in}
use agentgarage.Chatroom.Relay.Arrived.{drafts, host_cursor, relay_in-posted}

abbrev zeros : ℕ → Text
zeros zero = []
zeros (suc n) = 0 ∷ zeros n

abbrev tag : Text → Text → Text
tag k m = (length k + length m) ∷ zeros 63

abbrev pub toy : Crypto
toy = record {
  public = λ k. k;
  sign = tag;
  verify = λ k m sig. text_eq (tag k m) sig;
  encode = λ t. t;
  decode = λ t. some t;
}

toy-Laws : Laws toy
toy-Laws = record {
  decode-encode = λ t. refl;
  length-sign = λ k t. refl;
  verify-sign = λ k t. text_eq_refl (tag k t);
}

-- A list after its length.
abbrev field : Text → Text × Text
field [] = ([], [])
field (n ∷ rest) = (take n rest, drop n rest)

take-append : (xs ys : Text) → take (length xs) (xs ++ ys) ≡ xs
take-append [] ys = refl
take-append (x ∷ xs) ys = ground (arith, take-append xs ys)

drop-append : (xs ys : Text) → drop (length xs) (xs ++ ys) ≡ ys
drop-append [] ys = refl
drop-append (x ∷ xs) ys = drop-append xs ys

abbrev time_of : Text → ℕ
time_of [] = 0
time_of (t ∷ rest) = t

abbrev marshal : Message → Text
marshal m =
    length m.room
    ∷ (m.room ++ (length m.author ∷ (m.author ++ (length m.text ∷ (m.text ++ (m.time ∷ []))))))

abbrev unmarshal : Text → Option Message
unmarshal t =
    let (room, r1) = field t in
    let (author, r2) = field r1 in
    let (text, r3) = field r2 in
    some (record { room = room; author = author; text = text; time = time_of r3 })

abbrev codec : Codec
codec = record { marshal = marshal; unmarshal = unmarshal }

codec-RoundTrips : RoundTrips codec
codec-RoundTrips m =
    let r3 : Text = m.time ∷ [] in
    let r2 : Text = length m.text ∷ (m.text ++ r3) in
    let r1 : Text = length m.author ∷ (m.author ++ r2) in
    rw (take-append m.room r1, drop-append m.room r1)
      (rw (take-append m.author r2, drop-append m.author r2)
        (rw (take-append m.text r3, drop-append m.text r3) refl))

abbrev pub laptop : Client
laptop = record { key = codes "laptop"; trusted = codes "laptop" ∷ [] }

abbrev pub host : Client
host = record { key = codes "host"; trusted = codes "host" ∷ codes "laptop" ∷ [] }

host-Trusts : Trusts host.trusted (toy.public laptop.key)
host-Trusts = inr (inl refl)

abbrev nothing : Counts
nothing = record { class_a = 0; class_b = 0 }

abbrev pub start : Sent Fake
start = record { counts = nothing; world = new_fake }

abbrev k : Text
k = codes "k"

abbrev written : Sent Fake
written = (put toy fake_store laptop (codes "a") k (codes "body") start).1

-- The scheme where a key verifies nothing but what the laptop has signed.
abbrev strict : Crypto
strict = record toy { verify = λ p m sig. text_eq m (signed k (codes "body")) }

stored : (o : Object) × ((get strict fake_store host (codes "b") k written).0 ≡ ok o)
unfolding get put fake_get fake_put text_eq signed
stored = (_, refl)

abbrev Wrote : Text → Text → Type 0
Wrote key body = (key ≡ k) × (body ≡ codes "body")

strict-unforged :
    (msg sig : Text)
    → VerifiedBy strict host.trusted msg sig
    → (key : Text) × (body : Text) × NulFree key × Wrote key body × (msg ≡ signed key body)
strict-unforged msg sig v =
    let is_it : msg ≡ signed k (codes "body") =
      (text_eq_iff msg (signed k (codes "body"))).0
        (elim v [ inl h ↦ h | inr v' ↦ elim v' [ inl h ↦ h | inr none_of ↦ absurd none_of ] ]) in
    (k, codes "body", (omega arith, tt), (refl, refl), is_it)

get-Wrote_example : ((fake_store.get k written.world).0 ≡ ok stored.0) × Wrote k stored.0.body
get-Wrote_example =
    get-Wrote strict fake_store host (codes "b") Wrote strict-unforged k written stored.0
      (omega arith, tt) stored.1

abbrev always : Cond
always = record { if_none_match = false; if_match = [] }

abbrev blank : Object
blank = record { body = []; meta = []; etag = [] }

abbrev once : List Write
once = (k, blank, always) ∷ []

stands : (o : Object) × (find k (writes once new_fake).objects ≡ some o)
unfolding find fake_put text_eq
stands = (_, refl)

overwrites : refused (some stands.0) always ≡ false
unfolding refused
overwrites = refl

stale_etag_example :
    let f' = writes once (fake_put k blank always (writes once new_fake)).1 in
    let r = fake_put k blank (record { if_none_match = false; if_match = stands.0.etag }) f' in
    (r.0 ≡ err Err.precondition) × (r.1.objects ≡ f'.objects)
stale_etag_example = stale_etag once once k stands.0 blank blank always stands.1 overwrites

abbrev greeting : Message
greeting = record { room = codes "r"; author = codes "a"; text = codes "hi"; time = 3 }

send_first_free_example :
    Placed toy laptop (codes "a") to_host (codec.marshal (stamped 9 greeting)) 1 written (
      send toy fake_store laptop
        (codes "a")
        to_host
        codec
        9
        (suc (length written.world.objects))
        1
        greeting
        written)
send_first_free_example = send_first_free toy laptop (codes "a") to_host codec 9 1 greeting written

abbrev mailed : Sent Fake
mailed = (create toy fake_store laptop (codes "a") (key to_host 1) (codec.marshal greeting) start).1

mailed-Posts :
    Posts toy toy-Laws laptop host
      (codes "a")
      (codes "b")
      codec
      to_host
      1
      (greeting ∷ [])
      mailed.world.objects
unfolding create find key text_eq etag_of fake_put
mailed-Posts = (refl, (etag_of 1, refl), refl)

receive_all_example :
    (s' : Sent Fake) × (receive toy fake_store host (codes "b") codec keep to_host 2 1 [] mailed
      ≡ some (record {
        next = 1 + 1;
        error = none;
        seen = [] ++ numbered 1 (greeting ∷ []);
        sent = s';
      }))
    × (s'.world.objects ≡ mailed.world.objects)
receive_all_example =
    receive_all toy toy-Laws laptop host (codes "a") (codes "b") codec to_host codec-RoundTrips
      host-Trusts (greeting ∷ []) 2 1 [] mailed (omega arith) mailed-Posts

-- A chatroom with no messages, which has read the laptop's mail up to number 1.
abbrev relay : Relay
relay = record {
  service = record { rows = []; members = [] };
  cursors = (codes "to-host", 1) ∷ [];
  mail_rooms = [];
}

relay_in-posted_example :
    (r' : Relay) × (s' : Sent Fake) × (relay_in toy fake_store host
        (codes "b")
        codec
        (λ n. n)
        2
        relay
        mailed
      ≡ some (record { next = 1 + 1; error = none; seen = r'; sent = s' }))
    × (r'.service ≡ post_all (drafts (λ n. n) 1 (greeting ∷ [])) relay.service)
    × (host_cursor r' ≡ 1 + 1)
    × All (λ m. contains r'.mail_rooms m.room ≡ true) (greeting ∷ [])
unfolding find host_cursor text_eq key
relay_in-posted_example =
    relay_in-posted toy toy-Laws laptop host (codes "a") (codes "b") codec (λ n. n) 2
      codec-RoundTrips host-Trusts (greeting ∷ []) relay mailed (omega arith) mailed-Posts
