-- ===== src/Bridge/Xmpp/Stanzas.antt =====
-- The stanzas that come in on the stream of metaharness/bridge/xmpp/bridge.go, and what its handler does
-- with each. The XMPP library's addresses and decoding are parameters; times are nanoseconds.
use agentgarage.Prelude.{
  ℕ, ◌-◌, ◌*◌, ltb, Bool, true, false, not, ◌&&◌, ◌||◌, Option, none, some, List, [], ◌∷◌, Text,
  text_eq, codes, if◌then◌else◌, Attempt, failure, success,
}

-- mellium.im/xmpp/jid: an address, without its resource, and as text.
pub record Addresses (J : Type 0) : Type 0 where
  pub bare : J → J
  pub localpart : J → Text
  pub shown : J → Text

pub record Presence (J : Type 0) : Type 0 where
  pub id : Text
  pub from : Option J
  pub to : Option J
  pub kind : Text

pub record MessageBody (J : Type 0) : Type 0 where
  pub from : J
  pub kind : Text
  pub body : Text
  pub replace : Option Text
  pub delay : Option ℕ

-- A start element with what follows it, undecoded.
pub record Element (X : Type 0) : Type 0 where
  pub name : Text
  pub space : Text
  pub rest : X

-- The library's namespace of a client, and its decoders.
pub record Decoder (X J : Type 0) : Type 0 where
  pub ns_client : Text
  pub new_presence : Element X → Attempt (Presence J)
  pub message : Element X → Attempt (MessageBody J)

-- What the handler of the stream does.
pub data Handled (J : Type 0) : Type 0 where
  nothing : Handled J
  answer : Presence J → Handled J
  queued : MessageBody J → Handled J

abbrev max_offline_age : ℕ
max_offline_age = 12 * 3600000000000

unfoldable pub is_allowed : List Text → Text → Bool
unfolding text_eq
is_allowed [] jid = false
is_allowed (a ∷ more) jid = text_eq a jid || is_allowed more jid

module _ {X J : Type 0} (addresses : Addresses J) (decoder : Decoder X J)
    (allowed : List Text) where
  abbrev is_stanza : Text → Element X → Bool
  unfolding text_eq
  is_stanza name e =
      text_eq e.name name && (text_eq e.space [] || text_eq e.space decoder.ns_client)

  unfoldable decode_presence : Element X → Option (Presence J)
  unfolding is_stanza
  decode_presence e =
      if not (is_stanza (codes "presence") e)
      then none
      else elim (decoder.new_presence e) [ failure f ↦ none | success p ↦ some p ]

  abbrev stale : ℕ → Option ℕ → Bool
  stale now none = false
  stale now (some stamp) = ltb max_offline_age (now - stamp)

  abbrev replaces : Option Text → Bool
  replaces none = false
  replaces (some id) = true

  -- What follows the decoding.
  unfoldable pub readable : ℕ → MessageBody J → Option (MessageBody J)
  unfolding text_eq
  readable now m =
      if not (text_eq m.kind (codes "chat")) || text_eq m.body [] || replaces m.replace
      then none
      else if stale now m.delay
      then none
      else some m

  unfoldable decode_message : ℕ → Element X → Attempt (Option (MessageBody J))
  unfolding is_stanza readable
  decode_message now e =
      if not (is_stanza (codes "message") e)
      then success none
      else elim (decoder.message e) [ failure f ↦ failure f | success m ↦ success (readable now m) ]

  abbrev granted : Option J → Bool
  unfolding is_allowed
  granted none = is_allowed allowed []
  granted (some from) = is_allowed allowed (addresses.shown (addresses.bare from))

  -- `id` is the new id that the reply would have. An address is absent where it is the zero JID.
  unfoldable presence_reply : Text → Presence J → Option (Presence J)
  unfolding granted text_eq
  presence_reply id p =
      if not (text_eq p.kind (codes "subscribe"))
      then none
      else some (record {
        id = id;
        from = none;
        to = elim p.from [ none ↦ none | some from ↦ some (addresses.bare from) ];
        kind = if granted p.from then codes "subscribed" else codes "unsubscribed";
      })

  abbrev pub answered : Option (Presence J) → Handled J
  answered none = nothing
  answered (some p) = answer p

  abbrev pub taken : Bool → Attempt (Option (MessageBody J)) → Handled J
  taken cancelled (failure e) = nothing
  taken cancelled (success none) = nothing
  taken cancelled (success (some m)) = if cancelled then nothing else queued m

  unfoldable incoming_handler : Bool → ℕ → Text → Element X → Handled J
  unfolding decode_presence decode_message presence_reply
  incoming_handler cancelled now id e = elim (decode_presence e) [
    | some p ↦ answered (presence_reply id p)
    | none ↦ taken cancelled (decode_message now e)
  ]
