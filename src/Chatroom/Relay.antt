-- ===== src/Chatroom/Relay.antt =====
-- chatroom/mail.go: one pass of the bridge between the chatroom and a laptop's mail. The statements on
-- the tables of cursors and of rooms are functions on lists; errors of the database are left out.
pub mod Arrived
use agentgarage.Prelude.{
  ℕ, zero, suc, ltb, Bool, true, false, ◌&&◌, Option, none, some, List, [], ◌∷◌, ◌++◌, Text, codes,
  if◌then◌else◌,
}
use agentgarage.Bucket.Types.{Err, Store, find, assign}
use agentgarage.Bucket.Client.{Crypto, Client, Sent}
use agentgarage.Bucket.Mail as Mail
use agentgarage.Bucket.Mail.{Codec, Read, Posted, receive, send, to_host}
use agentgarage.Bucket.Mail.Folding.{never_fails}
use agentgarage.Chatroom.Rooms.{Message, Service, post, contains, top_id}

abbrev to_laptop : Text
to_laptop = codes "mail/to-laptop/"

-- The service with the tables mail_cursors and mail_rooms.
pub record Relay : Type 0 where
  pub service : Service
  pub cursors : List (Text × ℕ)
  pub mail_rooms : List Text

abbrev pub or_zero : Option ℕ → ℕ
or_zero none = 0
or_zero (some n) = n

unfoldable pub set_cursor : Text → ℕ → Relay → Relay
unfolding assign
set_cursor name n r = record r { cursors = assign name n r.cursors }

-- `INSERT OR IGNORE`.
unfoldable pub insert_room : Text → List Text → List Text
unfolding contains
insert_room room rooms = if contains rooms room then rooms else rooms ++ room ∷ []

-- The callback of `mail.Receive`; `clock seq` is the time when that message is posted.
unfoldable pub take_mail : (ℕ → ℕ) → ℕ → Mail.Message → Relay → Relay
unfolding post insert_room set_cursor
take_mail clock seq m r = set_cursor (codes "to-host") (suc seq) (record r {
  service = (post (clock seq) m.room m.author m.text r.service).1;
  mail_rooms = insert_room m.room r.mail_rooms;
})

-- The rows behind `seen` in the rooms that mail came from.
unfoldable outgoing : ℕ → List Text → List Message → List Message
unfolding contains
outgoing seen rooms [] = []
outgoing seen rooms (m ∷ ms) =
    let rest = outgoing seen rooms ms in
    if ltb seen m.id && contains rooms m.room then m ∷ rest else rest

-- Where a pass is: the cursors `seen` and `to-laptop`, as it goes.
pub record Pass (W : Type 0) : Type 0 where
  pub seen : ℕ
  pub out : ℕ
  pub relay : Relay
  pub sent : Sent W

-- A pass that is over, with its error, if it had one.
pub record Done (W : Type 0) : Type 0 where
  pub error : Option Err
  pub relay : Relay
  pub sent : Sent W

abbrev is_member : Option (List Message) → Bool
is_member none = false
is_member (some inbox) = true

module _ {W : Type 0} (c : Crypto) (store : Store W) (cl : Client) (name : Text) (j : Codec)
    (clock : ℕ → ℕ) (fuel : ℕ) where
  abbrev as_mail : Message → Mail.Message
  as_mail m = record { room = m.room; author = m.author; text = m.text; time = m.time }

  abbrev seen_up_to : ℕ → Pass W → Pass W
  unfolding set_cursor
  seen_up_to id p = record p { seen = id; relay = set_cursor (codes "seen") id p.relay }

  -- What follows `mail.Send`; none where the fuel was not enough.
  unfoldable pub mailed : ℕ → Pass W → Option (Posted W) → Option (Option Err × Pass W)
  unfolding seen_up_to set_cursor
  mailed id p none = none
  mailed id p (some r) = elim r.error [
    | some e ↦ some (some e, record p { sent = r.sent })
    | none ↦ some (
      none,
      seen_up_to id (record p {
        out = suc r.seq;
        relay = set_cursor (codes "to-laptop") (suc r.seq) p.relay;
        sent = r.sent;
      }),
    )
  ]

  -- One row that is to go out, if a member wrote it.
  unfoldable mail_row : Message → Pass W → Option (Option Err × Pass W)
  unfolding mailed seen_up_to send find
  mail_row m p =
      if is_member (find m.author p.relay.service.members)
      then mailed m.id p
          (send c store cl name to_laptop j (clock p.out) fuel p.out (as_mail m) p.sent)
      else some (none, seen_up_to m.id p)

  unfoldable mail_rows : List Message → Pass W → Option (Option Err × Pass W)
  unfolding mail_row
  mail_rows [] p = some (none, p)
  mail_rows (m ∷ ms) p = elim (mail_row m p) [
    | none ↦ none
    | some (some e, p') ↦ some (some e, p')
    | some (none, p') ↦ mail_rows ms p'
  ]

  unfoldable mailed_all : Option (Option Err × Pass W) → Option (Done W)
  unfolding set_cursor
  mailed_all none = none
  mailed_all (some (some e, p)) = some (record { error = some e; relay = p.relay; sent = p.sent })
  mailed_all (some (none, p)) =
      some
        (record { error = none; relay = set_cursor (codes "seen") p.seen p.relay; sent = p.sent })

  -- The second half of a pass: what the members wrote is mailed.
  unfoldable relay_out : ℕ → Relay → Sent W → Option (Done W)
  unfolding mailed_all mail_rows outgoing find
  relay_out seen r s = mailed_all (
      mail_rows (outgoing seen r.mail_rooms r.service.rows) (record {
        seen = seen;
        out = or_zero (find (codes "to-laptop") r.cursors);
        relay = r;
        sent = s;
      }))

  -- The first half: what came from the laptop is posted.
  unfoldable pub relay_in : Relay → Sent W → Option (Read Relay W)
  unfolding receive take_mail find
  relay_in r s =
      receive c store cl name j (never_fails (take_mail clock)) to_host fuel
        (or_zero (find (codes "to-host") r.cursors)) r s

  unfoldable arrived : ℕ → Option (Read Relay W) → Option (Done W)
  unfolding relay_out set_cursor
  arrived seen none = none
  arrived seen (some x) = elim x.error [
    | some e ↦ some (record { error = some e; relay = x.seen; sent = x.sent })
    | none ↦ relay_out seen (set_cursor (codes "to-host") x.next x.seen) x.sent
  ]

  abbrev seen_or_all : Option ℕ → Service → ℕ
  unfolding top_id
  seen_or_all none s = top_id s.rows
  seen_or_all (some n) s = n

  unfoldable relay_mail : Relay → Sent W → Option (Done W)
  unfolding arrived relay_in seen_or_all find
  relay_mail r s = arrived (seen_or_all (find (codes "seen") r.cursors) r.service) (relay_in r s)
