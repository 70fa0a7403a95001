-- ===== src/Chatroom/Rooms.antt =====
-- chatroom/chatroom.go: the messages of all rooms, and the members that a mention wakes. The SQL
-- statements are functions on the list of rows, which stands in the order of their ids; errors of the
-- database are left out. Each call runs to its end before the next.
pub mod Reading
pub mod Waking
use agentgarage.Prelude.{
  ℕ, suc, ltb, ◌==◌, Bool, true, false, not, ◌&&◌, ◌||◌, Option, none, some, List, [], ◌∷◌, ◌++◌,
  Text, text_eq, codes, length, if◌then◌else◌,
}
use agentgarage.Bucket.Types.{find, assign}
use agentgarage.Chatroom.Mentions.{mentions}

pub record Message : Type 0 where
  pub id : ℕ
  pub room : Text
  pub author : Text
  pub text : Text
  pub time : ℕ

-- `members` has what each member's inbox holds.
pub record Service : Type 0 where
  pub rows : List Message
  pub members : List (Text × List Message)

abbrev inbox_size : ℕ
inbox_size = 100

unfoldable pub open_service : Service
open_service = record { rows = []; members = [] }

unfoldable pub join : Text → Service → Service
unfolding assign
join name s = record s { members = assign name [] s.members }

-- The handler of a member takes the next message from its inbox.
unfoldable take_from : Text → Service → Option Message × Service
unfolding find assign
take_from name s = elim (find name s.members) [
  | none ↦ (none, s)
  | some [] ↦ (none, s)
  | some (m ∷ ms) ↦ (some m, record s { members = assign name ms s.members })
]

-- `SELECT MAX(id)`, 0 in an empty table.
unfoldable pub top_id : List Message → ℕ
top_id [] = 0
top_id (m ∷ ms) = let rest = top_id ms in if ltb rest m.id then m.id else rest

-- The select that sends to an inbox, or drops the message where that is full.
abbrev pub deliver : Message → List Message → List Message
deliver m inbox = if ltb (length inbox) inbox_size then inbox ++ m ∷ [] else inbox

unfoldable pub deliver_to : Text → Message → List (Text × List Message) → List (Text × List Message)
unfolding find assign
deliver_to name m members = elim (find name members) [
  | none ↦ members
  | some inbox ↦ assign name (deliver m inbox) members
]

unfoldable pub contains : List Text → Text → Bool
unfolding text_eq
contains [] t = false
contains (u ∷ us) t = text_eq u t || contains us t

abbrev pub is_joined : Option (List Message) → Bool
is_joined none = false
is_joined (some inbox) = true

-- The mentions that wake nobody.
unfoldable pub is_skipped : Text → List Text → Text → List (Text × List Message) → Bool
unfolding find contains text_eq
is_skipped author woken name members =
    not (is_joined (find name members)) || text_eq name author || contains woken name

unfoldable pub wake :
    Message → List Text → List Text → List (Text × List Message) → List (Text × List Message)
unfolding is_skipped deliver_to
wake m woken [] members = members
wake m woken (n ∷ ns) members =
    let skipped = is_skipped m.author woken n members in
    wake m (if skipped then woken else n ∷ woken) ns
      (if skipped then members else deliver_to n m members)

abbrev pub new_message : ℕ → Text → Text → Text → Service → Message
unfolding top_id
new_message now room author text s = record {
  id = suc (top_id s.rows);
  room = room;
  author = author;
  text = text;
  time = now;
}

unfoldable pub post : ℕ → Text → Text → Text → Service → Message × Service
unfolding new_message wake mentions
post now room author text s =
    let m = new_message now room author text s in
    (m, record { rows = s.rows ++ m ∷ []; members = wake m [] (mentions text) s.members })

unfoldable pub read_rows : Text → ℕ → List Message → List Message
unfolding text_eq
read_rows room after [] = []
read_rows room after (m ∷ ms) =
    let rest = read_rows room after ms in
    if text_eq m.room room && ltb after m.id then m ∷ rest else rest

unfoldable pub read : Text → ℕ → Service → List Message
unfolding read_rows
read room after s = read_rows room after s.rows

-- `SELECT MAX(id) ... GROUP BY room`, for one room.
unfoldable top_of : Text → List Message → ℕ
unfolding text_eq
top_of room [] = 0
top_of room (m ∷ ms) =
    let rest = top_of room ms in if text_eq m.room room && ltb rest m.id then m.id else rest

unfoldable latest_in : List Message → List Message → List Message
unfolding top_of
latest_in rows [] = []
latest_in rows (m ∷ ms) =
    let rest = latest_in rows ms in if m.id == top_of m.room rows then rest ++ m ∷ [] else rest

-- The latest message of every room, the latest of them first.
unfoldable pub rooms : Service → List Message
unfolding latest_in
rooms s = latest_in s.rows s.rows

unfoldable transcript : List Message → Text
transcript [] = []
transcript (m ∷ ms) = m.author ++ (codes ": " ++ (m.text ++ (10 ∷ transcript ms)))

-- One post of a list: its time, room, author and text.
pub record Draft : Type 0 where
  pub now : ℕ
  pub room : Text
  pub author : Text
  pub text : Text

unfoldable pub post_all : List Draft → Service → Service
unfolding post
post_all [] s = s
post_all (d ∷ ds) s = post_all ds (post d.now d.room d.author d.text s).1
