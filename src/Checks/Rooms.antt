-- ===== src/Checks/Rooms.antt =====
-- A room with a member who is mentioned.
use agentgarage.Prelude.{◌≡◌, ◌↔◌, List, [], ◌∷◌, ◌++◌, Text, codes}
use agentgarage.Chatroom.Mentions.{mentions}
use agentgarage.Chatroom.Mentions.Found.{Elem, Stands, mentions-Stands}
use agentgarage.Chatroom.Rooms.{Message, Service, Draft, post_all, read}
use agentgarage.Chatroom.Rooms.Reading.{last_id, read-post_all}

abbrev request : Text
request = codes "@grug look, ann@dev"

mentions-Stands_example : Elem (codes "dev") (mentions request) ↔ Stands (codes "dev") request
mentions-Stands_example = mentions-Stands (codes "dev") request

abbrev hello : Message
hello = record { id = 4; room = codes "yard"; author = codes "ann"; text = request; time = 9 }

abbrev yard : Service
yard = record { rows = hello ∷ []; members = (codes "grug", []) ∷ (codes "dev", hello ∷ []) ∷ [] }

abbrev later : List Draft
later =
    record { now = 11; room = codes "yard"; author = codes "bob"; text = codes "yes" }
    ∷ record { now = 12; room = codes "shed"; author = codes "bob"; text = codes "no" }
    ∷ []

read-post_all_example :
    let first = read (codes "yard") 0 yard in
    read (codes "yard") 0 (post_all later yard)
    ≡ first ++ read (codes "yard") (last_id 0 first) (post_all later yard)
read-post_all_example = read-post_all later (codes "yard") 0 yard (tt, tt)
