-- ===== src/Chatroom/Rooms/Reading.antt =====
-- What a reader of a room sees who asks again and again.
use agentgarage.Prelude.{
  ℕ, ltb, ◌≡◌, ◌≤◌, ◌<◌, refl, sym, ap, ◌∙◌, true, false, ◌&&◌, List, [], ◌∷◌, ◌++◌, Text, text_eq,
  All, All-append, All-weaken, arith, append_assoc, append-nil, Bool-cases, inl, inr,
}
use mathlib.Core.Path.{subst}
use agentgarage.Chatroom.Rooms.{
  Message, Service, open_service, top_id, post, read_rows, read, Draft, post_all,
}

-- The ids go up.
abbrev Ascending : List Message → Type 0
Ascending [] = Unit
Ascending (m ∷ ms) = All (λ n. m.id < n.id) ms × Ascending ms

top_id-All : (ms : List Message) → All (λ m. m.id ≤ top_id ms) ms
unfolding top_id
top_id-All [] = tt
top_id-All (m ∷ ms) = (ground arith, All-weaken ms (λ n h. ground (arith, h)) (top_id-All ms))

Ascending-append :
    (ms : List Message) (m : Message)
    → All (λ n. n.id < m.id) ms
    → Ascending ms
    → Ascending (ms ++ m ∷ [])
Ascending-append [] m h a = (tt, tt)
Ascending-append (n ∷ ns) m h a =
    (All-append (λ k. n.id < k.id) ns (m ∷ []) a.0 (h.0, tt), Ascending-append ns m h.1 a.1)

-- The id of the last message that was read, or where the reader was.
abbrev pub last_id : ℕ → List Message → ℕ
last_id after [] = after
last_id after (m ∷ ms) = last_id m.id ms

last_id-keeps :
    (P : ℕ → Type 0) (a : ℕ) (ms : List Message) → P a → All (λ m. P m.id) ms → P (last_id a ms)
last_id-keeps P a [] p h = p
last_id-keeps P a (m ∷ ms) p h = last_id-keeps P m.id ms h.0 h.1

All-split : (P : Message → Type 0) (xs ys : List Message) → All P (xs ++ ys) → All P xs × All P ys
All-split P [] ys h = (tt, h)
All-split P (x ∷ xs) ys h = let (a, b) = All-split P xs ys h.1 in ((h.0, a), b)

read_rows-append :
    (r : Text) (a : ℕ) (xs ys : List Message)
    → read_rows r a (xs ++ ys) ≡ read_rows r a xs ++ read_rows r a ys
unfolding read_rows
read_rows-append r a [] ys = refl
read_rows-append r a (m ∷ ms) ys = ground (arith, read_rows-append r a ms ys)

-- What is read has what all rows have, and is behind the reader.
read_rows-All :
    (P : Message → Type 0) (r : Text) (a : ℕ) (ms : List Message)
    → All P ms
    → All (λ m. P m × (a < m.id)) (read_rows r a ms)
unfolding read_rows
read_rows-All P r a [] h = tt
read_rows-All P r a (m ∷ ms) h = elim (Bool-cases (text_eq m.room r && ltb a m.id)) [
  | inl seen ↦ rw seen ((h.0, ground (arith, seen)), read_rows-All P r a ms h.1)
  | inr other ↦ rw other (read_rows-All P r a ms h.1)
]

-- Behind both cursors, both read the same.
read_rows-later :
    (r : Text) (a b : ℕ) (ms : List Message)
    → All (λ m. a < m.id) ms
    → All (λ m. b < m.id) ms
    → read_rows r a ms ≡ read_rows r b ms
unfolding read_rows
read_rows-later r a b [] h k = refl
read_rows-later r a b (m ∷ ms) h k = ground (arith, h.0, k.0, read_rows-later r a b ms h.1 k.1)

read_rows-seen :
    (r : Text) (a : ℕ) (m : Message) (ms : List Message)
    → (text_eq m.room r && ltb a m.id) ≡ true
    → read_rows r a (m ∷ ms) ≡ m ∷ read_rows r a ms
unfolding read_rows
read_rows-seen r a m ms h = rw h refl

read_rows-passed :
    (r : Text) (a : ℕ) (m : Message) (ms : List Message)
    → (text_eq m.room r && ltb a m.id) ≡ false
    → read_rows r a (m ∷ ms) ≡ read_rows r a ms
unfolding read_rows
read_rows-passed r a m ms h = rw h refl

-- A cursor does not go back.
last_id-ge : (r : Text) (a : ℕ) (ms : List Message) → a ≤ last_id a (read_rows r a ms)
last_id-ge r a ms =
    last_id-keeps (λ b. a ≤ b) a (read_rows r a ms) (omega arith)
      (All-weaken (read_rows r a ms) (λ m h. omega (arith, h.1))
        (read_rows-All (λ m. m.id ≤ top_id ms) r a ms (top_id-All ms)))

-- Whoever has read to the end finds nothing more.
read_rows-again :
    (r : Text) (a : ℕ) (ms : List Message)
    → Ascending ms
    → read_rows r (last_id a (read_rows r a ms)) ms ≡ []
unfolding read_rows
read_rows-again r a [] h = refl
read_rows-again r a (m ∷ ms) h = elim (Bool-cases (text_eq m.room r && ltb a m.id)) [
  | inl seen ↦
      let l = last_id m.id (read_rows r m.id ms) in
      let later =
        read_rows-later r a m.id ms (All-weaken ms (λ n k. ground (arith, seen, k)) h.0) h.0 in
      ap (λ ns. read_rows r (last_id a ns) (m ∷ ms)) (read_rows-seen r a m ms seen)
      ∙ ap (λ ns. read_rows r (last_id m.id ns) (m ∷ ms)) later
      ∙ read_rows-passed r l m ms (ground (arith, last_id-ge r m.id ms))
      ∙ read_rows-again r m.id ms h.1
  | inr other ↦
      let l = last_id a (read_rows r a ms) in
      ap (λ ns. read_rows r (last_id a ns) (m ∷ ms)) (read_rows-passed r a m ms other)
      ∙ read_rows-passed r l m ms (ground (arith, other, last_id-ge r a ms))
      ∙ read_rows-again r a ms h.1
]

-- The rows of a table before and behind a place.
Ascending-split :
    (xs ys : List Message)
    → Ascending (xs ++ ys)
    → Ascending xs × All (λ m. All (λ n. m.id < n.id) ys) xs
Ascending-split [] ys h = (tt, tt)
Ascending-split (x ∷ xs) ys h =
    let (a, b) = Ascending-split xs ys h.1 in let (c, d) = All-split _ xs ys h.0 in ((c, a), (d, b))

read_rows-on :
    (r : Text) (a : ℕ) (xs ys : List Message)
    → Ascending (xs ++ ys)
    → read_rows r a (xs ++ ys)
      ≡ read_rows r a xs ++ read_rows r (last_id a (read_rows r a xs)) (xs ++ ys)
read_rows-on r a xs ys h =
    let (up, behind) = Ascending-split xs ys h in
    let l = last_id a (read_rows r a xs) in
    let same : read_rows r a ys ≡ read_rows r l ys =
      last_id-keeps (λ b. read_rows r a ys ≡ read_rows r b ys) a (read_rows r a xs) refl
        (All-weaken (read_rows r a xs)
          (λ m k.
            read_rows-later r a m.id ys (All-weaken ys (λ n j. omega (arith, j, k.1)) k.0) k.0)
          (read_rows-All (λ m. All (λ n. m.id < n.id) ys) r a xs behind)) in
    read_rows-append r a xs ys
    ∙ ap (λ t. read_rows r a xs ++ t)
        (same
          ∙ sym (
              read_rows-append r l xs ys
              ∙ ap (λ t. t ++ read_rows r l ys) (read_rows-again r a xs up)))

post_all-rows :
    (ds : List Draft) (s : Service)
    → Ascending s.rows
    → (more : List Message) × ((post_all ds s).rows ≡ s.rows ++ more)
      × Ascending (post_all ds s).rows
unfolding post_all post
post_all-rows [] s h = ([], sym (append-nil s.rows), h)
post_all-rows (d ∷ ds) s h =
    let r = post d.now d.room d.author d.text s in
    let up =
      Ascending-append s.rows r.0 (All-weaken s.rows (λ n k. omega (arith, k)) (top_id-All s.rows))
        h in
    let (more, e, a) = post_all-rows ds r.1 up in
    (r.0 ∷ more, e ∙ append_assoc s.rows (r.0 ∷ []) more, a)

-- A reader of a room who asks again from the last message that it read, after whatever was posted in any
-- room, reads what it would have read if it had waited: each message once, in order. The rows stand
-- in ascending order of their ids.
pub read-post_all :
    (ds : List Draft) (room : Text) (after : ℕ) (s : Service)
    → Ascending s.rows
    → let first = read room after s in
      read room after (post_all ds s) ≡ first ++ read room (last_id after first) (post_all ds s)
unfolding read
read-post_all ds room after s h =
    let (more, e, a) = post_all-rows ds s h in
    let on = read_rows-on room after s.rows more (subst Ascending e a) in rw e on

-- A service that was opened, and what its members and posts make of it, keeps its rows in ascending
-- order.
post_all-Ascending : (ds : List Draft) → Ascending (post_all ds open_service).rows
unfolding open_service
post_all-Ascending ds = (post_all-rows ds open_service tt).2
