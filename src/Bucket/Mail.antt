-- ===== src/Bucket/Mail.antt =====
-- bucket/mail/mail.go: numbered messages as objects that are only ever created; a reader asks for
-- one number after the other until one is missing. The encoding of a message to JSON is a function: its
-- error, which a message has only where its time lies outside the years 0 to 9999, is left out.
pub mod Sending
pub mod Receiving
pub mod Folding
use agentgarage.Prelude.{
  ℕ, zero, suc, ◌==◌, Bool, true, false, ◌||◌, Option, none, some, List, [], ◌∷◌, ◌++◌, Text,
  text_eq, codes, itoa, if◌then◌else◌,
}
use agentgarage.Bucket.Types.{Object, Err, Result, err, ok, Store}
use agentgarage.Bucket.Client.{Crypto, Client, Sent, get, create}

-- A time is 0 if it is Go's zero time.
pub record Message : Type 0 where
  pub room : Text
  pub author : Text
  pub text : Text
  pub time : ℕ

-- encoding/json on messages.
pub record Codec : Type 0 where
  pub marshal : Message → Text
  pub unmarshal : Text → Option Message

abbrev pub to_host : Text
to_host = codes "mail/to-host/"

unfoldable pub key : Text → ℕ → Text
unfolding itoa
key box seq = box ++ itoa seq

pub record Posted (W : Type 0) : Type 0 where
  pub seq : ℕ
  pub error : Option Err
  pub sent : Sent W

abbrev pub error_of : Result Text → Option Err
error_of (err e) = some e
error_of (ok t) = none

abbrev pub stamped : ℕ → Message → Message
stamped now m = if m.time == 0 then record m { time = now } else m

-- `errors.Is(err, bucket.ErrExists)`.
abbrev pub is_taken : Result Text → Bool
is_taken (err Err.already_exists) = true
is_taken _ = false

module _ {W : Type 0} (c : Crypto) (store : Store W) (cl : Client) (name : Text) (box : Text) where
  -- So many numbers are tried at most; none is for more.
  unfoldable pub send_from : ℕ → ℕ → Text → Sent W → Option (Posted W)
  unfolding key create
  send_from zero next body s = none
  send_from (suc fuel) next body s =
      let (r, s') = create c store cl name (key box next) body s in
      let rest = send_from fuel (suc next) body s' in
      if is_taken r then rest else some (record { seq = next; error = error_of r; sent = s' })

  unfoldable pub send : Codec → ℕ → ℕ → ℕ → Message → Sent W → Option (Posted W)
  unfolding send_from
  send j now fuel next m s = send_from fuel next (j.marshal (stamped now m)) s

-- Where a reader stopped, and what its callback has made of the messages.
pub record Read (V W : Type 0) : Type 0 where
  pub next : ℕ
  pub error : Option Err
  pub seen : V
  pub sent : Sent W

-- What a reader does with an answer of the bucket.
pub data Move : Type 0 where
  stop skip : Move
  give_up : Err → Move
  take : Message → Move

abbrev of_message : Option Message → Move
of_message none = Move.skip
of_message (some m) = if text_eq m.room [] || text_eq m.text [] then Move.skip else Move.take m

unfoldable pub move : Codec → Result Object → Move
move j (err Err.not_found) = Move.stop
move j (err Err.bad_signature) = Move.skip
move j (err e) = Move.give_up e
move j (ok o) = of_message (j.unmarshal o.body)

module _ {V W : Type 0} (c : Crypto) (store : Store W) (cl : Client) (name : Text) (j : Codec)
    (f : ℕ → Message → V → Option Err × V) (box : Text) where
  unfoldable pub receive : ℕ → ℕ → V → Sent W → Option (Read V W)
  unfolding key get move
  receive zero next v s = none
  receive (suc fuel) next v s =
      let (r, s') = get c store cl name (key box next) s in
      elim (move j r) [
        | Move.stop ↦ some (record { next = next; error = none; seen = v; sent = s' })
        | Move.skip ↦ receive fuel (suc next) v s'
        | Move.give_up e ↦ some (record { next = next; error = some e; seen = v; sent = s' })
        | Move.take m ↦
            let (e, v') = f next m v in
            elim e [
              | none ↦ receive fuel (suc next) v' s'
              | some x ↦ some (record { next = next; error = some x; seen = v'; sent = s' })
            ]
      ]
