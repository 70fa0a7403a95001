-- ===== src/Chatroom/Rooms/Waking.antt =====
-- Whom a post wakes.
use agentgarage.Prelude.{
  ℕ, ◌≡◌, refl, ap, ◌∙◌, inl, inr, Bool, true, false, not, ◌&&◌, ◌||◌, Option, none, some, List, [],
  ◌∷◌, Text, text_eq, text_eq_iff, text_eq_refl, arith, Bool-cases,
}
use mathlib.Core.Path.{subst}
use agentgarage.Bucket.Types.{find, assign}
use agentgarage.Bucket.Fake.Writes.{find-assign, find-assign_ne}
use agentgarage.Chatroom.Mentions.{mentions}
use agentgarage.Chatroom.Rooms.{
  Message, Service, deliver, deliver_to, contains, is_joined, is_skipped, wake, new_message, post,
}

-- An inbox that a message is sent to, or is not.
abbrev sent_if : Bool → Message → Option (List Message) → Option (List Message)
sent_if true m (some inbox) = some (deliver m inbox)
sent_if _ m inbox = inbox

find-deliver_to :
    (k n : Text) (m : Message) (ms : List (Text × List Message))
    → find k (deliver_to n m ms) ≡ sent_if (text_eq n k) m (find k ms)
unfolding deliver_to
find-deliver_to k n m ms = elim (Bool-cases (text_eq n k)) [
  | inl same ↦ let e = (text_eq_iff n k).0 same in rw (same, e) (to_self (find k ms) refl)
  | inr other ↦ rw other (to_other (find n ms) other)
]
  where
    to_self :
        (o : Option (List Message))
        → find k ms ≡ o
        → find k (elim o [ none ↦ ms | some inbox ↦ assign k (deliver m inbox) ms ])
          ≡ sent_if true m o
    to_self none h = h
    to_self (some inbox) h = find-assign k (deliver m inbox) ms

    to_other :
        (o : Option (List Message))
        → text_eq n k ≡ false
        → find k (elim o [ none ↦ ms | some inbox ↦ assign n (deliver m inbox) ms ])
          ≡ sent_if false m (find k ms)
    to_other none h = refl
    to_other (some inbox) h =
        find-assign_ne n k (deliver m inbox) ms
          (λ e. ground (arith, h, text_eq_refl k, ap (λ x. text_eq x k) e))

-- Who is to be woken: among the names, not the author, and not woken yet.
abbrev is_due : Message → List Text → List Text → Text → Bool
is_due m woken names k = contains names k && not (text_eq k m.author) && not (contains woken k)

stays :
    (named author woken : Bool) (m : Message) (o : Option (List Message))
    → (not (is_joined o) || author || woken) ≡ true
    → sent_if (named && not author && not woken) m o ≡ sent_if (not author && not woken) m o
stays named author woken m none h = ground arith
stays named author woken m (some inbox) h = ground (arith, h)

goes_once :
    (named author woken : Bool) (m : Message) (o : Option (List Message))
    → (not (is_joined o) || author || woken) ≡ false
    → sent_if (named && not author && false) m (sent_if true m o)
      ≡ sent_if (not author && not woken) m o
goes_once named author woken m none h = ground arith
goes_once named author woken m (some inbox) h = ground (arith, h)

find-wake :
    (k : Text) (m : Message) (woken ns : List Text) (ms : List (Text × List Message))
    → find k (wake m woken ns ms) ≡ sent_if (is_due m woken ns k) m (find k ms)
unfolding wake contains is_skipped
find-wake k m woken [] ms = refl
find-wake k m woken (n ∷ ns) ms = elim (Bool-cases (is_skipped m.author woken n ms)) [
  | inl skip ↦ rw skip (find-wake k m woken ns ms ∙ skipped skip)
  | inr goes ↦ rw goes (
      find-wake k m (n ∷ woken) ns (deliver_to n m ms)
      ∙ ap (sent_if (is_due m (n ∷ woken) ns k) m) (find-deliver_to k n m ms)
      ∙ went goes)
]
  where
    skipped :
        is_skipped m.author woken n ms ≡ true
        → sent_if (is_due m woken ns k) m (find k ms)
          ≡ sent_if (is_due m woken (n ∷ ns) k) m (find k ms)
    skipped h = elim (Bool-cases (text_eq n k)) [
      | inl same ↦ rw same (
          stays (contains ns k) (text_eq k m.author) (contains woken k) m (find k ms)
            (subst (λ x. is_skipped m.author woken x ms ≡ true) ((text_eq_iff n k).0 same) h))
      | inr other ↦ rw other refl
    ]

    went :
        is_skipped m.author woken n ms ≡ false
        → sent_if (is_due m (n ∷ woken) ns k) m (sent_if (text_eq n k) m (find k ms))
          ≡ sent_if (is_due m woken (n ∷ ns) k) m (find k ms)
    went h = elim (Bool-cases (text_eq n k)) [
      | inl same ↦ rw same (
          goes_once (contains ns k) (text_eq k m.author) (contains woken k) m (find k ms)
            (subst (λ x. is_skipped m.author woken x ms ≡ false) ((text_eq_iff n k).0 same) h))
      | inr other ↦ rw other refl
    ]

-- A post sends its message once to the inbox of each member that the text mentions, but for its author's,
-- unless the inbox is full, and changes no other inbox; whoever has not joined still has none.
post-woken :
    (now : ℕ) (room author text k : Text) (s : Service)
    → let r = post now room author text s in
      find k r.1.members
      ≡ sent_if (contains (mentions text) k && not (text_eq k author)) r.0 (find k s.members)
unfolding post contains
post-woken now room author text k s =
    find-wake k (new_message now room author text s) [] (mentions text) s.members
    ∙ ap (λ b. sent_if b (new_message now room author text s) (find k s.members)) (ground arith)
