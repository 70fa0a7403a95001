-- ===== src/Store/Sessions/Saved.antt =====
-- What a save leaves in the database, and what a load makes of it.
use mathlib.Core.Path.{subst}
use agentgarage.Prelude.{
  ℕ, ◌≡◌, ◌≢◌, refl, sym, ap, ◌∙◌, ◌⊎◌, inl, inr, none, some, List, [], ◌∷◌, ◌++◌, Text, codes,
  length, drop, arith, Attempt, failure, success, Option-cases,
}
use agentgarage.Agent.Message.{Message}
use agentgarage.Agent.Session.{Session, to_record}
use agentgarage.Store.Sessions.Rows.{session_at-upsert, session_at-upsert_ne, Holds, length-Holds}
use agentgarage.Store.Sessions.Inserts.{insert_all-Extended, load-Holds, load-same}
use agentgarage.Store.Sessions.Faults.{Faulty, insert_all-Faulty}
use agentgarage.Store.Sessions.{
  MessageRow, Tables, count, begin, upsert, commit, select_session, select_messages, Trouble, Codec,
  rows_of, row_of, upsert_session, session_error,
}
use agentgarage.Store.Sessions.Saving.{stored_count, insert_all, committed, save_from, save}
use agentgarage.Store.Sessions.Loading.{load}

drop-length : (xs ys : List Message) → drop (length xs) (xs ++ ys) ≡ ys
drop-length [] ys = refl
drop-length (x ∷ xs) ys = drop-length xs ys

-- A session whose transcript goes on from the messages that its rows hold, and the troubles of a save
-- and of a later load.
module _ (codec : Codec) (trouble later : Trouble)
    (sound : (m : Message) (t : Text) → codec.encode m ≡ success t → codec.decode t ≡ success m)
    (s : Session) (old new : List Message) (now : ℕ) (t : Tables)
    (goes_on : s.messages ≡ old ++ new) (held : Holds codec 0 old (rows_of s.id t.messages))
    (other : Text) (ne : s.id ≢ other) where
  abbrev pub Refused : Type 0
  Refused =
      ((e : Text) × (save codec trouble none (some s) now t ≡ (some e, t)))
      × Faulty codec trouble (length old) new

  abbrev pub Kept : Type 0
  Kept =
      (t' : Tables) × (save codec trouble none (some s) now t ≡ (none, t'))
      × Holds codec 0 s.messages (rows_of s.id t'.messages)
      × (load codec later none s.id t' ≡ success (some (to_record s)))
      × (load codec later none other t' ≡ load codec later none other t)

  abbrev inserted : Attempt (List MessageRow)
  inserted = insert_all codec trouble s.id (length old) new now (success t.messages)

  -- The save comes down to its inserts and its commit.
  save-committed :
      (trouble count ≡ none)
      → trouble begin ≡ none
      → trouble upsert ≡ none
      → save codec trouble none (some s) now t
        ≡ committed codec trouble s.id (upsert_session (to_record s) now t.sessions) inserted t
  unfolding save save_from stored_count to_record
  save-committed a b c = ground (
    arith,
    a,
    b,
    c,
    length-Holds codec 0 old (rows_of s.id t.messages) held,
    ap (drop (length old)) goes_on ∙ drop-length old new,
  )

  kept :
      (rows : List MessageRow)
      → save codec trouble none (some s) now t
        ≡ (none, record { sessions = upsert_session (to_record s) now t.sessions; messages = rows })
      → inserted ≡ success rows
      → later select_session ≡ none
      → later select_messages ≡ none
      → Kept
  unfolding to_record row_of
  kept rows saved done p q =
      let extended =
        insert_all-Extended codec trouble sound s.id old new now t.messages rows held done in
      let (created, found) = session_at-upsert (to_record s) now t.sessions in
      let t' : Tables = record {
        sessions = upsert_session (to_record s) now t.sessions;
        messages = rows;
      } in
      let all_held : Holds codec 0 s.messages (rows_of s.id rows) =
        subst (λ l. Holds codec 0 l (rows_of s.id rows)) (sym goes_on) extended.0 in
      (
        t',
        saved,
        all_held,
        load-Holds codec later s.id s.messages t' (row_of (to_record s) created now) p q found
            all_held,
        load-same codec later other t t'
            (session_at-upsert_ne other (to_record s) now t.sessions (λ e. ne (sym e)))
            (extended.1 other ne),
      )

  not_counted : (e : Text) → trouble count ≡ some e → Refused
  unfolding save save_from stored_count
  not_counted e a = (
    (session_error codec trouble (codes "count stored messages of") s.id e, ground (arith, a)),
    inl (count, refl, e, a),
  )

  not_begun : (e : Text) → trouble count ≡ none → trouble begin ≡ some e → Refused
  unfolding save save_from stored_count to_record
  not_begun e a b = (
    (session_error codec trouble (codes "begin save of") s.id e, ground (arith, a, b)),
    inl (begin, refl, e, b),
  )

  not_upserted :
      (e : Text) → trouble count ≡ none → trouble begin ≡ none → trouble upsert ≡ some e → Refused
  unfolding save save_from stored_count to_record
  not_upserted e a b c = (
    (session_error codec trouble (codes "save") s.id e, ground (arith, a, b, c)),
    inl (upsert, refl, e, c),
  )

  module _ (a : trouble count ≡ none) (b : trouble begin ≡ none) (c : trouble upsert ≡ none)
      (p : later select_session ≡ none) (q : later select_messages ≡ none) where
    by_rows : (r : Attempt (List MessageRow)) → inserted ≡ r → Refused ⊎ Kept
    unfolding committed
    by_rows (failure e) done = inl (
      (e, save-committed a b c ∙ ground (arith, done)),
      inr (insert_all-Faulty codec trouble sound s.id old new now t.messages e held done),
    )
    by_rows (success rows) done = elim (Option-cases (trouble commit)) [
      | inl d ↦ inr (kept rows (save-committed a b c ∙ ground (arith, done, d)) done p q)
      | inr (e, d) ↦ inl (
        (
          session_error codec trouble (codes "commit save of") s.id e,
          save-committed a b c ∙ ground (arith, done, d),
        ),
        inl (commit, refl, e, d),
      )
    ]

  -- Where what the encoder writes decodes to the same message, and a session's transcript goes on
  -- from the messages that its rows hold under the numbers from 0 on: a save fails and changes
  -- nothing, and a call of it met an error of the database or one of its new messages could not be encoded; or the rows then hold
  -- the whole transcript in order, a load without trouble gives back the session's record, and any
  -- other session loads as before.
  pub save_load : later select_session ≡ none → later select_messages ≡ none → Refused ⊎ Kept
  save_load p q = elim (Option-cases (trouble count)) [
    | inr (e, a) ↦ inl (not_counted e a)
    | inl a ↦ elim (Option-cases (trouble begin)) [
      | inr (e, b) ↦ inl (not_begun e a b)
      | inl b ↦ elim (Option-cases (trouble upsert)) [
        | inr (e, c) ↦ inl (not_upserted e a b c)
        | inl c ↦ by_rows a b c p q inserted refl
      ]
    ]
  ]
