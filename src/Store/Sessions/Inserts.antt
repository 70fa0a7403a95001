-- ===== src/Store/Sessions/Inserts.antt =====
-- The inserts of a save, and what a load makes of their rows.
use mathlib.Core.Path.{subst}
use agentgarage.Prelude.{
  ℕ, suc, ◌≡◌, ◌≢◌, refl, sym, ap, ◌∙◌, none, some, List, [], ◌∷◌, ◌++◌, Text, length,
  length-append, arith, Attempt, failure, success, append_assoc, append-nil,
}
use agentgarage.Agent.Message.{Message}
use agentgarage.Store.Sessions.Rows.{rows_of-snoc, rows_of-snoc_ne, Holds, Holds-snoc, order-Holds}
use agentgarage.Store.Sessions.{
  SessionRow, MessageRow, Tables, select_session, select_messages, Trouble, Codec, rows_of,
  session_at, record_of,
}
use agentgarage.Store.Sessions.Saving.{insert_row, insert_message, insert_all}
use agentgarage.Store.Sessions.Loading.{decoded, load_messages, with_row, load_row, load}

module _ (codec : Codec) where
  module _ (trouble : Trouble) where
    decoded-Holds :
        (id : Text) (seq : ℕ) (ms : List Message) (rs : List MessageRow)
        → Holds codec seq ms rs
        → decoded codec trouble id rs ≡ success ms
    unfolding decoded
    decoded-Holds id seq [] [] h = refl
    decoded-Holds id seq [] (r ∷ rs) h = absurd h
    decoded-Holds id seq (m ∷ ms) [] h = absurd h
    decoded-Holds id seq (m ∷ ms) (r ∷ rs) h =
        ground (arith, h.1, decoded-Holds id (suc seq) ms rs h.2)

    -- What an insert that succeeds leaves.
    abbrev Added : Text → ℕ → Message → List MessageRow → List MessageRow → Type 0
    Added id seq m rows out =
        (r : MessageRow) × (out ≡ rows ++ r ∷ [])
        × (r.session_id ≡ id)
        × (r.seq ≡ seq)
        × (codec.encode m ≡ success r.content)

    insert_row-Added :
        (id : Text) (seq : ℕ) (m : Message) (now : ℕ) (content : Text) (rows : List MessageRow)
        (out : List MessageRow)
        → codec.encode m ≡ success content
        → insert_row codec trouble id seq m now content rows ≡ success out
        → Added id seq m rows out
    unfolding insert_row
    insert_row-Added id seq m now content rows out e h = (
      record { session_id = id; seq = seq; role = m.role; content = content; created_at = now },
      ground (arith, h),
      refl,
      refl,
      e,
    )

    insert_message-Added :
        (id : Text) (seq : ℕ) (m : Message) (now : ℕ) (rows out : List MessageRow)
        → insert_message codec trouble id seq m now rows ≡ success out
        → Added id seq m rows out
    unfolding insert_message
    insert_message-Added id seq m now rows out h = by_content (codec.encode m) refl
      where
        by_content : (a : Attempt Text) → codec.encode m ≡ a → Added id seq m rows out
        by_content (failure e) p = ground (arith, h, p)
        by_content (success content) p =
            insert_row-Added id seq m now content rows out p (ground (arith, h, p))

    -- What holds of the rows behind inserts that succeed.
    abbrev Extended : Text → List Message → List MessageRow → List MessageRow → Type 0
    Extended id ms rows out =
        Holds codec 0 ms (rows_of id out)
        × ((other : Text) → id ≢ other → rows_of other out ≡ rows_of other rows)

    pub next-Holds :
        (sound : (m : Message) (t : Text) → codec.encode m ≡ success t → codec.decode t ≡ success m)
        (id : Text) (old : List Message) (m : Message) (now : ℕ) (rows next : List MessageRow)
        → Holds codec 0 old (rows_of id rows)
        → insert_message codec trouble id (length old) m now rows ≡ success next
        → Holds codec 0 (old ++ m ∷ []) (rows_of id next)
    next-Holds sound id old m now rows next g p =
        let (r, more, own, numbered, encoded) =
          insert_message-Added id (length old) m now rows next p in
        subst (Holds codec 0 (old ++ m ∷ []))
          (sym (ap (rows_of id) more ∙ rows_of-snoc id rows r own))
          (Holds-snoc codec 0 old (rows_of id rows) m r g (omega (arith, numbered))
            (sound m r.content encoded))

    pub insert_all-Extended :
        (sound : (m : Message) (t : Text) → codec.encode m ≡ success t → codec.decode t ≡ success m)
        (id : Text) (old ms : List Message) (now : ℕ) (rows out : List MessageRow)
        → Holds codec 0 old (rows_of id rows)
        → insert_all codec trouble id (length old) ms now (success rows) ≡ success out
        → Extended id (old ++ ms) rows out
    unfolding insert_all
    insert_all-Extended sound id old [] now rows out g h =
        let same : rows ≡ out = cc in
        subst (Extended id (old ++ []) rows) same (
          subst (λ l. Holds codec 0 l (rows_of id rows)) (sym (append-nil old)) g,
          λ other ne. refl,
        )
    insert_all-Extended sound id old (m ∷ ms) now rows out g h =
        by_insert (insert_message codec trouble id (length old) m now rows)
          (λ next. insert_all-Extended sound id (old ++ m ∷ []) ms now next out) refl
      where
        by_insert :
            (a : Attempt (List MessageRow))
            → ((next : List MessageRow)
                → Holds codec 0 (old ++ m ∷ []) (rows_of id next)
                → insert_all codec trouble id (length (old ++ m ∷ [])) ms now (success next)
                  ≡ success out
                → Extended id ((old ++ m ∷ []) ++ ms) next out)
            → insert_message codec trouble id (length old) m now rows ≡ a
            → Extended id (old ++ m ∷ ms) rows out
        by_insert (failure e) ih p = ground (arith, h, p)
        by_insert (success next) ih p =
            let (r, more, own, numbered, encoded) =
              insert_message-Added id (length old) m now rows next p in
            let on = ih next (next-Holds sound id old m now rows next g p) (
              ap (λ n. insert_all codec trouble id n ms now (success next))
                (let e : length (old ++ m ∷ []) ≡ suc (length old) =
                    omega (arith, length-append old (m ∷ [])) in
                  e)
              ∙ (let e : insert_all codec trouble id (suc (length old)) ms now (success next)
                      ≡ success out =
                    ap (insert_all codec trouble id (suc (length old)) ms now) (sym p) ∙ h in
                  e)) in
            (
              subst (λ l. Holds codec 0 l (rows_of id out)) (append_assoc old (m ∷ []) ms) on.0,
              λ other ne.
                  on.1 other ne
                  ∙ ap (rows_of other) more
                  ∙ rows_of-snoc_ne other rows r (λ e. ne (sym own ∙ e)),
            )

    -- What `Load` makes of the rows of a session.
    pub load-Holds :
        (id : Text) (ms : List Message) (t : Tables) (row : SessionRow)
        → trouble select_session ≡ none
        → trouble select_messages ≡ none
        → session_at id t.sessions ≡ some row
        → Holds codec 0 ms (rows_of id t.messages)
        → load codec trouble none id t ≡ success (some (record_of row ms))
    unfolding load load_row load_messages with_row
    load-Holds id ms t row quiet_session quiet_messages found h = ground (
      arith,
      quiet_session,
      found,
      quiet_messages,
      order-Holds codec 0 ms (rows_of id t.messages) h,
      decoded-Holds id 0 ms (rows_of id t.messages) h,
    )

    pub load-same :
        (id : Text) (t t' : Tables)
        → session_at id t'.sessions ≡ session_at id t.sessions
        → rows_of id t'.messages ≡ rows_of id t.messages
        → load codec trouble none id t' ≡ load codec trouble none id t
    unfolding load load_row load_messages
    load-same id t t' e f = ground (arith, e, f)
