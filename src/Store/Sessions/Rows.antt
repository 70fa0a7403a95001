-- ===== src/Store/Sessions/Rows.antt =====
-- The rows of a session and of its messages under inserts and updates.
use agentgarage.Prelude.{
  ℕ, suc, ◌+◌, ◌≤◌, ◌≡◌, ◌≢◌, refl, ap, inl, inr, leb, true, false, some, List, [], ◌∷◌, ◌++◌, Text,
  text_eq, text_eq_iff, text_eq_refl, length, arith, success, Bool-cases,
}
use agentgarage.Agent.Message.{Message}
use agentgarage.Agent.Session.{SessionRecord}
use agentgarage.Store.Sessions.{
  SessionRow, MessageRow, Codec, rows_of, has_seq, session_at, row_of, upsert_session, insert_in,
  order, by_seq,
}

pub rows_of-snoc :
    (id : Text) (rows : List MessageRow) (r : MessageRow)
    → r.session_id ≡ id
    → rows_of id (rows ++ r ∷ []) ≡ rows_of id rows ++ r ∷ []
unfolding rows_of
rows_of-snoc id [] r h = ground (arith, text_eq_iff r.session_id id, h)
rows_of-snoc id (s ∷ rows) r h = elim (Bool-cases (text_eq s.session_id id)) [
  | inl own ↦ rw own (ap (λ l. s ∷ l) (rows_of-snoc id rows r h))
  | inr other ↦ rw other (rows_of-snoc id rows r h)
]

pub rows_of-snoc_ne :
    (id : Text) (rows : List MessageRow) (r : MessageRow)
    → r.session_id ≢ id
    → rows_of id (rows ++ r ∷ []) ≡ rows_of id rows
unfolding rows_of
rows_of-snoc_ne id [] r h = ground (arith, text_eq_iff r.session_id id, h)
rows_of-snoc_ne id (s ∷ rows) r h = elim (Bool-cases (text_eq s.session_id id)) [
  | inl own ↦ rw own (ap (λ l. s ∷ l) (rows_of-snoc_ne id rows r h))
  | inr other ↦ rw other (rows_of-snoc_ne id rows r h)
]

pub session_at-upsert :
    (rec : SessionRecord) (now : ℕ) (rows : List SessionRow)
    → (created : ℕ) × (session_at rec.id (upsert_session rec now rows)
        ≡ some (row_of rec created now))
unfolding session_at upsert_session row_of
session_at-upsert rec now [] = (now, rw (text_eq_refl rec.id) refl)
session_at-upsert rec now (r ∷ rows) = elim (Bool-cases (text_eq r.id rec.id)) [
  | inl own ↦ (r.created_at, rw (own, text_eq_refl rec.id) refl)
  | inr other ↦ let (created, e) = session_at-upsert rec now rows in (created, rw (other, other) e)
]

pub session_at-upsert_ne :
    (other : Text) (rec : SessionRecord) (now : ℕ) (rows : List SessionRow)
    → other ≢ rec.id
    → session_at other (upsert_session rec now rows) ≡ session_at other rows
unfolding session_at upsert_session row_of
session_at-upsert_ne other rec now [] ne = ground (arith, text_eq_iff rec.id other, ne)
session_at-upsert_ne other rec now (r ∷ rows) ne = ground (
  arith,
  session_at-upsert_ne other rec now rows ne,
  text_eq_iff r.id rec.id,
  text_eq_iff rec.id other,
  text_eq_iff r.id other,
  ne,
)

module _ (codec : Codec) where
  -- Rows that hold messages under the numbers from `seq` on.
  abbrev pub Holds : ℕ → List Message → List MessageRow → Type 0
  Holds seq [] [] = Unit
  Holds seq [] (r ∷ rs) = ⊥
  Holds seq (m ∷ ms) [] = ⊥
  Holds seq (m ∷ ms) (r ∷ rs) =
      (r.seq ≡ seq) × (codec.decode r.content ≡ success m) × Holds (suc seq) ms rs

  pub length-Holds :
      (seq : ℕ) (ms : List Message) (rs : List MessageRow) → Holds seq ms rs → length rs ≡ length ms
  length-Holds seq [] [] h = refl
  length-Holds seq [] (r ∷ rs) h = absurd h
  length-Holds seq (m ∷ ms) [] h = absurd h
  length-Holds seq (m ∷ ms) (r ∷ rs) h = ap suc (length-Holds (suc seq) ms rs h.2)

  pub Holds-snoc :
      (seq : ℕ) (ms : List Message) (rs : List MessageRow) (m : Message) (r : MessageRow)
      → Holds seq ms rs
      → r.seq ≡ seq + length ms
      → codec.decode r.content ≡ success m
      → Holds seq (ms ++ m ∷ []) (rs ++ r ∷ [])
  Holds-snoc seq [] [] m r h e d = ((omega arith), d, tt)
  Holds-snoc seq [] (s ∷ rs) m r h e d = absurd h
  Holds-snoc seq (n ∷ ms) [] m r h e d = absurd h
  Holds-snoc seq (n ∷ ms) (s ∷ rs) m r h e d =
      (h.0, h.1, Holds-snoc (suc seq) ms rs m r h.2 (omega arith) d)

  pub order-Holds :
      (seq : ℕ) (ms : List Message) (rs : List MessageRow) → Holds seq ms rs → order by_seq rs ≡ rs
  unfolding order insert_in
  order-Holds seq [] [] h = refl
  order-Holds seq [] (r ∷ rs) h = absurd h
  order-Holds seq (m ∷ ms) [] h = absurd h
  order-Holds seq (m ∷ []) (r ∷ []) h = refl
  order-Holds seq (m ∷ []) (r ∷ s ∷ rs) h = absurd h.2
  order-Holds seq (m ∷ n ∷ ms) (r ∷ []) h = absurd h.2
  order-Holds seq (m ∷ n ∷ ms) (r ∷ s ∷ rs) h =
      let le : leb r.seq s.seq ≡ true = ground (arith, h.0, h.2.0) in
      rw (order-Holds (suc seq) (n ∷ ms) (s ∷ rs) h.2, le) refl

  -- A number above those of the rows is not among them.
  pub has_seq-Holds :
      (seq n : ℕ) (ms : List Message) (rs : List MessageRow)
      → Holds seq ms rs
      → seq + length ms ≤ n
      → has_seq n rs ≡ false
  unfolding has_seq
  has_seq-Holds seq n [] [] h le = refl
  has_seq-Holds seq n [] (r ∷ rs) h le = absurd h
  has_seq-Holds seq n (m ∷ ms) [] h le = absurd h
  has_seq-Holds seq n (m ∷ ms) (r ∷ rs) h le =
      ground (arith, h.0, le, has_seq-Holds (suc seq) n ms rs h.2)
