-- ===== src/Store/Sessions/Faults.antt =====
-- Why a save fails.
use mathlib.Core.Path.{subst}
use agentgarage.Prelude.{
  ℕ, suc, ◌≡◌, refl, sym, ap, ◌∙◌, ◌⊎◌, inl, inr, Bool, true, false, Option, none, some, List, [],
  ◌∷◌, ◌++◌, Text, length, length-append, arith, Attempt, failure, success,
}
use agentgarage.Agent.Message.{Message}
use agentgarage.Store.Sessions.Rows.{Holds, has_seq-Holds}
use agentgarage.Store.Sessions.{
  MessageRow, Call, count, begin, upsert, commit, insert, Trouble, Codec, rows_of,
}
use agentgarage.Store.Sessions.Saving.{insert_row, insert_message, insert_all}
use agentgarage.Store.Sessions.Inserts.{next-Holds}

-- The calls of a save but for its inserts.
abbrev is_saving : Call → Bool
is_saving count = true
is_saving begin = true
is_saving upsert = true
is_saving commit = true
is_saving _ = false

module _ (codec : Codec) (trouble : Trouble) where
  -- The insert of one of the messages, numbered from `seq` on, meets an error of the database, or the
  -- message cannot be encoded.
  abbrev pub FaultyAt : ℕ → List Message → Type 0
  FaultyAt seq [] = ⊥
  FaultyAt seq (m ∷ ms) =
      (((e : Text) × (trouble (insert seq) ≡ some e)) ⊎ ((e : Text) × (codec.encode m ≡ failure e)))
      ⊎ FaultyAt (suc seq) ms

  -- So does a save that inserts them, or another of its calls.
  abbrev pub Faulty : ℕ → List Message → Type 0
  Faulty seq ms =
      ((c : Call) × (is_saving c ≡ true) × (e : Text) × (trouble c ≡ some e)) ⊎ FaultyAt seq ms

  insert_message-Faulty :
      (id : Text) (old : List Message) (m : Message) (now : ℕ) (rows : List MessageRow) (e : Text)
      → Holds codec 0 old (rows_of id rows)
      → insert_message codec trouble id (length old) m now rows ≡ failure e
      → ((f : Text) × (trouble (insert (length old)) ≡ some f))
        ⊎ ((f : Text) × (codec.encode m ≡ failure f))
  unfolding insert_message insert_row
  insert_message-Faulty id old m now rows e g h =
      by_content (codec.encode m) refl (trouble (insert (length old))) refl
    where
      by_content :
          (a : Attempt Text)
          → codec.encode m ≡ a
          → (o : Option Text) → trouble (insert (length old)) ≡ o
          → ((f : Text) × (trouble (insert (length old)) ≡ some f))
            ⊎ ((f : Text) × (codec.encode m ≡ failure f))
      by_content (failure f) p o q = inr (f, p)
      by_content (success content) p (some f) q = inl (f, q)
      by_content (success content) p none q = absurd (
          ground (
            arith,
            h,
            p,
            q,
            has_seq-Holds codec 0 (length old) old (rows_of id rows) g (omega arith),
          ))

  pub insert_all-Faulty :
      (sound : (m : Message) (t : Text) → codec.encode m ≡ success t → codec.decode t ≡ success m)
      (id : Text) (old ms : List Message) (now : ℕ) (rows : List MessageRow) (e : Text)
      → Holds codec 0 old (rows_of id rows)
      → insert_all codec trouble id (length old) ms now (success rows) ≡ failure e
      → FaultyAt (length old) ms
  unfolding insert_all
  insert_all-Faulty sound id old [] now rows e g h = ground (arith, h)
  insert_all-Faulty sound id old (m ∷ ms) now rows e g h =
      by_insert (insert_message codec trouble id (length old) m now rows)
        (λ next. insert_all-Faulty sound id (old ++ m ∷ []) ms now next e) refl
    where
      by_insert :
          (a : Attempt (List MessageRow))
          → ((next : List MessageRow)
              → Holds codec 0 (old ++ m ∷ []) (rows_of id next)
              → insert_all codec trouble id (length (old ++ m ∷ [])) ms now (success next)
                ≡ failure e
              → FaultyAt (length (old ++ m ∷ [])) ms)
          → insert_message codec trouble id (length old) m now rows ≡ a
          → FaultyAt (length old) (m ∷ ms)
      by_insert (failure f) ih p = inl (insert_message-Faulty id old m now rows f g p)
      by_insert (success next) ih p =
          let e : length (old ++ m ∷ []) ≡ suc (length old) =
            omega (arith, length-append old (m ∷ [])) in
          inr (
            subst (λ n. FaultyAt n ms) e
              (ih next (next-Holds codec trouble sound id old m now rows next g p) (
                ap (λ n. insert_all codec trouble id n ms now (success next)) e
                ∙ ap (insert_all codec trouble id (suc (length old)) ms now) (sym p)
                ∙ h)))
