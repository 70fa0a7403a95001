-- ===== src/Bridge/Telegram/Serve/Private.antt =====
-- What a Telegram bot keeps and whom it answers.
use agentgarage.Prelude.{
  ℕ, ◌≡◌, refl, sym, ap, ◌∙◌, true, false, not, Option, inl, inr, none, some, List, [], ◌∷◌, Text,
  if_keeps, if◌then◌else◌, Bool-cases,
}
use agentgarage.Agent.Session.{Box}
use agentgarage.Bridge.Commands.{is_command}
use agentgarage.Bridge.Desk.{Desk, Setup}
use agentgarage.Bridge.Desk.Handles.{Ledger, Holding, handle_command-Holding}
use agentgarage.Bridge.Turns.Keeping.{Quiet, turn-kept}
use agentgarage.Bridge.Turns.{turn}
use agentgarage.Bridge.Telegram.Serve.{
  Wiring, Config, Message, send_chunks, answer_texts, handle_prompt, may_ask, handle_update, poll,
  split_command,
}

module _ {W : Type 0} (b : Wiring W) (c : Config) (p : Setup) where
  -- The updates that the bot acts on.
  unfoldable heeded : List (Option Message) → List (Option Message)
  heeded [] = []
  heeded (none ∷ us) = heeded us
  heeded (some m ∷ us) = let rest = heeded us in if may_ask b c p m then some m ∷ rest else rest

  heeded-none : (us : List (Option Message)) → heeded (none ∷ us) ≡ heeded us
  unfolding heeded
  heeded-none us = refl

  heeded-nil : heeded [] ≡ []
  unfolding heeded
  heeded-nil = refl

  handle_update-none : (d : Desk W) → handle_update b c p none d ≡ d
  unfolding handle_update
  handle_update-none d = refl

  handle_update-stranger :
      (m : Message) (d : Desk W) → may_ask b c p m ≡ false → handle_update b c p (some m) d ≡ d
  unfolding handle_update
  handle_update-stranger m d h = rw h refl

  heeded-may :
      (m : Message) (us : List (Option Message))
      → may_ask b c p m ≡ true
      → heeded (some m ∷ us) ≡ some m ∷ heeded us
  unfolding heeded
  heeded-may m us h = rw h refl

  heeded-stranger :
      (m : Message) (us : List (Option Message))
      → may_ask b c p m ≡ false
      → heeded (some m ∷ us) ≡ heeded us
  unfolding heeded
  heeded-stranger m us h = rw h refl

  poll-heeded :
      (us : List (Option Message)) (d : Desk W) → poll b c p us d ≡ poll b c p (heeded us) d
  unfolding poll
  poll-heeded [] d = ap (λ us. poll b c p us d) (sym heeded-nil)
  poll-heeded (none ∷ us) d =
      ap (poll b c p us) (handle_update-none d)
      ∙ poll-heeded us d
      ∙ ap (λ us. poll b c p us d) (sym (heeded-none us))
  poll-heeded (some m ∷ us) d = elim (Bool-cases (may_ask b c p m)) [
    | inl may ↦
        poll-heeded us (handle_update b c p (some m) d)
        ∙ ap (λ us. poll b c p us d) (sym (heeded-may m us may))
    | inr stranger ↦
        ap (poll b c p us) (handle_update-stranger m d stranger)
        ∙ poll-heeded us d
        ∙ ap (λ us. poll b c p us d) (sym (heeded-stranger m us stranger))
  ]

  module _ {held : W → List Box} (l : Ledger b.shelf b.new_id b.send held)
      (q : Quiet b.run b.screen b.json c.show_thinking held)
      (typing : (chat : ℕ) (w : W) → held (b.typing chat w) ≡ held w) where
    abbrev pub Holds : Desk W → Type 0
    Holds d = Holding b.shelf b.new_id b.send p l d

    send_chunks-held :
        (chat : ℕ) (ts : List Text) (w : W) → held (send_chunks b c p chat ts w) ≡ held w
    unfolding send_chunks
    send_chunks-held chat [] w = refl
    send_chunks-held chat (t ∷ ts) w =
        send_chunks-held chat ts (b.send chat t w) ∙ l.sending chat t w

    handle_prompt-Holds :
        (chat : ℕ) (text : Text) (d : Desk W) → Holds d → Holds (handle_prompt b c p chat text d)
    unfolding handle_prompt
    handle_prompt-Holds chat text d (box, has, name, one) =
        let d' : Desk W = record d { world = b.typing chat d.world } in
        let r = turn b.run b.screen b.json c.show_thinking text (some chat) d' in
        let (world, same_box, same_name) =
          turn-kept b.run b.screen b.json c.show_thinking q text (some chat) d' in
        (
          box,
          same_box ∙ has,
          same_name ∙ name,
          send_chunks-held chat (answer_texts b c p r.0) r.1.world
              ∙ world
              ∙ typing chat d.world
              ∙ one,
        )

    handle_update-Holds :
        (u : Option Message) (d : Desk W) → Holds d → Holds (handle_update b c p u d)
    unfolding handle_update
    handle_update-Holds none d h = h
    handle_update-Holds (some m) d h =
        let (cmd, arg) = split_command m.text in
        if_keeps Holds (not (may_ask b c p m)) _ _ h (
          if_keeps Holds (is_command m.text) _ _
            (handle_command-Holding b.shelf b.new_id b.send p l m.chat cmd arg d h)
            (handle_prompt-Holds m.chat m.text d h))

    poll-Holds : (us : List (Option Message)) (d : Desk W) → Holds d → Holds (poll b c p us d)
    unfolding poll
    poll-Holds [] d h = h
    poll-Holds (u ∷ us) d h = poll-Holds us (handle_update b c p u d) (handle_update-Holds u d h)

    -- Where opening and releasing a session add and remove its handle and the other calls leave the open
    -- handles alone: if exactly one handle is open, that of the bot's current session, then it stays so,
    -- whatever updates come and whatever the calls answer, and the bot ends as if only the private texts
    -- of allowed users had come.
    poll_private :
        (us : List (Option Message)) (d : Desk W)
        → Holds d
        → Holds (poll b c p us d) × (poll b c p us d ≡ poll b c p (heeded us) d)
    poll_private us d h = (poll-Holds us d h, poll-heeded us d)
