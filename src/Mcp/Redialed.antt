-- ===== src/Mcp/Redialed.antt =====
-- A call reaches the server at most twice, and says when it did.
use agentgarage.Prelude.{
  ℕ, ◌+◌, ◌≤◌, ◌≡◌, refl, sym, ap, ◌∙◌, ◌⊎◌, inl, inr, true, Text, codes, ◌++◌, arith, Attempt,
  failure, success, Bool-cases, Option-cases,
}
use mathlib.Core.Path.{subst}
use agentgarage.Agent.Run.{ToolResult}
use agentgarage.Mcp.{
  Connection, CallToolResult, Peer, Server, report, connect, established, drop_session,
  transport_failed,
}
use agentgarage.Mcp.Calls.{
  redial_note, Ended, call_again, tried, call_first, call_once, called_on, collapse, told, call,
}

-- The answer, or the error, starts with the note.
abbrev pub Marked : Attempt ToolResult → Type 0
Marked (failure e) = (rest : Text) × (e ≡ redial_note ++ rest)
Marked (success out) = (rest : Text) × (out.content ≡ redial_note ++ rest)

-- `calls` counts the tool calls that the server has answered or not.
module _ {W : Type 0} (peer : Peer W) (tool args : Text) (calls : W → ℕ)
    (calling : (id : ℕ) (w : W) → calls (peer.call_tool id tool args w).1 ≡ calls w + 1)
    (dialing : (w : W) → calls (peer.dial w).1 ≡ calls w)
    (hanging : (id : ℕ) (w : W) → calls (peer.hang_up id w) ≡ calls w) where
  established-calls :
      (s : Server W) (r : Attempt Connection × W)
      → calls r.1 ≡ calls s.world
      → calls (established peer r s).1.world ≡ calls s.world
  unfolding established report
  established-calls s (failure e, w) h = h
  established-calls s (success c, w) h = h

  connect-calls : (s : Server W) → calls (connect peer s).1.world ≡ calls s.world
  unfolding connect
  connect-calls s = elim (Option-cases s.session) [
    | inl closed ↦ ground (arith, closed, established-calls s (peer.dial s.world) (dialing s.world))
    | inr (id, open_one) ↦ ground (arith, open_one)
  ]

  -- What a call that began with n calls made ends with.
  abbrev Made : ℕ → Ended W → Type 0
  Made n e = (calls e.server.world ≤ n + 1) ⊎ ((calls e.server.world ≡ n + 2) × (e.again ≡ true))

  again-Made :
      (n : ℕ) (c : Attempt ℕ × Server W)
      → calls c.1.world ≡ n + 1
      → Made n (call_again peer tool args c)
  unfolding call_again
  again-Made n (failure e, s) h = inl (omega arith)
  again-Made n (success id, s) h = inr (omega (arith, calling id s.world), refl)

  tried-Made : (n id : ℕ) (s : Server W) → calls s.world ≡ n → Made n (tried peer tool args id s)
  unfolding tried drop_session report
  tried-Made n id s h = elim (Bool-cases (transport_failed peer (called_on peer tool args id s))) [
    | inl cut ↦ rw cut (
        again-Made n _ (
          established-calls _ _ (dialing _)
          ∙ hanging id _
          ∙ calling id s.world
          ∙ ap (λ k. k + 1) h))
    | inr kept ↦ rw kept (inl (omega (arith, calling id s.world)))
  ]

  first-Made :
      (n : ℕ) (c : Attempt ℕ × Server W)
      → calls c.1.world ≡ n
      → Made n (call_first peer tool args c)
  unfolding call_first
  first-Made n (failure e, s) h = inl (omega arith)
  first-Made n (success id, s) h = tried-Made n id s h

  told-Marked : (r : Attempt CallToolResult) → Marked (told peer tool args true r)
  unfolding told
  told-Marked (failure e) = (codes ": " ++ e, refl)
  told-Marked (success r) = (codes "\n" ++ (collapse r).content, refl)

  -- Where only calls of tools count, and each counts once: a call of a tool ends with at most one call
  -- made, or with two, and then its answer or its error starts with the note that the connection was
  -- opened again.
  pub call-Marked :
      (s : Server W)
      → (calls (call peer tool args s).1.world ≤ calls s.world + 1)
        ⊎ ((calls (call peer tool args s).1.world ≡ calls s.world + 2)
            × Marked (call peer tool args s).0)
  unfolding call call_once report
  call-Marked s = elim (first-Made (calls s.world) (connect peer s) (connect-calls s)) [
    | inl once ↦ inl once
    | inr (twice, again) ↦ inr (
      twice,
      subst
          (λ b. Marked (told peer tool args b (call_first peer tool args (connect peer s)).result))
          (sym again) (told-Marked (call_first peer tool args (connect peer s)).result),
    )
  ]
