-- ===== src/Bridge/Xmpp/Queue/Delivery.antt =====
-- No message is lost in the queue, and none waits for ever.
use agentgarage.Prelude.{
  ℕ, zero, suc, ◌≡◌, refl, sym, ap, ◌∙◌, ◌⊎◌, inl, inr, Bool, true, false, Option, none, some, List,
  [], ◌∷◌, ◌++◌, arith, append_assoc, length,
}
use agentgarage.Bridge.Xmpp.Queue.{
  Queue, enqueue, signal, pop, receive, Both, idle, noted, Step, put, tell, wake, take, Reached,
  at_first, further,
}

module _ {M : Type 0} where
  -- Somebody is about to see to the messages that wait.
  abbrev Awaited : Both M → Type 0
  Awaited b =
      (b.queue.items ≡ [])
      ⊎ (b.queue.ready ≡ true)
      ⊎ ((n : ℕ) × (b.signalling ≡ suc n))
      ⊎ (b.popping ≡ true)

  pub record Sound (b : Both M) : Type 0 where
    pub fifo : b.popped ++ b.queue.items ≡ b.pushed
    pub awaited : Awaited b

  receive-items : (q r : Queue M) → receive q ≡ some r → r.items ≡ q.items
  unfolding receive
  receive-items q r h = ground (arith, h)

  -- What is popped, and then what is left, are the items.
  pop-items : (q : Queue M) (ms : List M) → noted (pop q).0 ms ++ (pop q).1.items ≡ ms ++ q.items
  unfolding pop
  pop-items q ms = by_items q.items
    where
      by_items :
          (is : List M)
          → let r = pop (record q { items = is }) in noted r.0 ms ++ r.1.items ≡ ms ++ is
      by_items [] = refl
      by_items (m ∷ is) = append_assoc ms (m ∷ []) is

  pop-ready : (q : Queue M) → ((pop q).1.items ≡ []) ⊎ ((pop q).1.ready ≡ true)
  unfolding pop
  pop-ready q = by_items q.items
    where
      by_items :
          (is : List M)
          → let r = pop (record q { items = is }) in (r.1.items ≡ []) ⊎ (r.1.ready ≡ true)
      by_items [] = inl refl
      by_items (m ∷ []) = inl refl
      by_items (m ∷ n ∷ is) = inr refl

  step-Sound : (b c : Both M) → Step b c → Sound b → Sound c
  unfolding enqueue signal receive pop
  step-Sound _ _ (put b m) h = record {
    fifo = sym (append_assoc b.popped b.queue.items (m ∷ [])) ∙ ap (λ ms. ms ++ m ∷ []) h.fifo;
    awaited = inr (inr (inl (b.signalling, refl)));
  }
  step-Sound _ _ (tell b n e) h = record { fifo = h.fifo; awaited = inr (inl refl) }
  step-Sound _ _ (wake b q e got) h = record {
    fifo = ap (λ ms. b.popped ++ ms) (receive-items b.queue q got) ∙ h.fifo;
    awaited = inr (inr (inr refl));
  }
  step-Sound _ _ (take b e) h = record {
    fifo = pop-items b.queue b.popped ∙ h.fifo;
    awaited = elim (pop-ready b.queue) [
      | inl none_left ↦ inl none_left
      | inr told ↦ inr (inl told)
    ];
  }

  -- In every order of steps, the messages are popped in the order in which they were pushed, none twice and
  -- none left out; and while a message waits, the token is there, or is about to be sent, or was
  -- received by a loop that is about to pop.
  Reached-Sound : (b : Both M) → Reached b → Sound b
  unfolding idle
  Reached-Sound _ at_first = record { fifo = refl; awaited = inl refl }
  Reached-Sound _ (further b c r s) = step-Sound b c s (Reached-Sound b r)

  -- The loop as it runs on its own: so many times it receives the token and pops; `none` where it
  -- finds no token.
  unfoldable pub serve_all : ℕ → Queue M → Option (List M × Queue M)
  unfolding receive pop
  serve_all zero q = some ([], q)
  serve_all (suc n) q = elim (receive q) [
    | none ↦ none
    | some q' ↦ elim (serve_all n (pop q').1) [
      | none ↦ none
      | some (ms, q'') ↦ some (noted (pop q').0 [] ++ ms, q'')
    ]
  ]

  serve_all_items :
      (ms : List M) (r : Bool)
      → (ms ≡ []) ⊎ (r ≡ true)
      → (q : Queue M) × (serve_all (length ms) (record { items = ms; ready = r }) ≡ some (ms, q))
        × (q.items ≡ [])
  unfolding serve_all pop receive
  serve_all_items [] r a = (record { items = []; ready = r }, refl, refl)
  serve_all_items (m ∷ ms) r (inl e) = absurd (ground (arith, e))
  serve_all_items (m ∷ ms) r (inr e) =
      let rest = (pop (record { items = m ∷ ms; ready = false })).1 in
      let (q, served, left) =
        serve_all_items ms rest.ready (pop-ready (record { items = m ∷ ms; ready = false })) in
      (q, rw (e, served) refl, left)

  -- Once no push is under way and the loop waits, it serves every message that is there, in order, and
  -- waits for none of them.
  pub served_all :
      (b : Both M)
      → Reached b
      → b.signalling ≡ 0
      → b.popping ≡ false
      → (q : Queue M) × (serve_all (length b.queue.items) b.queue ≡ some (b.queue.items, q))
        × (q.items ≡ [])
        × (b.popped ++ b.queue.items ≡ b.pushed)
  served_all b r still waiting =
      let s = Reached-Sound b r in
      let (q, served, left) = serve_all_items b.queue.items b.queue.ready (now s.awaited) in
      (q, served, left, s.fifo)
    where
      now : Awaited b → (b.queue.items ≡ []) ⊎ (b.queue.ready ≡ true)
      now (inl none_left) = inl none_left
      now (inr (inl told)) = inr told
      now (inr (inr (inl (n, e)))) = absurd (ground (arith, e, still))
      now (inr (inr (inr e))) = absurd (ground (arith, e, waiting))
