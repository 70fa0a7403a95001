-- ===== src/Bridge/Xmpp/Queue.antt =====
-- `messageQueue` of metaharness/bridge/xmpp/bridge.go: messages on their way from the stream's handler to
-- the serving loop, which run at the same time.
pub mod Delivery
use agentgarage.Prelude.{
  ℕ, zero, suc, ◌≡◌, Bool, true, false, Option, none, some, List, [], ◌∷◌, ◌++◌,
}

-- `ready` says whether the channel of one place holds its token.
pub record Queue (M : Type 0) : Type 0 where
  pub items : List M
  pub ready : Bool

module _ {M : Type 0} where
  unfoldable new_queue : Queue M
  new_queue = record { items = []; ready = false }

  -- The critical section of `push`, and the token it sends after that.
  unfoldable pub enqueue : M → Queue M → Queue M
  enqueue m q = record q { items = q.items ++ m ∷ [] }

  unfoldable pub signal : Queue M → Queue M
  signal q = record q { ready = true }

  unfoldable pub push : M → Queue M → Queue M
  unfolding enqueue signal
  push m q = signal (enqueue m q)

  abbrev some_left : List M → Bool → Bool
  some_left [] ready = ready
  some_left (m ∷ ms) ready = true

  unfoldable pub pop : Queue M → Option M × Queue M
  pop q = elim q.items [
    | [] ↦ (none, q)
    | m ∷ ms ↦ (some m, record { items = ms; ready = some_left ms q.ready })
  ]

  -- The token is received, if it is there.
  unfoldable pub receive : Queue M → Option (Queue M)
  receive q = elim q.ready [ true ↦ some (record q { ready = false }) | false ↦ none ]

-- The queue; how many pushes have put their message in and not yet sent the token; whether the loop has
-- received the token and not yet popped; what was pushed and what was popped, in order.
pub record Both (M : Type 0) : Type 0 where
  pub queue : Queue M
  pub signalling : ℕ
  pub popping : Bool
  pub pushed : List M
  pub popped : List M

module _ {M : Type 0} where
  unfoldable pub idle : Both M
  unfolding new_queue
  idle = record { queue = new_queue; signalling = 0; popping = false; pushed = []; popped = [] }

  abbrev pub noted : Option M → List M → List M
  noted none ms = ms
  noted (some m) ms = ms ++ m ∷ []

-- One step of the handler or of the loop. A `receive` that finds no token waits: it is no step.
pub data Step {M : Type 0} : Both M → Both M → Type 0 where
  put :
      (b : Both M) (m : M)
      → Step b (record b {
        queue = enqueue m b.queue;
        signalling = suc b.signalling;
        pushed = b.pushed ++ m ∷ [];
      })
  tell :
      (b : Both M) (n : ℕ)
      → b.signalling ≡ suc n
      → Step b (record b { queue = signal b.queue; signalling = n })
  wake :
      (b : Both M) (q : Queue M)
      → b.popping ≡ false
      → receive b.queue ≡ some q
      → Step b (record b { queue = q; popping = true })
  take :
      (b : Both M)
      → b.popping ≡ true
      → Step b (record b {
        queue = (pop b.queue).1;
        popping = false;
        popped = noted (pop b.queue).0 b.popped;
      })

pub data Reached {M : Type 0} : Both M → Type 0 where
  at_first : Reached idle
  further : (b c : Both M) → Reached b → Step b c → Reached c
