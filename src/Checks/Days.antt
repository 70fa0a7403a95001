-- ===== src/Checks/Days.antt =====
-- A schedule of two times of day, a queue of messages, a status message and a configuration.
use agentgarage.Prelude.{
  ℕ, ◌+◌, ◌%◌, ◌<◌, ◌≤◌, ◌≡◌, refl, true, false, some, List, [], ◌∷◌, ◌++◌, Text, codes, arith,
  length,
}
use agentgarage.Bridge.Status.{join_lines, start, flush}
use agentgarage.Bridge.Status.Shown.{Watch, Spaced, add_lines, Showing, trail_shown}
use agentgarage.Bridge.Xmpp.Stanzas.{Addresses}
use agentgarage.Bridge.Xmpp.Schedule.{Schedule, next_due}
use agentgarage.Bridge.Xmpp.Schedule.Next.{clocks, Elem, next_due_first}
use agentgarage.Bridge.Xmpp.Queue.{
  Queue, Both, idle, put, tell, Reached, at_first, further, enqueue, signal,
}
use agentgarage.Bridge.Xmpp.Queue.Delivery.{serve_all, served_all}
use agentgarage.Bridge.Xmpp.Config.{Config}

abbrev digest : Schedule
digest = record {
  prompt = codes "digest";
  times = codes "07:30" ∷ codes "19:30" ∷ [];
  is_continuing = false;
}

-- 07:30 of the day after.
next_due_first_example :
    (70200 < 113400)
    × (113400 ≤ 70200 + 86400)
    × Elem (113400 % 86400) (clocks digest.times)
    × ((u : ℕ) → 70200 < u → Elem (u % 86400) (clocks digest.times) → 113400 ≤ u)
unfolding next_due clocks
next_due_first_example = next_due_first 70200 digest.times 113400 refl

-- Two messages are put in, and the second token is sent.
abbrev one_in : Both ℕ
unfolding idle enqueue
one_in = record {
  queue = enqueue 1 (idle.queue);
  signalling = 1;
  popping = false;
  pushed = 1 ∷ [];
  popped = [];
}

abbrev told : Both ℕ
unfolding one_in signal
told = record {
  queue = signal (one_in.queue);
  signalling = 0;
  popping = false;
  pushed = 1 ∷ [];
  popped = [];
}

told-Reached : Reached told
unfolding idle one_in told
told-Reached = further one_in told (further idle one_in at_first (put idle 1)) (tell one_in 0 refl)

served_all_example :
    (q : Queue ℕ) × (serve_all (length told.queue.items) told.queue ≡ some (told.queue.items, q))
    × (q.items ≡ [])
    × (told.popped ++ told.queue.items ≡ told.pushed)
unfolding told
served_all_example = served_all told told-Reached refl refl

-- A chat where every message arrives at once, and a clock that moves when it is read.
pub record Wire : Type 0 where
  pub log : List (ℕ × Text)
  pub times : List ℕ
  pub now : ℕ

abbrev post : ℕ → Text → Wire → ℕ × Wire
post id t w = (7, record w { log = w.log ++ (id, t) ∷ []; times = w.now ∷ w.times })

abbrev tick : Wire → ℕ × Wire
tick w = (w.now + 1, record w { now = w.now + 1 })

abbrev quiet : Wire
quiet = record { log = []; times = []; now = 0 }

post-Watch : Watch post tick (λ w. w.log) (λ w. w.times) (λ w. w.now)
post-Watch = record {
  updated = λ id t w. refl;
  read = λ w. refl;
  stamped = λ id t w. refl;
  unstamped = λ w. refl;
  passes = λ id t w. omega arith;
  ticks = λ w. (omega arith, refl);
}

abbrev steps : List Text
steps = codes "one" ∷ codes "two" ∷ codes "three" ∷ []

trail_shown_example :
    let last = add_lines post tick 2 post-Watch steps (start post tick 2 0 quiet) in
    ((sends : List ℕ) × (last.1.times ≡ sends ++ []) × Spaced 2 sends)
    × Showing post tick 2 post-Watch (join_lines steps) (flush post tick 2 true last.0 last.1)
unfolding join_lines
trail_shown_example = trail_shown post tick 2 post-Watch 0 quiet steps (λ h. ground (arith, h))

abbrev plain : Addresses Text
plain = record { bare = λ j. j; localpart = λ j. j; shown = λ j. j }

abbrev config : Config
config = record {
  username = codes "agent";
  password = codes "p";
  has_agent = true;
  has_sandboxes = true;
  sandbox_name = codes "box";
  model = codes "m";
  allowed_jids = codes "ann" ∷ codes " ann" ∷ codes "bob" ∷ [];
  schedule = digest;
}
