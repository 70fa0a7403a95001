-- ===== src/Agent/Stream/Again.antt =====
-- An answer that is streamed and collected is the answer again.
use agentgarage.Prelude.{
  ℕ, suc, ◌≡◌, refl, ap, ◌∙◌, List, [], ◌∷◌, ◌++◌, map, Text, itoa, length, set, text_eq,
  text_eq_refl, text_eq_iff, get_elem?-append_length, success, arith, append_assoc, append-nil,
  some,
}
use agentgarage.Agent.Message.{Usage, ToolCall}
use agentgarage.Agent.Stream.{
  Reasoning, Part, Finish, StreamPart, Collected, nothing, index_of, extend, extend_at,
  more_reasoning, take_part, text_part, message_of, collected, collect_from, collect, stream_of,
  streams_of, streamed,
}

abbrev pub reasoning_in : List Part → List Reasoning
reasoning_in [] = []
reasoning_in (Part.reasoning r ∷ ps) = r ∷ reasoning_in ps
reasoning_in (Part.text t ∷ ps) = reasoning_in ps
reasoning_in (Part.tool_call c ∷ ps) = reasoning_in ps
reasoning_in (Part.other ∷ ps) = reasoning_in ps

abbrev pub text_in : List Part → Text
text_in [] = []
text_in (Part.reasoning r ∷ ps) = text_in ps
text_in (Part.text t ∷ ps) = t ++ text_in ps
text_in (Part.tool_call c ∷ ps) = text_in ps
text_in (Part.other ∷ ps) = text_in ps

abbrev pub calls_in : List Part → List ToolCall
calls_in [] = []
calls_in (Part.reasoning r ∷ ps) = calls_in ps
calls_in (Part.text t ∷ ps) = calls_in ps
calls_in (Part.tool_call c ∷ ps) = c ∷ calls_in ps
calls_in (Part.other ∷ ps) = calls_in ps

set-append_length {ℓ} :
    {A : Type ℓ} (xs : List A) (y z : A) → set (xs ++ y ∷ []) (length xs) z ≡ xs ++ z ∷ []
set-append_length [] y z = refl
set-append_length (x ∷ xs) y z = ap (λ l. x ∷ l) (set-append_length xs y z)

extend_at-last :
    (rs : List Reasoning) (r : Reasoning) (delta metadata : Text)
    → extend_at (length rs) delta metadata (rs ++ r ∷ []) ≡ rs ++ extend delta metadata r ∷ []
unfolding extend_at
extend_at-last rs r delta metadata =
    rw (get_elem?-append_length rs r, extend_at) (set-append_length rs r (extend delta metadata r))

index_of-head : (id : Text) (n : ℕ) (ts : List (Text × ℕ)) → index_of id ((id, n) ∷ ts) ≡ some n
unfolding index_of
index_of-head id n ts = rw (text_eq_refl id) refl

-- A piece of the block that was started last.
more_reasoning-last :
    (id delta metadata : Text) (r : Reasoning) (rs : List Reasoning) (c : Collected)
    → c.reasoning ≡ rs ++ r ∷ []
    → index_of id c.thinking ≡ some (length rs)
    → more_reasoning id delta metadata c
      ≡ record c { reasoning = rs ++ extend delta metadata r ∷ [] }
unfolding more_reasoning
more_reasoning-last id delta metadata r rs c e f =
    ground (arith, e, f, extend_at-last rs r delta metadata)

abbrev blank : Reasoning
blank = record { text = []; metadata = [] }

extend-blank : (r : Reasoning) → extend [] r.metadata (extend r.text [] blank) ≡ r
unfolding extend text_eq
extend-blank r = ground (arith, append-nil r.text, text_eq_iff r.metadata [])

-- The three parts of a reasoning block add the block.
block_taken :
    (id : Text) (r : Reasoning) (c : Collected)
    → more_reasoning id [] r.metadata
        (more_reasoning id r.text [] (take_part (StreamPart.reasoning_start id []) c))
      ≡ record c {
        thinking = (id, length c.reasoning) ∷ c.thinking;
        reasoning = c.reasoning ++ r ∷ [];
      }
unfolding take_part
block_taken id r c =
    let begun = take_part (StreamPart.reasoning_start id []) c in
    let rs = c.reasoning in
    let half = extend r.text [] blank in
    let at : index_of id ((id, length rs) ∷ c.thinking) ≡ some (length rs) = index_of-head id _ _ in
    ap (more_reasoning id [] r.metadata) (more_reasoning-last id r.text [] blank rs begun refl at)
    ∙ more_reasoning-last id [] r.metadata half rs (record begun { reasoning = rs ++ half ∷ [] })
        refl at
    ∙ ap (λ x. record begun { reasoning = rs ++ x ∷ [] }) (extend-blank r)

-- The reasoning blocks, the text and the tool calls of a content, behind what was read before.
abbrev absorbed : List Part → Collected → List Part
absorbed ps c =
    map Part.reasoning (c.reasoning ++ reasoning_in ps)
    ++ (text_part (c.text ++ text_in ps) ++ map Part.tool_call (c.calls ++ calls_in ps))

collect_from-streams :
    (i : ℕ) (ps : List Part) (usage : Usage) (c : Collected)
    → collect_from (streams_of i ps ++ StreamPart.finish usage Finish.stop ∷ []) c
      ≡ (success (absorbed ps c), usage)
unfolding collect_from streams_of stream_of take_part collected message_of
collect_from-streams i [] usage c = simp append-nil
collect_from-streams i (Part.other ∷ ps) usage c = collect_from-streams (suc i) ps usage c
collect_from-streams i (Part.text t ∷ ps) usage c =
    collect_from-streams (suc i) ps usage (record c { text = c.text ++ t }) ∙ simp append_assoc
collect_from-streams i (Part.tool_call k ∷ ps) usage c =
    collect_from-streams (suc i) ps usage (record c { calls = c.calls ++ k ∷ [] })
    ∙ simp append_assoc
collect_from-streams i (Part.reasoning r ∷ ps) usage c =
    ap (collect_from (streams_of (suc i) ps ++ StreamPart.finish usage Finish.stop ∷ []))
      (block_taken (itoa i) r c)
    ∙ collect_from-streams (suc i) ps usage (record c {
      thinking = (itoa i, length c.reasoning) ∷ c.thinking;
      reasoning = c.reasoning ++ r ∷ [];
    })
    ∙ simp append_assoc

-- An answer that is streamed and collected is its reasoning blocks, each with its text and its
-- provider's metadata, then its text in one part if there is any, then its tool calls, each in order,
-- with its usage: for an answer of this shape, the answer itself.
pub collect-streamed :
    (content : List Part) (usage : Usage)
    → collect (streamed content usage) ≡ (
      success (
          map Part.reasoning (reasoning_in content)
          ++ (text_part (text_in content) ++ map Part.tool_call (calls_in content))),
      usage,
    )
unfolding collect streamed
collect-streamed content usage = collect_from-streams 0 content usage nothing
