-- ===== src/Memory/Ordered.antt =====
-- The same notes make the same prompt, in whatever order a store gives them.
use mathlib.Core.List.{Permᴰ, Perm, Nodup, Nodup-cons, Mem, mem-cons_self}
use mathlib.Core.List.Perm
use agentgarage.Prelude.{
  ◌≡◌, ◌≢◌, refl, ap, ◌∙◌, true, List, [], ◌∷◌, ◌++◌, map, Text, arith, text_leb, text_leb_total,
  text_leb_trans, insert_by, sort_by,
}
use mathlib.Core.Path.{subst}
use native.Mathlib.Decide.{ℕ_discrete}
use mathlib.Core.Logic.{∥∥₁_elim}
use agentgarage.Memory.{Note, preamble, sections, prompt_text}

text_leb_antisymm : (a b : Text) → text_leb a b ≡ true → text_leb b a ≡ true → a ≡ b
unfolding text_leb
text_leb_antisymm [] [] p q = refl
text_leb_antisymm [] (y ∷ ys) p q = ground arith
text_leb_antisymm (x ∷ xs) [] p q = ground arith
text_leb_antisymm (x ∷ xs) (y ∷ ys) p q = ground (arith, text_leb_antisymm xs ys)

abbrev key : Note → Text
key n = n.topic

insert_by_comm :
    (a b : Note) (l : List Note)
    → a.topic ≢ b.topic
    → insert_by key a (insert_by key b l) ≡ insert_by key b (insert_by key a l)
unfolding insert_by
insert_by_comm a b [] ne =
    ground (arith, text_leb_total a.topic b.topic, text_leb_antisymm a.topic b.topic, ne)
insert_by_comm a b (c ∷ l) ne = ground (
  arith,
  text_leb_total a.topic b.topic,
  text_leb_antisymm a.topic b.topic,
  text_leb_total a.topic c.topic,
  text_leb_total b.topic c.topic,
  text_leb_trans a.topic b.topic c.topic,
  text_leb_trans b.topic a.topic c.topic,
  text_leb_trans a.topic c.topic b.topic,
  text_leb_trans b.topic c.topic a.topic,
  insert_by_comm a b l ne,
  ne,
)

abbrev topics : List Note → List Text
topics ns = map (λ n. n.topic) ns

sort_by-perm_eq :
    {xs ys : List Note} → Permᴰ xs ys → Nodup (topics xs) → sort_by key xs ≡ sort_by key ys
unfolding sort_by
sort_by-perm_eq Permᴰ.nil d = refl
sort_by-perm_eq (Permᴰ.cons {a = a} {b = b} {l₁ = xs} {l₂ = ys} e p) d =
    ap (λ n. insert_by key n (sort_by key xs)) e
    ∙ ap (insert_by key b) (sort_by-perm_eq p (Nodup-cons.0 d).1)
sort_by-perm_eq (Permᴰ.swap {a = a} {b = b} {a' = a'} {b' = b'} {l = l} e f) d =
    let apart : a.topic ≢ b.topic =
      λ same. (Nodup-cons.0 d).0 (subst (λ t. Mem a.topic (t ∷ topics l)) same mem-cons_self) in
    insert_by_comm a b (sort_by key l) apart
    ∙ ap (λ n. insert_by key n (insert_by key a (sort_by key l))) f
    ∙ ap (λ n. insert_by key a' (insert_by key n (sort_by key l))) e
sort_by-perm_eq (Permᴰ.trans p q) d =
    sort_by-perm_eq p d ∙ sort_by-perm_eq q (Perm.nodup (Perm.map (λ n. n.topic) ∣ p ∣₁) d)

prompt_text-perm_eq :
    {xs ys : List Note} → Permᴰ xs ys → Nodup (topics xs) → prompt_text xs ≡ prompt_text ys
unfolding prompt_text
prompt_text-perm_eq {xs = []} {ys = []} p d = refl
prompt_text-perm_eq {xs = []} {ys = y ∷ ys} p d = ap prompt_text (Perm.nil-eq ∣ p ∣₁)
prompt_text-perm_eq {xs = x ∷ xs} {ys = []} p d = ap prompt_text (Perm.eq-nil ∣ p ∣₁)
prompt_text-perm_eq {xs = x ∷ xs} {ys = y ∷ ys} p d =
    ap (λ l. preamble ++ sections l) (sort_by-perm_eq p d)

-- Notes with a topic each make the same text for the prompt in whatever order the store gives them.
prompt_text-perm :
    (xs ys : List Note) → Perm xs ys → Nodup (topics xs) → prompt_text xs ≡ prompt_text ys
prompt_text-perm xs ys p d = ∥∥₁_elim p (hlevel ℕ_discrete) (λ q. prompt_text-perm_eq q d)
