-- ===== src/Tools/Strings/Pieces.antt =====
-- Counting, replacing and splitting agree: a text is the pieces between the matches.
use agentgarage.Prelude.{
  ℕ, zero, suc, ◌+◌, ◌-◌, ◌<◌, ◌≡◌, refl, sym, ap, ◌∙◌, Bool, true, false, List, All, [], ◌∷◌, ◌++◌,
  Text, length, drop, arith, ltb, inl, inr, Bool-cases,
}
use agentgarage.Store.Keys.Range.{has_prefix}
use agentgarage.Tools.Strings.{
  starts, steps, count_from, count, replace_from, replace, replace_all, split, onto_first, cut,
  split_from, split, join,
}

has_prefix-drop : (p s : Text) → has_prefix p s ≡ true → p ++ drop (length p) s ≡ s
unfolding has_prefix
has_prefix-drop [] s h = refl
has_prefix-drop (r ∷ p) [] h = ground arith
has_prefix-drop (r ∷ p) (k ∷ s) h = ground (arith, has_prefix-drop p s)

pub has_prefix-append : (p s t : Text) → has_prefix p s ≡ true → has_prefix p (s ++ t) ≡ true
unfolding has_prefix
has_prefix-append [] s t h = refl
has_prefix-append (r ∷ p) [] t h = ground arith
has_prefix-append (r ∷ p) (k ∷ s) t h = ground (arith, has_prefix-append p s t)

abbrev IsCons : List Text → Type 0
IsCons [] = ⊥
IsCons (p ∷ ps) = Unit

onto_first-IsCons : (c : ℕ) (ps : List Text) → IsCons (onto_first c ps)
onto_first-IsCons c [] = tt
onto_first-IsCons c (p ∷ ps) = tt

cut-IsCons : (k : ℕ) (hit : Bool) (c : ℕ) (ps : List Text) → IsCons ps → IsCons (cut k hit c ps)
unfolding cut
cut-IsCons k true c ps h = tt
cut-IsCons zero false c ps h = onto_first-IsCons c ps
cut-IsCons (suc k) false c ps h = h

split_from-IsCons : (old : Text) (k : ℕ) (s : Text) → IsCons (split_from old k s)
unfolding split_from
split_from-IsCons old k [] = tt
split_from-IsCons old k (c ∷ s) =
    cut-IsCons k (starts old k (c ∷ s)) c _
      (split_from-IsCons old (steps old k (starts old k (c ∷ s))) s)

join-onto_first :
    (sep : Text) (c : ℕ) (ps : List Text) → IsCons ps → join sep (onto_first c ps) ≡ c ∷ join sep ps
unfolding join
join-onto_first sep c [] h = absurd h
join-onto_first sep c (p ∷ []) h = refl
join-onto_first sep c (p ∷ q ∷ ps) h = refl

join-nil : (sep : Text) (ps : List Text) → IsCons ps → join sep ([] ∷ ps) ≡ sep ++ join sep ps
unfolding join
join-nil sep [] h = absurd h
join-nil sep (p ∷ ps) h = refl

module _ (old : Text) (some_text : 0 < length old) where
  drop-match :
      (c : ℕ) (s : Text) → has_prefix old (c ∷ s) ≡ true → old ++ drop (length old - 1) s ≡ c ∷ s
  drop-match c s h =
      ap (λ n. old ++ drop n (c ∷ s)) (let e : suc (length old - 1) ≡ length old = omega arith in e)
      ∙ has_prefix-drop old (c ∷ s) h

  join-split_from : (k : ℕ) (s : Text) → join old (split_from old k s) ≡ drop k s
  unfolding split_from cut join
  join-split_from zero [] = refl
  join-split_from (suc k) [] = refl
  join-split_from (suc k) (c ∷ s) = join-split_from k s
  join-split_from zero (c ∷ s) = elim (Bool-cases (has_prefix old (c ∷ s))) [
    | inl hit ↦ rw hit (
        join-nil old _ (split_from-IsCons old (length old - 1) s)
        ∙ ap (λ t. old ++ t) (join-split_from (length old - 1) s)
        ∙ drop-match c s hit)
    | inr miss ↦ rw miss (
        join-onto_first old c _ (split_from-IsCons old 0 s) ∙ ap (λ t. c ∷ t) (join-split_from 0 s))
  ]

  -- With as many replacements as matches, each match is replaced.
  replace_from-join :
      (new : Text) (left k : ℕ) (s : Text)
      → left ≡ count_from old k s
      → replace_from old new left k s ≡ join new (split_from old k s)
  unfolding split_from replace_from count_from join
  replace_from-join new left zero [] e = refl
  replace_from-join new left (suc k) [] e = refl
  replace_from-join new left (suc k) (c ∷ s) e = replace_from-join new left k s e
  replace_from-join new left zero (c ∷ s) e = elim (Bool-cases (has_prefix old (c ∷ s))) [
    | inl hit ↦
        let more : ltb 0 left ≡ true = ground (arith, e) in
        rw (hit, more)
          (ap (λ t. new ++ t)
              (replace_from-join new (left - 1) (length old - 1) s (ground (arith, e, hit)))
            ∙ sym (join-nil new _ (split_from-IsCons old (length old - 1) s)))
    | inr miss ↦ rw miss (
        ap (λ t. c ∷ t) (replace_from-join new left 0 s (ground (arith, e, miss)))
        ∙ sym (join-onto_first new c _ (split_from-IsCons old 0 s)))
  ]

  length-onto_first : (c : ℕ) (ps : List Text) → IsCons ps → length (onto_first c ps) ≡ length ps
  length-onto_first c [] h = absurd h
  length-onto_first c (p ∷ ps) h = refl

  length-split_from : (k : ℕ) (s : Text) → length (split_from old k s) ≡ count_from old k s + 1
  unfolding split_from count_from cut
  length-split_from k [] = refl
  length-split_from (suc k) (c ∷ s) = length-split_from k s
  length-split_from zero (c ∷ s) = elim (Bool-cases (has_prefix old (c ∷ s))) [
    | inl hit ↦ rw hit (omega (arith, length-split_from (length old - 1) s))
    | inr miss ↦ rw miss (length-onto_first c _ (split_from-IsCons old 0 s) ∙ length-split_from 0 s)
  ]

  -- No match in a text.
  abbrev pub Free : Text → Type 0
  Free p = count_from old 0 p ≡ 0

  onto_first-Free :
      (c : ℕ) (ps : List Text)
      → IsCons ps
      → has_prefix old (c ∷ join old ps) ≡ false
      → All Free ps
      → All Free (onto_first c ps)
  unfolding join count_from
  onto_first-Free c [] k h f = absurd k
  onto_first-Free c (p ∷ []) k h f = (rw h f.0, tt)
  onto_first-Free c (p ∷ q ∷ ps) k h f = (
    rw
        ((λ (miss : has_prefix old (c ∷ p) ≡ false). miss)
          (ground (arith, h, has_prefix-append old (c ∷ p) (old ++ join old (q ∷ ps)))))
        f.0,
    f.1,
  )

  split_from-Free : (k : ℕ) (s : Text) → All Free (split_from old k s)
  unfolding split_from cut count_from
  split_from-Free k [] = (refl, tt)
  split_from-Free (suc k) (c ∷ s) = split_from-Free k s
  split_from-Free zero (c ∷ s) = elim (Bool-cases (has_prefix old (c ∷ s))) [
    | inl hit ↦ rw hit (refl, split_from-Free (length old - 1) s)
    | inr miss ↦ rw miss (
        onto_first-Free c _ (split_from-IsCons old 0 s) (rw (join-split_from 0 s) miss)
          (split_from-Free 0 s))
  ]

  -- Where each match is replaced, the pieces are joined by the new text.
  pub replace-join : (new s : Text) → replace old new (count old s) s ≡ join new (split old s)
  unfolding replace count split
  replace-join new s = replace_from-join new (count_from old 0 s) 0 s refl

  pub replace_all-join : (new s : Text) → replace_all old new s ≡ join new (split old s)
  unfolding replace_all
  replace_all-join new s = replace-join new s

  -- The pieces of a split are joined to the text, no match lies in one, and there is one more of them
  -- than there are matches.
  pub join-split : (s : Text) → join old (split old s) ≡ s
  unfolding split
  join-split s = join-split_from 0 s

  pub split-Free : (s : Text) → All Free (split old s)
  unfolding split
  split-Free s = split_from-Free 0 s

  pub length-split : (s : Text) → length (split old s) ≡ count old s + 1
  unfolding split count
  length-split s = length-split_from 0 s

  pub split-cons : (s : Text) → (p : Text) × (ps : List Text) × (split old s ≡ p ∷ ps)
  unfolding split
  split-cons s = named (split_from old 0 s) (split_from-IsCons old 0 s)
    where
      named : (l : List Text) → IsCons l → (p : Text) × (ps : List Text) × (l ≡ p ∷ ps)
      named [] h = absurd h
      named (p ∷ ps) h = (p, ps, refl)
