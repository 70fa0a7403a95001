-- ===== src/Chatroom/Mentions/Found.antt =====
-- A name is found in a text exactly if it stands there behind an '@', and no longer name does.
use agentgarage.Prelude.{
  ℕ, ◌==◌, ◌≡◌, ◌⊎◌, ◌↔◌, refl, sym, ap, ◌∙◌, inl, inr, Bool, true, false, List, [], ◌∷◌, ◌++◌,
  Text, All, arith, Bool-cases, if◌then◌else◌, append_assoc, append-nil,
}
use mathlib.Core.Path.{subst}
use agentgarage.Chatroom.Mentions.{
  is_letter, is_name_char, Place, outside, at_sign, naming, elsewhere, scan, mentions,
}

abbrev pub Elem : Text → List Text → Type 0
Elem t [] = ⊥
Elem t (u ∷ us) = (t ≡ u) ⊎ Elem t us

-- Characters of a name.
abbrev Chars : Text → Type 0
Chars t = All (λ c. is_name_char c ≡ true) t

abbrev pub IsName : Text → Type 0
IsName [] = ⊥
IsName (c ∷ s) = (is_letter c ≡ true) × Chars s

-- No name goes on here.
abbrev Ends : Text → Type 0
Ends [] = Unit
Ends (c ∷ s) = is_name_char c ≡ false

-- The name stands in the text behind an '@', and goes no further.
abbrev pub Stands : Text → Text → Type 0
Stands n text =
    (front : Text) × (rest : Text) × (text ≡ front ++ (64 ∷ (n ++ rest))) × IsName n × Ends rest

-- Of a search that is at a place: the name goes on from there, or stands further on.
abbrev Ahead : Text → Place → Text → Type 0
Ahead n outside s = Stands n s
Ahead n at_sign s = ((rest : Text) × (s ≡ n ++ rest) × IsName n × Ends rest) ⊎ Stands n s
Ahead n (naming m) s =
    ((more : Text) × (rest : Text) × (s ≡ more ++ rest) × (n ≡ m ++ more) × Chars more × Ends rest)
    ⊎ Stands n s

further : (c : ℕ) (n s : Text) → Stands n s → Stands n (c ∷ s)
further c n s (front, rest, e, i, h) = (c ∷ front, rest, ap (◌∷◌ c) e, i, h)

head_same : (c d : ℕ) (s t : Text) → c ∷ s ≡ d ∷ t → c ≡ d
head_same c d s t h = ground (arith, h)

tail_same : (c d : ℕ) (s t : Text) → c ∷ s ≡ d ∷ t → s ≡ t
tail_same c d s t h = ground (arith, h)

-- What a search that starts anew behind c finds.
elsewhere-Stands : (c : ℕ) (n s : Text) → Ahead n (elsewhere c) s → Stands n (c ∷ s)
elsewhere-Stands c n s a = elim (Bool-cases (c == 64)) [
  | inl same ↦ behind same (subst (λ b. Ahead n (if b then at_sign else outside) s) same a)
  | inr other ↦ further c n s (subst (λ b. Ahead n (if b then at_sign else outside) s) other a)
]
  where
    behind : (c == 64) ≡ true → Ahead n at_sign s → Stands n (c ∷ s)
    behind same (inl (rest, e, i, h)) = ([], rest, ground (arith, e, same), i, h)
    behind same (inr st) = further c n s st

-- And the other way round.
Stands-elsewhere : (c : ℕ) (n s : Text) → Stands n (c ∷ s) → Ahead n (elsewhere c) s
Stands-elsewhere c n s ([], rest, e, i, h) =
    let same : (c == 64) ≡ true = ground (arith, head_same c 64 s (n ++ rest) e) in
    rw same (inl (rest, tail_same c 64 s (n ++ rest) e, i, h))
Stands-elsewhere c n s (d ∷ front, rest, e, i, h) =
    let st : Stands n s = (front, rest, tail_same c d s _ e, i, h) in
    elim (Bool-cases (c == 64)) [ inl same ↦ rw same (inr st) | inr other ↦ rw other st ]

-- A name does not hold an '@'.
Stands-tail : (c : ℕ) (n s : Text) → is_name_char c ≡ true → Stands n (c ∷ s) → Stands n s
unfolding is_name_char is_letter
Stands-tail c n s k ([], rest, e, i, h) = absurd (ground (arith, k, head_same c 64 s (n ++ rest) e))
Stands-tail c n s k (d ∷ front, rest, e, i, h) = (front, rest, tail_same c d s _ e, i, h)

letter-name_char : (c : ℕ) → is_letter c ≡ true → is_name_char c ≡ true
unfolding is_name_char
letter-name_char c h = ground (arith, h)

scan-Ahead : (n : Text) (p : Place) (s : Text) → Elem n (scan p s) → Ahead n p s
unfolding scan
scan-Ahead n outside [] e = elim e [ ]
scan-Ahead n at_sign [] e = elim e [ ]
scan-Ahead n (naming m) [] (inl e) = inl ([], [], refl, e ∙ sym (append-nil m), tt, tt)
scan-Ahead n (naming m) [] (inr e) = elim e [ ]
scan-Ahead n outside (c ∷ s) e = elsewhere-Stands c n s (scan-Ahead n (elsewhere c) s e)
scan-Ahead n at_sign (c ∷ s) e =
    let a = scan-Ahead n (if is_letter c then naming (c ∷ []) else elsewhere c) s e in
    elim (Bool-cases (is_letter c)) [
      | inl letter ↦
          in_name letter
            (subst (λ b. Ahead n (if b then naming (c ∷ []) else elsewhere c) s) letter a)
      | inr other ↦ inr (
          elsewhere-Stands c n s
            (subst (λ b. Ahead n (if b then naming (c ∷ []) else elsewhere c) s) other a))
    ]
  where
    in_name : is_letter c ≡ true → Ahead n (naming (c ∷ [])) s → Ahead n at_sign (c ∷ s)
    in_name letter (inl (more, rest, e, same, k, h)) = inl (
      rest,
      ap (◌∷◌ c) e ∙ ap (λ t. t ++ rest) (sym same),
      subst IsName (sym same) (letter, k),
      h,
    )
    in_name letter (inr st) = inr (further c n s st)
scan-Ahead n (naming m) (c ∷ s) e =
    by_char (is_name_char c) refl (scan-Ahead n (naming (m ++ c ∷ [])) s)
      (λ f. elsewhere-Stands c n s (scan-Ahead n (elsewhere c) s f)) e
  where
    longer : is_name_char c ≡ true → Ahead n (naming (m ++ c ∷ [])) s → Ahead n (naming m) (c ∷ s)
    longer k (inl (more, rest, e, same, l, h)) =
        inl (c ∷ more, rest, ap (◌∷◌ c) e, same ∙ append_assoc m (c ∷ []) more, (k, l), h)
    longer k (inr st) = inr (further c n s st)

    by_char :
        (b : Bool)
        → is_name_char c ≡ b
        → (Elem n (scan (naming (m ++ c ∷ [])) s) → Ahead n (naming (m ++ c ∷ [])) s)
        → (Elem n (scan (elsewhere c) s) → Stands n (c ∷ s))
        → Elem n (if b then scan (naming (m ++ c ∷ [])) s else m ∷ scan (elsewhere c) s)
        → Ahead n (naming m) (c ∷ s)
    by_char true k goes stops e = longer k (goes e)
    by_char false k goes stops (inl same) = inl ([], c ∷ s, refl, same ∙ sym (append-nil m), tt, k)
    by_char false k goes stops (inr e) = inr (stops e)

nothing-Stands : (n : Text) → Stands n [] → ⊥
nothing-Stands n ([], rest, e, i, h) = ground (arith, e)
nothing-Stands n (d ∷ front, rest, e, i, h) = ground (arith, e)

at_sign-Ahead :
    (n : Text) (c : ℕ) (s : Text)
    → Ahead n at_sign (c ∷ s)
    → Ahead n (if is_letter c then naming (c ∷ []) else elsewhere c) s
at_sign-Ahead [] c s (inl (rest, e, i, h)) = elim i [ ]
at_sign-Ahead (d ∷ n) c s (inl (rest, e, i, h)) =
    let same = head_same c d s (n ++ rest) e in
    let letter : is_letter c ≡ true = ap is_letter same ∙ i.0 in
    rw letter (inl (n, rest, tail_same c d s (n ++ rest) e, ap (λ x. x ∷ n) (sym same), i.1, h))
at_sign-Ahead n c s (inr st) = elim (Bool-cases (is_letter c)) [
  | inl letter ↦ rw letter (inr (Stands-tail c n s (letter-name_char c letter) st))
  | inr other ↦ rw other (Stands-elsewhere c n s st)
]

Ahead-scan : (n : Text) (p : Place) (s : Text) → Ahead n p s → Elem n (scan p s)
unfolding scan
Ahead-scan n outside [] a = nothing-Stands n a
Ahead-scan [] at_sign [] (inl (rest, e, i, h)) = elim i [ ]
Ahead-scan (d ∷ n) at_sign [] (inl (rest, e, i, h)) = absurd (ground (arith, e))
Ahead-scan n at_sign [] (inr st) = nothing-Stands n st
Ahead-scan n (naming m) [] (inl ([], rest, e, same, k, h)) = inl (same ∙ append-nil m)
Ahead-scan n (naming m) [] (inl (d ∷ more, rest, e, same, k, h)) = absurd (ground (arith, e))
Ahead-scan n (naming m) [] (inr st) = absurd (nothing-Stands n st)
Ahead-scan n outside (c ∷ s) a = Ahead-scan n (elsewhere c) s (Stands-elsewhere c n s a)
Ahead-scan n at_sign (c ∷ s) a =
    Ahead-scan n (if is_letter c then naming (c ∷ []) else elsewhere c) s (at_sign-Ahead n c s a)
Ahead-scan n (naming m) (c ∷ s) a =
    by_char (is_name_char c) refl (Ahead-scan n (naming (m ++ c ∷ [])) s)
      (λ st. Ahead-scan n (elsewhere c) s (Stands-elsewhere c n s st)) a
  where
    by_char :
        (b : Bool)
        → is_name_char c ≡ b
        → (Ahead n (naming (m ++ c ∷ [])) s → Elem n (scan (naming (m ++ c ∷ [])) s))
        → (Stands n (c ∷ s) → Elem n (scan (elsewhere c) s))
        → Ahead n (naming m) (c ∷ s)
        → Elem n (if b then scan (naming (m ++ c ∷ [])) s else m ∷ scan (elsewhere c) s)
    by_char true k goes stops (inl ([], rest, e, same, l, h)) =
        absurd (ground (arith, k, subst Ends (sym e) h))
    by_char true k goes stops (inl (d ∷ more, rest, e, same, l, h)) = goes (
        inl (
          more,
          rest,
          tail_same c d s _ e,
          same
              ∙ ap (λ x. m ++ x ∷ more) (sym (head_same c d s _ e))
              ∙ sym (append_assoc m (c ∷ []) more),
          l.1,
          h,
        ))
    by_char true k goes stops (inr st) = goes (inr (Stands-tail c n s k st))
    by_char false k goes stops (inl ([], rest, e, same, l, h)) = inl (same ∙ append-nil m)
    by_char false k goes stops (inl (d ∷ more, rest, e, same, l, h)) =
        absurd (ground (arith, k, l.0, head_same c d s _ e))
    by_char false k goes stops (inr st) = inr (stops st)

-- The mentions of a text are the names that stand in it behind an '@', each as long as it goes.
pub mentions-Stands : (n text : Text) → Elem n (mentions text) ↔ Stands n text
unfolding mentions
mentions-Stands n text = (scan-Ahead n outside text, Ahead-scan n outside text)
