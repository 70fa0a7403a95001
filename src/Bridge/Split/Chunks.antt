-- ===== src/Bridge/Split/Chunks.antt =====
-- The messages that a text is split into: how long they are, and that nothing is lost.
use native.Mathlib.Numerals.{add-one}
use mathlib.Core.List.{append-nil}
use agentgarage.Prelude.{
  ℕ, zero, suc, ◌+◌, ◌/◌, ◌≤◌, ◌<◌, ◌≡◌, refl, ap, sym, ◌⊎◌, inl, inr, Bool, true, false, Option,
  none, some, List, [], ◌∷◌, ◌++◌, Text, arith, ◌==◌, ltb, leb, length, get_elem?, take, drop,
  length-take, length-drop, take-append-drop, if◌then◌else◌, Bool-cases,
}
use agentgarage.Bridge.Split.{
  last_index_from, last_index_rune, break_point, split_from, effective, split_message, in_back_half,
  index_or,
}

last_index_from-found :
    (runes : Text) (target n i : ℕ)
    → last_index_from runes target n ≡ some i
    → (i < n) × (get_elem? runes i ≡ some target)
unfolding last_index_from
last_index_from-found runes target zero i h = cc
last_index_from-found runes target (suc n) i h =
    ground (arith, last_index_from-found runes target n i)

-- The separators that a break may drop.
abbrev IsSeparator : ℕ → Type 0
IsSeparator r = (r ≡ b'\n') ⊎ (r ≡ b' ')

-- A cut: at a separator in the back half, which is dropped, or at the end of the window.
abbrev IsBreak : Text → ℕ × Bool → Type 0
IsBreak w (cut, dropped) =
    ((dropped ≡ true)
      × (cut < length w)
      × (length w / 2 ≤ cut)
      × ((r : ℕ) × (get_elem? w cut ≡ some r) × IsSeparator r))
    ⊎ ((dropped ≡ false) × (cut ≡ length w))

back_half :
    (w : Text) (target : ℕ)
    → in_back_half (last_index_rune w target) (length w) ≡ true
    → let i = index_or (last_index_rune w target) (length w) in
      (i < length w) × (length w / 2 ≤ i) × (get_elem? w i ≡ some target)
unfolding last_index_rune
back_half w target h = go (last_index_rune w target) refl h
  where
    go :
        (o : Option ℕ)
        → last_index_from w target (length w) ≡ o
        → in_back_half o (length w) ≡ true
        → (index_or o (length w) < length w)
          × (length w / 2 ≤ index_or o (length w))
          × (get_elem? w (index_or o (length w)) ≡ some target)
    go none e t = cc
    go (some i) e t =
        let (lt, at) = last_index_from-found w target (length w) i e in (lt, ground arith, at)

break_point-IsBreak : (w : Text) → IsBreak w (break_point w)
unfolding break_point
break_point-IsBreak w = elim (Bool-cases (in_back_half (last_index_rune w b'\n') (length w))) [
  | inl newline ↦
      let (lt, half, at) = back_half w b'\n' newline in
      rw newline (inl (refl, lt, half, (b'\n', at, inl refl)))
  | inr other ↦ elim (Bool-cases (in_back_half (last_index_rune w b' ') (length w))) [
    | inl space ↦
        let (lt, half, at) = back_half w b' ' space in
        rw (other, space) (inl (refl, lt, half, (b' ', at, inr refl)))
    | inr none_found ↦ rw (other, none_found) (inr (refl, refl))
  ]
]

-- The chunks in order, each but the last followed by what was dropped, make up the text.
abbrev pub Rejoins : List Text → Text → Type 0
Rejoins [] s = s ≡ []
Rejoins (c ∷ cs) s =
    (dropped : Text) × (rest : Text) × (s ≡ c ++ (dropped ++ rest))
    × ((dropped ≡ []) ⊎ ((r : ℕ) × (dropped ≡ r ∷ []) × IsSeparator r))
    × Rejoins cs rest

-- No chunk is longer than the limit, and all but the last are at least half of it.
abbrev pub Fits : ℕ → List Text → Type 0
Fits limit [] = Unit
Fits limit (c ∷ []) = length c ≤ limit
Fits limit (c ∷ d ∷ cs) = (length c ≤ limit) × (limit / 2 ≤ length c) × Fits limit (d ∷ cs)

abbrev Split : ℕ → Text → Option (List Text) → Type 0
Split limit s r = (cs : List Text) × (r ≡ some cs) × Fits limit cs × Rejoins cs s

get_elem?-take :
    (n : ℕ) (s : Text) (i : ℕ) {r : ℕ} → get_elem? (take n s) i ≡ some r → get_elem? s i ≡ some r
get_elem?-take zero s i h = ground arith
get_elem?-take (suc n) [] i h = h
get_elem?-take (suc n) (x ∷ s) zero h = h
get_elem?-take (suc n) (x ∷ s) (suc i) h = get_elem?-take n s i h

take-drop_at :
    (i : ℕ) (s : Text) {r : ℕ} → get_elem? s i ≡ some r → s ≡ take i s ++ (r ∷ drop (suc i) s)
take-drop_at i [] h = ground arith
take-drop_at zero (x ∷ s) h = ground arith
take-drop_at (suc i) (x ∷ s) h = ap (◌∷◌ x) (take-drop_at i s h)

abbrev next_of : ℕ × Bool → ℕ
next_of (cut, dropped) = if dropped then cut + 1 else cut

-- A cut goes forward, by no more than the limit and one separator.
next_of-pos : (w : Text) (bp : ℕ × Bool) → IsBreak w bp → 0 < length w → 0 < next_of bp
next_of-pos w bp h l = ground arith

Fits-cons :
    (limit : ℕ) (c : Text) (cs : List Text)
    → length c ≤ limit
    → limit / 2 ≤ length c
    → Fits limit cs
    → Fits limit (c ∷ cs)
Fits-cons limit c [] h k f = h
Fits-cons limit c (d ∷ cs) h k f = (h, k, f)

Rejoins-cons :
    (s : Text) (limit : ℕ) (bp : ℕ × Bool) (cs : List Text)
    → IsBreak (take limit s) bp
    → limit < length s
    → Rejoins cs (drop (next_of bp) s)
    → Rejoins (take bp.0 s ∷ cs) s
Rejoins-cons s limit (cut, dropped) cs (inl (d, lt, half, (r, at, sep))) long rest = (
  r ∷ [],
  drop (cut + 1) s,
  rw add-one (take-drop_at cut s (get_elem?-take limit s cut at)),
  inr (r, refl, sep),
  rw d at rest,
)
Rejoins-cons s limit (cut, dropped) cs (inr (d, all)) long rest =
    ([], drop cut s, sym (take-append-drop cut s), inl refl, rw d at rest)

split_from-Split :
    (fuel : ℕ) (s : Text) (limit : ℕ)
    → 0 < fuel
    → 0 < limit
    → length s < fuel + limit
    → Split limit s (split_from fuel s limit)
unfolding split_from
split_from-Split zero s limit f l h = absurd (omega arith)
split_from-Split (suc fuel) s limit f l h = elim (Bool-cases (ltb limit (length s))) [
  | inl long ↦
      let w = take limit s in
      let bp = break_point w in
      let at = break_point-IsBreak w in
      let width = length-take limit s in
      let moved = next_of-pos w bp at (ground (arith, width)) in
      let (cs, e, fits, joined) =
        split_from-Split fuel (drop (next_of bp) s) limit (ground arith) l
          (ground (arith, length-drop (next_of bp) s)) in
      (
        take bp.0 s ∷ cs,
        ground (arith, e),
        Fits-cons limit (take bp.0 s) cs (ground (arith, length-take bp.0 s))
            (ground (arith, length-take bp.0 s)) fits,
        Rejoins-cons s limit bp cs at (ground arith) joined,
      )
  | inr short ↦ rw short (last s (ground arith))
]
  where
    last :
        (t : Text)
        → length t ≤ limit
        → Split limit t (if ltb 0 (length t) then some (t ∷ []) else some [])
    last [] k = ([], refl, tt, refl)
    last (x ∷ t) k =
        ((x ∷ t) ∷ [], ground arith, k, ([], [], ap (◌∷◌ x) (sym (append-nil t)), inl refl, refl))

nil_of : (s : Text) → length s ≡ 0 → s ≡ []
nil_of [] h = refl
nil_of (x ∷ s) h = ground arith

effective_pos : (limit : ℕ) → 0 < effective limit
unfolding effective
effective_pos limit = ground arith

-- `splitMessage` always returns. Each message has at most `limit` runes, each but the last at least
-- half of that, and the messages in order are the text, but for a newline or a space between two of
-- them that may be dropped. (A limit of 0 counts as 4096.)
pub split_message-Split :
    (s : Text) (limit : ℕ)
    → (chunks : List Text) × (split_message s limit ≡ some chunks)
      × Fits (effective limit) chunks
      × Rejoins chunks s
unfolding split_message
split_message-Split s limit = elim (Bool-cases (length s == 0)) [
  | inl empty ↦ rw empty ([], refl, tt, nil_of s (ground arith))
  | inr some_text ↦ elim (Bool-cases (leb (length s) (effective limit))) [
    | inl fits ↦
        rw (some_text, fits)
          (s ∷ [], refl, ground arith, ([], [], sym (append-nil s), inl refl, refl))
    | inr long ↦
        rw (some_text, long)
          (split_from-Split (length s) s (effective limit) (ground arith) (effective_pos limit)
            (ground (arith, effective_pos limit)))
  ]
]
