-- ===== src/Bridge/Xmpp/Schedule/Next.antt =====
-- The next due time of a schedule.
use agentgarage.Prelude.{
  ℕ, ◌+◌, ◌*◌, ◌/◌, ◌%◌, ◌≤◌, ◌<◌, ltb, ◌≡◌, refl, sym, ◌⊎◌, inl, inr, Option, none, some, List, [],
  ◌∷◌, ◌++◌, Text, All, All-append, All-weaken, append_assoc, append-nil, arith, Bool-cases,
  Option-cases,
}
use mathlib.Core.Path.{subst}
use agentgarage.Bridge.Lines.{trim_space}
use agentgarage.Bridge.Xmpp.Schedule.{
  Zone, time_of_day, due_at, next_from, next_due, sooner, clock, hour, minute, with_minute,
}

-- The times of day among the texts of a schedule.
unfoldable pub clocks : List Text → List ℕ
unfolding time_of_day
clocks [] = []
clocks (raw ∷ rs) = elim (time_of_day raw) [ none ↦ clocks rs | some c ↦ c ∷ clocks rs ]

abbrev pub Elem : ℕ → List ℕ → Type 0
Elem c [] = ⊥
Elem c (d ∷ ds) = (c ≡ d) ⊎ Elem c ds

-- The least due time of the clocks, if there are any.
abbrev IsNext : Zone → ℕ → List ℕ → Option ℕ → Type 0
IsNext z now cs none = cs ≡ []
IsNext z now cs (some t) =
    ((c : ℕ) × Elem c cs × (t ≡ due_at z now c)) × All (λ c. t ≤ due_at z now c) cs

Elem-left : (c : ℕ) (ds es : List ℕ) → Elem c ds → Elem c (ds ++ es)
Elem-left c [] es h = elim h [ ]
Elem-left c (d ∷ ds) es (inl h) = inl h
Elem-left c (d ∷ ds) es (inr h) = inr (Elem-left c ds es h)

Elem-right : (ds : List ℕ) (c : ℕ) → Elem c (ds ++ c ∷ [])
Elem-right [] c = inl refl
Elem-right (d ∷ ds) c = inr (Elem-right ds c)

one_more :
    (z : Zone) (now : ℕ) (seen : List ℕ) (next : Option ℕ) (c : ℕ)
    → IsNext z now seen next
    → IsNext z now (seen ++ c ∷ []) (some (sooner z next (due_at z now c)))
one_more z now seen none c h = rw h ((c, inl refl, refl), (omega arith, tt))
one_more z now seen (some t) c ((d, e, same), least) = elim (Bool-cases (ltb (due_at z now c) t)) [
  | inl before ↦ rw before (
    (c, Elem-right seen c, refl),
    All-append _ seen (c ∷ []) (All-weaken seen (λ k l. ground (arith, l, before)) least)
        (omega arith, tt),
  )
  | inr later ↦ rw later (
    (d, Elem-left d seen (c ∷ []) e, same),
    All-append _ seen (c ∷ []) least (ground (arith, later), tt),
  )
]

-- The clocks `seen` were read, and `next` is the least of their due times.
next_from-IsNext :
    (z : Zone) (now : ℕ) (seen : List ℕ) (next : Option ℕ) (times : List Text)
    → IsNext z now seen next
    → IsNext z now (seen ++ clocks times) (next_from z now next times)
unfolding next_from clocks
next_from-IsNext z now seen next [] h = rw (append-nil seen) h
next_from-IsNext z now seen next (raw ∷ rs) h = elim (Option-cases (time_of_day raw)) [
  | inl bad ↦ rw (next_from, clocks, bad) (next_from-IsNext z now seen next rs h)
  | inr (c, good) ↦
      rw (next_from, clocks, good, sym (append_assoc seen (c ∷ []) (clocks rs)))
        (next_from-IsNext z now (seen ++ c ∷ []) (some (sooner z next (due_at z now c))) rs
          (one_more z now seen next c h))
]

-- The next due time is the least of those of the schedule's times, and there is none only where no
-- time is valid.
next_due-IsNext :
    (z : Zone) (now : ℕ) (times : List Text) → IsNext z now (clocks times) (next_due z now times)
unfolding next_due clocks
next_due-IsNext z now times = next_from-IsNext z now [] none times refl

-- Days whose clock never changes, from a midnight on.
abbrev steady : Zone
steady = record { day_of = λ t. t / 86400; clock_of = λ t. t % 86400; at = λ d c. d * 86400 + c }

due_steady :
    (now c u : ℕ)
    → c < 86400
    → u % 86400 ≡ c
    → now < u
    → (now < due_at steady now c)
      × (due_at steady now c ≤ u)
      × (due_at steady now c ≤ now + 86400)
      × (due_at steady now c % 86400 ≡ c)
unfolding due_at
due_steady now c u h e l = ground arith

clock_bound : (h : ℕ) (m : Option ℕ) (c : ℕ) → clock h m ≡ some c → c < 86400
clock_bound h none c e = ground arith
clock_bound h (some m) c e = ground (arith, e)

time_of_day_bound : (raw : Text) (c : ℕ) → time_of_day raw ≡ some c → c < 86400
unfolding time_of_day
time_of_day_bound raw c h = by_hour (hour (trim_space raw)) h
  where
    by_hour : (r : Option (ℕ × Text)) → with_minute r ≡ some c → c < 86400
    by_hour none e = ground arith
    by_hour (some (n, s)) e = clock_bound n (minute s) c e

clocks_bound : (times : List Text) → All (λ c. c < 86400) (clocks times)
unfolding clocks
clocks_bound [] = tt
clocks_bound (raw ∷ rs) = elim (Option-cases (time_of_day raw)) [
  | inl bad ↦ rw (clocks, bad) (clocks_bound rs)
  | inr (c, good) ↦ rw (clocks, good) (time_of_day_bound raw c good, clocks_bound rs)
]

All-Elem : (P : ℕ → Type 0) (c : ℕ) (cs : List ℕ) → All P cs → Elem c cs → P c
All-Elem P c [] h e = elim e [ ]
All-Elem P c (d ∷ ds) h (inl e) = subst P (sym e) h.0
All-Elem P c (d ∷ ds) h (inr e) = All-Elem P c ds h.1 e

-- Where the clock never changes, the next slot is within a day the first instant after now at which
-- the clock shows one of the schedule's times.
pub next_due_first :
    (now : ℕ) (times : List Text) (t : ℕ)
    → next_due steady now times ≡ some t
    → (now < t)
      × (t ≤ now + 86400)
      × Elem (t % 86400) (clocks times)
      × ((u : ℕ) → now < u → Elem (u % 86400) (clocks times) → t ≤ u)
next_due_first now times t h =
    let ((c, i, same), least) =
      subst (IsNext steady now (clocks times)) h (next_due-IsNext steady now times) in
    let b = All-Elem (λ c. c < 86400) c (clocks times) (clocks_bound times) i in
    let (after, first, within, shows) =
      due_steady now c (now / 86400 * 86400 + 86400 + c) b (omega arith) (omega arith) in
    (
      rw same after,
      rw same within,
      rw same (rw shows i),
      λ u later v.
          let d = All-Elem (λ c. t ≤ due_at steady now c) (u % 86400) (clocks times) least v in
          let k = due_steady now (u % 86400) u (omega arith) refl later in omega (arith, d, k.1),
    )
