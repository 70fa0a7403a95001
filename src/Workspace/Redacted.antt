-- ===== src/Workspace/Redacted.antt =====
-- No credential shows in what a command prints.
use mathlib.Core.Path.{subst}
use agentgarage.Prelude.{
  ℕ, ◌<◌, ◌≡◌, ◌≢◌, refl, sym, true, false, List, [], ◌∷◌, ◌++◌, Text, codes, length, leb, All,
  All-weaken, arith, append_assoc, inl, inr, Bool-cases,
}
use agentgarage.Store.Keys.Range.{has_prefix}
use agentgarage.Tools.Strings.{count_from, join, split, replace_all}
use agentgarage.Tools.Strings.Pieces.{
  Free, has_prefix-append, replace_all-join, join-split, split-Free,
}
use agentgarage.Tools.Shell.{byte_len}
use agentgarage.Workspace.{label, redact}

has_prefix-nil : (u : Text) → 0 < length u → has_prefix u [] ≡ false
unfolding has_prefix
has_prefix-nil [] h = elim h [ ]
has_prefix-nil (x ∷ u) h = refl

pub length_pos : (value : Text) → leb 4 (byte_len value) ≡ true → 0 < length value
unfolding byte_len
length_pos [] h = ground arith
length_pos (c ∷ value) h = omega arith

module _ (v : Text) where
  -- The text v does not occur.
  abbrev pub Absent : Text → Type 0
  Absent [] = Unit
  Absent (c ∷ s) = (has_prefix v (c ∷ s) ≡ false) × Absent s

  Absent-left : (a b : Text) → Absent (a ++ b) → Absent a
  Absent-left [] b h = tt
  Absent-left (c ∷ a) b h =
      (ground (arith, h.0, has_prefix-append v (c ∷ a) b), Absent-left a b h.1)

  Absent-right : (a b : Text) → Absent (a ++ b) → Absent b
  Absent-right [] b h = h
  Absent-right (c ∷ a) b h = Absent-right a b h.1

  Absent-pieces : (sep : Text) (ps : List Text) → Absent (join sep ps) → All Absent ps
  unfolding join
  Absent-pieces sep [] h = tt
  Absent-pieces sep (p ∷ []) h = (h, tt)
  Absent-pieces sep (p ∷ q ∷ ps) h = (
    Absent-left p (sep ++ join sep (q ∷ ps)) h,
    Absent-pieces sep (q ∷ ps)
        (Absent-right sep (join sep (q ∷ ps)) (Absent-right p (sep ++ join sep (q ∷ ps)) h)),
  )

  module _ (some_text : 0 < length v) where
    Free-Absent : (s : Text) → Free v some_text s → Absent s
    unfolding count_from
    Free-Absent [] h = tt
    Free-Absent (c ∷ s) h = elim (Bool-cases (has_prefix v (c ∷ s))) [
      | inl hit ↦ ground (arith, h, hit)
      | inr miss ↦ (miss, Free-Absent s (ground (arith, h, miss)))
    ]

  -- A text that lacks c does not stretch over it.
  has_prefix-mid :
      (u a b : Text) (c : ℕ)
      → All (λ x. x ≢ c) u
      → has_prefix u a ≡ false
      → has_prefix u (a ++ c ∷ b) ≡ false
  unfolding has_prefix
  has_prefix-mid [] a b c h n = n
  has_prefix-mid (x ∷ u) [] b c h n = ground (arith, h.0)
  has_prefix-mid (x ∷ u) (y ∷ a) b c h n = ground (arith, n, has_prefix-mid u a b c h.1)

  module _ (some_text : 0 < length v) where
    Absent-mid :
        (a b : Text) (c : ℕ) → All (λ x. x ≢ c) v → Absent a → Absent b → Absent (a ++ c ∷ b)
    Absent-mid [] b c h n m = (has_prefix-mid v [] b c h (has_prefix-nil v some_text), m)
    Absent-mid (y ∷ a) b c h n m = (has_prefix-mid v (y ∷ a) b c h n.0, Absent-mid a b c h n.1 m)

    -- Neither bracket stands in v.
    abbrev pub NoBracket : Type 0
    NoBracket = All (λ x. x ≢ b'[') v × All (λ x. x ≢ b']') v

    -- What stands between the brackets of a label.
    abbrev pub Unlabelled : Text × Text → Type 0
    Unlabelled e = Absent (codes "redacted " ++ e.0)

    Absent-join :
        (name : Text) (ps : List Text)
        → NoBracket
        → Absent (codes "redacted " ++ name)
        → All Absent ps
        → Absent (join (label name) ps)
    unfolding join label
    Absent-join name [] n l h = tt
    Absent-join name (p ∷ []) n l h = h.0
    Absent-join name (p ∷ q ∷ ps) n l h =
        let rest = join (label name) (q ∷ ps) in
        Absent-mid p (((codes "redacted " ++ name) ++ codes "]") ++ rest) b'[' n.0 h.0 (
          subst Absent (sym (append_assoc (codes "redacted " ++ name) (codes "]") rest)) (
            Absent-mid (codes "redacted " ++ name) rest b']' n.1 l
              (Absent-join name (q ∷ ps) n l h.1)))

    replace_all-Absent :
        (name value s : Text)
        → 0 < length value
        → NoBracket
        → Absent (codes "redacted " ++ name)
        → All Absent (split value s)
        → Absent (replace_all value (label name) s)
    replace_all-Absent name value s some n l h =
        subst Absent (sym (replace_all-join value some (label name) s))
          (Absent-join name (split value s) n l h)

    redact-keeps :
        (env : List (Text × Text)) (s : Text)
        → NoBracket
        → All Unlabelled env
        → Absent s
        → Absent (redact env s)
    unfolding redact
    redact-keeps [] s n u h = h
    redact-keeps ((name, value) ∷ env) s n u h = elim (Bool-cases (leb 4 (byte_len value))) [
      | inr short ↦ rw short (redact-keeps env s n u.1 h)
      | inl long ↦ rw long (
          redact-keeps env (replace_all value (label name) s) n u.1 (
            replace_all-Absent name value s (length_pos value long) n u.0 (
              Absent-pieces value (split value s)
                (subst Absent (sym (join-split value (length_pos value long) s)) h))))
    ]

    redact-append :
        (env more : List (Text × Text)) (s : Text)
        → redact (env ++ more) s ≡ redact more (redact env s)
    unfolding redact
    redact-append [] more s = refl
    redact-append ((name, value) ∷ env) more s = redact-append env more _

-- A credential of four bytes or more in which no square bracket stands, and which occurs in no text
-- "redacted NAME" of a credential's name, does not occur in a text after redaction, wherever it stands
-- among the credentials and whatever else is redacted.
pub redact-Absent :
    (before behind : List (Text × Text)) (name v s : Text) (long : leb 4 (byte_len v) ≡ true)
    → NoBracket v (length_pos v long)
    → All (Unlabelled v (length_pos v long)) ((name, v) ∷ behind)
    → Absent v (redact (before ++ (name, v) ∷ behind) s)
unfolding redact
redact-Absent before behind name v s long n u =
    subst (Absent v) (sym (redact-append v (length_pos v long) before ((name, v) ∷ behind) s)) (
      rw long (
        redact-keeps v (length_pos v long) behind _ n u.1 (
          replace_all-Absent v (length_pos v long) name v (redact before s) (length_pos v long) n
            u.0
            (All-weaken (split v (redact before s)) (Free-Absent v (length_pos v long))
              (split-Free v (length_pos v long) (redact before s))))))
