-- ===== src/Prelude/Sort.antt =====
-- `slices.Sort` and `slices.SortFunc` by a text key: a stable insertion sort stands for them.
use mathlib.Core.Path.{◌≡◌}
use mathlib.Core.Logic.{inl, inr}
use mathlib.Core.Bool.{true}
use mathlib.Core.List.{List, [], ◌∷◌, Perm}
use mathlib.Core.List.Perm
use native.Mathlib.Omega.{arith}
use agentgarage.Prelude.Tests.{if◌then◌else◌, Bool-cases}
use agentgarage.Prelude.Lists.{All}
use agentgarage.Prelude.Texts.{Text, text_leb, text_leb_total, text_leb_trans}

module _ {ℓ} {A : Type ℓ} (key : A → Text) where
  unfoldable pub insert_by : A → List A → List A
  insert_by a [] = a ∷ []
  insert_by a (b ∷ l) = if text_leb (key a) (key b) then a ∷ b ∷ l else b ∷ insert_by a l

  unfoldable pub sort_by : List A → List A
  unfolding insert_by
  sort_by [] = []
  sort_by (a ∷ l) = insert_by a (sort_by l)

  -- Each key is at most all that follow it.
  abbrev pub IsSorted : List A → Type 0
  IsSorted [] = Unit
  IsSorted (a ∷ l) = All (λ b. text_leb (key a) (key b) ≡ true) l × IsSorted l

  AllAbove : A → List A → Type 0
  AllAbove a l = All (λ b. text_leb (key a) (key b) ≡ true) l

  AllAbove-trans :
      (a b : A) (l : List A) → text_leb (key a) (key b) ≡ true → AllAbove b l → AllAbove a l
  unfolding AllAbove
  AllAbove-trans a b [] h t = tt
  AllAbove-trans a b (c ∷ l) h t =
      (text_leb_trans (key a) (key b) (key c) h t.0, AllAbove-trans a b l h t.1)

  AllAbove-insert :
      (a b : A) (l : List A)
      → text_leb (key b) (key a) ≡ true
      → AllAbove b l
      → AllAbove b (insert_by a l)
  unfolding AllAbove insert_by
  AllAbove-insert a b [] h t = (h, tt)
  AllAbove-insert a b (c ∷ l) h t = ground (arith, AllAbove-insert a b l h t.1)

  insert_by-IsSorted : (a : A) (l : List A) → IsSorted l → IsSorted (insert_by a l)
  unfolding insert_by AllAbove
  insert_by-IsSorted a [] s = (tt, tt)
  insert_by-IsSorted a (b ∷ l) s = elim (Bool-cases (text_leb (key a) (key b))) [
    | inl h ↦ rw h ((h, AllAbove-trans a b l h s.0), s)
    | inr h ↦ rw h (
      AllAbove-insert a b l (ground (arith, text_leb_total (key a) (key b))) s.0,
      insert_by-IsSorted a l s.1,
    )
  ]

  pub sort_by-IsSorted : (l : List A) → IsSorted (sort_by l)
  unfolding sort_by
  sort_by-IsSorted [] = tt
  sort_by-IsSorted (a ∷ l) = insert_by-IsSorted a (sort_by l) (sort_by-IsSorted l)

  insert_by-perm : (a : A) (l : List A) → Perm (insert_by a l) (a ∷ l)
  unfolding insert_by
  insert_by-perm a [] = Perm.refl (a ∷ [])
  insert_by-perm a (b ∷ l) = elim (Bool-cases (text_leb (key a) (key b))) [
    | inl h ↦ rw h (Perm.refl (a ∷ b ∷ l))
    | inr h ↦ rw h (Perm.trans (Perm.cons b (insert_by-perm a l)) (Perm.swap a b l))
  ]

  pub sort_by-perm : (l : List A) → Perm (sort_by l) l
  unfolding sort_by
  sort_by-perm [] = Perm.nil
  sort_by-perm (a ∷ l) = Perm.trans (insert_by-perm a (sort_by l)) (Perm.cons a (sort_by-perm l))
