-- ===== src/Store/Table/Laws.antt =====
-- The key-value table holds what was last put under each key, and lists it by prefix.
use agentgarage.Prelude.{
  ℕ, ◌≡◌, ◌≢◌, refl, Option, none, some, List, [], ◌∷◌, Text, arith, All, text_eq_iff, text_eq_refl,
  if◌then◌else◌, sort_by, IsSorted, sort_by-IsSorted, sort_by-perm,
}
use mathlib.Core.Path.{subst}
use mathlib.Core.List.{Perm}
use agentgarage.Store.Keys.Range.{IsRune, has_prefix, selected-has_prefix}
use agentgarage.Store.Table.{
  Row, Entry, Answer, row_at, value_of, not_null, upsert, delete_rows, in_range, get, put, delete,
  list,
}

row_at-upsert :
    (key value : Text) (now : ℕ) (rows : List Row)
    → value_of (row_at key (upsert key value now rows)) ≡ some value
unfolding row_at upsert
row_at-upsert key value now [] = ground (arith, text_eq_refl key)
row_at-upsert key value now (r ∷ rs) =
    ground (arith, row_at-upsert key value now rs, text_eq_refl key)

row_at-upsert_ne :
    (key other value : Text) (now : ℕ) (rows : List Row)
    → key ≢ other
    → row_at other (upsert key value now rows) ≡ row_at other rows
unfolding row_at upsert
row_at-upsert_ne key other value now [] ne = ground (arith, text_eq_iff key other, ne)
row_at-upsert_ne key other value now (r ∷ rs) ne = ground (
  arith,
  row_at-upsert_ne key other value now rs ne,
  text_eq_iff r.key key,
  text_eq_iff r.key other,
  ne,
)

row_at-delete : (key : Text) (rows : List Row) → row_at key (delete_rows key rows) ≡ none
unfolding row_at delete_rows
row_at-delete key [] = refl
row_at-delete key (r ∷ rs) = ground (arith, row_at-delete key rs)

row_at-delete_ne :
    (key other : Text) (rows : List Row)
    → key ≢ other
    → row_at other (delete_rows key rows) ≡ row_at other rows
unfolding row_at delete_rows
row_at-delete_ne key other [] ne = refl
row_at-delete_ne key other (r ∷ rs) ne =
    ground
      (arith, row_at-delete_ne key other rs ne, text_eq_iff r.key key, text_eq_iff r.key other, ne)

-- With a context that is not done, a value that was put under a key is read back, an absent one as
-- the empty value; a key that was deleted is not found; and neither changes what is read under any
-- other key.
pub put_get_delete :
    (now : ℕ) (key other : Text) (value : Option Text) (rows : List Row)
    → (get none key (put none now key value rows).1 ≡ Answer.found (some (not_null value)))
      × (get none key (delete none key rows).1 ≡ Answer.found none)
      × (key ≢ other
          → (get none other (put none now key value rows).1 ≡ get none other rows)
            × (get none other (delete none key rows).1 ≡ get none other rows))
unfolding get put delete
put_get_delete now key other value rows = (
  ground (arith, row_at-upsert key (not_null value) now rows),
  ground (arith, row_at-delete key rows),
  λ ne. (
    ground (arith, row_at-upsert_ne key other (not_null value) now rows ne),
    ground (arith, row_at-delete_ne key other rows ne),
  ),
)

-- The entries of the rows whose keys start with the prefix.
abbrev pub starting_with : Text → List Row → List Entry
starting_with prefix [] = []
starting_with prefix (r ∷ rs) =
    let rest = starting_with prefix rs in
    if has_prefix prefix r.key
    then record { key = r.key; value = r.value; updated = r.updated_at } ∷ rest
    else rest

in_range-starting_with :
    (prefix : Text) (rows : List Row)
    → All IsRune prefix
    → All (λ r. All IsRune r.key) rows
    → in_range prefix rows ≡ starting_with prefix rows
unfolding in_range
in_range-starting_with prefix [] p h = refl
in_range-starting_with prefix (r ∷ rs) p h =
    ground (arith, selected-has_prefix prefix r.key p h.0, in_range-starting_with prefix rs p h.1)

-- With a context that is not done, and for a prefix and keys that are texts of runes, `List`
-- returns the entry of every row whose key starts with the prefix, as often as there are such rows
-- and no other, in the order of the keys.
pub list_prefix :
    (prefix : Text) (rows : List Row)
    → All IsRune prefix
    → All (λ r. All IsRune r.key) rows
    → (es : List Entry) × (list none prefix rows ≡ Answer.found es)
      × Perm es (starting_with prefix rows)
      × IsSorted (λ e. e.key) es
unfolding list
list_prefix prefix rows p h = (
  sort_by (λ e. e.key) (in_range prefix rows),
  refl,
  subst (Perm (sort_by (λ e. e.key) (in_range prefix rows)))
      (in_range-starting_with prefix rows p h) (sort_by-perm (λ e. e.key) (in_range prefix rows)),
  sort_by-IsSorted (λ e. e.key) (in_range prefix rows),
)
