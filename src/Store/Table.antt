-- ===== src/Store/Table.antt =====
-- metaharness/agentdb/turso/kv.go: the key-value table of an agent's database, as the rows that the
-- SQL statements keep. Go's context is its error, if it has one; the database's own errors, and the
-- encoding of times, are not modelled.
pub mod Laws
use agentgarage.Prelude.{
  ℕ, Bool, true, false, Option, none, some, List, [], ◌∷◌, map, Text, text_eq, sort_by,
  if◌then◌else◌,
}
use agentgarage.Store.Keys.{selected}

pub record Row : Type 0 where
  pub key : Text
  pub value : Text
  pub created_at : ℕ
  pub updated_at : ℕ

pub record Entry : Type 0 where
  pub key : Text
  pub value : Text
  pub updated : ℕ

pub data Answer (A : Type 0) : Type 0 where
  cancelled : Text → Answer A
  found : A → Answer A

-- `ctx.Err()` first.
abbrev unless_cancelled : {A : Type 0} → Option Text → A → Answer A
unless_cancelled none a = Answer.found a
unless_cancelled (some e) a = Answer.cancelled e

-- `WHERE key = ?`.
unfoldable pub row_at : Text → List Row → Option Row
row_at key [] = none
row_at key (r ∷ rs) = if text_eq r.key key then some r else row_at key rs

abbrev pub value_of : Option Row → Option Text
value_of none = none
value_of (some r) = some r.value

-- A nil value is stored as the empty one.
abbrev pub not_null : Option Text → Text
not_null none = []
not_null (some v) = v

-- `INSERT ... ON CONFLICT(key) DO UPDATE SET value, updated_at`.
unfoldable pub upsert : Text → Text → ℕ → List Row → List Row
upsert key value now [] =
    record { key = key; value = value; created_at = now; updated_at = now } ∷ []
upsert key value now (r ∷ rs) =
    let rest = upsert key value now rs in
    if text_eq r.key key then record r { value = value; updated_at = now } ∷ rs else r ∷ rest

-- `DELETE ... WHERE key = ?`.
unfoldable pub delete_rows : Text → List Row → List Row
delete_rows key [] = []
delete_rows key (r ∷ rs) =
    let rest = delete_rows key rs in if text_eq r.key key then rest else r ∷ rest

-- The rows that the range of a prefix selects.
unfoldable pub in_range : Text → List Row → List Entry
unfolding selected
in_range prefix [] = []
in_range prefix (r ∷ rs) =
    let rest = in_range prefix rs in
    if selected prefix r.key
    then record { key = r.key; value = r.value; updated = r.updated_at } ∷ rest
    else rest

unfoldable pub get : Option Text → Text → List Row → Answer (Option Text)
unfolding row_at
get ctx key rows = unless_cancelled ctx (value_of (row_at key rows))

unfoldable pub put : Option Text → ℕ → Text → Option Text → List Row → Option Text × List Row
unfolding upsert
put none now key value rows = (none, upsert key (not_null value) now rows)
put (some e) now key value rows = (some e, rows)

unfoldable pub delete : Option Text → Text → List Row → Option Text × List Row
unfolding delete_rows
delete none key rows = (none, delete_rows key rows)
delete (some e) key rows = (some e, rows)

unfoldable pub list : Option Text → Text → List Row → Answer (List Entry)
unfolding in_range sort_by
list ctx prefix rows = unless_cancelled ctx (sort_by (λ e. e.key) (in_range prefix rows))
