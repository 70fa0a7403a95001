-- ===== src/Checks/Tables.antt =====
-- The key-value table, a tool's answers, and progress lines.
use agentgarage.Prelude.{◌≡◌, ◌≢◌, none, some, List, [], ◌∷◌, All, arith, codes, IsSorted}
use mathlib.Core.List.{Perm}
use agentgarage.Store.Keys.Range.{IsRune}
use agentgarage.Store.Table.{Row, Entry, Answer, get, put, delete, list, not_null}
use agentgarage.Store.Table.Laws.{put_get_delete, starting_with, list_prefix}
use agentgarage.Agent.Parts.{ToolAnswer}
use agentgarage.Agent.Run.{Event}

abbrev row : Row
row = record { key = codes "show/b"; value = codes "1"; created_at = 1; updated_at = 2 }

abbrev rows : List Row
rows = row ∷ record row { key = codes "show/a" } ∷ record row { key = codes "shy" } ∷ []

put_get_delete_example :
    (get none (codes "shy") (put none 5 (codes "shy") none rows).1
      ≡ Answer.found (some (not_null none)))
    × (get none (codes "shy") (delete none (codes "shy") rows).1 ≡ Answer.found none)
    × (codes "shy" ≢ codes "show/a"
        → (get none (codes "show/a") (put none 5 (codes "shy") none rows).1
            ≡ get none (codes "show/a") rows)
          × (get none (codes "show/a") (delete none (codes "shy") rows).1
              ≡ get none (codes "show/a") rows))
put_get_delete_example = put_get_delete 5 (codes "shy") (codes "show/a") none rows

show-runes : All IsRune (codes "show")
show-runes = ground arith

rows-runes : All (λ r. All IsRune r.key) rows
rows-runes = ground arith

list_prefix_example :
    (es : List Entry) × (list none (codes "show") rows ≡ Answer.found es)
    × Perm es (starting_with (codes "show") rows)
    × IsSorted (λ e. e.key) es
list_prefix_example = list_prefix (codes "show") rows show-runes rows-runes

abbrev answers : List ToolAnswer
answers =
    record { id = codes "1"; text = codes "ok"; error = none }
    ∷ record { id = codes "2"; text = codes "half"; error = some (codes "broken") }
    ∷ []

abbrev failure : Event
failure = Event.error (codes "no such host")
