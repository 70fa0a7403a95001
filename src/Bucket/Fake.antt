-- ===== src/Bucket/Fake.antt =====
-- bucket/fake.go: the store in memory, with R2's conditional writes.
pub mod Writes
use agentgarage.Prelude.{
  ℕ, suc, Bool, true, false, not, ◌&&◌, ◌||◌, Option, none, some, List, [], ◌∷◌, ◌++◌, Text,
  text_eq, itoa, if◌then◌else◌,
}
use agentgarage.Bucket.Types.{Object, Cond, Counts, Err, Result, err, ok, Store, find, assign}

pub record Fake : Type 0 where
  pub objects : List (Text × Object)
  pub version : ℕ
  pub counts : Counts

abbrev pub new_fake : Fake
new_fake = record { objects = []; version = 0; counts = record { class_a = 0; class_b = 0 } }

abbrev pub got : Option Object → Result Object
got none = err Err.not_found
got (some o) = ok o

unfoldable pub get : Text → Fake → Result Object × Fake
unfolding find
get key f = (
  got (find key f.objects),
  record f { counts = record f.counts { class_b = suc f.counts.class_b } },
)

-- `cond.IfMatch != "" && (!exists || old.ETag != cond.IfMatch)`.
unfoldable pub outdated : Option Object → Text → Bool
outdated old [] = false
outdated none (x ∷ xs) = true
outdated (some o) (x ∷ xs) = not (text_eq o.etag (x ∷ xs))

abbrev pub exists : Option Object → Bool
exists none = false
exists (some o) = true

unfoldable pub refused : Option Object → Cond → Bool
unfolding outdated
refused old cond = (cond.if_none_match && exists old) || outdated old cond.if_match

-- A version in quotes.
unfoldable pub etag_of : ℕ → Text
unfolding itoa
etag_of n = b'"' ∷ itoa n ++ b'"' ∷ []

unfoldable pub put : Text → Object → Cond → Fake → Result Text × Fake
unfolding find assign refused etag_of
put key o cond f =
    let counts = record f.counts { class_a = suc f.counts.class_a } in
    let etag = etag_of (suc f.version) in
    if refused (find key f.objects) cond
    then (err Err.precondition, record f { counts = counts })
    else (
      ok etag,
      record {
        objects = assign key (record o { etag = etag }) f.objects;
        version = suc f.version;
        counts = counts;
      },
    )

-- The fake under a client whose limiter always lets it through.
abbrev pub fake_store : Store Fake
fake_store = record { wait = λ name f. (none, f); get = get; put = put }
