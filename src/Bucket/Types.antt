-- ===== src/Bucket/Types.antt =====
-- bucket/store.go: objects, conditional writes, the errors and the raw store under a client. Bodies
-- are the lists of their bytes; a map of metadata is a list of pairs.
use agentgarage.Prelude.{ℕ, Bool, Option, none, some, List, [], ◌∷◌, Text, text_eq, if◌then◌else◌}

pub record Object : Type 0 where
  pub body : Text
  pub meta : List (Text × Text)
  pub etag : Text

-- `if_match` is empty where the write does not ask for a version.
pub record Cond : Type 0 where
  pub if_none_match : Bool
  pub if_match : Text

pub record Counts : Type 0 where
  pub class_a : ℕ
  pub class_b : ℕ

-- `other` is any error that the source only passes on, with its text.
pub data Err : Type 0 where
  not_found already_exists conflict bad_signature precondition : Err
  other : Text → Err

pub data Result (A : Type 0) : Type 0 where
  err : Err → Result A
  ok : A → Result A

-- The store, and the limiter of each caller, on an abstract world.
pub record Store (W : Type 0) : Type 0 where
  pub wait : Text → W → Option Text × W
  pub get : Text → W → Result Object × W
  pub put : Text → Object → Cond → W → Result Text × W

-- The value at a key, and an assignment to it.
module _ {A : Type 0} where
  unfoldable pub find : Text → List (Text × A) → Option A
  find k [] = none
  find k ((n, a) ∷ m) = if text_eq n k then some a else find k m

  unfoldable pub assign : Text → A → List (Text × A) → List (Text × A)
  assign k a [] = (k, a) ∷ []
  assign k a ((n, x) ∷ m) =
      let rest = assign k a m in if text_eq n k then (n, a) ∷ m else (n, x) ∷ rest
