-- ===== src/Transparency/Json.antt =====
-- The JSON metadata of an event: a `serde_json::Map` as an association list.
use secret_broker.Base.{ℕ, Bytes, Bool, List, [], ◌∷◌, bytes_eq, if◌then◌else◌}

-- `raw` is a value that the broker only passes on, as its text.
pub data Json : Type 0 where
  flag : Bool → Json
  num : ℕ → Json
  text : Bytes → Json
  texts : List Bytes → Json
  nums : List ℕ → Json
  raw : Bytes → Json

abbrev pub Meta : Type 0
Meta = List (Bytes × Json)

-- `m.insert(k, v)`
unfoldable pub insert : Bytes → Json → Meta → Meta
insert k v [] = (k, v) ∷ []
insert k v ((j, u) ∷ m) = if bytes_eq j k then (k, v) ∷ m else (j, u) ∷ insert k v m
