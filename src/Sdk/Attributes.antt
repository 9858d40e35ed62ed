-- ===== src/Sdk/Attributes.antt =====
-- sdk/go/flageval/context.go.
use feature_flags.Base.{String, Option, none, some, List, [], ◌∷◌, ◌==◌, text_key, if◌then◌else◌}
use feature_flags.Sdk.Values.{Go, Value, text, map, Members, end, member}
use feature_flags.Sdk.Run.{lookup}

module _ ⦃g : Go⦄ where
  -- A `map[string]any`
  abbrev pub Attributes : Type 0
  Attributes = List (String × Value)

  pub record Context : Type 0 where
    pub kinds : List (String × Attributes)

  abbrev pub members : Members → Attributes
  members end = []
  members (member k v m) = (k, v) ∷ members m

  -- The loop over a context of several kinds: all but "kind" that are maps.
  unfoldable pub kinds_of : Attributes → List (String × Attributes)
  kinds_of [] = []
  kinds_of ((k, map m) ∷ raw) =
      let rest = kinds_of raw in if k == "kind" then rest else (k, members m) ∷ rest
  kinds_of ((k, _) ∷ raw) = kinds_of raw

  -- The loop over a context of one kind: all but "kind".
  unfoldable pub without_kind : Attributes → Attributes
  without_kind [] = []
  without_kind ((k, v) ∷ raw) =
      let rest = without_kind raw in if k == "kind" then rest else (k, v) ∷ rest

  -- `v.(string)`, with the zero value where it fails
  abbrev pub string_of : Option Value → Option String
  string_of (some (text t)) = some t
  string_of _ = none

  abbrev pub or_empty : Option String → String
  or_empty none = ""
  or_empty (some t) = t

  unfoldable pub parse_context : Attributes → Context
  unfolding kinds_of without_kind
  parse_context raw =
      let kind = or_empty (string_of (lookup "kind" raw)) in
      if kind == "multi"
      then record { kinds = kinds_of raw }
      else record { kinds = (if kind == "" then "user" else kind, without_kind raw) ∷ [] }

  abbrev found_in : String → Option Attributes → Option Value
  found_in name none = none
  found_in name (some m) = lookup name m

  -- `attr`
  unfoldable pub attr : Context → String → String → Option Value
  attr c kind name = found_in name (lookup kind c.kinds)

  -- `key`
  unfoldable pub context_key : Context → String → Option String
  context_key c kind = string_of (attr c kind "key")
