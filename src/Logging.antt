-- ===== src/Logging.antt =====
-- internal/logging/log.go: the line that Log prints. The fields are a map; here they are a list
-- of keys with their values, in the order in which the map is iterated.
pub mod Line
use p2pos.Text.Sorted.{sort_texts}
use p2pos.Common.{map, [], ◌==◌, ◌++◌, ◌∷◌, if◌then◌else◌, List, is_empty}
use p2pos.Text.{join, same, is_blank, Text, codes}

abbrev pub Fields : Type 0
Fields = List (Text × Text)

abbrev pub keys : Fields → List Text
keys = map (λ f. f.0)

-- fields[k]
unfoldable pub field : Text → Fields → Text
field k [] = []
field k ((key, value) ∷ rest) = let other = field k rest in if same k key then value else other

-- strings.ReplaceAll(s, " ", "_")
unfoldable pub underscored : Text → Text
underscored [] = []
underscored (c ∷ s) = (if c == 32 then b'_' else c) ∷ underscored s

-- The loop over the sorted keys.
unfoldable pub field_parts : Fields → List Text → List Text
field_parts fields [] = []
field_parts fields (k ∷ rest) =
    (k ++ (codes "=" ++ underscored (field k fields))) ∷ field_parts fields rest

unfoldable pub log_line : Text → Text → Fields → Text
log_line module_name action fields =
    let name = if is_blank module_name then codes "APP" else module_name in
    let heading = codes "[" ++ (name ++ codes "]") in
    let parts =
      (if is_blank action then [] else (codes "action=" ++ action) ∷ [])
      ++ field_parts fields (sort_texts (keys fields)) in
    if is_empty parts then heading else heading ++ (codes " " ++ join (codes " ") parts)
