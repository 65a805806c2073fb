-- ===== src/Rig/Shown.antt =====
-- What a status says of a slot is what its process is given.
use llama_chip.Base.{List, Option, Text, [], if◌then◌else◌, none, same, some, ◌∷◌}

-- The value of a flag among pairs of flags and values.
abbrev pub value_of : Text → List Text → Option Text
value_of f [] = none
value_of f (x ∷ []) = none
value_of f (x ∷ y ∷ rest) = if same x f then some y else value_of f rest
