-- ===== src/Fold/Bytes.antt =====
-- marshal, packBlocks and the writing of the messages in internal/router/anthropic.go: the codec of
-- the fold where raw values are bytes. What encoding/json reads, and its strings, are parameters.
use llama_chip.Base.{List, Option, Text, [], codes, map, ◌++◌, ◌∷◌}
use llama_chip.Fold.Defs.{Codec, Field, Folded, Scan, fold_system_turns}

pub record JsonPackage : Type 0 where
  pub scan : Text → Scan Text
  pub as_list : Text → Option (List Text)
  pub as_text : Text → Option Text
  pub quote : Text → Text

-- The loops that write a comma before each item but the first.
unfoldable pub joined : List Text → Text
joined [] = []
joined (x ∷ []) = x
joined (x ∷ y ∷ rest) = x ++ (b',' ∷ joined (y ∷ rest))

unfoldable pub pack_blocks : List Text → Text
unfolding joined
pack_blocks blocks = b'[' ∷ joined blocks ++ codes "]"

abbrev field_bytes : (Text → Text) → Field Text → Text
field_bytes quote f = quote f.key ++ (b':' ∷ f.val)

unfoldable pub marshal : (Text → Text) → List (Field Text) → Text
unfolding joined
marshal quote o = b'{' ∷ joined (map (field_bytes quote) o) ++ codes "}"

-- json.Marshal of the map of a text block writes its keys in their order.
abbrev block_of : (Text → Text) → Text → Text
block_of quote s = marshal quote (
    record { key = codes "text"; val = quote s }
    ∷ record { key = codes "type"; val = quote (codes "text") }
    ∷ [])

abbrev pub bytes_codec : JsonPackage → Codec Text
bytes_codec j = record {
  scan = j.scan;
  as_list = j.as_list;
  as_text = j.as_text;
  write_list = pack_blocks;
  write_object = marshal j.quote;
  text_block = block_of j.quote;
  user_role = b'"' ∷ codes "user" ++ b'"' ∷ [];
}

-- foldSystemTurns over bytes.
unfoldable pub fold_bytes : (j : JsonPackage) → Text → Folded (bytes_codec j)
unfolding fold_system_turns marshal pack_blocks
fold_bytes j body = fold_system_turns (bytes_codec j) body
