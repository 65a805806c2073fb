-- ===== src/Models/Tests.antt =====
-- The models at concrete inputs.
use llama_chip.Base.{
  Bool, List, String, Text, [], codes, false, insert, lookup, lower, map, refl, same, some, sort_by,
  true, ℕ, ◌++◌, ◌↔◌, ◌∷◌, ◌≡◌,
}
use llama_chip.Models.Find.{Names, find_model_iff}
use llama_chip.Models.Defs.{File, Model, dir_of, discover, find_model}

abbrev pub file_at : String → Text → ℕ → File
file_at dir file size = record {
  name = file;
  stem = file;
  path = codes dir ++ codes "/" ++ file;
  rel = codes dir ++ codes "/" ++ file;
  size = some size;
}

abbrev pub shelf : List Model
shelf = discover (
    file_at "a" (codes "Gemma.gguf") 5
    ∷ file_at "a" (codes "mmproj-x.gguf") 1
    ∷ file_at "b" (codes "qwen-00001-of-00002.gguf") 9
    ∷ file_at "b" (codes "qwen-00002-of-00002.gguf") 9
    ∷ file_at "b" (codes "readme.md") 9
    ∷ [])

shelf_listed :
    map {B = Text × Bool} (λ m. (m.id, m.supports_vision)) shelf
    ≡ (codes "b/qwen-00001-of-00002.gguf", false) ∷ (codes "a/Gemma.gguf", true) ∷ []
unfolding discover lookup insert dir_of sort_by lower same
shelf_listed = refl

abbrev pub gemma : Model
gemma = record {
  id = codes "a/Gemma.gguf";
  name = codes "Gemma.gguf";
  path = codes "a/Gemma.gguf";
  bytes = 5;
  mmproj = codes "a/mmproj-x.gguf";
  supports_vision = true;
}

find_model_iff_example :
    (find_model shelf (codes "gemma") ≡ some gemma) ↔ Names shelf (codes "gemma") gemma
find_model_iff_example = find_model_iff shelf (codes "gemma") gemma
