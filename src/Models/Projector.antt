-- ===== src/Models/Projector.antt =====
-- FindMMProj of internal/models/models.go over the entries of the model's directory, if they can be
-- read.
use llama_chip.Base.{
  Bool, List, Option, Text, [], codes, find, has_prefix, has_suffix, lower, none, not, some, ◌&&◌,
}
use llama_chip.Models.Defs.{dir_of}

pub record DirEntry : Type 0 where
  pub name : Text
  pub is_dir : Bool

abbrev pub is_projector : DirEntry → Bool
is_projector e =
    not e.is_dir
    && (has_prefix (codes "mmproj") (lower e.name) && has_suffix (codes ".gguf") (lower e.name))

abbrev pub projector_at : (Text → Text → Text) → Text → Option DirEntry → Option Text
projector_at join dir none = none
projector_at join dir (some e) = some (join dir e.name)

abbrev pub entries_or_nil : Option (List DirEntry) → List DirEntry
entries_or_nil none = []
entries_or_nil (some es) = es

unfoldable pub find_mmproj :
    (Text → Text → Text) → (Text → Option (List DirEntry)) → Text → Option Text
unfolding dir_of has_suffix lower
find_mmproj join list_dir path =
    projector_at join (dir_of path) (find is_projector (entries_or_nil (list_dir (dir_of path))))
