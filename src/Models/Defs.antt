-- ===== src/Models/Defs.antt =====
-- internal/models/models.go: the data and the functions over what the walk of the disk yields.
use llama_chip.Base.{
  Bool, List, Option, Text, [], codes, contains, drop, drop_while, equal_fold, false, find,
  has_prefix, has_suffix, if◌then◌else◌, index, insert, is_empty, leb, lookup, lower, ltb, map,
  none, not, reverse, same, select, some, sort_by, take, true, ℕ, ◌&&◌, ◌++◌, ◌-◌, ◌==◌, ◌∷◌,
}

pub record Model : Type 0 where
  pub id : Text
  pub name : Text
  pub path : Text
  pub bytes : ℕ
  pub mmproj : Text
  pub supports_vision : Bool

-- What the walk tells of one file: its name with and without the extension, its
-- path, that path below the root with slashes, and its size where the file can be read.
pub record File : Type 0 where
  pub name : Text
  pub stem : Text
  pub path : Text
  pub rel : Text
  pub size : Option ℕ

abbrev is_digit : ℕ → Bool
is_digit c = leb b'0' c && leb c b'9'

unfoldable pub all_digits : Text → Bool
all_digits [] = true
all_digits (c ∷ s) = is_digit c && all_digits s

-- The text between five places before the first "-of-" and it, if that is there.
unfoldable pub is_split_shard_past_first : Text → Bool
unfolding index all_digits
is_split_shard_past_first name = elim (index (codes "-of-") name) [
  | none ↦ false
  | some i ↦
      if ltb i 6
      then false
      else let shard = take 5 (drop (i - 5) name) in
        not (same shard (codes "00001")) && all_digits shard
]

abbrev model_of : File → ℕ → Model
model_of f size = record {
  id = f.rel;
  name = f.stem;
  path = f.path;
  bytes = size;
  mmproj = [];
  supports_vision = false;
}

-- filepath.Dir of a clean path below the root.
unfoldable pub dir_of : Text → Text
dir_of path = reverse (drop 1 (drop_while (λ c. not (c == b'/')) (reverse path)))

-- One call of the function that the walk is given: the models so far and the projectors by
-- directory.
unfoldable pub visit : File → List Model × List (Text × Text) → List Model × List (Text × Text)
unfolding is_split_shard_past_first has_suffix
visit f (out, projectors) =
    let low = lower f.name in
    if not (has_suffix (codes ".gguf") low)
    then (out, projectors)
    else (if has_prefix (codes "mmproj") low
        then (out, insert (dir_of f.path) f.path projectors)
        else (if is_split_shard_past_first f.name then (out, projectors) else (elim f.size [
          | none ↦ (out, projectors)
          | some size ↦ (out ++ model_of f size ∷ [], projectors)
        ])))

unfoldable pub visit_all :
    List File → List Model × List (Text × Text) → List Model × List (Text × Text)
unfolding visit
visit_all [] acc = acc
visit_all (f ∷ fs) acc = visit_all fs (visit f acc)

pair : List (Text × Text) → Model → Model
pair projectors m = elim (lookup (dir_of m.path) projectors) [
  | none ↦ m
  | some mp ↦ record m { mmproj = mp; supports_vision = true }
]

-- Discover over the files of a walk that found no error.
unfoldable pub discover : List File → List Model
unfolding visit_all pair
discover files =
    let (out, projectors) = visit_all files ([], []) in
    sort_by (λ a b. ltb b.bytes a.bytes) (map (pair projectors) out)

-- `if len(matches) == 1 { return matches[0], true }`.
abbrev pub sole {ℓ} : {A : Type ℓ} → List A → Option A
sole [] = none
sole (m ∷ rest) = if is_empty rest then some m else none

-- Find over the files that Discover lists, largest first.
unfoldable pub find_model : List Model → Text → Option Model
find_model all query = elim (find (λ m. equal_fold m.id query) all) [
  | some m ↦ some m
  | none ↦ sole (select (λ m. contains (lower m.id) (lower query)) all)
]
