-- ===== src/Trial/Defs.antt =====
-- experiments/dgtrial/main.go: the fixtures, the protocol of the server, and the loop over the
-- fixtures.
--
-- What the disk holds, the JSON package, the arithmetic on float64 and whether a request can be
-- written are parameters. The server's output is the list of the lines that the scanner gives.
-- The page of results is left out.
use llama_chip.Base.{
  List, Option, Result, Text, [], codes, err, has_prefix, has_suffix, if◌then◌else◌, is_empty, none,
  not, ok, some, sort_by, text_lt, trim_suffix, ℕ, ◌==◌, ◌>>=◌, ◌||◌, ◌∷◌,
}
use llama_chip.Backends.{int_lt, or_error, pos, ℤ}
use llama_chip.Models.{DirEntry}

pub record Fixture : Type 0 where
  pub id : Text
  pub stage : Text
  pub n_blocks : ℤ
  pub system : Text
  pub user : Text
  pub ref_model : Text
  pub ref_output : Text
  pub ref_output_file : Text

pub data LoadError : Type 0 where
  no_dir : LoadError
  no_file bad_json no_reference : Text → LoadError

-- What the disk and the decoder give.
pub record Shelf : Type 0 where
  pub entries : Option (List DirEntry)
  pub read_file : Text → Option Text
  pub decode : Text → Option Fixture
  pub join : Text → Text

-- The ID of a fixture without one is the name of its file.
abbrev pub with_id : Text → Fixture → Fixture
with_id file fx = if is_empty fx.id then record fx { id = trim_suffix (codes ".json") file } else fx

abbrev with_reference : Shelf → Text → Fixture → Result LoadError Fixture
with_reference d file fx =
    if is_empty fx.ref_output_file then ok fx else (elim (d.read_file (d.join fx.ref_output_file)) [
      | none ↦ err (no_reference file)
      | some t ↦ ok (record fx { ref_output = t })
    ])

unfoldable pub load_fixture : Shelf → Text → Result LoadError Fixture
unfolding trim_suffix
load_fixture d file = do
  b ← or_error (no_file file) (d.read_file (d.join file))
  fx ← or_error (bad_json file) (d.decode b)
  with_reference d file (with_id file fx)

unfoldable pub load_each : Shelf → List DirEntry → Result LoadError (List Fixture)
unfolding load_fixture has_suffix
load_each d [] = ok []
load_each d (e ∷ es) =
    if e.is_dir || not (has_suffix (codes ".json") e.name)
    then load_each d es
    else (do fx ← load_fixture d e.name; rest ← load_each d es; ok (fx ∷ rest))

-- loadFixtures; sort.Slice may take fixtures of the same ID in any order.
unfoldable pub load_fixtures : Shelf → Result LoadError (List Fixture)
unfolding load_each text_lt
load_fixtures d = do
  es ← or_error no_dir d.entries
  out ← load_each d es
  ok (sort_by (λ a b. text_lt a.id b.id) out)

-- waitReady: the lines behind READY.
unfoldable pub wait_ready : List Text → Option (List Text)
unfolding has_prefix
wait_ready [] = none
wait_ready (line ∷ rest) = if has_prefix (codes "READY ") line then some rest else wait_ready rest

pub record Message : Type 0 where
  pub role : Text
  pub content : Text

pub record TrialRequest : Type 0 where
  pub seed : ℕ
  pub n_blocks : ℤ
  pub messages : List Message

abbrev user_turn : Fixture → List Message
user_turn fx = record { role = codes "user"; content = fx.user } ∷ []

unfoldable pub request_of : Fixture → TrialRequest
unfolding int_lt
request_of fx = record {
  seed = 0;
  n_blocks = if int_lt (pos 0) fx.n_blocks then fx.n_blocks else pos 8;
  messages =
      if is_empty fx.system
      then user_turn fx
      else record { role = codes "system"; content = fx.system } ∷ user_turn fx;
}

-- strings.Cut at one character.
unfoldable pub cut : ℕ → Text → Option (Text × Text)
cut d [] = none
cut d (c ∷ s) =
    let rest = cut d s in
    if c == d then some ([], s) else (elim rest [ none ↦ none | some (a, b) ↦ some (c ∷ a, b) ])

-- decodeC: what stands behind the second space, decoded if it is a JSON string.
abbrev decoded : (Text → Option Text) → Text → Text
decoded json t = elim (json t) [ none ↦ t | some s ↦ s ]

abbrev third : (Text → Option Text) → Option (Text × Text) → Text
third json none = []
third json (some (block, rest)) = decoded json rest

unfoldable pub decode_c : (Text → Option Text) → Text → Text
unfolding cut
decode_c json line = elim (cut b' ' line) [
  | none ↦ []
  | some (mark, rest) ↦ third json (cut b' ' rest)
]
