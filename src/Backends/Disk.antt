-- ===== src/Backends/Disk.antt =====
-- Discover, DLLDirs and parseDirName of internal/backends/backends.go, DiscoverManaged,
-- matchGGMLAssets and the choice of a format of ggml.go. What the disk holds is given as the
-- entries of its directories.
use llama_chip.Base.{
  Bool, List, Option, String, Text, [], any, codes, contains, cut_prefix, false, if◌then◌else◌,
  is_empty, ltb, none, not, same, some, sort_by, trim_prefix, ℕ, ◌&&◌, ◌++◌, ◌==◌, ◌∷◌,
}
use llama_chip.Backends.Defs.{Backend}
use llama_chip.Backends.Versions.{atoi, int_lt, looks_like_version, newer, ℤ}

-- runtime.GOOS and the functions of path/filepath.
pub record Platform : Type 0 where
  pub goos : Text
  pub join : Text → Text → Text
  pub dir : Text → Text

-- An entry of a directory: its name, whether it is a directory, the size of the server binary in
-- it where there is one, and whether the core library is there.
pub record Entry : Type 0 where
  pub name : Text
  pub is_dir : Bool
  pub server_size : Option ℕ
  pub has_core : Bool

abbrev pub by_os : Text → String → String → String → Text
by_os goos win mac other =
    if same goos (codes "windows")
    then codes win
    else (if same goos (codes "darwin") then codes mac else codes other)

unfoldable pub server_bin_name : Text → Text
unfolding same
server_bin_name goos =
    if same goos (codes "windows") then codes "llama-server.exe" else codes "llama-server"

unfoldable pub core_lib_name : Text → Text
unfolding same
core_lib_name goos = by_os goos "ggml-base.dll" "libggml-base.dylib" "libggml-base.so"

unfoldable pub os_token : Text → Text
unfolding same
os_token goos = by_os goos "win" "mac" "linux"

abbrev pub dir_prefix : Text → Text
dir_prefix goos = codes "llama.cpp-" ++ (os_token goos ++ codes "-x86_64-")

-- The parts before and behind the last place of a character.
abbrev pub cut_step : ℕ → ℕ → Text → Option (Text × Text) → Option (Text × Text)
cut_step c x s (some (a, b)) = some (x ∷ a, b)
cut_step c x s none = if x == c then some ([], s) else none

unfoldable pub cut_last : ℕ → Text → Option (Text × Text)
cut_last c [] = none
cut_last c (x ∷ s) = cut_step c x s (cut_last c s)

unfoldable pub variant_of : Text → Text
unfolding contains
variant_of tag =
    if contains tag (codes "cuda12")
    then codes "cuda12"
    else (if contains tag (codes "cuda")
        then codes "cuda"
        else (if contains tag (codes "rocm")
            then codes "rocm"
            else (if contains tag (codes "vulkan") then codes "vulkan" else codes "cpu")))

abbrev pub named_build : Option (Text × Text) → Option (Text × Text)
named_build none = none
named_build (some (tag, ver)) = if looks_like_version ver then some (variant_of tag, ver) else none

abbrev pub named_rest : Option Text → Option (Text × Text)
named_rest none = none
named_rest (some rest) = named_build (cut_last b'-' rest)

unfoldable pub parse_dir_name : Text → Text → Option (Text × Text)
unfolding os_token cut_prefix cut_last variant_of looks_like_version
parse_dir_name goos name = named_rest (cut_prefix (dir_prefix goos) name)

abbrev pub is_nonempty : Option ℕ → Bool
is_nonempty none = false
is_nonempty (some n) = ltb 0 n

abbrev pub build_of : Platform → Text → Entry → Option (Text × Text) → List Backend
build_of p root e none = []
build_of p root e (some (v, ver)) =
    record {
      variant = v;
      version = ver;
      dir = p.join root e.name;
      server = p.join (p.join root e.name) (server_bin_name p.goos);
      complete = is_nonempty e.server_size && e.has_core;
    }
    ∷ []

-- The loop of Discover.
unfoldable pub found : Platform → Text → List Entry → List Backend
unfolding parse_dir_name server_bin_name
found p root [] = []
found p root (e ∷ es) =
    if not e.is_dir
    then found p root es
    else build_of p root e (parse_dir_name p.goos e.name) ++ found p root es

unfoldable pub discover_builds : Platform → Text → List Entry → List Backend
unfolding found newer
discover_builds p root es = sort_by (λ a b. newer a.version b.version) (found p root es)

unfoldable pub ggml_build_num : Text → ℤ
unfolding atoi trim_prefix
ggml_build_num tag = (atoi (trim_prefix (codes "B") (trim_prefix (codes "b") tag))).0

abbrev pub managed_of : Platform → Text → Entry → Text → Backend
managed_of p root e tag = record {
  variant = codes "ggml";
  version = tag;
  dir = p.join root e.name;
  server = p.join (p.join root e.name) (server_bin_name p.goos);
  complete = is_nonempty e.server_size;
}

abbrev pub managed_list : Platform → Text → Entry → Option Text → List Backend
managed_list p root e none = []
managed_list p root e (some tag) = managed_of p root e tag ∷ []

unfoldable pub found_managed : Platform → Text → List Entry → List Backend
unfolding server_bin_name cut_prefix
found_managed p root [] = []
found_managed p root (e ∷ es) =
    if not e.is_dir
    then found_managed p root es
    else managed_list p root e (cut_prefix (codes "ggml-") e.name) ++ found_managed p root es

unfoldable pub discover_managed : Platform → Text → List Entry → List Backend
unfolding found_managed ggml_build_num int_lt
discover_managed p root es =
    sort_by (λ a b. int_lt (ggml_build_num b.version) (ggml_build_num a.version))
      (found_managed p root es)

-- The shared runtime: the last directory below `vendor` that is named for the variant.
unfoldable pub vendor_word : Text → Text
unfolding same
vendor_word v =
    if any (same v) (codes "cuda12" ∷ codes "cuda" ∷ codes "rocm" ∷ codes "vulkan" ∷ [])
    then v
    else []

abbrev pub fits_vendor : Text → Text → Bool
fits_vendor v n =
    not (same v (codes "cuda") && contains n (codes "cuda12")) && contains n (vendor_word v)

unfoldable pub best_vendor : Text → List Entry → Option Text → Option Text
unfolding vendor_word
best_vendor v [] best = best
best_vendor v (e ∷ es) best =
    best_vendor v es (if e.is_dir && fits_vendor v e.name then some e.name else best)

abbrev pub vendor_list : Platform → Backend → Option Text → List Text
vendor_list p b none = []
vendor_list p b (some n) = p.join (p.join (p.dir b.dir) (codes "vendor")) n ∷ []

unfoldable pub dll_dirs : Platform → Backend → List Entry → List Text
unfolding best_vendor
dll_dirs p b vendors =
    b.dir
    ∷ (if is_empty (vendor_word b.variant)
        then []
        else vendor_list p b (best_vendor b.variant vendors none))
