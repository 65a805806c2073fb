-- ===== src/Backends/Tests.antt =====
-- Some directories, archives and a release.
use llama_chip.Base.{
  All, Bool, List, Option, Text, [], codes, err, false, if◌then◌else◌, is_empty, none, ok, refl,
  same, some, sort_by, suc, true, ℕ, ◌++◌, ◌==◌, ◌↔◌, ◌∷◌, ◌≡◌,
}
use llama_chip.Backends.Defs.{Backend, latest, resolve_ggml}
use llama_chip.Backends.Disk.{Entry, Platform, discover_builds, discover_managed, parse_dir_name}
use llama_chip.Backends.Pull.{
  Call, TarEntry, extract_tar, links, regular, removes, symlink, writes_file,
}
use llama_chip.Backends.Install.{Calls, Release, failed_asset, pull_ggml}
use llama_chip.Backends.Choice.{latest-newest, resolve_ggml-newest}
use llama_chip.Backends.Names.{IsBuildName, parse_dir_name_iff}
use llama_chip.Backends.Flat.{IsSingle}
use llama_chip.Backends.Fetch.{DiskOf, Web}
use llama_chip.Backends.Again.{pull_ggml-again}

abbrev linux : Platform
linux = record { goos = codes "linux"; join = λ a b. a ++ b'/' ∷ b; dir = λ d. d }

abbrev entry_named : Text → Option ℕ → Entry
entry_named n size = record { name = n; is_dir = true; server_size = size; has_core = true }

abbrev old_name : Text
old_name = codes "llama.cpp-linux-x86_64-avx2-2.9.0"

abbrev new_name : Text
new_name = codes "llama.cpp-linux-x86_64-avx2-2.13.0"

abbrev stub_name : Text
stub_name = codes "llama.cpp-linux-x86_64-avx2-2.20.1"

abbrev entries : List Entry
entries =
    entry_named old_name (some 9) ∷ entry_named new_name (some 9) ∷ entry_named stub_name none ∷ []

abbrev build_at : Text → Text → Bool → Backend
build_at name ver complete = record {
  variant = codes "cpu";
  version = ver;
  dir = codes "b/" ++ name;
  server = codes "b/" ++ name ++ codes "/llama-server";
  complete = complete;
}

latest_is :
    latest (discover_builds linux (codes "b") entries) (codes "cpu")
    ≡ some (build_at new_name (codes "2.13.0") true)
unfolding latest discover_builds same sort_by
latest_is = refl

latest-newest_example : (build_at new_name (codes "2.13.0") true).complete ≡ true
latest-newest_example =
    (latest-newest linux (codes "b") entries (codes "cpu") (build_at new_name (codes "2.13.0") true)
      latest_is).1

parse_dir_name_iff_example :
    (parse_dir_name (codes "linux") new_name ≡ some (codes "cpu", codes "2.13.0"))
    ↔ IsBuildName (codes "linux") new_name (codes "cpu") (codes "2.13.0")
parse_dir_name_iff_example =
    parse_dir_name_iff (codes "linux") new_name (codes "cpu") (codes "2.13.0")

abbrev managed : List Entry
managed = entry_named (codes "ggml-b99") (some 9) ∷ entry_named (codes "ggml-b100") (some 9) ∷ []

abbrev managed_build : Text → Text → Backend
managed_build dir tag = record {
  variant = codes "ggml";
  version = tag;
  dir = dir;
  server = dir ++ codes "/llama-server";
  complete = true;
}

resolve_is :
    resolve_ggml (discover_managed linux (codes "b") managed) (codes "latest")
    ≡ ok (managed_build (codes "b/ggml-b100") (codes "b100"))
unfolding resolve_ggml discover_managed same sort_by
resolve_is = refl

resolve_ggml-newest_example : (managed_build (codes "b/ggml-b100") (codes "b100")).complete ≡ true
resolve_ggml-newest_example =
    (resolve_ggml-newest linux (codes "b") managed
      (managed_build (codes "b/ggml-b100") (codes "b100")) resolve_is).0

-- An archive with a path out of the directory.
abbrev archive : List TarEntry
archive =
    record { name = codes "../../etc/x"; link_name = []; type = regular 493 (1 ∷ []) }
    ∷ record { name = codes "a/.."; link_name = []; type = regular 420 [] }
    ∷ record { name = codes "lib/l.so"; link_name = codes "../l.so.1"; type = symlink }
    ∷ []

archive_calls : extract_tar (λ c. false) true archive ≡ (
  writes_file (codes "x") 493 (1 ∷ [])
      ∷ removes (codes "l.so")
      ∷ links (codes "l.so.1") (codes "l.so")
      ∷ [],
  true,
)
unfolding extract_tar same
archive_calls = refl

-- An entry `/` gets past the guard.
slash_calls :
    extract_tar
      (λ c. false)
      true
      (record { name = codes "/"; link_name = codes "x"; type = symlink } ∷ [])
    ≡ (removes (codes "/") ∷ links (codes "x") (codes "/") ∷ [], true)
unfolding extract_tar same
slash_calls = refl

-- A disk that is the number of downloads so far; the server is there after the first.
abbrev disk_calls : Calls ℕ
disk_calls = record {
  size_of = λ s n. if n == 0 then none else some 9;
  make_dir = λ d n. (true, n);
  fetch_into = λ u d n. (n == 0, suc n);
  make_executable = λ s n. n;
}

abbrev release : Release
release = record {
  tag_name = codes "b7";
  assets = record { name = codes "llama-b7-bin-ubuntu-x64.tar.gz"; url = codes "u" } ∷ [];
}

abbrev pulled : Backend
pulled = managed_build (codes "r/ggml-b7") (codes "b7")

first_pull : pull_ggml disk_calls linux (codes "r") (some release) 0 ≡ (ok pulled, 1)
unfolding pull_ggml same
first_pull = refl

pull_ggml-again_example : pull_ggml disk_calls linux (codes "r") (some release) 1 ≡ (ok pulled, 1)
pull_ggml-again_example =
    (pull_ggml-again disk_calls linux (λ s n. refl) (codes "r") release pulled 0 1 first_pull).2

-- On Windows a pull whose second download fails is an error, and the next one is not.
abbrev windows : Platform
windows = record linux { goos = codes "windows" }

abbrev win_release : Release
win_release = record {
  tag_name = codes "b7";
  assets =
      record { name = codes "bin-win-cuda-12.4-x64.zip"; url = codes "s" }
      ∷ record { name = codes "cudart-bin-win-cuda-12.4-x64.zip"; url = codes "r" }
      ∷ [];
}

half_pull :
    pull_ggml disk_calls windows (codes "r") (some win_release) 0
    ≡ (err (failed_asset (codes "r")), 2)
unfolding pull_ggml same
half_pull = refl

half_pull_again : (pull_ggml disk_calls windows (codes "r") (some win_release) 2).1 ≡ 2
unfolding pull_ggml same
half_pull_again = refl

-- A disk that is the log of its calls, with a server as soon as there is one call.
abbrev logged : DiskOf (List (Text × Call))
logged = record {
  size_of = λ f w. if is_empty w then none else some 7;
  make_dir = λ d w. (true, w);
  fails = λ d w c. false;
  run = λ d c w. (d, c) ∷ w;
  make_executable = λ f w. w;
}

abbrev tarball : Release
tarball = record release {
  assets = record { name = codes "bin-ubuntu-x64.tar.gz"; url = codes "u.tar.gz" } ∷ [];
}

abbrev web : Web
web = record {
  get = λ u. some (200, []);
  decode_release = λ b. some tarball;
  unzip = λ b. none;
  untar = λ b. some (archive, true);
}

abbrev OneByOne : List (Text × Call) → Type 0
OneByOne w = All (λ e. IsSingle e.1) w
