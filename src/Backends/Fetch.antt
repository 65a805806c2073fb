-- ===== src/Backends/Fetch.antt =====
-- fetchRelease, downloadToTemp and downloadAndExtract of internal/backends/ggml.go, and PullGGML
-- with them.
--
-- What the network answers, the decoders of JSON, zip and tar, and what a call does to the disk are
-- parameters. The temporary file is the text that was downloaded.
use llama_chip.Base.{
  Bool, List, Option, Result, Text, [], codes, false, if◌then◌else◌, is_empty, none, same, some, ℕ,
  ◌++◌, ◌==◌, ◌||◌, ◌∷◌,
}
use llama_chip.Backends.Defs.{Backend}
use llama_chip.Backends.Disk.{Platform}
use llama_chip.Backends.Pull.{
  Call, Format, TarEntry, ZipEntry, extract_tar, extract_zip, format_of, tar_gz, unknown_format,
  zip,
}
use llama_chip.Backends.Install.{Calls, PullError, Release, pull_ggml}

-- The status and the body for a URL, if it answers, and what the decoders give.
pub record Web : Type 0 where
  pub get : Text → Option (ℕ × Text)
  pub decode_release : Text → Option Release
  pub unzip : Text → Option (List ZipEntry)
  pub untar : Text → Option (List TarEntry × Bool)

unfoldable pub release_url : Text → Text
unfolding same
release_url ref =
    if is_empty ref || same ref (codes "latest")
    then codes "https://api.github.com/repos/ggml-org/llama.cpp/releases/latest"
    else codes "https://api.github.com/repos/ggml-org/llama.cpp/releases/tags/" ++ ref

-- The body of an answer with the status 200.
abbrev pub body_of : Option (ℕ × Text) → Option Text
body_of none = none
body_of (some (code, body)) = if code == 200 then some body else none

abbrev decode_body : Web → Option Text → Option Release
decode_body web none = none
decode_body web (some body) = web.decode_release body

unfoldable pub fetch_release : Web → Text → Option Release
unfolding release_url
fetch_release web ref = decode_body web (body_of (web.get (release_url ref)))

abbrev unzipped : (Call → Bool) → Option (List ZipEntry) → List Call × Bool
unzipped fails none = ([], false)
unzipped fails (some es) = extract_zip fails es

abbrev untarred : (Call → Bool) → Option (List TarEntry × Bool) → List Call × Bool
untarred fails none = ([], false)
untarred fails (some (es, ends_well)) = extract_tar fails ends_well es

abbrev pub extracted : Web → (Call → Bool) → Format → Text → List Call × Bool
extracted web fails zip body = unzipped fails (web.unzip body)
extracted web fails tar_gz body = untarred fails (web.untar body)
extracted web fails unknown_format body = ([], false)

abbrev downloaded : Web → (Call → Bool) → Format → Option Text → List Call × Bool
downloaded web fails f none = ([], false)
downloaded web fails f (some body) = extracted web fails f body

-- downloadAndExtract: the calls on the disk, and whether all went well.
unfoldable pub download_and_extract : Web → (Call → Bool) → Text → List Call × Bool
unfolding format_of extract_zip extract_tar
download_and_extract web fails url = downloaded web fails (format_of url) (body_of (web.get url))

-- The disk: which calls fail in a directory, and what they do.
pub record DiskOf {ℓ} (W : Type ℓ) : Type ℓ where
  pub size_of : Text → W → Option ℕ
  pub make_dir : Text → W → Bool × W
  pub fails : Text → W → Call → Bool
  pub run : Text → Call → W → W
  pub make_executable : Text → W → W

module _ {ℓ} {W : Type ℓ} (web : Web) (disk : DiskOf W) where
  abbrev pub run_all : Text → List Call → W → W
  run_all dest [] w = w
  run_all dest (c ∷ cs) w = run_all dest cs (disk.run dest c w)

  unfoldable pub fetch_into : Text → Text → W → Bool × W
  unfolding download_and_extract
  fetch_into url dest w =
      let (calls, fine) = download_and_extract web (disk.fails dest w) url in
      (fine, run_all dest calls w)

  abbrev pub calls_of : Calls W
  calls_of = record {
    size_of = disk.size_of;
    make_dir = disk.make_dir;
    fetch_into = fetch_into;
    make_executable = disk.make_executable;
  }

  -- PullGGML.
  unfoldable pub pull : Platform → Text → Text → W → Result PullError Backend × W
  unfolding fetch_release pull_ggml fetch_into
  pull p root ref w = pull_ggml calls_of p root (fetch_release web ref) w
