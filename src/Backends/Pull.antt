-- ===== src/Backends/Pull.antt =====
-- The assets and the archives of internal/backends/ggml.go. What is written to the disk is the list
-- of calls in their order; which of them fail is a parameter.
use llama_chip.Base.{
  Bool, List, Option, Result, Text, [], any, codes, contains, err, false, find, has_suffix,
  if◌then◌else◌, is_empty, lower, none, not, ok, same, some, trim_right, true, ℕ, ◌%◌, ◌&&◌, ◌++◌,
  ◌||◌, ◌∷◌,
}
use llama_chip.Backends.Disk.{cut_last}

pub record Asset : Type 0 where
  pub name : Text
  pub url : Text

abbrev win_cuda_tag : Text
win_cuda_tag = codes "cuda-12.4"

abbrev pub is_cudart : Text → Bool
is_cudart n = contains n (codes "cudart") && contains n win_cuda_tag

abbrev pub is_win_server : Text → Bool
is_win_server n = contains n (codes "bin-win-" ++ win_cuda_tag)

-- The loop for Windows: the URLs of the server and of the runtime so far.
unfoldable pub win_assets : List Asset → Text × Text → Text × Text
unfolding has_suffix contains
win_assets [] urls = urls
win_assets (a ∷ rest) (bin, cudart) =
    if not (has_suffix (codes ".zip") a.name)
    then win_assets rest (bin, cudart)
    else (if is_cudart a.name
        then win_assets rest (bin, a.url)
        else (if is_win_server a.name
            then win_assets rest (a.url, cudart)
            else win_assets rest (bin, cudart)))

abbrev pub is_linux_build : Asset → Bool
is_linux_build a = contains a.name (codes "bin-ubuntu-x64.tar.gz")

pub data AssetError : Type 0 where
  no_win_assets no_linux_build other_system : AssetError

abbrev pub both : Text × Text → Result AssetError (List Text)
both (bin, cudart) =
    if is_empty bin || is_empty cudart then err no_win_assets else ok (bin ∷ cudart ∷ [])

abbrev pub only : Option Asset → Result AssetError (List Text)
only none = err no_linux_build
only (some a) = ok (a.url ∷ [])

unfoldable pub match_ggml_assets : Text → List Asset → Result AssetError (List Text)
unfolding win_assets contains same
match_ggml_assets goos assets =
    if same goos (codes "windows")
    then both (win_assets assets ([], []))
    else (if same goos (codes "linux") then only (find is_linux_build assets) else err other_system)

-- filepath.Base with slashes.
abbrev pub strip_slashes : Text → Text
strip_slashes s = trim_right b'/' s

abbrev pub behind : Text → Option (Text × Text) → Text
behind s none = s
behind s (some ab) = ab.1

unfoldable pub base_name : Text → Text
unfolding trim_right cut_last
base_name s =
    if is_empty s
    then codes "."
    else (if is_empty (strip_slashes s)
        then codes "/"
        else behind (strip_slashes s) (cut_last b'/' (strip_slashes s)))

pub data TarType : Type 0 where
  directory symlink hard_link other_type : TarType
  regular : ℕ → Text → TarType

pub record TarEntry : Type 0 where
  pub name : Text
  pub link_name : Text
  pub type : TarType

-- The calls that change the disk, each with the name below the destination.
pub data Call : Type 0 where
  removes : Text → Call
  links : Text → Text → Call
  writes_file : Text → ℕ → Text → Call

abbrev pub is_special : Text → Bool
is_special n = is_empty n || same n (codes ".") || same n (codes "..")

abbrev pub calls_for : Text → Text → TarType → List Call
calls_for n target directory = []
calls_for n target symlink = removes n ∷ links target n ∷ []
calls_for n target hard_link = removes n ∷ links target n ∷ []
calls_for n target (regular mode data_of) = writes_file n (mode % 512) data_of ∷ []
calls_for n target other_type = []

-- What one entry does; a failed Remove is not looked at.
unfoldable pub entry_calls : Text → TarEntry → List Call
unfolding base_name
entry_calls n e = calls_for n (base_name e.link_name) e.type

abbrev pub is_fatal : (Call → Bool) → Call → Bool
is_fatal fails (removes n) = false
is_fatal fails c = fails c

-- extractTarGz over the entries of the archive and whether it ends well: the calls made, and
-- whether all went well.
unfoldable pub extract_tar : (Call → Bool) → Bool → List TarEntry → List Call × Bool
unfolding entry_calls base_name same
extract_tar fails ends_well [] = ([], ends_well)
extract_tar fails ends_well (e ∷ es) =
    let n = base_name e.name in
    let (calls, fine) = extract_tar fails ends_well es in
    if is_special n
    then (calls, fine)
    else (if any (is_fatal fails) (entry_calls n e)
        then (entry_calls n e, false)
        else (entry_calls n e ++ calls, fine))

-- An entry of a zip archive; its data are none where it cannot be opened.
pub record ZipEntry : Type 0 where
  pub name : Text
  pub is_dir : Bool
  pub content : Option Text

-- os.Create opens a file with the mode 0666.
abbrev pub create : Text → Text → Call
create n content = writes_file n 438 content

-- extractZip over the entries of the archive: no name is passed over.
unfoldable pub extract_zip : (Call → Bool) → List ZipEntry → List Call × Bool
unfolding base_name
extract_zip fails [] = ([], true)
extract_zip fails (e ∷ es) =
    let (calls, fine) = extract_zip fails es in
    if e.is_dir then (calls, fine) else (elim e.content [
      | none ↦ ([], false)
      | some content ↦
          let c = create (base_name e.name) content in
          if fails c then (c ∷ [], false) else (c ∷ calls, fine)
    ])

-- downloadAndExtract: the format by the end of the URL.
pub data Format : Type 0 where
  zip tar_gz unknown_format : Format

unfoldable pub format_of : Text → Format
unfolding has_suffix lower
format_of url =
    let low = lower url in
    if has_suffix (codes ".zip") low
    then zip
    else (if has_suffix (codes ".tar.gz") low || has_suffix (codes ".tgz") low
        then tar_gz
        else unknown_format)
