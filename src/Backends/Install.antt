-- ===== src/Backends/Install.antt =====
-- PullGGML of internal/backends/ggml.go over the calls it makes on the disk and the network, which
-- are parameters.
use llama_chip.Base.{
  Bool, List, Option, Result, Text, [], codes, err, false, if◌then◌else◌, none, ok, same, some,
  true, ℕ, ◌++◌, ◌∷◌,
}
use llama_chip.Backends.Defs.{Backend}
use llama_chip.Backends.Disk.{Platform, is_nonempty, server_bin_name}
use llama_chip.Backends.Pull.{Asset, AssetError, match_ggml_assets}

pub record Release : Type 0 where
  pub tag_name : Text
  pub assets : List Asset

-- os.Stat, os.MkdirAll, downloadAndExtract and os.Chmod on the state of the disk.
pub record Calls {ℓ} (W : Type ℓ) : Type ℓ where
  pub size_of : Text → W → Option ℕ
  pub make_dir : Text → W → Bool × W
  pub fetch_into : Text → Text → W → Bool × W
  pub make_executable : Text → W → W

pub data PullError : Type 0 where
  no_release no_dir no_server : PullError
  no_assets : AssetError → PullError
  failed_asset : Text → PullError

abbrev pub managed_backend : Platform → Text → Text → Backend
managed_backend p dir tag = record {
  variant = codes "ggml";
  version = tag;
  dir = dir;
  server = p.join dir (server_bin_name p.goos);
  complete = true;
}

abbrev pub managed_dir : Platform → Text → Text → Text
managed_dir p root tag = p.join root (codes "ggml-" ++ tag)

-- The loop over the URLs, with the one that failed.
unfoldable pub fetch_all {ℓ} : {W : Type ℓ} → Calls W → Text → List Text → W → Option Text × W
fetch_all c dir [] w = (none, w)
fetch_all c dir (u ∷ us) w =
    let (fine, w') = c.fetch_into u dir w in if fine then fetch_all c dir us w' else (some u, w')

abbrev pub finish_pull {ℓ} :
    {W : Type ℓ} → Calls W → Platform → Backend → Option Text × W → Result PullError Backend × W
finish_pull c p b (some u, w) = (err (failed_asset u), w)
finish_pull c p b (none, w) =
    if is_nonempty (c.size_of b.server w)
    then (ok b, if same p.goos (codes "windows") then w else c.make_executable b.server w)
    else (err no_server, w)

abbrev pub install {ℓ} :
    {W : Type ℓ}
    → Calls W
    → Platform
    → Backend
    → List Text
    → Bool × W
    → Result PullError Backend × W
install c p b urls (false, w) = (err no_dir, w)
install c p b urls (true, w) = finish_pull c p b (fetch_all c b.dir urls w)

abbrev pub pull_assets {ℓ} :
    {W : Type ℓ}
    → Calls W
    → Platform
    → Backend
    → Result AssetError (List Text)
    → W
    → Result PullError Backend × W
pull_assets c p b (err e) w = (err (no_assets e), w)
pull_assets c p b (ok urls) w =
    if is_nonempty (c.size_of b.server w)
    then (ok b, w)
    else install c p b urls (c.make_dir b.dir w)

unfoldable pub pull_ggml {ℓ} :
    {W : Type ℓ} → Calls W → Platform → Text → Option Release → W → Result PullError Backend × W
unfolding match_ggml_assets fetch_all server_bin_name same
pull_ggml c p root none w = (err no_release, w)
pull_ggml c p root (some rel) w =
    pull_assets c p (managed_backend p (managed_dir p root rel.tag_name) rel.tag_name)
      (match_ggml_assets p.goos rel.assets) w
