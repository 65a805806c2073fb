-- ===== src/Backends/Defs.antt =====
-- internal/backends/backends.go and ggml.go: the data and the functions over what the disk holds.
use llama_chip.Base.{
  Bool, List, Option, Result, Text, codes, err, find, if◌then◌else◌, is_empty, none, ok, same, some,
  ◌&&◌, ◌||◌,
}

pub record Backend : Type 0 where
  pub variant : Text
  pub version : Text
  pub dir : Text
  pub server : Text
  pub complete : Bool

-- Latest over what Discover lists, newest first.
unfoldable pub latest : List Backend → Text → Option Backend
latest all variant = find (λ b. same b.variant variant && b.complete) all

pub data GgmlError : Type 0 where
  none_pulled : GgmlError
  not_pulled : Text → GgmlError

abbrev pub or_error {ℓ κ} : {A : Type ℓ} {E : Type κ} → E → Option A → Result E A
or_error e none = err e
or_error e (some a) = ok a

-- ResolveGGML over what DiscoverManaged lists, newest first.
unfoldable pub resolve_ggml : List Backend → Text → Result GgmlError Backend
resolve_ggml managed ref =
    if is_empty ref || same ref (codes "latest")
    then or_error none_pulled (find (λ b. b.complete) managed)
    else or_error (not_pulled ref) (find (λ b. same b.version ref && b.complete) managed)
