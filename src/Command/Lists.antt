-- ===== src/Command/Lists.antt =====
-- cmdBackends, cmdModels and cmdGPU of cmd/llama-chip/main.go: what the commands list. Columns, and
-- sizes in gigabytes, are left to the printing; `none` is an error of the discovery.
use llama_chip.Base.{
  List, Option, Text, [], codes, if◌then◌else◌, is_empty, map, none, some, ℕ, ◌++◌, ◌∷◌,
}
use llama_chip.Backends.{Backend, latest, ℤ}
use llama_chip.Gpu.{Gpu}
use llama_chip.Models.{Model}

abbrev runnable : Backend → Text
runnable b = if b.complete then codes "yes" else codes "stub"

abbrev backend_row : Backend → List Text
backend_row b = b.variant ∷ b.version ∷ runnable b ∷ b.server ∷ []

abbrev managed_row : Backend → List Text
managed_row b = (codes "ggml@" ++ b.version) ∷ runnable b ∷ b.dir ∷ []

-- The rows, the version and the directory of the newest build for CUDA 12, and the rows of the
-- builds that were pulled.
pub record BackendList : Type 0 where
  pub rows : List (List Text)
  pub newest : Option (Text × Text)
  pub managed : List (List Text)

abbrev version_dir : Option Backend → Option (Text × Text)
version_dir none = none
version_dir (some b) = some (b.version, b.dir)

-- With no build of LM Studio the pulled ones are not listed either.
unfoldable pub cmd_backends : Option (List Backend) → List Backend → Option BackendList
unfolding latest
cmd_backends none managed = none
cmd_backends (some bs) managed = some (record {
  rows = map backend_row bs;
  newest = if is_empty bs then none else version_dir (latest bs (codes "cuda12"));
  managed = if is_empty bs then [] else map managed_row managed;
})

unfoldable pub cmd_models : Option (List Model) → Option (List (ℕ × Text))
cmd_models none = none
cmd_models (some ms) = some (map (λ m. (m.bytes, m.id)) ms)

abbrev gpu_cells : (ℤ → Text) → Gpu → List Text
gpu_cells itoa g =
    itoa g.index
    ∷ g.name
    ∷ (itoa g.mem_used ++ codes "/" ++ itoa g.mem_total ++ codes " MiB")
    ∷ (itoa g.util ++ codes "%")
    ∷ (itoa g.temp_c ++ codes "°C")
    ∷ []

unfoldable pub cmd_gpu : (ℤ → Text) → Option (List Gpu) → Option (List (List Text))
cmd_gpu itoa none = none
cmd_gpu itoa (some gs) = some (map (gpu_cells itoa) gs)
