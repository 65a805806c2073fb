-- ===== src/Gpu.antt =====
-- internal/gpu/gpu.go and internal/lms/lms.go: what nvidia-smi tells of the cards, and where the
-- two programs are looked for. The run of nvidia-smi, the reading of its CSV, the search of the
-- path and of files are the standard library's and parameters here.
use llama_chip.Base.{
  Bool, List, Option, Text, [], codes, if◌then◌else◌, is_empty, none, not, some, trim_space, ◌&&◌,
  ◌∷◌,
}
use llama_chip.Backends.{atoi, ℤ}

pub record Gpu : Type 0 where
  pub index : ℤ
  pub name : Text
  pub mem_used : ℤ
  pub mem_total : ℤ
  pub util : ℤ
  pub temp_c : ℤ

-- The number of a field, and what Atoi gives along with an error.
abbrev pub number : Text → ℤ
number s = (atoi (trim_space s)).0

-- A row of fewer than six fields is skipped; what stands behind the sixth is not read.
unfoldable pub gpu_row : List Text → Option Gpu
unfolding atoi trim_space
gpu_row (i ∷ n ∷ used ∷ total ∷ util ∷ temp ∷ rest) = some (record {
  index = number i;
  name = trim_space n;
  mem_used = number used;
  mem_total = number total;
  util = number util;
  temp_c = number temp;
})
gpu_row _ = none

abbrev add_row : Option Gpu → List Gpu → List Gpu
add_row none gs = gs
add_row (some g) gs = g ∷ gs

unfoldable pub gpu_rows : List (List Text) → List Gpu
unfolding gpu_row
gpu_rows [] = []
gpu_rows (row ∷ rows) = add_row (gpu_row row) (gpu_rows rows)

-- Query: the output of the program, if it ran, and the rows of its CSV, if it is one.
unfoldable pub query : (Text → Option (List (List Text))) → Option Text → Option (List Gpu)
unfolding gpu_rows
query read_all none = none
query read_all (some out) = elim (read_all out) [ none ↦ none | some rows ↦ some (gpu_rows rows) ]

-- The system that a program is looked for in: the path, the environment and the files.
pub record Machine : Type 0 where
  pub look_path : Text → Option Text
  pub getenv : Text → Text
  pub home : Text
  pub join : List Text → Text
  pub exists : Text → Bool

unfoldable pub smi_path : Machine → Text
smi_path m = elim (m.look_path (codes "nvidia-smi")) [
  | some p ↦ p
  | none ↦
      let root = m.getenv (codes "SystemRoot") in
      let p = m.join (root ∷ codes "System32" ∷ codes "nvidia-smi.exe" ∷ []) in
      if not (is_empty root) && m.exists p then p else codes "nvidia-smi"
]

abbrev pub lms_file : Machine → Text → Text
lms_file m program = m.join (m.home ∷ codes ".lmstudio" ∷ codes "bin" ∷ program ∷ [])

-- lms.Path.
unfoldable pub lms_path : Machine → Text
lms_path m = elim (m.look_path (codes "lms")) [
  | some p ↦ p
  | none ↦
      if m.exists (lms_file m (codes "lms.exe"))
      then lms_file m (codes "lms.exe")
      else (if m.exists (lms_file m (codes "lms")) then lms_file m (codes "lms") else codes "lms")
]
