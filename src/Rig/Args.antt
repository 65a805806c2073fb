-- ===== src/Rig/Args.antt =====
-- args, gpuList and the environment in launch, and snapshot, of internal/rig/rig.go. The texts of
-- numbers are the parameter `itoa`; the disk says which projector lies beside a model.
use llama_chip.Base.{
  List, Option, Text, [], codes, if◌then◌else◌, is_empty, length, ltb, map, none, not, same, some,
  sort_by, text_lt, ℕ, ◌&&◌, ◌++◌, ◌∷◌,
}
use llama_chip.Config.{Slot, name}
use llama_chip.Rig.Defs.{Instance, Rig, State, Url}
use llama_chip.Rig.Ring.{join}

module _ (itoa : ℕ → Text) where
  unfoldable pub gpu_list : List ℕ → Text
  unfolding join
  gpu_list gpus = join (codes ",") (map itoa gpus)

  -- How a system finds the libraries: the directories before what the variable held.
  abbrev pub path_var : Text → Text
  path_var goos =
      if same goos (codes "windows")
      then codes "PATH="
      else (if same goos (codes "darwin")
          then codes "DYLD_LIBRARY_PATH="
          else codes "LD_LIBRARY_PATH=")

  -- What launch appends to the environment, with the separator of paths and the variable's value.
  unfoldable pub launch_env : Text → Text → List Text → Text → Slot → List Text
  unfolding same join gpu_list
  launch_env goos sep dirs old s =
      (codes "CUDA_VISIBLE_DEVICES=" ++ gpu_list s.gpus)
      ∷ (path_var goos ++ (join sep dirs ++ (sep ++ old)))
      ∷ []

  abbrev pub at_least_one : ℕ → ℕ
  at_least_one n = if ltb n 1 then 1 else n

  abbrev pub projector_args : Slot → Option Text → List Text
  projector_args s beside =
      if not (is_empty s.mmproj)
      then codes "--mmproj" ∷ s.mmproj ∷ []
      else (if not s.no_mmproj
          then (elim beside [ none ↦ [] | some mp ↦ codes "--mmproj" ∷ mp ∷ [] ])
          else [])

  abbrev pub ctx_args : Slot → List Text
  ctx_args s = if ltb 0 s.ctx_size then codes "--ctx-size" ∷ itoa s.ctx_size ∷ [] else []

  abbrev pub cache_args : Slot → List Text
  cache_args s =
      if not (is_empty s.kv_cache) && not (same s.kv_cache (codes "f16"))
      then codes "--cache-type-k" ∷ s.kv_cache ∷ codes "--cache-type-v" ∷ s.kv_cache ∷ []
      else []

  abbrev pub fixed_args : Instance → List Text
  fixed_args i =
      codes "--model"
      ∷ i.model.path
      ∷ codes "--host"
      ∷ codes "127.0.0.1"
      ∷ codes "--port"
      ∷ itoa i.port
      ∷ codes "--alias"
      ∷ name i.slot
      ∷ codes "--n-gpu-layers"
      ∷ (if is_empty i.slot.gpus then codes "0" else codes "999")
      ∷ []

  abbrev pub split_args : Slot → List Text
  split_args s =
      codes "--split-mode"
      ∷ (if ltb 1 (length s.gpus) then s.split_mode else codes "none")
      ∷ codes "--jinja"
      ∷ s.extra_args

  abbrev pub later_args : Slot → List Text
  later_args s =
      codes "--parallel"
      ∷ itoa (at_least_one s.parallel)
      ∷ codes "--flash-attn"
      ∷ (if s.no_flash then codes "off" else codes "on")
      ∷ (cache_args s ++ split_args s)

  -- The arguments, with the projector that lies beside the model.
  unfoldable pub args : Option Text → Instance → List Text
  unfolding name same
  args beside i =
      fixed_args i ++ (projector_args i.slot beside ++ (ctx_args i.slot ++ later_args i.slot))

pub record Status : Type 0 where
  pub name : Text
  pub model : Text
  pub gpus : List ℕ
  pub port : ℕ
  pub ctx : ℕ
  pub parallel : ℕ
  pub state : State
  pub restarts : ℕ
  pub last_err : Text
  pub bytes : ℕ
  pub external : Text

abbrev pub url_text : Option Url → Text
url_text none = []
url_text (some u) = u.text

-- The size is in bytes here, where the code divides it into gigabytes for display.
unfoldable pub snapshot_of : Instance → Status
unfolding name
snapshot_of i = record {
  name = name i.slot;
  model = i.model.id;
  gpus = i.slot.gpus;
  port = i.port;
  ctx = i.slot.ctx_size;
  parallel = if ltb i.slot.parallel 1 then 1 else i.slot.parallel;
  state = i.state;
  restarts = i.restarts;
  last_err = i.last_err;
  bytes = i.model.bytes;
  external = url_text i.external;
}

unfoldable pub snapshot : Rig → List Status
unfolding snapshot_of
snapshot r = map (λ i. snapshot_of (r.heap i)) r.instances

-- ProfileNames.
unfoldable pub profile_names : Rig → List Text
unfolding text_lt
profile_names r = sort_by text_lt (map (λ e. e.0) r.profiles)
