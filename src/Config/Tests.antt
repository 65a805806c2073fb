-- ===== src/Config/Tests.antt =====
-- The configuration at concrete inputs.
use llama_chip.Base.{
  All, Distinct, List, Text, [], arith, codes, false, inl, lower, map, none, refl, same, some, ℕ,
  ◌↔◌, ◌∷◌, ◌≡◌,
}
use llama_chip.Config.Defs.{
  Config, Slot, apply_defaults, fill_slots, key, name, name_taken, validate,
}
use llama_chip.Config.Defaults.{apply_defaults-Distinct, ports}
use llama_chip.Config.Validate.{IsUsable, validate_iff}

abbrev pub plain_slot : Text → ℕ → Slot
plain_slot model port = record {
  model = model;
  alias = [];
  gpus = [];
  backend = [];
  ctx_size = 0;
  parallel = 0;
  kv_cache = [];
  no_flash = false;
  split_mode = [];
  port = port;
  mmproj = [];
  no_mmproj = false;
  extra_args = [];
  external = [];
  api_key = [];
  api_key_env = [];
}

abbrev pub config_of : List Slot → Config
config_of ss = record {
  backend = [];
  listen = [];
  backends_dir = [];
  models_dir = [];
  base_port = 9100;
  slots = ss;
  profiles = [];
  default_profile = [];
  federation = none;
}

abbrev apart : Config
apart = config_of (
    plain_slot (codes "qwen") 0 ∷ plain_slot (codes "gemma") 8000 ∷ plain_slot (codes "phi") 0 ∷ [])

abbrev clashing : Config
clashing = config_of (plain_slot (codes "qwen") 0 ∷ plain_slot (codes "gemma") 9100 ∷ [])

apart-ports : ports (apply_defaults apart).slots ≡ 9100 ∷ 8000 ∷ 9101 ∷ []
unfolding apply_defaults fill_slots
apart-ports = refl

twice_named :
    validate (config_of (plain_slot (codes "Qwen") 1 ∷ plain_slot (codes "qweN") 2 ∷ []))
    ≡ some (name_taken (codes "qweN"))
unfolding validate name same lower
twice_named = refl

apply_defaults-Distinct_example : Distinct (ports (apply_defaults apart).slots)
apply_defaults-Distinct_example =
    apply_defaults-Distinct apart (omega arith)
      (λ e. absurd (e refl), (λ e. inl (omega arith), (λ e. absurd (e refl), tt)))
      (λ e. absurd (e refl), (λ e. (λ f. absurd (f refl), tt), (λ e. tt, tt)))

validate_iff_example :
    (validate apart ≡ none) ↔ (All IsUsable apart.slots × Distinct (map key apart.slots))
validate_iff_example = validate_iff apart
