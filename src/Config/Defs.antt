-- ===== src/Config/Defs.antt =====
-- internal/config/config.go: the data and the functions.
use llama_chip.Base.{
  Bool, List, Option, Text, [], any, codes, if◌then◌else◌, is_empty, lower, none, or_else, same,
  some, ℕ, ◌+◌, ◌==◌, ◌∷◌,
}

pub record Slot : Type 0 where
  pub model : Text
  pub alias : Text
  pub gpus : List ℕ
  pub backend : Text
  pub ctx_size : ℕ
  pub parallel : ℕ
  pub kv_cache : Text
  pub no_flash : Bool
  pub split_mode : Text
  pub port : ℕ
  pub mmproj : Text
  pub no_mmproj : Bool
  pub extra_args : List Text
  pub external : Text
  pub api_key : Text
  pub api_key_env : Text

-- The handle that clients address the slot by.
unfoldable pub name : Slot → Text
name s = if is_empty s.alias then s.model else s.alias

-- The key of the slot's name in the maps of the program.
abbrev pub key : Slot → Text
key s = lower (name s)

pub record Peer : Type 0 where
  pub name : Text
  pub url : Text

pub record Federation : Type 0 where
  pub node_name : Text
  pub advertise : Text
  pub token : Text
  pub poll_interval_sec : ℕ
  pub peers : List Peer
  pub hub_url : Text
  pub hub_token : Text
  pub peer_tokens : List (Text × Text)

pub record Config : Type 0 where
  pub backend : Text
  pub listen : Text
  pub backends_dir : Text
  pub models_dir : Text
  pub base_port : ℕ
  pub slots : List Slot
  pub profiles : List (Text × List Slot)
  pub default_profile : Text
  pub federation : Option Federation

-- `if v == "" { v = d }`.
abbrev pub or_default : Text → Text → Text
or_default d v = if is_empty v then d else v

-- One round of the loop of `applyDefaults`, with the next port to give out.
unfoldable pub fill_slot : ℕ → Slot → Slot
fill_slot port s = record s {
  kv_cache = or_default (codes "q8_0") s.kv_cache;
  split_mode = or_default (codes "layer") s.split_mode;
  port = if s.port == 0 then port else s.port;
}

abbrev pub port_after : ℕ → Slot → ℕ
port_after port s = if s.port == 0 then port + 1 else port

unfoldable pub fill_slots : ℕ → List Slot → List Slot
unfolding fill_slot
fill_slots port [] = []
fill_slots port (s ∷ ss) = fill_slot port s ∷ fill_slots (port_after port s) ss

unfoldable pub apply_defaults : Config → Config
apply_defaults c =
    let base = if c.base_port == 0 then 9100 else c.base_port in
    record c {
      backend = or_default (codes "cuda12") c.backend;
      listen = or_default (codes ":8090") c.listen;
      base_port = base;
      slots = fill_slots base c.slots;
    }

pub data ConfigError : Type 0 where
  alias_missing name_taken : Text → ConfigError
  model_missing : ConfigError

-- The checks of one slot that look at no other.
unfoldable pub check_slot : Slot → Option ConfigError
check_slot s =
    if is_empty s.external
    then (if is_empty s.model then some model_missing else none)
    else (if is_empty s.alias then some (alias_missing s.external) else none)

-- The loop of `validate`; `seen` holds the keys of the slots before. `none` is the nil error.
unfoldable pub validate_from : List Text → List Slot → Option ConfigError
unfolding check_slot
validate_from seen [] = none
validate_from seen (s ∷ ss) = or_else (check_slot s) (
    or_else (if any (same (key s)) seen then some (name_taken (name s)) else none)
      (validate_from (key s ∷ seen) ss))

unfoldable pub validate : Config → Option ConfigError
unfolding validate_from
validate c = validate_from [] c.slots

-- `Load` behind the reading and the decoding of the file.
unfoldable pub load_config : Config → Config × Option ConfigError
unfolding apply_defaults validate
load_config c = let c' = apply_defaults c in (c', validate c')
