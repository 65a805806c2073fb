-- ===== src/Rig/Boot.antt =====
-- New of internal/rig/rig.go: a rig from a configuration.
use llama_chip.Base.{List, Result, [], err, false, if◌then◌else◌, is_empty, none, ok, ◌>>=◌, ◌∷◌}
use llama_chip.Config.{Config, Slot, name}
use llama_chip.Backends.{Backend, or_error}
use llama_chip.Rig.Defs.{
  BackendError, Env, Instance, Rig, RigError, add, add_external, backend_for, blank_backend,
  blank_model, find_in, launched, no_model, resolve_backend, rig_backend, stopped, tagged,
}

-- What an address that is not in use holds.
abbrev unused : Instance
unused = record {
  slot = record {
    model = [];
    alias = [];
    gpus = [];
    backend = [];
    ctx_size = 0;
    parallel = 0;
    kv_cache = [];
    no_flash = false;
    split_mode = [];
    port = 0;
    mmproj = [];
    no_mmproj = false;
    extra_args = [];
    external = [];
    api_key = [];
    api_key_env = [];
  };
  model = blank_model [];
  backend = blank_backend;
  port = 0;
  external = none;
  state = stopped;
  restarts = 0;
  last_err = [];
  stopping = false;
}

-- One slot of New. Unlike Load it does not ask whether the name is taken.
unfoldable pub new_slot : Env → Rig → Slot → Result RigError Rig
unfolding add_external backend_for add
new_slot env r s =
    if is_empty s.external
    then (do
      m ← or_error (no_model s.model) (find_in env s.model)
      be ← tagged (name s) (backend_for env r s)
      ok (add r (launched s m be)))
    else add_external env r s stopped

unfoldable pub new_slots : Env → Rig → List Slot → Result RigError Rig
unfolding new_slot
new_slots env r [] = ok r
new_slots env r (s ∷ ss) = new_slot env r s >>= λ r'. new_slots env r' ss

abbrev pub empty_rig : Config → Backend → Rig
empty_rig c be = record {
  profiles = c.profiles;
  backend = be;
  base_port = c.base_port;
  heap = λ i. unused;
  next = 0;
  instances = [];
  by_name = [];
}

abbrev pub rig_backend_of : Result BackendError Backend → Result RigError Backend
rig_backend_of (ok b) = ok b
rig_backend_of (err e) = err (rig_backend e)

unfoldable pub new_rig : Env → Config → Result RigError Rig
unfolding new_slots resolve_backend
new_rig env c = do
  be ← rig_backend_of (resolve_backend env c.backend)
  new_slots env (empty_rig c be) c.slots
