-- ===== src/Rig/Defs.antt =====
-- internal/rig/rig.go: the rig's state and the operations that change which slots it holds. An
-- instance is an address in a heap, so that the list and the map share it as the pointers do.
use llama_chip.Base.{
  Bool, List, Option, Result, Text, [], any, codes, cut_prefix, err, false, if◌then◌else◌, insert,
  is_empty, is_some, length, lookup, map, none, ok, some, suc, trim_right, true, zero, ℕ, ◌++◌, ◌+◌,
  ◌==◌, ◌>>=◌, ◌>>◌, ◌||◌, ◌∷◌,
}
use llama_chip.Config.{Slot, key, name, or_default}
use llama_chip.Models.{Model, find_model}
use llama_chip.Backends.{Backend, GgmlError, all, latest, or_error, resolve_ggml}

pub data State : Type 0 where
  starting healthy crashed stopped : State

-- The parts of a parsed URL that the rig reads.
pub record Url : Type 0 where
  pub text : Text
  pub scheme : Text
  pub host : Text
  pub port : ℕ

pub record Instance : Type 0 where
  pub slot : Slot
  pub model : Model
  pub backend : Backend
  pub port : ℕ
  pub external : Option Url
  pub state : State
  pub restarts : ℕ
  pub last_err : Text
  pub stopping : Bool

pub record Rig : Type 0 where
  pub profiles : List (Text × List Slot)
  pub backend : Backend
  pub base_port : ℕ
  pub heap : ℕ → Instance
  pub next : ℕ
  pub instances : List ℕ
  pub by_name : List (Text × ℕ)

-- What the disk and package url answer: the models that Discover lists, the builds of both kinds
-- (none where the directory cannot be read), which directories hold a server, and url.Parse.
pub record Env : Type 0 where
  pub models : Option (List Model)
  pub managed : List Backend
  pub discovered : Option (List Backend)
  pub has_server : Text → Bool
  pub server_path : Text → Text
  pub parse_url : Text → Option Url

pub data BackendError : Type 0 where
  ggml : GgmlError → BackendError
  no_server no_backend : Text → BackendError

pub data RigError : Type 0 where
  needs_model needs_alias : RigError
  no_model bad_url already_loaded no_slot : Text → RigError
  slot_backend : Text → BackendError → RigError
  rig_backend : BackendError → RigError

pub data ProfileError : Type 0 where
  no_profile : Text → ProfileError
  load_errors : List RigError → ProfileError

abbrev pub blank_model : Text → Model
blank_model alias = record {
  id = alias;
  name = alias;
  path = [];
  bytes = 0;
  mmproj = [];
  supports_vision = false;
}

abbrev pub blank_backend : Backend
blank_backend = record { variant = []; version = []; dir = []; server = []; complete = false }

abbrev pub find_in : Env → Text → Option Model
find_in env handle = elim env.models [ none ↦ none | some all ↦ find_model all handle ]

unfoldable pub resolve_dir : Env → Text → Result BackendError Backend
resolve_dir env spec =
    if env.has_server spec
    then ok (record {
      variant = codes "custom";
      version = [];
      dir = spec;
      server = env.server_path spec;
      complete = true;
    })
    else err (no_server spec)

abbrev pub ggml_result : Result GgmlError Backend → Result BackendError Backend
ggml_result (ok b) = ok b
ggml_result (err e) = err (ggml e)

abbrev pub latest_in : Env → Text → Option Backend
latest_in env spec = elim env.discovered [ none ↦ none | some all ↦ latest all spec ]

unfoldable pub resolve_backend : Env → Text → Result BackendError Backend
unfolding resolve_dir
resolve_backend env spec = elim (cut_prefix (codes "ggml@") spec) [
  | some rest ↦ ggml_result (resolve_ggml env.managed rest)
  | none ↦
      if any (λ c. c == b'/' || c == b'\\') spec
      then resolve_dir env spec
      else or_error (no_backend spec) (latest_in env spec)
]

unfoldable pub backend_for : Env → Rig → Slot → Result BackendError Backend
unfolding resolve_backend
backend_for env r s = if is_empty s.backend then ok r.backend else resolve_backend env s.backend

-- The loop of nextPortLocked on fuel.
unfoldable pub free_port : ℕ → List ℕ → ℕ → ℕ
free_port zero used p = p
free_port (suc fuel) used p =
    let later = free_port fuel used (p + 1) in if any (λ q. q == p) used then later else p

abbrev pub used_ports : Rig → List ℕ
used_ports r = map (λ i. (r.heap i).port) r.instances

unfoldable pub next_port : Rig → ℕ
unfolding free_port
next_port r = free_port (suc (length r.instances)) (used_ports r) r.base_port

abbrev pub update : (ℕ → Instance) → ℕ → Instance → ℕ → Instance
update h i v j = if i == j then v else h j

-- A new instance at a fresh address, in the list and in the map.
unfoldable pub add : Rig → Instance → Rig
add r v = record r {
  heap = update r.heap r.next v;
  next = r.next + 1;
  instances = r.instances ++ r.next ∷ [];
  by_name = insert (key v.slot) r.next r.by_name;
}

-- `if bad { return err }`.
abbrev pub refuse_if : Bool → RigError → Result RigError (Unit {0})
refuse_if true e = err e
refuse_if false e = ok tt

abbrev pub launched : Slot → Model → Backend → Instance
launched s m be = record {
  slot = s;
  model = m;
  backend = be;
  port = s.port;
  external = none;
  state = stopped;
  restarts = 0;
  last_err = [];
  stopping = false;
}

abbrev pub upstream : Slot → State → Url → Instance
upstream s st u = record {
  slot = s;
  model = blank_model s.alias;
  backend = blank_backend;
  port = u.port;
  external = some u;
  state = st;
  restarts = 0;
  last_err = [];
  stopping = false;
}

abbrev pub checked_url : Text → Option Url → Result RigError Url
checked_url external none = err (bad_url external)
checked_url external (some u) =
    if is_empty u.scheme || is_empty u.host then err (bad_url external) else ok u

unfoldable pub add_external : Env → Rig → Slot → State → Result RigError Rig
unfolding add
add_external env r s st = do
  refuse_if (is_empty s.alias) needs_alias
  u ← checked_url s.external (env.parse_url (trim_right b'/' s.external))
  refuse_if (is_some (lookup (key s) r.by_name)) (already_loaded (name s))
  ok (add r (upstream s st u))

abbrev pub with_defaults : Slot → Slot
with_defaults s = record s {
  kv_cache = or_default (codes "q8_0") s.kv_cache;
  split_mode = or_default (codes "layer") s.split_mode;
}

abbrev pub with_port : Rig → Slot → Slot
with_port r s = if s.port == 0 then record s { port = next_port r } else s

abbrev pub tagged : Text → Result BackendError Backend → Result RigError Backend
tagged n (ok b) = ok b
tagged n (err e) = err (slot_backend n e)

unfoldable pub load_local : Env → Rig → Slot → Result RigError Rig
unfolding backend_for next_port add
load_local env r s = do
  refuse_if (is_empty s.model) needs_model
  m ← or_error (no_model s.model) (find_in env s.model)
  be ← tagged (name s) (backend_for env r s)
  refuse_if (is_some (lookup (key s) r.by_name)) (already_loaded (name s))
  ok (add r (launched (with_port r (with_defaults s)) m be))

unfoldable pub load : Env → Rig → Slot → Result RigError Rig
unfolding load_local add_external
load env r s = if is_empty s.external then load_local env r s else add_external env r s starting
