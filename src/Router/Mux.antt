-- ===== src/Router/Mux.antt =====
-- Router, Handler and the small views of internal/router/router.go: which handler has a path, and
-- what a request does to the node.
--
-- What a handler asks of the world is a field of World: the disk, the cards, the servers of the
-- slots, the decoders of the bodies, and the cleaning of a path by net/http. A reply is its status,
-- or what the view tells; texts that are only shown are left out.
use llama_chip.Base.{
  Bool, List, Option, Result, Text, [], codes, false, if◌then◌else◌, lookup, map, none, not, same,
  some, true, ℕ, ◌∷◌,
}
use llama_chip.Backends.{Backend, ℤ}
use llama_chip.Config.{Slot}
use llama_chip.Fed.{Fed, PeerHealth, RosterGpu, enabled, peers}
use llama_chip.Fold.{Codec}
use llama_chip.Gguf.{Params}
use llama_chip.Gpu.{Gpu}
use llama_chip.Models.{Model}
use llama_chip.Rig.{Env, Rig, Status, profile_names, snapshot}
use llama_chip.Router.Context.{Asked, Floats, Guess, guess_context}
use llama_chip.Router.Defs.{Host, Outcome, Request, list_models, proxy_by_model, with_auth}
use llama_chip.Router.Manage.{
  ManageOp, apply_named, ensure_slot, load_slot, manage, unload_every, unload_slot,
}
use llama_chip.Router.Remote.{RemoteCall, remote}
use llama_chip.Router.Views.{ModelLive, PoolNode, RawSlot, live, pool}

pub record Router : Type 0 where
  pub rig : Rig
  pub fed : Option Fed

pub record World (F Raw : Type 0) : Type 0 where
  pub host : Host
  pub env : Env
  pub codec : Codec Raw
  pub floats : Floats F
  pub slot_body : Raw → Option Slot
  pub name_body : Raw → Text
  pub clean : Text → Text
  pub slots_at : ℕ → Option (Option (List RawSlot))
  pub gpus : Option (List Gpu)
  pub scan_int : Text → ℤ
  pub read_file : Text → Option Params

-- A request: what Request has of it, its method, its body, and the rest of its query.
pub record Incoming (Raw : Type 0) : Type 0 where
  pub request : Request
  pub method : Text
  pub body : Raw
  pub op : Text
  pub rest : Text
  pub asked : Asked

pub data Handler : Type 0 where
  proxies lists_models tells_status tells_gpus tells_models tells_backends : Handler
  adds drops drops_all tells_profiles switches needs guesses : Handler
  tells_live tells_pool calls_remote tells_local is_alive : Handler

-- The table of Handler.
unfoldable pub routes : List (Text × Handler)
routes =
    (codes "/v1/chat/completions", proxies)
    ∷ (codes "/v1/completions", proxies)
    ∷ (codes "/v1/embeddings", proxies)
    ∷ (codes "/v1/messages", proxies)
    ∷ (codes "/v1/messages/count_tokens", proxies)
    ∷ (codes "/v1/models", lists_models)
    ∷ (codes "/api/status", tells_status)
    ∷ (codes "/api/gpu", tells_gpus)
    ∷ (codes "/api/models", tells_models)
    ∷ (codes "/api/backends", tells_backends)
    ∷ (codes "/api/load", adds)
    ∷ (codes "/api/unload", drops)
    ∷ (codes "/api/unload-all", drops_all)
    ∷ (codes "/api/profiles", tells_profiles)
    ∷ (codes "/api/profile", switches)
    ∷ (codes "/api/ensure", needs)
    ∷ (codes "/api/guess-context", guesses)
    ∷ (codes "/api/live", tells_live)
    ∷ (codes "/api/pool", tells_pool)
    ∷ (codes "/api/remote", calls_remote)
    ∷ (codes "/api/fed/local", tells_local)
    ∷ (codes "/health", is_alive)
    ∷ []

-- What fedLocal tells.
pub record LocalList : Type 0 where
  pub node : Text
  pub advertise : Text
  pub models : List Text

abbrev pub node_name : Option Fed → Text
node_name none = []
node_name (some f) = f.cfg.node_name

abbrev pub advertise : Option Fed → Text
advertise none = []
advertise (some f) = f.cfg.advertise

unfoldable pub fed_local : Router → LocalList
unfolding snapshot
fed_local r = record {
  node = node_name r.fed;
  advertise = advertise r.fed;
  models = map (λ s. s.name) (snapshot r.rig);
}

-- What status tells: the slots, and the name and the peers of a node that federates.
pub record StatusView : Type 0 where
  pub slots : List Status
  pub federation : Option (Text × List PeerHealth)

unfoldable pub status : Router → StatusView
unfolding snapshot enabled peers
status r = record {
  slots = snapshot r.rig;
  federation = if enabled r.fed then some (node_name r.fed, peers r.fed) else none;
}

abbrev pub roster_gpu : Gpu → RosterGpu
roster_gpu g = record {
  index = g.index;
  name = g.name;
  mem_used = g.mem_used;
  mem_total = g.mem_total;
  util = g.util;
}

-- localGPUs.
abbrev pub local_gpus : Option (List Gpu) → List RosterGpu
local_gpus none = []
local_gpus (some gs) = map roster_gpu gs

-- What a list view tells: the items, and whether they could be found.
abbrev pub found_items : {A : Type 0} → Option (List A) → List A × Bool
found_items none = ([], false)
found_items (some xs) = (xs, true)

abbrev pub gpu_status : Option (List Gpu) → List Gpu × Bool
gpu_status gpus = found_items gpus

abbrev pub available_models : Env → List Model × Bool
available_models env = found_items env.models

abbrev pub available_backends : Env → List Backend × Bool
available_backends env = found_items env.discovered

pub data Reply (Raw : Type 0) : Type 0 where
  page moved healthy : Reply Raw
  status_only : ℕ → Reply Raw
  proxied : Outcome Raw → Reply Raw
  listing : List (Text × Text) → Reply Raw
  status_of : StatusView → Reply Raw
  gpus_of : List Gpu × Bool → Reply Raw
  models_of : List Model × Bool → Reply Raw
  backends_of : List Backend × Bool → Reply Raw
  profiles_of : List Text → Reply Raw
  guessed : Option Guess → Reply Raw
  live_of : List ModelLive → Reply Raw
  pool_of : List PoolNode → Reply Raw
  remote_of : Result ℕ RemoteCall → Reply Raw
  local_of : LocalList → Reply Raw

module _ {F Raw : Type 0} (w : World F Raw) where
  abbrev pub manage_op : Incoming Raw → ManageOp → Router → Router × Reply Raw
  manage_op q op r =
      let (rig, code) = manage w.env r.rig q.method op in (record r { rig = rig }, status_only code)

  unfoldable pub run_handler : Handler → Router → Incoming Raw → Router × Reply Raw
  unfolding proxy_by_model list_models status manage profile_names guess_context live pool remote
      fed_local
  run_handler proxies r q =
      (r, proxied (proxy_by_model w.codec w.host r.rig r.fed q.request q.body))
  run_handler lists_models r q = (r, listing (list_models r.rig r.fed))
  run_handler tells_status r q = (r, status_of (status r))
  run_handler tells_gpus r q = (r, gpus_of (gpu_status w.gpus))
  run_handler tells_models r q = (r, models_of (available_models w.env))
  run_handler tells_backends r q = (r, backends_of (available_backends w.env))
  run_handler adds r q = manage_op q (load_slot (w.slot_body q.body)) r
  run_handler drops r q = manage_op q (unload_slot (w.name_body q.body)) r
  run_handler drops_all r q = manage_op q unload_every r
  run_handler tells_profiles r q = (r, profiles_of (profile_names r.rig))
  run_handler switches r q = manage_op q (apply_named (w.name_body q.body)) r
  run_handler needs r q = manage_op q (ensure_slot (w.slot_body q.body)) r
  run_handler guesses r q =
      (r, guessed (guess_context w.floats w.scan_int w.env.models w.gpus w.read_file q.asked))
  run_handler tells_live r q = (r, live_of (live w.slots_at r.rig))
  run_handler tells_pool r q = (r, pool_of (pool r.fed r.rig (local_gpus w.gpus)))
  run_handler calls_remote r q = (r, remote_of (remote r.fed q.request.node q.op q.rest))
  run_handler tells_local r q = (r, local_of (fed_local r))
  run_handler is_alive r q = (r, healthy)

  -- The mux: a path that is not clean is redirected, and what no pattern has is a file of the page.
  unfoldable pub mux : Router → Incoming Raw → Router × Reply Raw
  unfolding run_handler lookup routes same
  mux r q =
      if not (same (w.clean q.request.path) q.request.path)
      then (r, moved)
      else elim (lookup q.request.path routes) [ none ↦ (r, page) | some h ↦ run_handler h r q ]

  -- Handler.
  unfoldable pub handle : Router → Incoming Raw → Router × Reply Raw
  unfolding mux with_auth
  handle r q = with_auth w.host r.fed q.request (r, status_only 401) (mux r q)
