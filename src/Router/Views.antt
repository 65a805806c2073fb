-- ===== src/Router/Views.antt =====
-- parseSlots, live and pool of internal/router/router.go. The answers of the servers and of
-- nvidia-smi are parameters.
use llama_chip.Base.{
  Bool, List, Option, Text, [], codes, equal_fold, false, if◌then◌else◌, is_empty, length, ltb, map,
  none, not, select, some, true, ℕ, ◌+◌, ◌/◌, ◌∷◌,
}
use llama_chip.Backends.{pos, ℤ}
use llama_chip.Rig.{Rig, Status, is_healthy, snapshot}
use llama_chip.Fed.{Fed, PeerHealth, RosterEntry, RosterGpu, peers}

pub record NextToken : Type 0 where
  pub n_decoded : ℤ
  pub n_remain : ℤ

pub record RawSlot : Type 0 where
  pub id : ℤ
  pub id_task : ℤ
  pub n_ctx : ℤ
  pub is_processing : Bool
  pub n_prompt_tokens : ℤ
  pub n_prompt_tokens_processed : ℤ
  pub n_prompt_tokens_cache : ℤ
  pub next_token : List NextToken

pub record SlotLive : Type 0 where
  pub id : ℤ
  pub task : ℤ
  pub processing : Bool
  pub prompt_tokens : ℤ
  pub prompt_processed : ℤ
  pub prompt_cache : ℤ
  pub decoded : ℤ
  pub remain : ℤ
  pub n_ctx : ℤ

abbrev pub first_token : List NextToken → NextToken
first_token [] = record { n_decoded = pos 0; n_remain = pos 0 }
first_token (t ∷ ts) = t

abbrev pub slot_live : RawSlot → SlotLive
slot_live s = record {
  id = s.id;
  task = s.id_task;
  processing = s.is_processing;
  prompt_tokens = s.n_prompt_tokens;
  prompt_processed = s.n_prompt_tokens_processed;
  prompt_cache = s.n_prompt_tokens_cache;
  decoded = (first_token s.next_token).n_decoded;
  remain = (first_token s.next_token).n_remain;
  n_ctx = s.n_ctx;
}

pub record Parsed : Type 0 where
  pub slots : List SlotLive
  pub parallel : ℕ
  pub ctx_per_slot : ℤ
  pub active : ℕ

abbrev pub count_active : List RawSlot → ℕ
count_active [] = 0
count_active (s ∷ ss) = if s.is_processing then 1 + count_active ss else count_active ss

abbrev pub first_ctx : List RawSlot → ℤ
first_ctx [] = pos 0
first_ctx (s ∷ ss) = s.n_ctx

-- parseSlots over what the body decodes to, if it does.
unfoldable pub parse_slots : Option (List RawSlot) → Parsed
parse_slots none = record { slots = []; parallel = 0; ctx_per_slot = pos 0; active = 0 }
parse_slots (some raw) = record {
  slots = map slot_live raw;
  parallel = length raw;
  ctx_per_slot = first_ctx raw;
  active = count_active raw;
}

pub data LiveError : Type 0 where
  no_error slots_unavailable : LiveError
  external_upstream : Text → LiveError

pub record ModelLive : Type 0 where
  pub name : Text
  pub model : Text
  pub gpus : List ℕ
  pub parallel : ℕ
  pub ctx_per_slot : ℤ
  pub active : ℕ
  pub slots : List SlotLive
  pub err : LiveError

abbrev pub quiet : Status → LiveError → ModelLive
quiet s e = record {
  name = s.name;
  model = s.model;
  gpus = s.gpus;
  parallel = s.parallel;
  ctx_per_slot = pos (if ltb 0 s.parallel then s.ctx / s.parallel else 0);
  active = 0;
  slots = [];
  err = e;
}

abbrev pub with_slots : ModelLive → Parsed → ModelLive
with_slots m p = record m {
  slots = p.slots;
  active = p.active;
  parallel = if ltb 0 p.parallel then p.parallel else m.parallel;
  ctx_per_slot = if ltb 0 p.parallel then p.ctx_per_slot else m.ctx_per_slot;
}

-- The answer of a server at /slots, if there is one.
abbrev pub polled : Status → Option (Option (List RawSlot)) → ModelLive
polled s none = quiet s slots_unavailable
polled s (some raw) = with_slots (quiet s no_error) (parse_slots raw)

unfoldable pub model_live : (ℕ → Option (Option (List RawSlot))) → Status → ModelLive
unfolding parse_slots
model_live slots_at s =
    if not (is_empty s.external)
    then quiet s (external_upstream s.external)
    else polled s (slots_at s.port)

unfoldable pub live : (ℕ → Option (Option (List RawSlot))) → Rig → List ModelLive
unfolding model_live snapshot
live slots_at r = map (model_live slots_at) (select (λ s. is_healthy s.state) (snapshot r))

pub record PoolNode : Type 0 where
  pub name : Text
  pub mesh_addr : Text
  pub is_self : Bool
  pub models : List Text
  pub gpus : List RosterGpu

abbrev pub local_model_names : Rig → List Text
local_model_names r = map (λ s. s.name) (select (λ s. is_healthy s.state) (snapshot r))

abbrev pub roster_of : Option Fed → List RosterEntry
roster_of none = []
roster_of (some f) = f.roster

abbrev pub self_of : Option Fed → Text
self_of none = codes "this-node"
self_of (some f) =
    if not (is_empty f.self_name)
    then f.self_name
    else (if not (is_empty f.cfg.node_name) then f.cfg.node_name else codes "this-node")

abbrev pub pool_entry : Rig → List RosterGpu → Text → RosterEntry → PoolNode
pool_entry r gpus self e =
    let mine = equal_fold e.name self in
    record {
      name = e.name;
      mesh_addr = e.mesh_addr;
      is_self = mine;
      models = if mine then local_model_names r else e.models;
      gpus = if mine then gpus else e.gpus;
    }

abbrev pub pool_self : Rig → List RosterGpu → Text → PoolNode
pool_self r gpus self = record {
  name = self;
  mesh_addr = [];
  is_self = true;
  models = local_model_names r;
  gpus = gpus;
}

abbrev pub pool_peer : PeerHealth → PoolNode
pool_peer p = record {
  name = p.name;
  mesh_addr = p.url;
  is_self = false;
  models = p.models;
  gpus = [];
}

unfoldable pub pool : Option Fed → Rig → List RosterGpu → List PoolNode
unfolding equal_fold snapshot peers
pool f r gpus =
    if not (is_empty (roster_of f))
    then map (pool_entry r gpus (self_of f)) (roster_of f)
    else pool_self r gpus (self_of f) ∷ map pool_peer (peers f)
