-- ===== src/Rig/Tests.antt =====
-- The rig at concrete inputs.
use llama_chip.Base.{
  List, Text, [], any, arith, codes, cut_prefix, false, if◌then◌else◌, lookup, lower, ok, refl,
  same, some, trim_right, true, ℕ, ◌<◌, ◌==◌, ◌∷◌, ◌≡◌, ◌≤◌,
}
use llama_chip.Config.{Config, Slot, name}
use llama_chip.Config.Tests.{config_of, plain_slot}
use llama_chip.Models.Tests.{gemma, shelf}
use llama_chip.Backends.{Backend, latest}
use llama_chip.Rig.Boot.{empty_rig, new_rig}
use llama_chip.Rig.Defs.{
  Env, Instance, Rig, State, add, healthy, launched, load, next_port, starting, stopped, upstream,
  used_ports,
}
use llama_chip.Rig.Registry.{IsWf}
use llama_chip.Rig.Ports.{next_port-lem}

abbrev pub cuda : Backend
cuda = record {
  variant = codes "cuda12";
  version = codes "2.1";
  dir = [];
  server = [];
  complete = true;
}

-- A machine with the two models of the shelf and a parser that takes any text for a URL.
abbrev pub box : Env
box = record {
  models = some shelf;
  managed = [];
  discovered = some (cuda ∷ []);
  has_server = λ d. false;
  server_path = λ d. d;
  parse_url = λ t. some (record { text = t; scheme = codes "http"; host = t; port = 80 });
}

abbrev on_gpus : Text → List ℕ → Slot
on_gpus model gpus = record (plain_slot model 0) { gpus = gpus }

abbrev on_card : Slot → State → Instance
on_card s st = record (launched s gemma cuda) { state = st; port = 9100 }

abbrev pub outside : Slot
outside = record (plain_slot [] 0) { alias = codes "vllm"; external = codes "http://10.0.0.1:80" }

-- A rig that holds gemma, healthy on card 0, and qwen, starting on card 1.
abbrev pub pair : Rig
pair = record {
  profiles = (codes "solo", outside ∷ []) ∷ [];
  backend = cuda;
  base_port = 9100;
  heap = λ i.
      if i == 0
      then on_card (on_gpus (codes "gemma") (0 ∷ [])) healthy
      else on_card (on_gpus (codes "Qwen") (1 ∷ [])) starting;
  next = 2;
  instances = 0 ∷ 1 ∷ [];
  by_name = (codes "gemma", 0) ∷ (codes "qwen", 1) ∷ [];
}

pub pair-IsWf : IsWf pair
unfolding name lower
pair-IsWf = record {
  keyed = refl;
  distinct = ((λ e. cc, tt), (tt, tt));
  below = (omega arith, (omega arith, tt));
}

abbrev first_slot : Slot
first_slot = on_gpus (codes "phi") (1 ∷ [])

next_port-pair : next_port pair ≡ 9101
unfolding next_port
next_port-pair = refl

next_port-lem_example :
    (any (λ q. q == next_port pair) (used_ports pair) ≡ false)
    × (pair.base_port ≤ next_port pair)
    × ((q : ℕ)
        → pair.base_port ≤ q
        → q < next_port pair
        → any (λ u. u == q) (used_ports pair) ≡ true)
next_port-lem_example = next_port-lem pair

abbrev pub upstream_at : Instance
upstream_at = upstream outside starting (record {
  text = codes "http://10.0.0.1:80";
  scheme = codes "http";
  host = codes "http://10.0.0.1:80";
  port = 80;
})

load-outside : load box pair outside ≡ ok (add pair upstream_at)
unfolding load lookup same lower name trim_right
load-outside = refl

abbrev pub bridge : Config
bridge = record (config_of (outside ∷ [])) { backend = codes "cuda12" }

bridge_rig :
    new_rig box bridge ≡ ok (add (empty_rig bridge cuda) (record upstream_at { state = stopped }))
unfolding new_rig lookup same lower name trim_right cut_prefix latest
bridge_rig = refl
