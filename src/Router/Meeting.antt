-- ===== src/Router/Meeting.antt =====
-- Nodes that meet, at concrete inputs.
use llama_chip.Base.{
  Bool-cases, Option, Text, [], codes, contains, equal_fold, if◌then◌else◌, inl, inr, lookup, lower,
  none, refl, same, some, some_inj, subst, trim_space, ℕ, ◌∷◌, ◌≡◌,
}
use llama_chip.Backends.{pos}
use llama_chip.Config.Tests.{plain_slot}
use llama_chip.Fed.{
  Fed, Route, enabled, no_federation, outbound_token, poll_all, resolve_remote, route_key,
}
use llama_chip.Fold.Tests.{Json, tree, word}
use llama_chip.Rig.{IsWf, Rig, resolve}
use llama_chip.Rig.Tests.{box, pair, pair-IsWf}
use llama_chip.Router.Defs.{choose, local_target, server_at}
use llama_chip.Router.Tests.{host, plain_url, whole}
use llama_chip.Router.Mux.{World}
use llama_chip.Router.Peers.{PeerNode, fetch_local}
use llama_chip.Router.Hops.{LedTo, choose-hop}

abbrev pub world : World ℕ Json
world = record {
  host = host;
  env = box;
  codec = tree;
  floats = whole;
  slot_body = λ b. none;
  name_body = λ b. codes "vllm";
  clean = λ p. p;
  slots_at = λ p. none;
  gpus = none;
  scan_int = λ t. pos 0;
  read_file = λ p. none;
}

abbrev south : PeerNode ℕ Json
south = record { world = world; router = record { rig = pair; fed = none } }

-- Only one address has a node.
abbrev only_south : Text → Option (PeerNode ℕ Json)
only_south url = if same url (codes "http://s") then some south else none

only_south-eq : (url : Text) (p : PeerNode ℕ Json) → only_south url ≡ some p → south ≡ p
only_south-eq url p e = elim (Bool-cases (same url (codes "http://s"))) [
  | inl hit ↦ some_inj (rw hit at e)
  | inr miss ↦ let bad = rw miss at e in cc
]

abbrev poller : Fed
poller = record {
  cfg = record no_federation { peers = record { name = codes "s"; url = codes "http://s" } ∷ [] };
  routes = [];
  health = [];
  roster = [];
  self_name = [];
}

abbrev qwen_route : Route
qwen_route = record { model = codes "Qwen"; peer_url = codes "http://s"; peer_name = codes "s" }

choose-hop_example :
    (l : LedTo only_south (codes "10.0.0.9") (word []) qwen_route (route_key (codes "qwen")))
    × (choose l.node.world.host l.node.router.rig l.node.router.fed [] (codes "qwen")
        ≡ some (local_target l.node.world.host (l.node.router.rig.heap l.slot)))
unfolding poll_all fetch_local
choose-hop_example =
    choose-hop only_south (codes "10.0.0.9") (word []) poller 7 (codes "qwen") qwen_route
      (λ url p e.
        subst (λ x. x.world.clean (codes "/api/fed/local") ≡ codes "/api/fed/local")
          (only_south-eq url p e) refl)
      (λ url p e. subst (λ x. IsWf x.router.rig) (only_south-eq url p e) pair-IsWf) refl refl

-- A node whose one slot has the alias, with a route to the slot of the other node.
abbrev one_slot : Text → Rig
one_slot alias = record pair {
  heap =
      λ i. record (pair.heap i) { slot = record (plain_slot (codes "gemma") 0) { alias = alias } };
  instances = 0 ∷ [];
  by_name = (alias, 0) ∷ [];
}

abbrev linked_to : Text → Text → Fed
linked_to url model = record poller {
  routes = (model, record { model = model; peer_url = url; peer_name = url }) ∷ [];
}

-- The handle `fast` is part of the names of both slots and of no model: each node sends a request
-- for it to the other one.
a_sends_to_b :
    choose host
      (one_slot (codes "fast-a"))
      (some (linked_to (codes "http://b") (codes "fast-b")))
      []
      (codes "fast")
    ≡ some (record { destination = some (server_at (plain_url (codes "http://b"))); bearer = [] })
unfolding choose resolve resolve_remote enabled lookup lower equal_fold contains trim_space
    outbound_token
a_sends_to_b = refl

b_sends_to_a :
    choose host
      (one_slot (codes "fast-b"))
      (some (linked_to (codes "http://a") (codes "fast-a")))
      []
      (codes "fast")
    ≡ some (record { destination = some (server_at (plain_url (codes "http://a"))); bearer = [] })
unfolding choose resolve resolve_remote enabled lookup lower equal_fold contains trim_space
    outbound_token
b_sends_to_a = refl
