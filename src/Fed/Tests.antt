-- ===== src/Fed/Tests.antt =====
-- A node of the federation at concrete inputs.
use llama_chip.Base.{
  List, Text, [], codes, equal_fold, err, if◌then◌else◌, lookup, ok, refl, same, some, trim_right,
  trim_space, ◌∷◌, ◌≡◌,
}
use llama_chip.Fed.Polls.{Net}
use llama_chip.Fed.Defs.{
  Fed, FedConfig, PeerConfig, RosterEntry, Route, apply_roster, outbound_token,
}
use llama_chip.Fed.Routes.{apply_roster-offers, roster_offers}

abbrev north : PeerConfig
north = record { name = codes "north"; url = codes "http://n" }

abbrev south : PeerConfig
south = record { name = []; url = codes "http://s:1" }

abbrev pub plan : FedConfig
plan = record {
  node_name = codes "me";
  advertise = [];
  token = codes "shared";
  peers = north ∷ south ∷ [];
  hub_url = [];
  poll_interval = 5;
  peer_tokens = (codes "North", codes "own") ∷ [];
}

abbrev pub node_of : List (Text × Route) → Fed
node_of routes = record { cfg = plan; routes = routes; health = []; roster = []; self_name = [] }

abbrev entry : Text → Text → Text → RosterEntry
entry name addr model = record { name = name; mesh_addr = addr; models = model ∷ []; gpus = [] }

abbrev pub crowd : List RosterEntry
crowd =
    entry (codes "ME") (codes "http://me") (codes "qwen")
    ∷ entry (codes "b") (codes "http://b/") (codes " Qwen ")
    ∷ entry (codes "c") (codes "http://c") (codes "qwen")
    ∷ []

abbrev pub to_b : Route
to_b = record { model = codes " Qwen "; peer_url = codes "http://b"; peer_name = codes "b" }

-- Only the south answers, and only at the second address.
abbrev mesh : Net
mesh = record {
  fetch_local = λ u b. err (codes "old");
  fetch_v1 =
      λ u b. if same u (codes "http://s:1") then ok (codes "phi" ∷ []) else err (codes "down");
  now = 7;
}

abbrev to_s : Route
to_s = record { model = codes "phi"; peer_url = codes "http://s:1"; peer_name = codes "s" }

apply_roster-crowd :
    (apply_roster 3 (node_of []) crowd (codes "me")).routes ≡ (codes "qwen", to_b) ∷ []
unfolding apply_roster trim_space trim_right equal_fold
apply_roster-crowd = refl

own_token : outbound_token (some (node_of [])) (codes "north") ≡ codes "own"
unfolding outbound_token equal_fold
own_token = refl

apply_roster-offers_example :
    lookup (codes "qwen") (apply_roster 3 (node_of []) crowd (codes "me")).routes
    ≡ lookup (codes "qwen") (roster_offers (codes "me") crowd)
apply_roster-offers_example = apply_roster-offers 3 (node_of []) crowd (codes "me") (codes "qwen")

abbrev linked : Fed
linked = node_of ((codes "qwen", to_b) ∷ [])
