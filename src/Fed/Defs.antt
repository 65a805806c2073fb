-- ===== src/Fed/Defs.antt =====
-- internal/fed/fed.go: the data and the functions. The receiver may be nil in Go, so the methods
-- take an Option.
use llama_chip.Base.{
  Bool, List, Option, Text, [], codes, contains, equal_fold, false, find, if◌then◌else◌, insert,
  is_empty, is_some, lookup, lower, map, none, not, some, sort_by, text_lt, trim_prefix, trim_right,
  trim_space, true, ℕ, ◌&&◌, ◌==◌, ◌||◌, ◌∷◌,
}
use llama_chip.Backends.{ℤ}

pub record PeerConfig : Type 0 where
  pub name : Text
  pub url : Text

pub record FedConfig : Type 0 where
  pub node_name : Text
  pub advertise : Text
  pub token : Text
  pub peers : List PeerConfig
  pub hub_url : Text
  pub poll_interval : ℕ
  pub peer_tokens : List (Text × Text)

pub record Route : Type 0 where
  pub model : Text
  pub peer_url : Text
  pub peer_name : Text

pub record PeerHealth : Type 0 where
  pub name : Text
  pub url : Text
  pub online : Bool
  pub models : List Text
  pub last_seen : ℕ
  pub last_err : Text

pub record RosterGpu : Type 0 where
  pub index : ℤ
  pub name : Text
  pub mem_used : ℤ
  pub mem_total : ℤ
  pub util : ℤ

pub record RosterEntry : Type 0 where
  pub name : Text
  pub mesh_addr : Text
  pub models : List Text
  pub gpus : List RosterGpu

-- routes goes from lowercased model names, health from the URLs of the peers.
pub record Fed : Type 0 where
  pub cfg : FedConfig
  pub routes : List (Text × Route)
  pub health : List (Text × PeerHealth)
  pub roster : List RosterEntry
  pub self_name : Text

abbrev or_text : Text → Text → Text
or_text d t = if is_empty t then d else t

-- The poll interval is in seconds.
unfoldable pub new_fed : FedConfig → Option Fed
new_fed c =
    if is_empty c.peers && is_empty c.hub_url && is_empty c.token
    then none
    else some (record {
      cfg = record c {
        poll_interval = if c.poll_interval == 0 then 5 else c.poll_interval;
        node_name = or_text (codes "llama-chip") c.node_name;
      };
      routes = [];
      health = [];
      roster = [];
      self_name = [];
    })

unfoldable pub enabled : Option Fed → Bool
enabled none = false
enabled (some f) = not (is_empty f.cfg.peers) || not (is_empty f.cfg.hub_url)

unfoldable pub hub_managed : Option Fed → Bool
hub_managed none = false
hub_managed (some f) = not (is_empty f.cfg.hub_url)

abbrev pub token : Option Fed → Text
token none = []
token (some f) = f.cfg.token

abbrev pub value_or_nil {ℓ} : {V : Type ℓ} → Option (Text × List V) → List V
value_or_nil none = []
value_or_nil (some e) = e.1

-- The exact name first, then the first that differs in letter case only.
unfoldable pub peer_token : Option Fed → Text → Text
unfolding lookup
peer_token none name = []
peer_token (some f) name = elim (lookup name f.cfg.peer_tokens) [
  | some t ↦ t
  | none ↦ value_or_nil (find (λ e. equal_fold e.0 name) f.cfg.peer_tokens)
]

unfoldable pub outbound_token : Option Fed → Text → Text
unfolding peer_token
outbound_token none name = []
outbound_token (some f) name =
    let t = peer_token (some f) name in if not (is_empty t) then t else f.cfg.token

abbrev pub route_key : Text → Text
route_key model = lower (trim_space model)

-- One turn of the inner loop of ApplyRoster and of pollAll: a key that is there stays.
unfoldable pub add_route : Text → Text → Text → List (Text × Route) → List (Text × Route)
unfolding lookup insert
add_route peer url m routes =
    if is_empty (route_key m) || is_some (lookup (route_key m) routes)
    then routes
    else insert (route_key m) (record { model = m; peer_url = url; peer_name = peer }) routes

unfoldable pub add_routes : Text → Text → List Text → List (Text × Route) → List (Text × Route)
unfolding add_route
add_routes peer url [] routes = routes
add_routes peer url (m ∷ ms) routes = add_routes peer url ms (add_route peer url m routes)

-- What the two loops build.
pub record Tables : Type 0 where
  pub routes : List (Text × Route)
  pub health : List (Text × PeerHealth)

abbrev pub base_url : Text → Text
base_url addr = trim_right b'/' addr

abbrev pub seen : ℕ → RosterEntry → PeerHealth
seen now e = record {
  name = e.name;
  url = base_url e.mesh_addr;
  online = true;
  models = e.models;
  last_seen = now;
  last_err = [];
}

-- An entry that ApplyRoster skips: this node itself, or a node without an address.
abbrev pub is_skipped : Text → RosterEntry → Bool
is_skipped self e = equal_fold e.name self || is_empty (base_url e.mesh_addr)

unfoldable pub roster_tables : ℕ → Text → List RosterEntry → Tables → Tables
unfolding add_routes insert
roster_tables now self [] t = t
roster_tables now self (e ∷ es) t =
    if is_skipped self e
    then roster_tables now self es t
    else roster_tables now self es (record {
      routes = add_routes e.name (base_url e.mesh_addr) e.models t.routes;
      health = insert (base_url e.mesh_addr) (seen now e) t.health;
    })

abbrev pub no_tables : Tables
no_tables = record { routes = []; health = [] }

unfoldable pub apply_roster : ℕ → Fed → List RosterEntry → Text → Fed
unfolding roster_tables
apply_roster now f entries self =
    let t = roster_tables now self entries no_tables in
    record f { routes = t.routes; health = t.health; roster = entries; self_name = self }

abbrev pub usable : Text → Option Text
usable addr = if is_empty addr then none else some addr

-- The health map is asked in the order of insertion; Go's loop takes any order.
unfoldable pub node_addr : Option Fed → Text → Option Text
node_addr none name = none
node_addr (some f) name = elim (find (λ e. equal_fold e.name (trim_space name)) f.roster) [
  | some e ↦ usable (base_url e.mesh_addr)
  | none ↦ elim (find (λ h. equal_fold h.1.name (trim_space name)) f.health) [
    | some h ↦ usable (base_url h.1.url)
    | none ↦ none
  ]
]

unfoldable pub is_self : Option Fed → Text → Bool
is_self none name = false
is_self (some f) name =
    let self = or_text f.cfg.node_name f.self_name in
    not (is_empty self) && equal_fold (trim_space name) self

-- hostOf: the text up to the first `/` or `:`, without the scheme.
abbrev pub up_to_mark : Text → Text
up_to_mark [] = []
up_to_mark (c ∷ s) = if c == b'/' || c == b':' then [] else c ∷ up_to_mark s

unfoldable pub host_of : Text → Text
unfolding trim_prefix
host_of url = up_to_mark (trim_prefix (codes "https://") (trim_prefix (codes "http://") url))

-- The loose match goes over the map in the order of insertion; Go's loop takes any order.
unfoldable pub resolve_in : List (Text × Route) → Text → Option Route
unfolding lookup contains
resolve_in routes k = elim (lookup k routes) [
  | some r ↦ some r
  | none ↦ elim (find (λ e. contains e.0 k) routes) [ none ↦ none | some e ↦ some e.1 ]
]

unfoldable pub resolve_remote : Option Fed → Text → Option Route
unfolding resolve_in enabled
resolve_remote none model = none
resolve_remote (some f) model =
    if enabled (some f) then resolve_in f.routes (route_key model) else none

-- RemoteModels and Peers.
unfoldable pub remote_models : Option Fed → List Route
unfolding enabled text_lt
remote_models none = []
remote_models (some f) =
    if enabled (some f)
    then sort_by (λ a b. text_lt a.model b.model) (map (λ e. e.1) f.routes)
    else []

unfoldable pub peers : Option Fed → List PeerHealth
unfolding enabled text_lt
peers none = []
peers (some f) =
    if enabled (some f)
    then sort_by (λ a b. text_lt a.name b.name) (map (λ e. e.1) f.health)
    else []
