-- ===== src/Fed/Polls.antt =====
-- pollPeer, pollAll and Refresh of internal/fed/fed.go. A reply of a peer is what `fetch_local` and
-- `fetch_v1` give for a base URL and a bearer.
use llama_chip.Base.{
  List, Result, Text, [], err, false, if◌then◌else◌, insert, is_empty, map, not, ok, some, true, ℕ,
  ◌&&◌, ◌∷◌,
}
use llama_chip.Fed.Defs.{
  Fed, PeerConfig, PeerHealth, Tables, add_routes, enabled, host_of, hub_managed, no_tables,
  outbound_token,
}

-- What the network gives for a base URL and a bearer.
pub record Net : Type 0 where
  pub fetch_local : Text → Text → Result Text (List Text)
  pub fetch_v1 : Text → Text → Result Text (List Text)
  pub now : ℕ

abbrev pub peer_label : PeerConfig → Text
peer_label p = if is_empty p.name then host_of p.url else p.name

abbrev pub up : Net → PeerConfig → List Text → PeerHealth
up net p ms = record {
  name = peer_label p;
  url = p.url;
  online = true;
  models = ms;
  last_seen = net.now;
  last_err = [];
}

abbrev pub down : PeerConfig → Text → PeerHealth
down p e = record {
  name = peer_label p;
  url = p.url;
  online = false;
  models = [];
  last_seen = 0;
  last_err = e;
}

unfoldable pub poll_peer : Net → Fed → PeerConfig → PeerHealth
unfolding outbound_token
poll_peer net f p =
    let bearer = outbound_token (some f) (peer_label p) in
    elim (net.fetch_local p.url bearer) [
      | ok ms ↦ up net p ms
      | err _ ↦ elim (net.fetch_v1 p.url bearer) [ ok ms ↦ up net p ms | err e ↦ down p e ]
    ]

unfoldable pub poll_tables : List PeerHealth → Tables → Tables
unfolding add_routes insert
poll_tables [] t = t
poll_tables (h ∷ hs) t =
    let health = insert h.url h t.health in
    if not h.online
    then poll_tables hs (record { routes = t.routes; health = health })
    else poll_tables hs
        (record { routes = add_routes h.name h.url h.models t.routes; health = health })

-- pollAll polls at the same time and then builds the tables in the order of the configuration.
unfoldable pub poll_all : Net → Fed → Fed
unfolding poll_tables poll_peer
poll_all net f =
    let t = poll_tables (map (poll_peer net f) f.cfg.peers) no_tables in
    record f { routes = t.routes; health = t.health }

unfoldable pub refresh : Net → Fed → Fed
unfolding enabled hub_managed poll_all
refresh net f = if enabled (some f) && not (hub_managed (some f)) then poll_all net f else f
