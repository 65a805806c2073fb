-- ===== src/HubClient/Wire.antt =====
-- A node and the hub behind one wire: the requests of the client as they reach the handlers of
-- internal/hub/server.go, where the JSON of either side has the same names and so is passed over.
use llama_chip.Base.{List, Option, Text, [], codes, if◌then◌else◌, map, none, same, some, ◌++◌}
use llama_chip.Fed.{RosterEntry, RosterGpu}
use llama_chip.Hub.{
  Endpoint, GpuStat, Node, Payload, Response, Store, World, nodes, register_node, roster, serve,
}
use llama_chip.HubClient.Defs.{Announce, Reply, Sent}

abbrev pub gpu_of : RosterGpu → GpuStat
gpu_of g = record {
  index = g.index;
  name = g.name;
  mem_used = g.mem_used;
  mem_total = g.mem_total;
  util = g.util;
}

abbrev pub gpu_entry : GpuStat → RosterGpu
gpu_entry g = record {
  index = g.index;
  name = g.name;
  mem_used = g.mem_used;
  mem_total = g.mem_total;
  util = g.util;
}

-- The fields that an announcement does not have are those of the zero value.
abbrev pub announced : Announce → Node
announced a = record {
  name = a.name;
  mesh_addr = a.mesh_addr;
  models = a.models;
  gpus = map gpu_of a.gpus;
  owner = [];
  last_seen = 0;
}

abbrev pub roster_entry : Node → RosterEntry
roster_entry n = record {
  name = n.name;
  mesh_addr = n.mesh_addr;
  models = n.models;
  gpus = map gpu_entry n.gpus;
}

abbrev pub body_node : Option Announce → Option Node
body_node none = none
body_node (some a) = some (announced a)

abbrev pub endpoint_of : Text → Sent → Option Endpoint
endpoint_of base s =
    if same s.url (base ++ codes "/api/register")
    then some (register_node (body_node s.body))
    else (if same s.url (base ++ codes "/api/roster") then some roster else none)

abbrev pub entries_of : Payload → List RosterEntry
entries_of (nodes ns) = map roster_entry ns
entries_of _ = []

-- A key that a body does not have decodes to nothing: the answer to a registration has `roster`,
-- the other one `nodes`.
abbrev pub reply_of : Endpoint → Response → Reply
reply_of (register_node b) r = record {
  status = r.status;
  roster = some (entries_of r.payload);
  nodes = some [];
}
reply_of _ r = record { status = r.status; roster = some []; nodes = some (entries_of r.payload) }

abbrev pub not_found : Reply
not_found = record { status = 404; roster = none; nodes = none }

module _ (hash : Text → Text) (base : Text) where
  abbrev pub answer : World → Sent → Store → Option Endpoint → Option Reply × Store
  answer w q s none = (some not_found, s)
  answer w q s (some e) =
      let (s', r) =
        serve hash w s
          (record { method = q.method; authorization = q.authorization; endpoint = e }) in
      (some (reply_of e r), s')

  -- The hub at a time, as the client's `send`.
  unfoldable pub hub_send : World → Sent → Store → Option Reply × Store
  unfolding serve same
  hub_send w q s = answer w q s (endpoint_of base q)
