-- ===== src/Router/Peers.antt =====
-- getJSON, fetchLocal and fetchV1Models of internal/fed/fed.go against the handlers of
-- internal/router/router.go: nodes that poll each other.
--
-- A node is reached under its base URL, and sees the caller under an address. A reply is decoded if
-- it is of the kind that is asked for; any other one is an error.
use llama_chip.Base.{
  List, Option, Result, Text, [], codes, err, if◌then◌else◌, is_empty, map, none, ok, some, ℕ, ◌++◌,
}
use llama_chip.Fed.{Net}
use llama_chip.Router.Mux.{Incoming, Reply, Router, World, handle, listing, local_of}

pub record PeerNode (F Raw : Type 0) : Type 0 where
  pub world : World F Raw
  pub router : Router

module _ {Raw : Type 0} where
  -- The answers that the two polls read.
  abbrev pub local_view : Reply Raw → Result Text (List Text)
  local_view (local_of l) = ok l.models
  local_view _ = err []

  abbrev pub v1_view : Reply Raw → Result Text (List Text)
  v1_view (listing ms) = ok (map (λ m. m.0) ms)
  v1_view _ = err []

module _ {F Raw : Type 0} (at : Text → Option (PeerNode F Raw)) (from : Text) (no_body : Raw) where
  abbrev pub poll_call : Text → Text → Incoming Raw
  poll_call path bearer = record {
    request = record {
      path = path;
      node = [];
      authorization = if is_empty bearer then [] else codes "Bearer " ++ bearer;
      remote_addr = from;
    };
    method = codes "GET";
    body = no_body;
    op = [];
    rest = [];
    asked = record { model = []; gpus = []; kv = [] };
  }

  abbrev pub answer : Text → Text → Text → Option (Reply Raw)
  answer path url bearer = elim (at url) [
    | none ↦ none
    | some p ↦ some (handle p.world p.router (poll_call path bearer)).1
  ]

  unfoldable pub fetch_local : Text → Text → Result Text (List Text)
  unfolding handle
  fetch_local url bearer = elim (answer (codes "/api/fed/local") url bearer) [
    | none ↦ err []
    | some r ↦ local_view r
  ]

  unfoldable pub fetch_v1_models : Text → Text → Result Text (List Text)
  unfolding handle
  fetch_v1_models url bearer = elim (answer (codes "/v1/models") url bearer) [
    | none ↦ err []
    | some r ↦ v1_view r
  ]

  abbrev pub gossip : ℕ → Net
  gossip now = record { fetch_local = fetch_local; fetch_v1 = fetch_v1_models; now = now }
