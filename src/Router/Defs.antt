-- ===== src/Router/Defs.antt =====
-- internal/router/router.go: where a request goes, who may ask, and what is listed.
--
-- The parser of URLs, the environment and the net package's reading of addresses are fields of
-- Host. Labels and error texts, which are only shown, are left out; an error is its status. The
-- body is taken as read, and of the query only the `node` parameter is there.
use llama_chip.Base.{
  Bool, List, Option, Text, [], any, codes, err, has_prefix, if◌then◌else◌, is_empty, is_some,
  lower, map, none, not, ok, same, some, ℕ, ◌&&◌, ◌++◌, ◌==◌, ◌||◌, ◌∷◌,
}
use llama_chip.Config.{Slot}
use llama_chip.Rig.{Instance, Rig, Url, names, resolve}
use llama_chip.Fed.{
  Fed, Route, enabled, is_self, node_addr, outbound_token, remote_models, resolve_remote, seen,
  token,
}
use llama_chip.Fold.{Codec, Folded, Turn, fold_system_turns, get, parse_ordered, text_or_nil}

pub record Host : Type 0 where
  pub parse_url : Text → Option Url
  pub getenv : Text → Text
  pub split_host : Text → Option Text
  pub is_loopback_ip : Text → Bool

-- A request with its path, its `node` parameter, its Authorization header and its sender.
pub record Request : Type 0 where
  pub path : Text
  pub node : Text
  pub authorization : Text
  pub remote_addr : Text

-- A slot that this rig launched, by its port, or a server elsewhere.
pub data Destination : Type 0 where
  loopback : ℕ → Destination
  server_at : Url → Destination

-- `crash` is the nil pointer that is left where a URL does not parse.
pub data Outcome (Raw : Type 0) : Type 0 where
  refuse : ℕ → Outcome Raw
  crash : Outcome Raw
  forward : Destination → Text → Raw → Outcome Raw

-- The target and the bearer, where `none` is a URL that does not parse.
pub record Target : Type 0 where
  pub destination : Option Destination
  pub bearer : Text

abbrev pub parsed : Host → Text → Option Destination
parsed host t = elim (host.parse_url t) [ none ↦ none | some u ↦ some (server_at u) ]

-- Instance.Bearer.
abbrev pub instance_bearer : Host → Slot → Text
instance_bearer host s =
    if not (is_empty s.api_key_env) && not (is_empty (host.getenv s.api_key_env))
    then host.getenv s.api_key_env
    else s.api_key

abbrev pub own_target : Host → Instance → Option Url → Target
own_target host i none = record { destination = some (loopback i.port); bearer = [] }
own_target host i (some u) = record {
  destination = some (server_at u);
  bearer = instance_bearer host i.slot;
}

abbrev pub local_target : Host → Instance → Target
local_target host i = own_target host i i.external

abbrev pub node_target : Host → Option Fed → Text → Text → Target
node_target host f url peer = record {
  destination = parsed host url;
  bearer = outbound_token f peer;
}

abbrev pub is_pinned : Option Fed → Text → Bool
is_pinned f pin = not (is_empty pin) && enabled f && not (is_self f pin)

-- The choice of proxyByModel: the pinned node, else a slot of the rig, else a peer.
unfoldable pub choose : Host → Rig → Option Fed → Text → Text → Option Target
unfolding resolve resolve_remote node_addr
choose host r f pin model =
    if is_pinned f pin
    then elim (node_addr f pin) [ none ↦ none | some base ↦ some (node_target host f base pin) ]
    else elim (resolve r model) [
      | some i ↦ some (local_target host (r.heap i))
      | none ↦ elim (resolve_remote f model) [
        | some route ↦ some (node_target host f route.peer_url route.peer_name)
        | none ↦ none
      ]
    ]

-- The header that the upstream gets.
abbrev pub sent_header : Text → Text → Text
sent_header bearer incoming = if is_empty bearer then incoming else codes "Bearer " ++ bearer

module _ {Raw : Type 0} (codec : Codec Raw) where
  abbrev pub folded_body : Raw → Folded codec → Raw
  folded_body body r = if is_some r.failed || r.count == 0 then body else r.body

  unfoldable pub forwarded_body : Text → Raw → Raw
  unfolding has_prefix fold_system_turns
  forwarded_body path body =
      if has_prefix (codes "/v1/messages") path
      then folded_body body (fold_system_turns codec body)
      else body

  abbrev pub model_text : Option Raw → Text
  model_text none = []
  model_text (some raw) = text_or_nil (codec.as_text raw)

  abbrev pub send : Request → Raw → Option Target → Outcome Raw
  send q body none = refuse 404
  send q body (some t) = elim t.destination [
    | none ↦ crash
    | some d ↦ forward d (sent_header t.bearer q.authorization) body
  ]

  unfoldable pub proxy_doc : Host → Rig → Option Fed → Request → Raw → Turn codec → Outcome Raw
  unfolding choose forwarded_body get
  proxy_doc host r f q body doc =
      let model = model_text (get (codes "model") doc) in
      if is_empty model
      then refuse 400
      else send q (forwarded_body q.path body) (choose host r f q.node model)

  unfoldable pub proxy_by_model : Host → Rig → Option Fed → Request → Raw → Outcome Raw
  unfolding proxy_doc parse_ordered
  proxy_by_model host r f q body = elim (parse_ordered codec body) [
    | err _ ↦ refuse 400
    | ok doc ↦ proxy_doc host r f q body doc
  ]

abbrev pub host_part : Host → Text → Text
host_part host addr = elim (host.split_host addr) [ none ↦ addr | some h ↦ h ]

unfoldable pub is_loopback : Host → Text → Bool
is_loopback host addr = host.is_loopback_ip (host_part host addr)

-- withAuth around a handler: what is answered where a request is refused, and what the handler
-- answers.
unfoldable pub with_auth : {A : Type 0} → Host → Option Fed → Request → A → A → A
unfolding is_loopback same
with_auth host f q refused next =
    if is_empty (token f)
    then next
    else (if same q.path (codes "/health") || is_loopback host q.remote_addr
        then next
        else (if not (same q.authorization (codes "Bearer " ++ token f)) then refused else next))

-- listModels: the slots, and what peers serve under names not listed yet. Each is its id and its
-- owner.
abbrev pub entry_of : Route → Text × Text
entry_of route = (route.model, codes "peer:" ++ route.peer_name)

unfoldable pub list_remote : List Text → List Route → List (Text × Text)
unfolding same lower
list_remote seen [] = []
list_remote seen (route ∷ rs) =
    let k = lower route.model in
    if any (λ j. same j k) seen
    then list_remote seen rs
    else entry_of route ∷ list_remote (k ∷ seen) rs

unfoldable pub list_models : Rig → Option Fed → List (Text × Text)
unfolding list_remote remote_models
list_models r f =
    map (λ n. (n, codes "llama-chip")) (names r)
    ++ list_remote (map lower (names r)) (remote_models f)
