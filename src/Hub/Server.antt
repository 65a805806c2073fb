-- ===== src/Hub/Server.antt =====
-- internal/hub/server.go: the handlers, each with the whole of its guards. A request carries what
-- its body decodes to, if it does.
use llama_chip.Base.{
  Bool, List, Option, Result, String, Text, codes, err, if◌then◌else◌, is_empty, none, not, ok,
  same, some, trim_prefix, trim_right, trim_space, ℕ, ◌||◌,
}
use llama_chip.Hub.Defs.{
  Node, Store, StoreError, Token, World, kind_admin, kind_node, list_roster, list_tokens, mint,
  register, revoke, verify,
}

pub record MintBody : Type 0 where
  pub kind : Text
  pub label : Text
  pub scope : List Text

pub data Payload : Type 0 where
  refused : Text → Payload
  bad_store : StoreError → Payload
  role : Text → Text → Payload
  nodes : List Node → Payload
  token_list : List Token → Payload
  secret : Text → Text → Text → Text → Payload
  revoked : Text → Payload

pub record Response : Type 0 where
  pub status : ℕ
  pub payload : Payload

abbrev pub respond : ℕ → Payload → Response
respond status payload = record { status = status; payload = payload }

abbrev pub deny : ℕ → String → Response
deny status msg = respond status (refused (codes msg))

pub data Endpoint : Type 0 where
  me roster : Endpoint
  register_node : Option Node → Endpoint
  tokens : Option MintBody → Endpoint
  revoke_token : Text → Endpoint

pub record Request : Type 0 where
  pub method : Text
  pub authorization : Text
  pub endpoint : Endpoint

abbrev pub is_post : Text → Bool
is_post m = same m (codes "POST")

module _ (hash : Text → Text) where
  abbrev pub bearer : Text → Text
  bearer header = trim_space (trim_prefix (codes "Bearer ") header)

  unfoldable pub authed : Store → Text → Option Token
  authed s header = verify hash s (bearer header)

  abbrev pub unauthorized : Response
  unauthorized = deny 401 "valid token required"

  unfoldable pub serve_me : Store → Text → Store × Response
  unfolding authed
  serve_me s auth = elim (authed s auth) [
    | none ↦ (s, unauthorized)
    | some t ↦ (s, respond 200 (role t.kind t.label))
  ]

  abbrev pub may_register : Text → Bool
  may_register kind = same kind kind_admin || same kind kind_node

  unfoldable pub is_blank : Text → Bool
  is_blank s = is_empty (trim_space s)

  unfoldable pub accept_node : World → Store → Token → Node → Store × Response
  unfolding is_blank
  accept_node w s t n =
      if is_blank n.name || is_blank n.mesh_addr
      then (s, deny 400 "node needs a name and mesh_addr")
      else (let s' = register w s (record n { mesh_addr = trim_right b'/' n.mesh_addr }) t.label in
          let (s2, ns) = list_roster w s' in (s2, respond 200 (nodes ns)))

  unfoldable pub serve_register : World → Store → Text → Text → Option Node → Store × Response
  unfolding authed accept_node
  serve_register w s method auth body =
      if not (is_post method) then (s, deny 405 "POST only") else (elim (authed s auth) [
        | none ↦ (s, unauthorized)
        | some t ↦
            if not (may_register t.kind)
            then (s, deny 403 "node or admin token required to register")
            else (elim body [ none ↦ (s, deny 400 "bad node json") | some n ↦ accept_node w s t n ])
      ])

  unfoldable pub serve_roster : World → Store → Text → Store × Response
  unfolding authed
  serve_roster w s auth = elim (authed s auth) [
    | none ↦ (s, unauthorized)
    | some t ↦ let (s', ns) = list_roster w s in (s', respond 200 (nodes ns))
  ]

  -- adminOnly: the refusal, or the token.
  unfoldable pub admin_only : Store → Text → Result Response Token
  unfolding authed
  admin_only s auth = elim (authed s auth) [
    | none ↦ err unauthorized
    | some t ↦ if same t.kind kind_admin then ok t else err (deny 403 "admin token required")
  ]

  abbrev pub mint_reply : World → Store × Result StoreError Token → Store × Response
  mint_reply w (s, ok t) = (s, respond 201 (secret w.fresh_secret t.id t.kind t.label))
  mint_reply w (s, err e) = (s, respond 400 (bad_store e))

  abbrev pub or_node : Text → Text
  or_node kind = if is_empty kind then kind_node else kind

  unfoldable pub serve_tokens : World → Store → Text → Text → Option MintBody → Store × Response
  unfolding admin_only
  serve_tokens w s method auth body = elim (admin_only s auth) [
    | err r ↦ (s, r)
    | ok t ↦
        if same method (codes "GET")
        then (s, respond 200 (token_list (list_tokens s)))
        else (if is_post method
            then (elim body [
              | none ↦ (s, deny 400 "bad json")
              | some b ↦ mint_reply w (mint hash w s (or_node b.kind) b.label t.label b.scope)
            ])
            else (s, deny 405 "GET or POST"))
  ]

  abbrev pub revoke_reply : Text → Store × Option StoreError → Store × Response
  revoke_reply id (s, none) = (s, respond 200 (revoked id))
  revoke_reply id (s, some e) = (s, respond 400 (bad_store e))

  unfoldable pub serve_revoke : World → Store → Text → Text → Text → Store × Response
  unfolding admin_only
  serve_revoke w s method auth id =
      if not (is_post method)
      then (s, deny 405 "POST only")
      else (elim (admin_only s auth) [ err r ↦ (s, r) | ok t ↦ revoke_reply id (revoke w s id) ])

  -- The mux of Handler, for the endpoints of the control plane.
  unfoldable pub dispatch : World → Store → Text → Text → Endpoint → Store × Response
  unfolding serve_me serve_register serve_roster serve_tokens serve_revoke
  dispatch w s method auth me = serve_me s auth
  dispatch w s method auth roster = serve_roster w s auth
  dispatch w s method auth (register_node body) = serve_register w s method auth body
  dispatch w s method auth (tokens body) = serve_tokens w s method auth body
  dispatch w s method auth (revoke_token id) = serve_revoke w s method auth id

  unfoldable pub serve : World → Store → Request → Store × Response
  unfolding dispatch
  serve w s q = dispatch w s q.method q.authorization q.endpoint
