-- ===== src/HubClient/Together.antt =====
-- A node that announces its models to the hub, and a client that asks the hub for them.
use llama_chip.Base.{
  Option, Text, [], arith, codes, false, if◌then◌else◌, is_empty, map, none, ok, refl, same,
  same_refl, some, trim_right, true, ◌++◌, ◌∷◌, ◌≡◌,
}
use llama_chip.Hub.{
  Node, Store, Token, World, accept_node, authed, deny, dispatch, is_blank, list_roster,
  may_register, nodes, register, register_node, respond, roster, serve, serve_register,
  serve_roster,
}
use llama_chip.HubClient.Defs.{
  Announce, Client, LocalState, announce, fetch, get_roster, post_register, sent,
}
use llama_chip.HubClient.Wire.{announced, body_node, endpoint_of, hub_send, roster_entry}

same-append : (b x y : Text) → same (b ++ x) (b ++ y) ≡ same x y
unfolding same
same-append [] x y = refl
same-append (c ∷ b) x y = ground (arith, same-append b x y)

abbrev pub header : Client → Text
header c = if is_empty c.token then [] else codes "Bearer " ++ c.token

-- The node as the hub keeps it.
abbrev pub kept_node : Client → Option LocalState → Node
kept_node c local = record (announced (announce c local)) {
  mesh_addr = trim_right b'/' c.advertise;
}

to_register :
    (base : Text) (c : Client) (b : Option Announce)
    → c.hub_url ≡ base
    → endpoint_of base (sent c "POST" "/api/register" b) ≡ some (register_node (body_node b))
unfolding sent
to_register base c b at = rw (at, same_refl (base ++ codes "/api/register")) refl

to_roster :
    (base : Text) (c : Client)
    → c.hub_url ≡ base
    → endpoint_of base (sent c "GET" "/api/roster" none) ≡ some roster
unfolding sent same
to_roster base c at =
    rw
      (
        at,
        same-append base (codes "/api/roster") (codes "/api/register"),
        same_refl (base ++ codes "/api/roster"),
      )
      refl

module _ (hash : Text → Text) (base : Text) (w : World) (c : Client) (s : Store) where
  serve_register-ok :
      (n : Node) (t : Token)
      → authed hash s (header c) ≡ some t
      → may_register hash t.kind ≡ true
      → is_blank hash n.name ≡ false
      → is_blank hash n.mesh_addr ≡ false
      → serve_register hash w s (codes "POST") (header c) (some n) ≡ (
        (list_roster w
            (register w s (record n { mesh_addr = trim_right b'/' n.mesh_addr }) t.label)).0,
        respond 200 (
            nodes
              (list_roster w
                (register w s (record n { mesh_addr = trim_right b'/' n.mesh_addr }) t.label)).1),
      )
  unfolding serve_register accept_node same
  serve_register-ok n t known may named placed =
      rw (known, may, named, placed, serve_register, accept_node) refl

  serve_register-forbidden :
      (n : Node) (t : Token)
      → authed hash s (header c) ≡ some t
      → may_register hash t.kind ≡ false
      → serve_register hash w s (codes "POST") (header c) (some n)
        ≡ (s, deny 403 "node or admin token required to register")
  unfolding serve_register same
  serve_register-forbidden n t known may = rw (known, may, serve_register) refl

  serve_roster-ok :
      (t : Token)
      → authed hash s (header c) ≡ some t
      → serve_roster hash w s (header c)
        ≡ ((list_roster w s).0, respond 200 (nodes (list_roster w s).1))
  unfolding serve_roster
  serve_roster-ok t known = rw (known, serve_roster) refl

  pub registers :
      (local : Option LocalState) (t : Token)
      → c.hub_url ≡ base
      → authed hash s (header c) ≡ some t
      → may_register hash t.kind ≡ true
      → is_blank hash c.node_name ≡ false
      → is_blank hash c.advertise ≡ false
      → fetch (hub_send hash base w) c local s ≡ (
        ok (map roster_entry (list_roster w (register w s (kept_node c local) t.label)).1),
        (list_roster w (register w s (kept_node c local) t.label)).0,
      )
  unfolding fetch post_register sent hub_send serve dispatch
  registers local t at known may named placed =
      rw
        (
          to_register base c (some (announce c local)) at,
          serve_register-ok (announced (announce c local)) t known may named placed,
        )
        refl

  pub asks :
      (local : Option LocalState) (t : Token)
      → c.hub_url ≡ base
      → authed hash s (header c) ≡ some t
      → may_register hash t.kind ≡ false
      → fetch (hub_send hash base w) c local s
        ≡ (ok (map roster_entry (list_roster w s).1), (list_roster w s).0)
  unfolding fetch post_register get_roster sent hub_send serve dispatch
  asks local t at known may =
      rw
        (
          to_register base c (some (announce c local)) at,
          serve_register-forbidden (announced (announce c local)) t known may,
          to_roster base c at,
          serve_roster-ok t known,
        )
        refl
