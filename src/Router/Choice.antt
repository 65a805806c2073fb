-- ===== src/Router/Choice.antt =====
-- Where proxyByModel sends a request.
use llama_chip.Base.{
  Bool-cases, Distinct, List, Option, Option-cases, Result-cases, Some, Some-mono, Text, [], ap,
  codes, contains, equal_fold, false, has_prefix, inl, inr, is_empty, lookup-Some,
  ne-nil_of_is_empty, none, refl, some, some_inj, sym, true, ℕ, ◌∙◌, ◌≡◌, ◌≢◌,
}
use llama_chip.Rig.{Rig, resolve}
use llama_chip.Fed.{
  Fed, IsMatch, Offers, RosterEntry, Route, apply_roster, apply_roster-Distinct, apply_roster_sound,
  base_url, outbound_token, resolve_remote, resolve_remote_sound, route_key,
}
use llama_chip.Fold.{
  Codec, Turn, at_end, field_keys, get, parse_ordered, parse_ordered_iff, scanned,
}
use llama_chip.Router.Defs.{
  Destination, Host, Request, Target, choose, forward, forwarded_body, is_pinned, model_text,
  node_target, parsed, proxy_by_model, proxy_doc, send, sent_header,
}

-- A node of the roster, not this one, with a model whose key contains that of the handle.
abbrev pub Hosts : Text → Text → RosterEntry → Type 0
Hosts self model e =
    (equal_fold e.name self ≡ false)
    × (base_url e.mesh_addr ≢ [])
    × Some (λ m. contains (route_key m) (route_key model) ≡ true) e.models

-- The target of a request that no slot serves: such a node at its address, with the bearer
-- for its name.
abbrev pub Sent : Host → Option Fed → Text → Text → Target → RosterEntry → Type 0
Sent host f self model t e =
    Hosts self model e
    × (t.destination ≡ parsed host (base_url e.mesh_addr))
    × (t.bearer ≡ outbound_token f e.name)

route-Hosts :
    (self model k : Text) (r : Route) (host : Host) (f : Option Fed) (es : List RosterEntry)
    → contains k (route_key model) ≡ true
    → Some (Offers self k r) es
    → Some (Sent host f self model (node_target host f r.peer_url r.peer_name)) es
route-Hosts self model k r host f es c h =
    Some-mono
      (λ e (other, addr, n, u, serves). (
        (
          other,
          addr,
          Some-mono (λ m (_, at). ap (λ x. contains x (route_key model)) at ∙ c) e.models serves,
        ),
        ap (λ x. parsed host x) u,
        ap (λ x. outbound_token f x) n,
      ))
      es h

-- A request that is not pinned to a node and that no slot of the rig serves goes, after a roster
-- has been applied, to a node of that roster: never back to this one, only to a node with an
-- address and a model whose key contains the handle, and with the bearer for that node.
pub choose-roster :
    (host : Host) (r : Rig) (now : ℕ) (old : Fed) (es : List RosterEntry) (self pin model : Text)
    (t : Target)
    → is_pinned (some (apply_roster now old es self)) pin ≡ false
    → resolve r model ≡ none
    → choose host r (some (apply_roster now old es self)) pin model ≡ some t
    → Some (Sent host (some (apply_roster now old es self)) self model t) es
unfolding choose
choose-roster host r now old es self pin model t free unserved e =
    let f = apply_roster now old es self in
    elim (Option-cases (resolve_remote (some f) model)) [
      | inl lost ↦ let bad = rw (free, unserved, lost, choose) at e in cc
      | inr (route, found) ↦
          let made = some_inj (rw (free, unserved, found, choose) at e) in
          let (k, v, (same_route, c), there) =
            lookup-Some (IsMatch (route_key model) route) f.routes
              (apply_roster-Distinct now old es self) (resolve_remote_sound f model route found) in
          let offered = apply_roster_sound now old es self k v there in
          let sent = route-Hosts self model k v host (some f) es c offered in
          rw (← made, same_route) sent
    ]

module _ {Raw : Type 0} (codec : Codec Raw) where
  forward_inj :
      (d d' : Destination) (h h' : Text) (b b' : Raw)
      → forward d h b ≡ forward d' h' b'
      → (d ≡ d') × (h ≡ h') × (b ≡ b')
  forward_inj d d' h h' b b' e = (cc, cc, cc)

  send-forward :
      (q : Request) (body : Raw) (c : Option Target) (d : Destination) (header : Text) (sent : Raw)
      → send codec q body c ≡ forward d header sent
      → (t : Target) × (c ≡ some t)
        × (t.destination ≡ some d)
        × (header ≡ sent_header t.bearer q.authorization)
        × (sent ≡ body)
  send-forward q body none d header sent e = cc
  send-forward q body (some t) d header sent e = elim (Option-cases t.destination) [
    | inl lost ↦ let bad = rw lost at e in cc
    | inr (x, there) ↦
        let (p, h, b) = forward_inj x d _ header body sent (rw there at e) in
        (t, refl, there ∙ ap some p, sym h, sym b)
  ]

  -- A request is forwarded only if its body is one whole object without a key twice and with a
  -- model that is not empty; it goes to the target chosen for that model, and its body only
  -- changes on the path of the messages.
  pub proxy_by_model-forward :
      (host : Host) (r : Rig) (f : Option Fed) (q : Request) (body : Raw) (d : Destination)
      (header : Text) (sent : Raw)
      → proxy_by_model codec host r f q body ≡ forward d header sent
      → (doc : Turn codec) × (t : Target) × (codec.scan body ≡ scanned doc at_end)
        × Distinct (field_keys doc)
        × (model_text codec (get (codes "model") doc) ≢ [])
        × (choose host r f q.node (model_text codec (get (codes "model") doc)) ≡ some t)
        × (t.destination ≡ some d)
        × (header ≡ sent_header t.bearer q.authorization)
        × (has_prefix (codes "/v1/messages") q.path ≡ false → sent ≡ body)
  unfolding proxy_by_model proxy_doc forwarded_body
  proxy_by_model-forward host r f q body d header sent e =
      elim (Result-cases (parse_ordered codec body)) [
        | inr (x, failed) ↦ let bad = rw (failed, proxy_by_model) at e in cc
        | inl (doc, read) ↦
            let model = model_text codec (get (codes "model") doc) in
            let (scan, apart) = (parse_ordered_iff codec body doc).0 read in
            elim (Bool-cases (is_empty model)) [
              | inl blank ↦ let bad = rw (read, blank, proxy_by_model, proxy_doc) at e in cc
              | inr named ↦
                  let (t, chosen, there, h, b) =
                    send-forward q (forwarded_body codec q.path body) (choose host r f q.node model)
                      d header sent (rw (read, named, proxy_by_model, proxy_doc) at e) in
                  (
                    doc,
                    t,
                    scan,
                    apart,
                    ne-nil_of_is_empty model named,
                    chosen,
                    there,
                    h,
                    λ plain. b ∙ rw (plain, forwarded_body) refl,
                  )
            ]
      ]
