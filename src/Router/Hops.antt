-- ===== src/Router/Hops.antt =====
-- A request that is sent to a peer is served by a slot of that peer.
use llama_chip.Base.{
  Bool, Bool-cases, List, Option, Option-cases, Some, Some-elim, Text, [], ap, arith, codes, err,
  if◌then◌else◌, inl, inr, is_empty, lookup, lower, map, ok, ok-injective, refl, same, same_iff,
  some, subst, sym, true, ℕ, ◌++◌, ◌||◌, ◌∙◌, ◌∷◌, ◌≡◌, ◌⊎◌,
}
use llama_chip.Fed.{
  Answers, Fed, PeerConfig, Reached, Route, Serves, outbound_token, peer_label, poll_all,
  poll_all_sound, route_key, token,
}
use llama_chip.Config.{key, name}
use llama_chip.Rig.{IsWf, Rig, lookup-member, resolve, snapshot, snapshot_of}
use llama_chip.Router.Defs.{Host, Request, choose, is_loopback, local_target, with_auth}
use llama_chip.Router.Mux.{
  Incoming, Router, World, fed_local, handle, local_of, mux, routes, run_handler, status_only,
}
use llama_chip.Router.Peers.{
  PeerNode, fetch_local, fetch_v1_models, gossip, local_view, poll_call, v1_view,
}

abbrev local_path : Text
local_path = codes "/api/fed/local"

module _ {F Raw : Type 0} where
  mux-local :
      (w : World F Raw) (r : Router) (q : Incoming Raw)
      → w.clean local_path ≡ local_path
      → q.request.path ≡ local_path
      → (mux w r q).1 ≡ local_of (fed_local r)
  unfolding mux lookup routes same run_handler
  mux-local w r q clean at_local =
      let same_path : same (w.clean q.request.path) q.request.path ≡ true =
        rw at_local ((same_iff _ _).1 clean) in
      rw (same_path, at_local) refl

abbrev admits : Host → Option Fed → Request → Bool
admits host f q =
    is_empty (token f)
    || (same q.path (codes "/health") || is_loopback host q.remote_addr)
    || same q.authorization (codes "Bearer " ++ token f)

with_auth-admits :
    {A : Type 0} (host : Host) (f : Option Fed) (q : Request) (refused next : A)
    → with_auth host f q refused next ≡ (if admits host f q then next else refused)
unfolding with_auth
with_auth-admits host f q refused next = ground arith

pub resolve-named :
    (r : Rig) (i : ℕ) (m : Text)
    → IsWf r
    → Some (λ j. j ≡ i) r.instances
    → lower (name (r.heap i).slot) ≡ lower m
    → resolve r m ≡ some i
unfolding resolve
resolve-named r i m wf listed same_name =
    let found : lookup (lower m) r.by_name ≡ some i =
      ap (λ k. lookup k r.by_name) (sym same_name)
      ∙ ap (lookup (key (r.heap i).slot)) wf.keyed
      ∙ lookup-member (λ j. key (r.heap j).slot) r.instances i wf.distinct listed in
    rw (found, resolve) refl

pub choose-local :
    (host : Host) (r : Rig) (f : Option Fed) (i : ℕ) (m : Text)
    → resolve r m ≡ some i
    → choose host r f [] m ≡ some (local_target host (r.heap i))
unfolding choose
choose-local host r f i m found = rw (found, choose) refl

module _ {F Raw : Type 0} (at : Text → Option (PeerNode F Raw)) (from : Text) (no_body : Raw) where
  abbrev poll : Text → Text → Incoming Raw
  poll path bearer = poll_call at from no_body path bearer

  asks-local :
      (p : PeerNode F Raw) (url bearer : Text)
      → at url ≡ some p
      → fetch_local at from no_body url bearer
        ≡ local_view (handle p.world p.router (poll local_path bearer)).1
  unfolding fetch_local
  asks-local p url bearer known = rw (known, fetch_local) refl

  asks-v1 :
      (p : PeerNode F Raw) (url bearer : Text)
      → at url ≡ some p
      → fetch_v1_models at from no_body url bearer
        ≡ v1_view (handle p.world p.router (poll (codes "/v1/models") bearer)).1
  unfolding fetch_v1_models
  asks-v1 p url bearer known = rw (known, fetch_v1_models) refl

  handle-admits :
      (p : PeerNode F Raw) (q : Incoming Raw)
      → handle p.world p.router q ≡ (
          if admits p.world.host p.router.fed q.request
          then mux p.world p.router q
          else (p.router, status_only 401))
  unfolding handle
  handle-admits p q = with_auth-admits p.world.host p.router.fed q.request _ _

  -- Where the list of the node itself is refused, so is the list of its models.
  fetch_local-or :
      (p : PeerNode F Raw) (url bearer : Text)
      → at url ≡ some p
      → p.world.clean local_path ≡ local_path
      → (fetch_local at from no_body url bearer ≡ ok (fed_local p.router).models)
        ⊎ ((e : Text) × (fetch_local at from no_body url bearer ≡ err e)
            × (fetch_v1_models at from no_body url bearer ≡ err e))
  unfolding same
  fetch_local-or p url bearer known clean =
      let q = poll local_path bearer in
      let gate = handle-admits p q in
      let gate1 = handle-admits p (poll (codes "/v1/models") bearer) in
      elim (Bool-cases (admits p.world.host p.router.fed q.request)) [
        | inl open_to ↦ inl (
            asks-local p url bearer known
            ∙ ap (λ x. local_view x.1) (rw open_to at gate)
            ∙ ap local_view (mux-local p.world p.router q clean refl))
        | inr shut ↦ inr (
          [],
          asks-local p url bearer known ∙ ap (λ x. local_view x.1) (rw shut at gate),
          asks-v1 p url bearer known ∙ ap (λ x. v1_view x.1) (rw shut at gate1),
        )
      ]

  -- The two polls of a peer together: what they give is the list of its slots.
  Answers-local :
      (f : Fed) (now : ℕ) (c : PeerConfig) (ms : List Text)
      → ((p : PeerNode F Raw) → at c.url ≡ some p → p.world.clean local_path ≡ local_path)
      → Answers (gossip at from no_body now) f c ms
      → (p : PeerNode F Raw) × (at c.url ≡ some p) × (ms ≡ (fed_local p.router).models)
  unfolding fetch_local fetch_v1_models
  Answers-local f now c ms clean h = elim (Option-cases (at c.url)) [
    | inl nobody ↦ elim h [
      | inl fine ↦ let bad = rw (nobody, fetch_local) at fine in cc
      | inr (e, lost, fine) ↦ let bad = rw (nobody, fetch_v1_models) at fine in cc
    ]
    | inr (p, known) ↦
        let bearer = outbound_token (some f) (peer_label c) in
        elim (fetch_local-or p c.url bearer known (clean p known)) [
          | inl heard ↦ elim h [
            | inl fine ↦ (p, known, ok-injective (sym fine ∙ heard))
            | inr (e, lost, fine) ↦ cc (heard, lost)
          ]
          | inr (e, unheard, refused) ↦ elim h [
            | inl fine ↦ cc (unheard, fine)
            | inr (e1, lost, fine) ↦ cc (refused, fine)
          ]
        ]
  ]

  -- A slot of the node at the URL of the route, under the name that the route has.
  pub record LedTo (route : Route) (k : Text) : Type 0 where
    pub node : PeerNode F Raw
    pub at_url : at route.peer_url ≡ some node
    pub slot : ℕ
    pub listed : Some (λ j. j ≡ slot) node.router.rig.instances
    pub named : name (node.router.rig.heap slot).slot ≡ route.model
    pub keyed : route_key route.model ≡ k

  Some-snapshot :
      (r : Rig) (ids : List ℕ) (P : Text → Type 0)
      → Some P (map (λ s. s.name) (map (λ i. snapshot_of (r.heap i)) ids))
      → (i : ℕ) × Some (λ j. j ≡ i) ids × P (name (r.heap i).slot)
  unfolding snapshot_of
  Some-snapshot r [] P h = absurd h
  Some-snapshot r (i ∷ ids) P (inl h) = (i, inl refl, h)
  Some-snapshot r (i ∷ ids) P (inr h) = let (j, m, p) = Some-snapshot r ids P h in (j, inr m, p)

  Reached-LedTo :
      (f : Fed) (now : ℕ) (k : Text) (route : Route) (c : PeerConfig)
      → ((url : Text) (p : PeerNode F Raw)
          → at url ≡ some p
          → p.world.clean local_path ≡ local_path)
      → Reached (gossip at from no_body now) f k route c
      → LedTo route k
  unfolding fed_local snapshot
  Reached-LedTo f now k route c clean (named, url, (ms, answers, serves)) =
      let (p, known, list) = Answers-local f now c ms (clean c.url) answers in
      let (i, m, (same_name, keyed)) =
        Some-snapshot p.router.rig p.router.rig.instances
          (λ x. (route.model ≡ x) × (route_key x ≡ k))
          (subst (λ x. Serves x k route) list serves) in
      record {
        node = p;
        at_url = rw url known;
        slot = i;
        listed = m;
        named = sym same_name;
        keyed = ap route_key same_name ∙ keyed;
      }

  -- Among nodes of this program that poll each other, a route that a poll has made for the name of
  -- a model leads to a slot of the peer with that name; and the peer, as it was when it was polled,
  -- sends a request for the name to that slot and not to another node.
  pub choose-hop :
      (f : Fed) (now : ℕ) (m : Text) (route : Route)
      → ((url : Text) (p : PeerNode F Raw)
          → at url ≡ some p
          → p.world.clean local_path ≡ local_path)
      → ((url : Text) (p : PeerNode F Raw) → at url ≡ some p → IsWf p.router.rig)
      → lookup (route_key m) (poll_all (gossip at from no_body now) f).routes ≡ some route
      → lower m ≡ lower route.model
      → (l : LedTo route (route_key m)) × (choose l.node.world.host l.node.router.rig
            l.node.router.fed [] m
          ≡ some (local_target l.node.world.host (l.node.router.rig.heap l.slot)))
  choose-hop f now m route clean wf found same_name =
      let reached = poll_all_sound (gossip at from no_body now) f (route_key m) route found in
      let l =
        Some-elim (λ c h. Reached-LedTo f now (route_key m) route c clean h) f.cfg.peers reached in
      let r = l.node.router.rig in
      (
        l,
        choose-local l.node.world.host r l.node.router.fed l.slot m (
            resolve-named r l.slot m (wf route.peer_url l.node l.at_url) l.listed
              (ap lower l.named ∙ sym same_name)),
      )
