-- ===== src/Fed/Routes.antt =====
-- The table of routes against the flat list of what the nodes offer.
use llama_chip.Base.{
  Bool-cases, List, Option, Option-cases, Text, [], ap, arith, equal_fold, if◌then◌else◌, inl, inr,
  insert, is_empty, is_some, lookup, lookup-insert, map, none, not, or_else, refl, same, same_iff,
  some, sym, ℕ, ◌++◌, ◌∙◌, ◌∷◌, ◌≡◌,
}
use llama_chip.Fed.Polls.{Net, poll_all, poll_peer, poll_tables}
use llama_chip.Fed.Defs.{
  Fed, PeerHealth, RosterEntry, Route, Tables, add_route, add_routes, apply_roster, base_url,
  is_skipped, no_tables, roster_tables, route_key,
}

-- A model under its key, where the key is not blank.
abbrev pub offer : Text → Text → Text → List (Text × Route)
offer peer url m =
    if is_empty (route_key m)
    then []
    else (route_key m, record { model = m; peer_url = url; peer_name = peer }) ∷ []

-- The offers of one node, in its order.
abbrev pub offers : Text → Text → List Text → List (Text × Route)
offers peer url [] = []
offers peer url (m ∷ ms) = offer peer url m ++ offers peer url ms

-- The offers of the entries that ApplyRoster does not skip.
abbrev pub kept_offers : Text → List RosterEntry → List (Text × Route)
kept_offers self [] = []
kept_offers self (e ∷ es) =
    if is_skipped self e
    then kept_offers self es
    else offers e.name (base_url e.mesh_addr) e.models ++ kept_offers self es

-- The offers of a roster: of the nodes with another name than this one and with an address.
abbrev pub roster_offers : Text → List RosterEntry → List (Text × Route)
roster_offers self [] = []
roster_offers self (e ∷ es) =
    if equal_fold e.name self
    then roster_offers self es
    else (if is_empty (base_url e.mesh_addr)
        then roster_offers self es
        else offers e.name (base_url e.mesh_addr) e.models ++ roster_offers self es)

kept_offers-roster :
    (self : Text) (es : List RosterEntry) → kept_offers self es ≡ roster_offers self es
kept_offers-roster self [] = refl
kept_offers-roster self (e ∷ es) = ground (arith, kept_offers-roster self es)

-- The offers of the peers that answered a poll.
abbrev pub poll_offers : List PeerHealth → List (Text × Route)
poll_offers [] = []
poll_offers (h ∷ hs) =
    if not h.online then poll_offers hs else offers h.name h.url h.models ++ poll_offers hs

pub lookup-append {ℓ} :
    {V : Type ℓ} (k : Text) (m n : List (Text × V))
    → lookup k (m ++ n) ≡ or_else (lookup k m) (lookup k n)
unfolding lookup
lookup-append k [] n = refl
lookup-append k ((j, v) ∷ m) n = ground (arith, lookup-append k m n)

or_else_assoc {ℓ} :
    {V : Type ℓ} (a b c : Option V) → or_else (or_else a b) c ≡ or_else a (or_else b c)
or_else_assoc none b c = refl
or_else_assoc (some v) b c = refl

or_else-none {ℓ} : {V : Type ℓ} (a : Option V) → or_else a none ≡ a
or_else-none none = refl
or_else-none (some v) = refl

add_route-offer :
    (peer url m : Text) (t : List (Text × Route)) (k : Text)
    → lookup k (add_route peer url m t) ≡ or_else (lookup k t) (lookup k (offer peer url m))
unfolding add_route lookup
add_route-offer peer url m t k = elim (Bool-cases (is_empty (route_key m))) [
  | inl blank ↦ rw (blank, add_route) (sym (or_else-none (lookup k t)))
  | inr filled ↦
      rw (filled, add_route)
        (put (route_key m) (record { model = m; peer_url = url; peer_name = peer }))
]
  where
    put :
        (j : Text) (r : Route)
        → lookup k (if is_some (lookup j t) then t else insert j r t)
          ≡ or_else (lookup k t) (if same j k then some r else none)
    put j r = elim (Option-cases (lookup j t)) [
      | inl free ↦ elim (Bool-cases (same j k)) [
        | inl hit ↦
            let p = (same_iff j k).0 hit in rw (free, lookup-insert j k r t, hit, ← p, free) refl
        | inr miss ↦ rw (free, lookup-insert j k r t, miss, or_else-none (lookup k t)) refl
      ]
      | inr (v, taken) ↦ elim (Bool-cases (same j k)) [
        | inl hit ↦ let p = (same_iff j k).0 hit in rw (hit, ← p, taken) taken
        | inr miss ↦ rw (taken, miss, or_else-none (lookup k t)) refl
      ]
    ]

-- The first offer of a key wins: the table gives what the list of all offers gives first.
pub add_routes-offers :
    (peer url : Text) (ms : List Text) (t : List (Text × Route)) (k : Text)
    → lookup k (add_routes peer url ms t) ≡ or_else (lookup k t) (lookup k (offers peer url ms))
unfolding add_routes lookup
add_routes-offers peer url [] t k = sym (or_else-none (lookup k t))
add_routes-offers peer url (m ∷ ms) t k =
    rw
      (
        add_routes-offers peer url ms (add_route peer url m t) k,
        add_route-offer peer url m t k,
        or_else_assoc (lookup k t) (lookup k (offer peer url m)) (lookup k (offers peer url ms)),
        lookup-append k (offer peer url m) (offers peer url ms),
      )
      refl

pub roster_tables-offers :
    (now : ℕ) (self : Text) (es : List RosterEntry) (t : Tables) (k : Text)
    → lookup k (roster_tables now self es t).routes
      ≡ or_else (lookup k t.routes) (lookup k (kept_offers self es))
unfolding roster_tables lookup
roster_tables-offers now self [] t k = sym (or_else-none (lookup k t.routes))
roster_tables-offers now self (e ∷ es) t k = elim (Bool-cases (is_skipped self e)) [
  | inl skip ↦ rw (skip, roster_tables) (roster_tables-offers now self es t k)
  | inr keep ↦
      rw
        (
          keep,
          roster_tables,
          roster_tables-offers now self es _ k,
          add_routes-offers e.name (base_url e.mesh_addr) e.models t.routes k,
          lookup-append k (offers e.name (base_url e.mesh_addr) e.models) (kept_offers self es),
        )
        (or_else_assoc (lookup k t.routes) _ _)
]

pub poll_tables-offers :
    (hs : List PeerHealth) (t : Tables) (k : Text)
    → lookup k (poll_tables hs t).routes ≡ or_else (lookup k t.routes) (lookup k (poll_offers hs))
unfolding poll_tables lookup
poll_tables-offers [] t k = sym (or_else-none (lookup k t.routes))
poll_tables-offers (h ∷ hs) t k = elim (Bool-cases h.online) [
  | inr off ↦ rw (off, poll_tables) (poll_tables-offers hs _ k)
  | inl on ↦
      rw
        (
          on,
          poll_tables,
          poll_tables-offers hs _ k,
          add_routes-offers h.name h.url h.models t.routes k,
          lookup-append k (offers h.name h.url h.models) (poll_offers hs),
        )
        (or_else_assoc (lookup k t.routes) _ _)
]

pub apply_roster-kept :
    (now : ℕ) (f : Fed) (es : List RosterEntry) (self k : Text)
    → lookup k (apply_roster now f es self).routes ≡ lookup k (kept_offers self es)
unfolding apply_roster lookup
apply_roster-kept now f es self k = roster_tables-offers now self es no_tables k

-- The route of a key after ApplyRoster is the first that the roster offers under it, in the
-- order of the roster, without this node itself and the nodes that have no address. What the
-- node knew before has no part in it.
pub apply_roster-offers :
    (now : ℕ) (f : Fed) (es : List RosterEntry) (self k : Text)
    → lookup k (apply_roster now f es self).routes ≡ lookup k (roster_offers self es)
apply_roster-offers now f es self k =
    apply_roster-kept now f es self k ∙ ap (lookup k) (kept_offers-roster self es)

-- The route of a key after pollAll is the first that a peer which answered offers under it, in
-- the order of the configuration.
pub poll_all-offers :
    (net : Net) (f : Fed) (k : Text)
    → lookup k (poll_all net f).routes ≡ lookup k (poll_offers (map (poll_peer net f) f.cfg.peers))
unfolding poll_all lookup
poll_all-offers net f k = poll_tables-offers (map (poll_peer net f) f.cfg.peers) no_tables k
