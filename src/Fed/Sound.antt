-- ===== src/Fed/Sound.antt =====
-- Where a route comes from.
use llama_chip.Base.{
  Bool, Bool-cases, List, Option-cases, Result-cases, Some, Text, [], ap, arith, equal_fold, err,
  false, inl, inr, is_empty, lookup, map, ne-nil_of_is_empty, ok, refl, same, same_iff, some,
  some_inj, sym, ℕ, ◌||◌, ◌∙◌, ◌∷◌, ◌≡◌, ◌≢◌, ◌⊎◌,
}
use llama_chip.Fed.Polls.{Net, down, peer_label, poll_all, poll_peer, up}
use llama_chip.Fed.Defs.{
  Fed, PeerConfig, RosterEntry, Route, apply_roster, base_url, is_skipped, outbound_token,
  route_key,
}
use llama_chip.Fed.Routes.{
  apply_roster-kept, kept_offers, lookup-append, offers, poll_all-offers, poll_offers,
}

-- A model of the node that has the key of the route.
abbrev pub Serves : List Text → Text → Route → Type 0
Serves models k r = Some (λ m. (r.model ≡ m) × (route_key m ≡ k)) models

offers_sound :
    (peer url : Text) (ms : List Text) (k : Text) (r : Route)
    → lookup k (offers peer url ms) ≡ some r
    → (r.peer_name ≡ peer) × (r.peer_url ≡ url) × Serves ms k r
unfolding lookup
offers_sound peer url [] k r e = cc
offers_sound peer url (m ∷ ms) k r e = elim (Bool-cases (is_empty (route_key m))) [
  | inl blank ↦ let (n, u, s) = offers_sound peer url ms k r (rw blank at e) in (n, u, inr s)
  | inr filled ↦ elim (Bool-cases (same (route_key m) k)) [
    | inl hit ↦
        let made = some_inj (rw (filled, hit) at e) in
        (
          ap (λ x. x.peer_name) (sym made),
          ap (λ x. x.peer_url) (sym made),
          inl (ap (λ x. x.model) (sym made), (same_iff _ _).0 hit),
        )
    | inr miss ↦
        let (n, u, s) = offers_sound peer url ms k r (rw (filled, miss) at e) in (n, u, inr s)
  ]
]

-- The node of the roster that a route names.
abbrev pub Offers : Text → Text → Route → RosterEntry → Type 0
Offers self k r e =
    (equal_fold e.name self ≡ false)
    × (base_url e.mesh_addr ≢ [])
    × (r.peer_name ≡ e.name)
    × (r.peer_url ≡ base_url e.mesh_addr)
    × Serves e.models k r

kept : (a b : Bool) → (a || b) ≡ false → (a ≡ false) × (b ≡ false)
kept a b h = ground arith

kept_offers_sound :
    (self : Text) (es : List RosterEntry) (k : Text) (r : Route)
    → lookup k (kept_offers self es) ≡ some r
    → Some (Offers self k r) es
unfolding lookup
kept_offers_sound self [] k r e = cc
kept_offers_sound self (x ∷ es) k r e = elim (Bool-cases (is_skipped self x)) [
  | inl skip ↦ inr (kept_offers_sound self es k r (rw skip at e))
  | inr keep ↦
      let here_first =
        rw
          (
            keep,
            lookup-append k (offers x.name (base_url x.mesh_addr) x.models) (kept_offers self es),
          )
          at e in
      elim (Option-cases (lookup k (offers x.name (base_url x.mesh_addr) x.models))) [
        | inl none_here ↦ inr (kept_offers_sound self es k r (rw none_here at here_first))
        | inr (r', found) ↦
            let (n, u, s) =
              offers_sound x.name (base_url x.mesh_addr) x.models k r
                (found ∙ (rw found at here_first)) in
            let (other, addressed) =
              kept (equal_fold x.name self) (is_empty (base_url x.mesh_addr)) keep in
            inl (other, ne-nil_of_is_empty _ addressed, n, u, s)
      ]
]

-- A route that ApplyRoster makes leads to a node of the roster that has a model with this key,
-- at the node's address, which is not empty; and the node is not the one that asks.
pub apply_roster_sound :
    (now : ℕ) (f : Fed) (es : List RosterEntry) (self k : Text) (r : Route)
    → lookup k (apply_roster now f es self).routes ≡ some r
    → Some (Offers self k r) es
apply_roster_sound now f es self k r e =
    kept_offers_sound self es k r (sym (apply_roster-kept now f es self k) ∙ e)

-- What a peer answers to the bearer meant for it: its own list, or else the list of its models.
abbrev pub Answers : Net → Fed → PeerConfig → List Text → Type 0
Answers net f p ms =
    let bearer = outbound_token (some f) (peer_label p) in
    (net.fetch_local p.url bearer ≡ ok ms)
    ⊎ ((e : Text) × (net.fetch_local p.url bearer ≡ err e) × (net.fetch_v1 p.url bearer ≡ ok ms))

abbrev pub Reached : Net → Fed → Text → Route → PeerConfig → Type 0
Reached net f k r p =
    (r.peer_name ≡ peer_label p)
    × (r.peer_url ≡ p.url)
    × ((ms : List Text) × Answers net f p ms × Serves ms k r)

poll_peer-up :
    (net : Net) (f : Fed) (p : PeerConfig)
    → ((ms : List Text) × Answers net f p ms × (poll_peer net f p ≡ up net p ms))
      ⊎ ((e : Text) × (poll_peer net f p ≡ down p e))
unfolding poll_peer
poll_peer-up net f p =
    let bearer = outbound_token (some f) (peer_label p) in
    elim (Result-cases (net.fetch_local p.url bearer)) [
      | inl (ms, fine) ↦ inl (ms, inl fine, rw (fine, poll_peer) refl)
      | inr (e, failed) ↦ elim (Result-cases (net.fetch_v1 p.url bearer)) [
        | inl (ms, fine) ↦ inl (ms, inr (e, failed, fine), rw (failed, fine, poll_peer) refl)
        | inr (e2, again) ↦ inr (e2, rw (failed, again, poll_peer) refl)
      ]
    ]

poll_offers_sound :
    (net : Net) (f : Fed) (ps : List PeerConfig) (k : Text) (r : Route)
    → lookup k (poll_offers (map (poll_peer net f) ps)) ≡ some r
    → Some (Reached net f k r) ps
unfolding lookup
poll_offers_sound net f [] k r e = cc
poll_offers_sound net f (p ∷ ps) k r e = elim (poll_peer-up net f p) [
  | inr (x, lost) ↦ inr (poll_offers_sound net f ps k r (rw lost at e))
  | inl (ms, answer, reached) ↦
      let first =
        rw
          (
            reached,
            lookup-append k (offers (peer_label p) p.url ms)
                (poll_offers (map (poll_peer net f) ps)),
          )
          at e in
      elim (Option-cases (lookup k (offers (peer_label p) p.url ms))) [
        | inl no_route ↦ inr (poll_offers_sound net f ps k r (rw no_route at first))
        | inr (r', found) ↦
            let (n, u, s) =
              offers_sound (peer_label p) p.url ms k r (found ∙ (rw found at first)) in
            inl (n, u, (ms, answer, s))
      ]
]

-- A route that a poll makes leads to a configured peer that answered it with a model of this
-- key. A peer that answers neither request has no route.
pub poll_all_sound :
    (net : Net) (f : Fed) (k : Text) (r : Route)
    → lookup k (poll_all net f).routes ≡ some r
    → Some (Reached net f k r) f.cfg.peers
poll_all_sound net f k r e =
    poll_offers_sound net f f.cfg.peers k r (sym (poll_all-offers net f k) ∙ e)
