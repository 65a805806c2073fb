-- ===== src/HubClient/Discovery.antt =====
-- From the announcement of a node to a route of a client, through the hub.
use llama_chip.Base.{
  Bool-cases, Distinct, List, Option, Option-cases, Some, Text, [], ap, arith, false, inl, inr,
  insert, insert-Distinct, is_empty, keys, keys-select-Distinct, lookup, lookup-select, ltb, map,
  not, refl, same, some, some_inj, sort_by-Some, subst, sym, text_lt, true, ◌+◌, ◌∙◌, ◌∷◌, ◌≡◌, ◌≤◌,
}
use llama_chip.Fed.{
  Fed, Offers, Route, apply_roster, apply_roster-known, apply_roster_sound, enabled, is_skipped,
  resolve_remote, resolve_remote-lem, route_key,
}
use llama_chip.Hub.{
  Node, Store, Token, World, authed, is_blank, is_stale, list_roster, may_register, pruned,
  register, register-list_roster, values, verify,
}
use llama_chip.HubClient.Defs.{
  Client, LocalState, Tick, applied, fetch, on_ticks, run, state_or_none,
}
use llama_chip.HubClient.Wire.{hub_send, roster_entry}
use llama_chip.HubClient.Together.{asks, header, kept_node, registers}

lookup-values :
    {V : Type 0} (k : Text) (v : V) (m : List (Text × V))
    → lookup k m ≡ some v
    → Some (λ x. x ≡ v) (values m)
unfolding lookup
lookup-values k v [] e = cc
lookup-values k v ((j, u) ∷ m) e = elim (Bool-cases (same j k)) [
  | inl hit ↦ inl (some_inj (rw hit at e))
  | inr miss ↦ inr (lookup-values k v m (rw miss at e))
]

Some-map :
    {A B : Type 0} (f : A → B) (a : A) (xs : List A)
    → Some (λ x. x ≡ a) xs
    → Some (λ y. y ≡ f a) (map f xs)
Some-map f a [] h = absurd h
Some-map f a (x ∷ xs) (inl p) = inl (ap f p)
Some-map f a (x ∷ xs) (inr h) = inr (Some-map f a xs h)

-- A node that has registered is in the list that a later reading gives, within the time to live.
shown :
    (w w' : World) (s : Store) (n : Node) (owner : Text)
    → Distinct (keys s.roster)
    → w'.now ≤ w.now + s.node_ttl
    → Some
        (λ x. x ≡ record n { owner = owner; last_seen = w.now })
        (list_roster w' (list_roster w (register w s n owner)).0).1
unfolding register list_roster pruned
shown w w' s n owner d live =
    let beat = record n { owner = owner; last_seen = w.now } in
    let fresh : ltb (w.now + s.node_ttl) w.now ≡ false = ground arith in
    let alive : ltb (w.now + s.node_ttl) w'.now ≡ false = ground arith in
    let first = register-list_roster w w s n owner d ∙ (rw fresh refl) in
    let again =
      lookup-select (λ x. not (is_stale w' s x)) n.name beat
        (list_roster w (register w s n owner)).0.roster
        (keys-select-Distinct (λ e. not (is_stale w s e.1)) (insert n.name beat s.roster)
          (insert-Distinct n.name beat s.roster d))
        first in
    sort_by-Some (λ x y. text_lt x.name y.name) (λ x. x ≡ beat) _
      (lookup-values n.name beat _ (again ∙ (rw alive refl)))

client-Resolves :
    (hash : Text → Text) (base : Text) (b : Client) (s : Store) (w : World) (u : Token)
    (tick : Tick) (f : Fed) (m : Text) (n : Node)
    → b.hub_url ≡ base
    → authed hash s (header b) ≡ some u
    → may_register hash u.kind ≡ false
    → Some (λ x. x ≡ n) (list_roster w s).1
    → is_skipped b.node_name (roster_entry n) ≡ false
    → enabled (some f) ≡ true
    → is_empty (route_key m) ≡ false
    → Some (λ x. x ≡ m) n.models
    → (r : Route) × (resolve_remote (run (hub_send hash base w) b tick [] (some f) s).fedn m
        ≡ some r)
      × Some (Offers b.node_name (route_key m) r) (map roster_entry (list_roster w s).1)
unfolding run on_ticks apply_roster enabled
client-Resolves hash base b s w u tick f m n at known may listed open_to on key has =
    let es = map roster_entry (list_roster w s).1 in
    let f' = apply_roster tick.now f es b.node_name in
    let routed =
      apply_roster-known tick.now f es b.node_name (roster_entry n) m key open_to has
        (Some-map roster_entry n (list_roster w s).1 listed) in
    elim (Option-cases (lookup (route_key m) f'.routes)) [
      | inl missing ↦ let bad = rw missing at routed in cc
      | inr (r, found) ↦ (
        r,
        ap (λ x. resolve_remote (applied (hub_send hash base w) b tick.now (some f) x.0) m)
              (asks hash base w b s tick.local u at known may)
            ∙ (resolve_remote-lem f' m on).1 r found,
        apply_roster_sound tick.now f es b.node_name (route_key m) r found,
      )
    ]

-- A node that may register announces its models, and a client that may not asks the hub before the
-- time to live has run out: then the client, if it federates, resolves every model of the node
-- whose key is not blank to a node of the roster that serves it and is not the client itself. The
-- names of the node and the client differ by more than letter case, and the node has an address.
pub announced-Resolves :
    (hash : Text → Text) (base : Text) (a b : Client) (s : Store) (w w' : World)
    (local : Option LocalState) (t u : Token) (tick : Tick) (f : Fed) (m : Text)
    → a.hub_url ≡ base
    → b.hub_url ≡ base
    → authed hash s (header a) ≡ some t
    → may_register hash t.kind ≡ true
    → authed hash s (header b) ≡ some u
    → may_register hash u.kind ≡ false
    → is_blank hash a.node_name ≡ false
    → is_blank hash a.advertise ≡ false
    → is_skipped b.node_name (roster_entry (kept_node a local)) ≡ false
    → Distinct (keys s.roster)
    → w'.now ≤ w.now + s.node_ttl
    → enabled (some f) ≡ true
    → is_empty (route_key m) ≡ false
    → Some (λ x. x ≡ m) (state_or_none local).models
    → (r : Route) × (resolve_remote
          (run
            (hub_send hash base w')
            b
            tick
            []
            (some f)
            (fetch (hub_send hash base w) a local s).1).fedn
          m
        ≡ some r)
      × Some
          (Offers b.node_name (route_key m) r)
          (map roster_entry (list_roster w' (fetch (hub_send hash base w) a local s).1).1)
unfolding authed verify register list_roster pruned
announced-Resolves hash base a b s w w' local t u tick f m at_a at_b known_a may_a known_b may_b
      named placed open_to d live on key has =
    subst
      (λ x.
        (r : Route) × (resolve_remote (run (hub_send hash base w') b tick [] (some f) x.1).fedn m
          ≡ some r)
        × Some (Offers b.node_name (route_key m) r) (map roster_entry (list_roster w' x.1).1))
      (sym (registers hash base w a s local t at_a known_a may_a named placed))
      (client-Resolves hash base b (list_roster w (register w s (kept_node a local) t.label)).0 w' u
        tick f m _ at_b known_b may_b (shown w w' s (kept_node a local) t.label d live) open_to on
        key has)
