-- ===== src/Fed/Keys.antt =====
-- The table of routes has one entry for each key.
use llama_chip.Base.{
  Bool-cases, Distinct, List, Text, [], inl, inr, insert-Distinct, is_empty, is_some, keys, lookup,
  ℕ, ◌||◌, ◌∷◌,
}
use llama_chip.Fed.Defs.{
  Fed, RosterEntry, Route, Tables, add_route, add_routes, apply_roster, base_url, is_skipped,
  no_tables, roster_tables, route_key,
}

add_route-Distinct :
    (peer url m : Text) (t : List (Text × Route))
    → Distinct (keys t)
    → Distinct (keys (add_route peer url m t))
unfolding add_route
add_route-Distinct peer url m t d =
    let new =
      insert-Distinct (route_key m) (record { model = m; peer_url = url; peer_name = peer }) t d in
    elim (Bool-cases (is_empty (route_key m) || is_some (lookup (route_key m) t))) [
      | inl kept ↦ rw (kept, add_route) d
      | inr put ↦ rw (put, add_route) new
    ]

add_routes-Distinct :
    (peer url : Text) (ms : List Text) (t : List (Text × Route))
    → Distinct (keys t)
    → Distinct (keys (add_routes peer url ms t))
unfolding add_routes
add_routes-Distinct peer url [] t d = d
add_routes-Distinct peer url (m ∷ ms) t d =
    add_routes-Distinct peer url ms (add_route peer url m t) (add_route-Distinct peer url m t d)

roster_tables-Distinct :
    (now : ℕ) (self : Text) (es : List RosterEntry) (t : Tables)
    → Distinct (keys t.routes)
    → Distinct (keys (roster_tables now self es t).routes)
unfolding roster_tables
roster_tables-Distinct now self [] t d = d
roster_tables-Distinct now self (e ∷ es) t d = elim (Bool-cases (is_skipped self e)) [
  | inl skip ↦ rw (skip, roster_tables) (roster_tables-Distinct now self es t d)
  | inr keep ↦
      rw (keep, roster_tables)
        (roster_tables-Distinct now self es _
          (add_routes-Distinct e.name (base_url e.mesh_addr) e.models t.routes d))
]

pub apply_roster-Distinct :
    (now : ℕ) (f : Fed) (es : List RosterEntry) (self : Text)
    → Distinct (keys (apply_roster now f es self).routes)
unfolding apply_roster
apply_roster-Distinct now f es self = roster_tables-Distinct now self es no_tables tt
