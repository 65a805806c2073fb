-- ===== src/Hub/Roster.antt =====
-- The roster: what a heartbeat puts in, how long it stays, and what a reading shows.
use llama_chip.Base.{
  All, Distinct, IsSorted, List, Perm, Text, [], arith, false, if◌then◌else◌, insert,
  insert-Distinct, keys, lookup, lookup-insert, lookup-select, ltb, none, not, refl, same_refl,
  select, some, sort_by-All, sort_by-IsSorted, sort_by-perm, text_lt, true, ◌+◌, ◌∙◌, ◌∷◌, ◌≡◌,
}
use llama_chip.Hub.Defs.{Node, Store, World, is_stale, list_roster, register, values}

text_lt-asym : (s t : Text) → text_lt s t ≡ true → text_lt t s ≡ false
unfolding text_lt
text_lt-asym [] [] e = cc
text_lt-asym [] (b ∷ t) e = refl
text_lt-asym (a ∷ s) [] e = cc
text_lt-asym (a ∷ s) (b ∷ t) e = ground (arith, text_lt-asym s t)

-- A reading of the roster keeps exactly the nodes that were heard of within the time to live, in
-- the store and in the answer, and the answer is sorted by name.
pub list_roster-lem :
    (w : World) (s : Store)
    → All (λ n. is_stale w s n ≡ false) (list_roster w s).1
      × Perm (list_roster w s).1 (values (list_roster w s).0.roster)
      × ((list_roster w s).0.roster ≡ select (λ e. not (is_stale w s e.1)) s.roster)
      × IsSorted (λ a b. text_lt a.name b.name) (list_roster w s).1
unfolding list_roster
list_roster-lem w s = (
  sort_by-All (λ a b. text_lt a.name b.name) (λ n. is_stale w s n ≡ false) _ (fresh s.roster),
  sort_by-perm _ _,
  refl,
  sort_by-IsSorted (λ a b. text_lt a.name b.name) (λ a b. text_lt-asym a.name b.name) _,
)
  where
    fresh :
        (m : List (Text × Node))
        → All (λ n. is_stale w s n ≡ false) (values (select (λ e. not (is_stale w s e.1)) m))
    fresh [] = tt
    fresh (e ∷ m) = let rest = fresh m in ground arith

-- A heartbeat makes its node known under the owner's label and the time of the call, whatever was
-- known of a node of that name; a reading at a later time shows it for as long as the time to live
-- lasts, and then no more. Other nodes are not touched.
pub register-list_roster :
    (w w' : World) (s : Store) (n : Node) (owner : Text)
    → Distinct (keys s.roster)
    → lookup n.name (list_roster w' (register w s n owner)).0.roster ≡ (
        if ltb (w.now + s.node_ttl) w'.now
        then none
        else some (record n { owner = owner; last_seen = w.now }))
unfolding register list_roster
register-list_roster w w' s n owner d =
    let beat = record n { owner = owner; last_seen = w.now } in
    let put : lookup n.name (insert n.name beat s.roster) ≡ some beat =
      rw (lookup-insert n.name n.name beat s.roster, same_refl n.name) refl in
    lookup-select (λ x. not (is_stale w' s x)) n.name beat _
      (insert-Distinct n.name beat s.roster d) put
    ∙ ground arith
