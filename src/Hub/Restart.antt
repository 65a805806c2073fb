-- ===== src/Hub/Restart.antt =====
-- A hub that is started again has the tokens that were saved.
use llama_chip.Base.{
  All, Bool, Bool-cases, Distinct, List, Option, Text, [], ap, ap₂, arith, false, if◌then◌else◌,
  inl, inr, insert, insert_sorted, is_empty, keys, lookup, lookup-absent, lookup-insert, ltb, map,
  none, ok, ok-injective, or_else, refl, same, same_iff, some, sort_by, subst, sym, ℕ, ◌∙◌, ◌∷◌,
  ◌≡◌, ◌≢◌,
}
use llama_chip.Hub.Defs.{Store, Token, values}
use llama_chip.Hub.Persist.{load_all, new_store, saved}
use llama_chip.Hub.Tokens.{IsWf}

abbrev by_id : List Token → List (Text × Token)
by_id ts = map (λ t. (t.id, t)) ts

abbrev ids : List Token → List Text
ids ts = map (λ t. t.id) ts

by_id-keys : (P : Text → Type 0) (ts : List Token) → All P (ids ts) → All (λ e. P e.0) (by_id ts)
by_id-keys P [] h = tt
by_id-keys P (t ∷ ts) (p, h) = (p, by_id-keys P ts h)

lookup-load_all :
    (k : Text) (ts : List Token) (m : List (Text × Token))
    → Distinct (ids ts)
    → lookup k (load_all ts m) ≡ or_else (lookup k (by_id ts)) (lookup k m)
unfolding load_all lookup
lookup-load_all k [] m d = refl
lookup-load_all k (t ∷ ts) m (n, d) = elim (Bool-cases (same t.id k)) [
  | inl hit ↦
      let p = (same_iff t.id k).0 hit in
      let absent = lookup-absent t.id (by_id ts) (by_id-keys (λ j. t.id ≢ j) ts n) in
      lookup-load_all k ts (insert t.id t m) d
      ∙ (rw (lookup-insert t.id k t m, hit, ← p, absent) refl)
  | inr miss ↦ lookup-load_all k ts (insert t.id t m) d ∙ (rw (lookup-insert t.id k t m, miss) refl)
]

same-other : (k j : Text) → k ≢ j → same j k ≡ false
same-other k j ne = elim (Bool-cases (same j k)) [
  | inl hit ↦ absurd (ne (sym ((same_iff j k).0 hit)))
  | inr miss ↦ miss
]

module _ (less : Token → Token → Bool) where
  insert_sorted-lookup :
      (k : Text) (t : Token) (ts : List Token)
      → All (λ j. t.id ≢ j) (ids ts)
      → lookup k (by_id (insert_sorted less t ts)) ≡ lookup k (by_id (t ∷ ts))
  unfolding insert_sorted lookup
  insert_sorted-lookup k t [] n = refl
  insert_sorted-lookup k t (u ∷ ts) (ne, n) = elim (Bool-cases (less u t)) [
    | inr first ↦ rw first refl
    | inl later ↦
        rw (later, insert_sorted-lookup k t ts n)
          (elim (Bool-cases (same t.id k)) [
            | inr miss ↦ rw miss refl
            | inl hit ↦
                let other : same u.id k ≡ false =
                  same-other k u.id (λ q. ne ((same_iff t.id k).0 hit ∙ q)) in
                rw (hit, other) refl
          ])
  ]

  insert_sorted-ids :
      (P : Text → Type 0) (t : Token) (ts : List Token)
      → P t.id
      → All P (ids ts)
      → All P (ids (insert_sorted less t ts))
  unfolding insert_sorted
  insert_sorted-ids P t [] p h = (p, tt)
  insert_sorted-ids P t (u ∷ ts) p (q, h) = ground (arith, insert_sorted-ids P t ts p h)

  insert_sorted-Distinct :
      (t : Token) (ts : List Token)
      → All (λ j. t.id ≢ j) (ids ts)
      → Distinct (ids ts)
      → Distinct (ids (insert_sorted less t ts))
  unfolding insert_sorted
  insert_sorted-Distinct t [] n d = (tt, tt)
  insert_sorted-Distinct t (u ∷ ts) (ne, n) (m, d) = elim (Bool-cases (less u t)) [
    | inl later ↦ rw later (
      insert_sorted-ids (λ j. u.id ≢ j) t ts (λ q. ne (sym q)) m,
      insert_sorted-Distinct t ts n d,
    )
    | inr first ↦ rw first ((ne, n), (m, d))
  ]

  sort_by-ids :
      (P : Text → Type 0) (ts : List Token) → All P (ids ts) → All P (ids (sort_by less ts))
  unfolding sort_by
  sort_by-ids P [] h = tt
  sort_by-ids P (t ∷ ts) (p, h) = insert_sorted-ids P t (sort_by less ts) p (sort_by-ids P ts h)

  sort_by-lookup :
      (k : Text) (ts : List Token)
      → Distinct (ids ts)
      → (lookup k (by_id (sort_by less ts)) ≡ lookup k (by_id ts))
        × Distinct (ids (sort_by less ts))
  unfolding sort_by lookup
  sort_by-lookup k [] d = (refl, tt)
  sort_by-lookup k (t ∷ ts) (n, d) =
      let (e, d') = sort_by-lookup k ts d in
      let n' = sort_by-ids (λ j. t.id ≢ j) ts n in
      (
        insert_sorted-lookup k t (sort_by less ts) n'
            ∙ ap (λ r. if same t.id k then some t else r) e,
        insert_sorted-Distinct t (sort_by less ts) n' d',
      )

or_else-none : {V : Type 0} (a : Option V) → or_else a none ≡ a
or_else-none none = refl
or_else-none (some v) = refl

-- A map whose keys are the IDs of its tokens.
by_id-values : (m : List (Text × Token)) → All (λ e. e.0 ≡ e.1.id) m → by_id (values m) ≡ m
by_id-values [] h = refl
by_id-values ((k, t) ∷ m) (p, h) = ap₂ (λ x y. (x, t) ∷ y) (sym p) (by_id-values m h)

values-ids : (m : List (Text × Token)) → All (λ e. e.0 ≡ e.1.id) m → keys m ≡ ids (values m)
values-ids [] h = refl
values-ids ((k, t) ∷ m) (p, h) = ap₂ (λ x y. x ∷ y) p (values-ids m h)

-- A hub that is started again on the file that was saved has under every ID the token that it had
-- before, whatever the order of the file; and its roster is empty.
pub new_store-saved :
    (s s' : Store) (ttl : ℕ)
    → IsWf s
    → is_empty s.path ≡ false
    → new_store s.path ttl (ok (some (saved s))) ≡ ok s'
    → ((k : Text) → lookup k s'.tokens ≡ lookup k s.tokens) × (s'.roster ≡ [])
unfolding new_store saved lookup
new_store-saved s s' ttl wf kept e =
    let started = ok-injective (rw kept at e) in
    let less : Token → Token → Bool = λ a b. ltb a.created_at b.created_at in
    let apart = subst Distinct (values-ids s.tokens wf.own_id) wf.distinct in
    (
      (λ k.
          let (same_lookup, d) = sort_by-lookup less k (values s.tokens) apart in
          ap (λ x. lookup k x.tokens) (sym started)
          ∙ lookup-load_all k (sort_by less (values s.tokens)) [] d
          ∙ or_else-none _
          ∙ same_lookup
          ∙ ap (lookup k) (by_id-values s.tokens wf.own_id)),
      ap (λ x. x.roster) (sym started),
    )
