-- ===== src/Rig/Entries.antt =====
-- The map from keys to addresses that a list of addresses gives.
use llama_chip.Base.{
  All, All-map, All-mono, All-of_map, Bool-cases, Distinct, Distinct-concat, List, Some, Text, [],
  ap, ap₂, arith, delete, inl, inr, lookup, map, map-append_one, map-eq, none, refl, same, same_iff,
  some, sym, ℕ, ◌++◌, ◌==◌, ◌∙◌, ◌∷◌, ◌≡◌, ◌≢◌,
}
use llama_chip.Rig.Calls.{remove}

abbrev pub entries : (ℕ → Text) → List ℕ → List (Text × ℕ)
entries f = map (λ i. (f i, i))

pub lookup-entries-none :
    (f : ℕ → Text) (k : Text) (ids : List ℕ)
    → lookup k (entries f ids) ≡ none
    → All (λ i. k ≢ f i) ids
unfolding lookup
lookup-entries-none f k [] e = tt
lookup-entries-none f k (i ∷ ids) e =
    (ground (arith, same_iff (f i) k), lookup-entries-none f k ids (ground arith))

pub lookup-entries_absent :
    (f : ℕ → Text) (k : Text) (ids : List ℕ)
    → All (λ i. k ≢ f i) ids
    → lookup k (entries f ids) ≡ none
unfolding lookup
lookup-entries_absent f k [] h = refl
lookup-entries_absent f k (i ∷ ids) (n, h) =
    ground (arith, same_iff (f i) k, lookup-entries_absent f k ids h)

pub lookup-entries-some :
    (f : ℕ → Text) (k : Text) (ids : List ℕ) (i : ℕ)
    → lookup k (entries f ids) ≡ some i
    → (f i ≡ k) × Some (λ j. j ≡ i) ids
unfolding lookup
lookup-entries-some f k [] i e = cc
lookup-entries-some f k (j ∷ ids) i e = elim (Bool-cases (same (f j) k)) [
  | inl hit ↦
      let found : j ≡ i = ground arith in (ap f (sym found) ∙ (same_iff (f j) k).0 hit, inl found)
  | inr miss ↦
      let (named, later) = lookup-entries-some f k ids i (ground arith) in (named, inr later)
]

delete-entries_absent :
    (f : ℕ → Text) (k : Text) (ids : List ℕ)
    → All (λ i. k ≢ f i) ids
    → delete k (entries f ids) ≡ entries f ids
unfolding delete
delete-entries_absent f k [] h = refl
delete-entries_absent f k (i ∷ ids) (n, h) =
    ground (arith, same_iff (f i) k, delete-entries_absent f k ids h)

-- Where keys are distinct, deleting a key takes out the address that it leads to, and no other.
pub delete-entries :
    (f : ℕ → Text) (k : Text) (ids : List ℕ) (i : ℕ)
    → Distinct (map f ids)
    → lookup k (entries f ids) ≡ some i
    → delete k (entries f ids) ≡ entries f (remove i ids)
unfolding lookup delete
delete-entries f k [] i d e = cc
delete-entries f k (j ∷ ids) i (n, d) e = elim (Bool-cases (same (f j) k)) [
  | inl hit ↦
      let found : j ≡ i = ground arith in
      let gone = delete-entries_absent f k ids (
        All-mono (λ x g (p : k ≡ f x). g ((same_iff (f j) k).0 hit ∙ p)) ids
          (All-of_map (λ y. f j ≢ y) f ids n)) in
      ground arith
  | inr miss ↦
      let other : j ≢ i = λ p.
        let named = (lookup-entries-some f k ids i (ground arith)).0 in
        let hit = (same_iff (f j) k).1 (ap f p ∙ named) in cc in
      ground (arith, delete-entries f k ids i d (ground arith))
]

pub All-remove {κ} : (P : ℕ → Type κ) (i : ℕ) (ids : List ℕ) → All P ids → All P (remove i ids)
All-remove P i [] h = tt
All-remove P i (j ∷ ids) (p, h) = ground (arith, All-remove P i ids h)

pub Distinct-remove :
    (f : ℕ → Text) (i : ℕ) (ids : List ℕ) → Distinct (map f ids) → Distinct (map f (remove i ids))
Distinct-remove f i [] d = tt
Distinct-remove f i (j ∷ ids) (n, d) = elim (Bool-cases (j == i)) [
  | inl hit ↦ rw hit d
  | inr miss ↦ rw miss (
    All-map _ f _ (All-remove _ i ids (All-of_map (λ y. f j ≢ y) f ids n)),
    Distinct-remove f i ids d,
  )
]

module _ (f g : ℕ → Text) where
  pub entries-eq : (ids : List ℕ) → All (λ i. f i ≡ g i) ids → entries f ids ≡ entries g ids
  entries-eq [] h = refl
  entries-eq (i ∷ ids) (e, h) = ap₂ ◌∷◌ (ap (λ k. (k, i)) e) (entries-eq ids h)

  pub entries-concat :
      (n : ℕ) (k : Text) (ids : List ℕ)
      → All (λ i. f i ≡ g i) ids
      → g n ≡ k
      → entries f ids ++ (k, n) ∷ [] ≡ entries g (ids ++ n ∷ [])
  entries-concat n k [] h e = rw e refl
  entries-concat n k (i ∷ ids) (p, h) e = ap₂ ◌∷◌ (ap (λ k. (k, i)) p) (entries-concat n k ids h e)

  pub keys-concat :
      (n : ℕ) (k : Text) (ids : List ℕ)
      → All (λ i. f i ≡ g i) ids
      → g n ≡ k
      → Distinct (map f ids)
      → All (λ i. k ≢ f i) ids
      → Distinct (map g (ids ++ n ∷ []))
  keys-concat n k ids h e d new =
      rw (map-append_one g ids n, ← map-eq f g ids h, e)
        (Distinct-concat (map f ids) k d (All-map (λ y. k ≢ y) f ids new))
