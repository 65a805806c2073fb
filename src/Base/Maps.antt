-- ===== src/Base/Maps.antt =====
-- Go maps as association lists with one entry for each key, in the order of first insertion.
use mathlib.Core.Path.{◌≡◌, refl, sym, ◌∙◌}
use mathlib.Core.Logic.{◌≢◌, inl, inr}
use mathlib.Core.Bool.{Bool, false}
use mathlib.Core.Option.{Option, none, some}
use mathlib.Core.List.{List, [], ◌∷◌, ◌++◌, map}
use native.Mathlib.Omega.{arith}
use llama_chip.Base.Tests.{if◌then◌else◌, Bool-cases}
use llama_chip.Base.Lists.{
  any, Some, All, Distinct, select, All-mono, All-both, All-of_map, All-select,
}
use llama_chip.Base.Strings.{Text, same, same_iff, same-false, same_refl}

module _ {ℓ} {V : Type ℓ} where
  unfoldable pub lookup : Text → List (Text × V) → Option V
  lookup k [] = none
  lookup k ((j, v) ∷ m) = if same j k then some v else lookup k m

  unfoldable pub insert : Text → V → List (Text × V) → List (Text × V)
  insert k v [] = (k, v) ∷ []
  insert k v ((j, w) ∷ m) = if same j k then (k, v) ∷ m else (j, w) ∷ insert k v m

  unfoldable pub delete : Text → List (Text × V) → List (Text × V)
  delete k [] = []
  delete k ((j, w) ∷ m) = if same j k then delete k m else (j, w) ∷ delete k m

  pub lookup-insert :
      (k j : Text) (v : V) (m : List (Text × V))
      → lookup j (insert k v m) ≡ (if same k j then some v else lookup j m)
  unfolding lookup insert
  lookup-insert k j v [] = refl
  lookup-insert k j v ((i, w) ∷ m) =
      ground (arith, same_iff k j, same_iff i k, same_iff i j, lookup-insert k j v m)

  pub lookup-delete :
      (k j : Text) (m : List (Text × V))
      → lookup j (delete k m) ≡ (if same k j then none else lookup j m)
  unfolding lookup delete
  lookup-delete k j [] = ground arith
  lookup-delete k j ((i, w) ∷ m) =
      ground (arith, same_iff k j, same_iff i k, same_iff i j, lookup-delete k j m)

  -- A new key goes to the end.
  pub insert_new :
      (k : Text) (v : V) (m : List (Text × V)) → lookup k m ≡ none → insert k v m ≡ m ++ (k, v) ∷ []
  unfolding lookup insert
  insert_new k v [] e = refl
  insert_new k v ((j, w) ∷ m) e = ground (arith, insert_new k v m)

module _ {ℓ} {V : Type ℓ} where
  abbrev pub keys : List (Text × V) → List Text
  keys m = map (λ e. e.0) m

  insert-absent_key :
      (j k : Text) (v : V) (m : List (Text × V))
      → j ≢ k
      → All (λ i. j ≢ i) (keys m)
      → All (λ i. j ≢ i) (keys (insert k v m))
  unfolding insert
  insert-absent_key j k v [] ne h = (ne, tt)
  insert-absent_key j k v ((i, w) ∷ m) ne (n, h) = ground (arith, insert-absent_key j k v m ne h)

  -- A map keeps one entry for each key.
  pub insert-Distinct :
      (k : Text) (v : V) (m : List (Text × V)) → Distinct (keys m) → Distinct (keys (insert k v m))
  unfolding insert
  insert-Distinct k v [] d = (tt, tt)
  insert-Distinct k v ((i, w) ∷ m) (n, d) = elim (Bool-cases (same i k)) [
    | inl hit ↦ let p = (same_iff i k).0 hit in rw hit (rw (← p) (n, d))
    | inr miss ↦
        rw miss
          (insert-absent_key i k v m (λ p. cc ((same_iff i k).1 p)) n, insert-Distinct k v m d)
  ]

  -- After a write, an entry is the one written or an old one under another key.
  pub All-insert :
      (P : Text × V → Type 0) (k : Text) (v : V) (m : List (Text × V))
      → Distinct (keys m)
      → P (k, v)
      → All (λ e. e.0 ≢ k → P e) m
      → All P (insert k v m)
  unfolding insert
  All-insert P k v [] d p h = (p, tt)
  All-insert P k v ((i, w) ∷ m) (n, d) p (f, h) = elim (Bool-cases (same i k)) [
    | inl hit ↦
        let same_key = (same_iff i k).0 hit in
        rw hit (
          p,
          All-mono (λ e g. g.1 (λ q. g.0 (same_key ∙ sym q))) m
              (All-both (λ e. i ≢ e.0) (λ e. e.0 ≢ k → P e) m
                (All-of_map (λ j. i ≢ j) (λ e. e.0) m n) h),
        )
    | inr miss ↦ rw miss (f (λ q. cc ((same_iff i k).1 q)), All-insert P k v m d p h)
  ]

  pub lookup-absent : (k : Text) (m : List (Text × V)) → All (λ e. k ≢ e.0) m → lookup k m ≡ none
  unfolding lookup
  lookup-absent k [] h = refl
  lookup-absent k ((i, w) ∷ m) (n, h) = ground (arith, same_iff i k, lookup-absent k m h)

  -- Dropping entries by a test on their values.
  pub lookup-select :
      (q : V → Bool) (k : Text) (v : V) (m : List (Text × V))
      → Distinct (keys m)
      → lookup k m ≡ some v
      → lookup k (select (λ e. q e.1) m) ≡ (if q v then some v else none)
  unfolding lookup
  lookup-select q k v [] d e = cc
  lookup-select q k v ((i, w) ∷ m) (n, d) e = elim (Bool-cases (same i k)) [
    | inl hit ↦
        let same_key = (same_iff i k).0 hit in
        let others =
          All-mono {Q = λ x. k ≢ x.0} (λ x (g : i ≢ x.0) (p : k ≡ x.0). g (same_key ∙ p)) m
            (All-of_map (λ j. i ≢ j) (λ x. x.0) m n) in
        let gone = lookup-absent k (select (λ x. q x.1) m) (All-select _ (λ x. q x.1) m others) in
        ground arith
    | inr miss ↦ ground (arith, lookup-select q k v m d (ground arith))
  ]

pub any-same-false :
    (k : Text) (ks : List Text) → any (λ j. same j k) ks ≡ false → All (λ j. k ≢ j) ks
any-same-false k [] e = tt
any-same-false k (j ∷ ks) e = elim (Bool-cases (same j k)) [
  | inl hit ↦ let bad = rw hit at e in cc
  | inr miss ↦ ((λ p. cc ((same_iff j k).1 (sym p))), any-same-false k ks (rw miss at e))
]

pub any-same-absent :
    (k : Text) (ks : List Text) → All (λ j. k ≢ j) ks → any (λ j. same j k) ks ≡ false
any-same-absent k [] h = refl
any-same-absent k (j ∷ ks) (n, h) =
    rw (same-false j k (λ p. n (sym p)), any-same-absent k ks h) refl

-- In a map with one entry for each key, an entry is what its key gives.
pub lookup-Some {ℓ} :
    {V : Type ℓ} (R : Text × V → Type 0) (m : List (Text × V))
    → Distinct (keys m)
    → Some R m
    → (k : Text) × (v : V) × R (k, v) × (lookup k m ≡ some v)
unfolding lookup
lookup-Some R [] d h = absurd h
lookup-Some R ((k, v) ∷ m) (n, d) (inl h) = (k, v, h, rw (same_refl k) refl)
lookup-Some R ((k, v) ∷ m) (n, d) (inr h) =
    let (j, w, r, found) = lookup-Some R m d h in
    elim (Bool-cases (same k j)) [
      | inl hit ↦
          let gone = lookup-absent k m (All-of_map (λ i. k ≢ i) (λ e. e.0) m n) in
          let p = (same_iff k j).0 hit in cc
      | inr miss ↦ (j, w, r, rw miss found)
    ]

keys-select-All {ℓ} :
    {V : Type ℓ} (P : Text → Type 0) (p : Text × V → Bool) (m : List (Text × V))
    → All P (keys m)
    → All P (keys (select p m))
keys-select-All P p [] h = tt
keys-select-All P p (e ∷ m) (q, h) = ground (arith, keys-select-All P p m h)

pub keys-select-Distinct {ℓ} :
    {V : Type ℓ} (p : Text × V → Bool) (m : List (Text × V))
    → Distinct (keys m)
    → Distinct (keys (select p m))
keys-select-Distinct p [] h = tt
keys-select-Distinct p (e ∷ m) (n, d) =
    ground (arith, keys-select-Distinct p m d, keys-select-All (λ k. e.0 ≢ k) p m n)
