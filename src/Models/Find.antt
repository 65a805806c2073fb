-- ===== src/Models/Find.antt =====
-- Which model a handle names.
use llama_chip.Base.{
  All, Bool-cases, List, Option-cases, Text, [], arith, contains, equal_fold, equal_fold_iff, find,
  inl, inr, lower, none, refl, same, select, some, subst, sym, ◌↔◌, ◌∙◌, ◌∷◌, ◌≡◌, ◌≢◌, ◌⊎◌,
}
use llama_chip.Models.Defs.{Model, find_model, sole}

abbrev pub IsExact : Text → Model → Type 0
IsExact query m = lower m.id ≡ lower query

abbrev pub partial : Text → List Model → List Model
partial query = select (λ m. contains (lower m.id) (lower query))

-- The first model whose ID is the handle up to letter case.
pub data FirstExact (query : Text) (m : Model) : List Model → Type 0 where
  here : {ms : List Model} → IsExact query m → FirstExact query m (m ∷ ms)
  there :
      {n : Model} {ms : List Model}
      → ¬ IsExact query n
      → FirstExact query m ms
      → FirstExact query m (n ∷ ms)

-- A handle names the first model with that ID, and where no ID is equal to it the only model whose
-- ID contains it.
abbrev pub Names : List Model → Text → Model → Type 0
Names all query m =
    FirstExact query m all ⊎ (All (λ n. ¬ IsExact query n) all × (partial query all ≡ m ∷ []))

find-FirstExact :
    (query : Text) (m : Model) (all : List Model)
    → find (λ n. equal_fold n.id query) all ≡ some m
    → FirstExact query m all
find-FirstExact query m [] e = cc
find-FirstExact query m (n ∷ ns) e = elim (Bool-cases (equal_fold n.id query)) [
  | inl same ↦
      let first : n ≡ m = ground arith in
      subst (λ x. FirstExact query x (n ∷ ns)) first (here ((equal_fold_iff n.id query).0 same))
  | inr other ↦
      there (λ x. ground (arith, equal_fold_iff n.id query))
        (find-FirstExact query m ns (ground arith))
]

FirstExact-find :
    {query : Text} {m : Model} {all : List Model}
    → FirstExact query m all
    → find (λ n. equal_fold n.id query) all ≡ some m
FirstExact-find {query} {m} (here e) = ground (arith, equal_fold_iff m.id query)
FirstExact-find {query} (there {n = n} ne f) =
    ground (arith, equal_fold_iff n.id query, FirstExact-find f)

find-none_iff :
    (query : Text) (all : List Model)
    → (find (λ n. equal_fold n.id query) all ≡ none) ↔ All (λ n. ¬ IsExact query n) all
find-none_iff query [] = (λ e. tt, λ h. refl)
find-none_iff query (n ∷ ns) = ground (arith, equal_fold_iff n.id query, find-none_iff query ns)

ne-none : {m : Model} → some m ≢ none
ne-none e = cc

sole_iff : (ms : List Model) (m : Model) → (sole ms ≡ some m) ↔ (ms ≡ m ∷ [])
sole_iff [] m = (λ e. cc, λ e. cc)
sole_iff (n ∷ []) m = (λ e. cc, λ e. cc)
sole_iff (n ∷ (k ∷ ms)) m = (λ e. cc, λ e. cc)

-- Find returns a model exactly when the handle names it: an equal ID wins over any that contains
-- the handle, and two that contain it make the handle ambiguous.
pub find_model_iff :
    (all : List Model) (query : Text) (m : Model)
    → (find_model all query ≡ some m) ↔ Names all query m
unfolding find_model
find_model_iff all query m = elim (Option-cases (find (λ n. equal_fold n.id query) all)) [
  | inl missing ↦ (
    λ e.
        inr ((find-none_iff query all).0 missing, (sole_iff _ m).0 (rw (missing, find_model) at e)),
    elim [
      | inl first ↦ absurd (ne-none (sym (FirstExact-find first) ∙ missing))
      | inr (_, only) ↦ rw (missing, find_model) ((sole_iff _ m).1 only)
    ],
  )
  | inr (k, found) ↦ (
    λ e. inl (find-FirstExact query m all (found ∙ rw (found, find_model) at e)),
    elim [
      | inl first ↦ rw (found, find_model) (sym found ∙ FirstExact-find first)
      | inr (others, _) ↦ absurd (ne-none (sym found ∙ (find-none_iff query all).1 others))
    ],
  )
]
