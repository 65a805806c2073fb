-- ===== src/Base/Sort.antt =====
-- sort.Slice, by insertion. Go's sort is not stable: where two members are not told apart by the
-- order, their places here are one of those that it may choose.
use mathlib.Core.Path.{◌≡◌, subst}
use mathlib.Core.Logic.{inl, inr}
use mathlib.Core.Bool.{Bool, true, false}
use mathlib.Core.List.{List, [], ◌∷◌, Perm}
use mathlib.Core.List.Perm
use mathlib.Core.Option.{some}
use native.Mathlib.Omega.{arith}
use llama_chip.Base.Lists.{All, All-mono, Some, find}
use llama_chip.Base.Tests.{if◌then◌else◌, Bool-cases, some_inj}

module _ {ℓ} {A : Type ℓ} (less : A → A → Bool) where
  unfoldable pub insert_sorted : A → List A → List A
  insert_sorted x [] = x ∷ []
  insert_sorted x (y ∷ ys) = if less y x then y ∷ insert_sorted x ys else x ∷ y ∷ ys

  unfoldable pub sort_by : List A → List A
  unfolding insert_sorted
  sort_by [] = []
  sort_by (x ∷ xs) = insert_sorted x (sort_by xs)

  -- No member comes right before one that is less.
  abbrev pub IsSorted : List A → Type 0
  IsSorted [] = Unit
  IsSorted (x ∷ []) = Unit
  IsSorted (x ∷ (y ∷ ys)) = (less y x ≡ false) × IsSorted (y ∷ ys)

  insert_sorted-perm : (x : A) (ys : List A) → Perm (insert_sorted x ys) (x ∷ ys)
  unfolding insert_sorted
  insert_sorted-perm x [] = Perm.refl _
  insert_sorted-perm x (y ∷ ys) = elim (Bool-cases (less y x)) [
    | inl later ↦ rw later (Perm.trans (Perm.cons y (insert_sorted-perm x ys)) (Perm.swap x y ys))
    | inr first ↦ rw first (Perm.refl _)
  ]

  pub sort_by-perm : (xs : List A) → Perm (sort_by xs) xs
  unfolding sort_by
  sort_by-perm [] = Perm.refl _
  sort_by-perm (x ∷ xs) =
      Perm.trans (insert_sorted-perm x (sort_by xs)) (Perm.cons x (sort_by-perm xs))

  insert_sorted-All :
      (P : A → Type 0) (x : A) (ys : List A) → P x → All P ys → All P (insert_sorted x ys)
  unfolding insert_sorted
  insert_sorted-All P x [] p h = (p, tt)
  insert_sorted-All P x (y ∷ ys) p (q, h) = ground (arith, insert_sorted-All P x ys p h)

  pub sort_by-All : (P : A → Type 0) (xs : List A) → All P xs → All P (sort_by xs)
  unfolding sort_by
  sort_by-All P [] h = tt
  sort_by-All P (x ∷ xs) (p, h) = insert_sorted-All P x (sort_by xs) p (sort_by-All P xs h)

  insert_sorted-has : (P : A → Type 0) (x : A) (ys : List A) → P x → Some P (insert_sorted x ys)
  unfolding insert_sorted
  insert_sorted-has P x [] p = inl p
  insert_sorted-has P x (y ∷ ys) p = elim (Bool-cases (less y x)) [
    | inl later ↦ rw later (inr (insert_sorted-has P x ys p))
    | inr first ↦ rw first (inl p)
  ]

  insert_sorted-Some :
      (P : A → Type 0) (x : A) (ys : List A) → Some P ys → Some P (insert_sorted x ys)
  unfolding insert_sorted
  insert_sorted-Some P x [] h = absurd h
  insert_sorted-Some P x (y ∷ ys) (inl p) = elim (Bool-cases (less y x)) [
    | inl later ↦ rw later (inl p)
    | inr first ↦ rw first (inr (inl p))
  ]
  insert_sorted-Some P x (y ∷ ys) (inr h) = elim (Bool-cases (less y x)) [
    | inl later ↦ rw later (inr (insert_sorted-Some P x ys h))
    | inr first ↦ rw first (inr (inr h))
  ]

  pub sort_by-Some : (P : A → Type 0) (xs : List A) → Some P xs → Some P (sort_by xs)
  unfolding sort_by
  sort_by-Some P [] h = absurd h
  sort_by-Some P (x ∷ xs) (inl p) = insert_sorted-has P x (sort_by xs) p
  sort_by-Some P (x ∷ xs) (inr h) = insert_sorted-Some P x (sort_by xs) (sort_by-Some P xs h)

  module _ (asym : (a b : A) → less a b ≡ true → less b a ≡ false) where
    insert_sorted-IsSorted : (x : A) (ys : List A) → IsSorted ys → IsSorted (insert_sorted x ys)
    unfolding insert_sorted
    insert_sorted-IsSorted x [] h = tt
    insert_sorted-IsSorted x (y ∷ []) h = ground (arith, asym y x)
    insert_sorted-IsSorted x (y ∷ (z ∷ zs)) h =
        ground (arith, asym y x, asym z x, insert_sorted-IsSorted x (z ∷ zs) h.1)

    pub sort_by-IsSorted : (xs : List A) → IsSorted (sort_by xs)
    unfolding sort_by
    sort_by-IsSorted [] = tt
    sort_by-IsSorted (x ∷ xs) = insert_sorted-IsSorted x (sort_by xs) (sort_by-IsSorted xs)

    module _ (chain : (a b c : A) → less b a ≡ false → less c b ≡ false → less c a ≡ false) where
      IsSorted-first : (x : A) (ys : List A) → IsSorted (x ∷ ys) → All (λ y. less y x ≡ false) ys
      IsSorted-first x [] h = tt
      IsSorted-first x (y ∷ ys) (e, h) =
          (e, All-mono (λ z f. chain x y z e f) ys (IsSorted-first y ys h))

      IsSorted-tail : (x : A) (ys : List A) → IsSorted (x ∷ ys) → IsSorted ys
      IsSorted-tail x [] h = tt
      IsSorted-tail x (y ∷ ys) (e, h) = h

      -- The first member that passes a test has none before it in the order that passes too.
      pub find-sorted :
          (p : A → Bool) (xs : List A) (x : A)
          → ((a : A) → less a a ≡ false)
          → IsSorted xs
          → find p xs ≡ some x
          → (p x ≡ true) × All (λ y. p y ≡ true → less y x ≡ false) xs
      find-sorted p [] x irr h e = cc
      find-sorted p (y ∷ ys) x irr h e = elim (Bool-cases (p y)) [
        | inl hit ↦
            subst (λ w. (p w ≡ true) × All (λ z. p z ≡ true → less z w ≡ false) (y ∷ ys))
              (some_inj (rw hit at e))
              (hit, ((λ _. irr y), All-mono (λ z f _. f) ys (IsSorted-first y ys h)))
        | inr miss ↦
            let (good, rest) = find-sorted p ys x irr (IsSorted-tail y ys h) (rw miss at e) in
            (good, ((λ t. cc), rest))
      ]
