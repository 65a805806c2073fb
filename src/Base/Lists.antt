-- ===== src/Base/Lists.antt =====
-- Lists measured by the native numbers, and the predicate that holds of every member.
use Prim.Native.Nat.{ℕ, zero, suc, ◌+◌}
use mathlib.Core.Path.{sym, ap₂, ◌≡◌, refl, ap}
use mathlib.Core.Logic.{◌⊎◌, inl, inr, ◌≢◌}
use mathlib.Core.Bool.{Bool, true, false, ◌||◌}
use mathlib.Core.List.{List, [], ◌∷◌, ◌++◌, map}
use mathlib.Core.Option.{Option, none, some}
use native.Mathlib.Omega.{arith}
use llama_chip.Base.Tests.{if◌then◌else◌, Bool-cases}

module _ {ℓ} {A : Type ℓ} where
  abbrev pub length : List A → ℕ
  length [] = 0
  length (x ∷ xs) = suc (length xs)

  abbrev pub drop : ℕ → List A → List A
  drop zero xs = xs
  drop (suc n) [] = []
  drop (suc n) (x ∷ xs) = drop n xs

  abbrev pub take : ℕ → List A → List A
  take zero xs = []
  take (suc n) [] = []
  take (suc n) (x ∷ xs) = x ∷ take n xs

  abbrev pub is_empty : List A → Bool
  is_empty [] = true
  is_empty (x ∷ xs) = false

  -- The members that pass a Boolean test.
  abbrev pub select : (A → Bool) → List A → List A
  select p [] = []
  select p (x ∷ xs) = if p x then x ∷ select p xs else select p xs

  abbrev pub any : (A → Bool) → List A → Bool
  any p [] = false
  any p (x ∷ xs) = p x || any p xs

  abbrev pub find : (A → Bool) → List A → Option A
  find p [] = none
  find p (x ∷ xs) = if p x then some x else find p xs

  pub length-append : (xs ys : List A) → length (xs ++ ys) ≡ length xs + length ys
  length-append [] ys = omega arith
  length-append (x ∷ xs) ys = omega (arith, length-append xs ys)

module _ {ℓ κ} {A : Type ℓ} (P : A → Type κ) where
  abbrev pub All : List A → Type κ
  All [] = Unit
  All (x ∷ xs) = P x × All xs

  pub All-append : (xs ys : List A) → All xs → All ys → All (xs ++ ys)
  All-append [] ys _ k = k
  All-append (x ∷ xs) ys (p, h) k = (p, All-append xs ys h k)

  pub All-append_left : (xs ys : List A) → All (xs ++ ys) → All xs
  All-append_left [] ys h = tt
  All-append_left (x ∷ xs) ys (p, h) = (p, All-append_left xs ys h)

  pub All-append_right : (xs ys : List A) → All (xs ++ ys) → All ys
  All-append_right [] ys h = h
  All-append_right (x ∷ xs) ys (p, h) = All-append_right xs ys h

  pub All-select : (t : A → Bool) (xs : List A) → All xs → All (select t xs)
  All-select t [] h = tt
  All-select t (x ∷ xs) (p, h) = ground (arith, All-select t xs h)

module _ {ℓ κ ν} {A : Type ℓ} {P : A → Type κ} {Q : A → Type ν} where
  pub All-mono : ((x : A) → P x → Q x) → (xs : List A) → All P xs → All Q xs
  All-mono f [] h = tt
  All-mono f (x ∷ xs) (p, h) = (f x p, All-mono f xs h)

module _ {ℓ} {A : Type ℓ} where
  -- A place in the list at which `P` holds, as data.
  abbrev pub Some : (A → Type 0) → List A → Type 0
  Some P [] = ⊥
  Some P (x ∷ xs) = P x ⊎ Some P xs

  pub Some-elim :
      {P : A → Type 0} {C : Type 0} → ((x : A) → P x → C) → (xs : List A) → Some P xs → C
  Some-elim f [] h = absurd h
  Some-elim f (x ∷ xs) (inl p) = f x p
  Some-elim f (x ∷ xs) (inr h) = Some-elim f xs h

  pub Some-mono : {P Q : A → Type 0} → ((x : A) → P x → Q x) → (xs : List A) → Some P xs → Some Q xs
  Some-mono f [] h = h
  Some-mono f (x ∷ xs) (inl p) = inl (f x p)
  Some-mono f (x ∷ xs) (inr h) = inr (Some-mono f xs h)

  -- No member stands twice.
  abbrev pub Distinct : List A → Type ℓ
  Distinct [] = Unit
  Distinct (x ∷ xs) = All (λ y. x ≢ y) xs × Distinct xs

  pub All-ne-Some :
      {P : A → Type 0} {Q : A → Type 0}
      → ((x : A) → P x → Q x → ⊥)
      → (xs : List A) → All P xs
      → Some Q xs
      → ⊥
  All-ne-Some f [] h k = k
  All-ne-Some f (x ∷ xs) (p, h) (inl q) = f x p q
  All-ne-Some f (x ∷ xs) (p, h) (inr k) = All-ne-Some f xs h k

module _ {ℓ κ ν} {A : Type ℓ} (P : A → Type κ) (Q : A → Type ν) where
  pub All-both : (xs : List A) → All P xs → All Q xs → All (λ x. P x × Q x) xs
  All-both [] h k = tt
  All-both (x ∷ xs) (p, h) (q, k) = ((p, q), All-both xs h k)

module _ {ℓ} {A : Type ℓ} where
  pub Distinct-concat :
      (xs : List A) (x : A) → Distinct xs → All (λ y. x ≢ y) xs → Distinct (xs ++ x ∷ [])
  Distinct-concat [] x d h = (tt, tt)
  Distinct-concat (y ∷ xs) x (n, d) (p, h) =
      (All-append _ xs (x ∷ []) n ((λ e. p (sym e)), tt), Distinct-concat xs x d h)

  pub map-append_one {κ} :
      {B : Type κ} (f : A → B) (xs : List A) (x : A) → map f (xs ++ x ∷ []) ≡ map f xs ++ f x ∷ []
  map-append_one f [] x = refl
  map-append_one f (y ∷ xs) x = ap (◌∷◌ (f y)) (map-append_one f xs x)

  pub map-eq {κ} :
      {B : Type κ} (f g : A → B) (xs : List A) → All (λ x. f x ≡ g x) xs → map f xs ≡ map g xs
  map-eq f g [] h = refl
  map-eq f g (x ∷ xs) (e, h) = ap₂ ◌∷◌ e (map-eq f g xs h)

  pub All-map {κ ν} :
      {B : Type κ} (P : B → Type ν) (f : A → B) (xs : List A)
      → All (λ x. P (f x)) xs
      → All P (map f xs)
  All-map P f [] h = tt
  All-map P f (x ∷ xs) (p, h) = (p, All-map P f xs h)

  pub All-of_map {κ ν} :
      {B : Type κ} (P : B → Type ν) (f : A → B) (xs : List A)
      → All P (map f xs)
      → All (λ x. P (f x)) xs
  All-of_map P f [] h = tt
  All-of_map P f (x ∷ xs) (p, h) = (p, All-of_map P f xs h)

  pub length-map {κ} : {B : Type κ} (f : A → B) (xs : List A) → length (map f xs) ≡ length xs
  length-map f [] = refl
  length-map f (x ∷ xs) = ap suc (length-map f xs)

module _ {ℓ} {A : Type ℓ} where
  pub Distinct-select : (p : A → Bool) (xs : List A) → Distinct xs → Distinct (select p xs)
  Distinct-select p [] d = tt
  Distinct-select p (x ∷ xs) (n, d) =
      ground (arith, Distinct-select p xs d, All-select (λ y. x ≢ y) p xs n)

  pub Distinct-of_map {κ} :
      {B : Type κ} (f : A → B) (xs : List A) → Distinct (map f xs) → Distinct xs
  Distinct-of_map f [] d = tt
  Distinct-of_map f (x ∷ xs) (n, d) =
      (All-mono (λ y g e. g (ap f e)) xs (All-of_map (λ z. f x ≢ z) f xs n), Distinct-of_map f xs d)

  pub any→Some : (p : A → Bool) (xs : List A) → any p xs ≡ true → Some (λ x. p x ≡ true) xs
  any→Some p [] e = cc
  any→Some p (x ∷ xs) e = elim (Bool-cases (p x)) [
    | inl hit ↦ inl hit
    | inr miss ↦ inr (any→Some p xs (ground arith))
  ]

  pub Some→any : (p : A → Bool) (xs : List A) → Some (λ x. p x ≡ true) xs → any p xs ≡ true
  Some→any p [] h = absurd h
  Some→any p (x ∷ xs) (inl h) = rw h refl
  Some→any p (x ∷ xs) (inr h) = let rest = Some→any p xs h in ground arith

  pub Some-append_right : (P : A → Type 0) (xs ys : List A) → Some P ys → Some P (xs ++ ys)
  Some-append_right P [] ys h = h
  Some-append_right P (x ∷ xs) ys h = inr (Some-append_right P xs ys h)

  pub Some-append_left : (P : A → Type 0) (xs ys : List A) → Some P xs → Some P (xs ++ ys)
  Some-append_left P [] ys h = absurd h
  Some-append_left P (x ∷ xs) ys (inl p) = inl p
  Some-append_left P (x ∷ xs) ys (inr h) = inr (Some-append_left P xs ys h)

  -- A member put in between takes no place away.
  pub Some-between :
      (P : A → Type 0) (xs ys : List A) (y : A) → Some P (xs ++ ys) → Some P (xs ++ y ∷ ys)
  Some-between P [] ys y h = inr h
  Some-between P (x ∷ xs) ys y (inl p) = inl p
  Some-between P (x ∷ xs) ys y (inr h) = inr (Some-between P xs ys y h)
