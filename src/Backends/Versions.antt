-- ===== src/Backends/Versions.antt =====
-- cmpVersion and looksLikeVersion of internal/backends/backends.go, and the numbers they read.
use Prim.Native.Nat.{Ordering}
use llama_chip.Base.{
  Bool, List, Option, Text, [], arith, false, if◌then◌else◌, is_empty, leb, ltb, map, none, refl,
  some, suc, true, zero, ℕ, ◌&&◌, ◌*◌, ◌+◌, ◌-◌, ◌==◌, ◌^◌, ◌∷◌, ◌≡◌,
}

pub data ℤ : Type 0 where
  pos negsuc : ℕ → ℤ

unfoldable pub int_lt : ℤ → ℤ → Bool
int_lt (pos a) (pos b) = ltb a b
int_lt (pos a) (negsuc b) = false
int_lt (negsuc a) (pos b) = true
int_lt (negsuc a) (negsuc b) = ltb b a

-- The number of a text of digits, and none if another character is there.
unfoldable pub digits_value : ℕ → Text → Option ℕ
digits_value acc [] = some acc
digits_value acc (c ∷ s) =
    let rest = digits_value (acc * 10 + (c - b'0')) s in
    if leb b'0' c && leb c b'9' then rest else none

-- strconv.Atoi of 64 bits: the value, and whether there was no error. A number that is too large
-- gives the largest of its sign, another text 0.
abbrev signed_value : Bool → Option ℕ → ℤ × Bool
signed_value minus none = (pos 0, false)
signed_value false (some n) = if ltb n (2 ^ 63) then (pos n, true) else (pos (2 ^ 63 - 1), false)
signed_value true (some zero) = (pos 0, true)
signed_value true (some (suc n)) =
    if ltb n (2 ^ 63) then (negsuc n, true) else (negsuc (2 ^ 63 - 1), false)

abbrev magnitude : Text → Option ℕ
magnitude s = if is_empty s then none else digits_value 0 s

unfoldable pub atoi : Text → ℤ × Bool
unfolding digits_value
atoi [] = (pos 0, false)
atoi (c ∷ s) =
    if c == b'-'
    then signed_value true (magnitude s)
    else (if c == b'+'
        then signed_value false (magnitude s)
        else signed_value false (magnitude (c ∷ s)))

-- strings.Split at one character: there is always a first piece.
abbrev add_to_first : ℕ → List Text → List Text
add_to_first c [] = (c ∷ []) ∷ []
add_to_first c (p ∷ ps) = (c ∷ p) ∷ ps

unfoldable pub split_at : ℕ → Text → List Text
split_at d [] = [] ∷ []
split_at d (c ∷ s) = let rest = split_at d s in if c == d then [] ∷ rest else add_to_first c rest

abbrev pub all {ℓ} : {A : Type ℓ} → (A → Bool) → List A → Bool
all p [] = true
all p (x ∷ xs) = p x && all p xs

unfoldable pub looks_like_version : Text → Bool
unfolding atoi split_at
looks_like_version s = if is_empty s then false else all (λ p. (atoi p).1) (split_at b'.' s)

abbrev pub numbers : Text → List ℤ
numbers v = map (λ p. (atoi p).0) (split_at b'.' v)

-- One round of the loop, and what the later rounds give.
abbrev pub compare_step : ℤ → ℤ → Ordering → Ordering
compare_step x y later =
    if int_lt y x then Ordering.gt else (if int_lt x y then Ordering.lt else later)

-- A version that is shorter goes on with zeros.
unfoldable pub compare_numbers : List ℤ → List ℤ → Ordering
unfolding int_lt
compare_numbers [] [] = Ordering.eq
compare_numbers (x ∷ xs) [] = compare_step x (pos 0) (compare_numbers xs [])
compare_numbers [] (y ∷ ys) = compare_step (pos 0) y (compare_numbers [] ys)
compare_numbers (x ∷ xs) (y ∷ ys) = compare_step x y (compare_numbers xs ys)

unfoldable pub cmp_version : Text → Text → Ordering
unfolding compare_numbers atoi split_at
cmp_version a b = compare_numbers (numbers a) (numbers b)

abbrev pub is_gt : Ordering → Bool
is_gt Ordering.gt = true
is_gt _ = false

-- cmpVersion(a, b) > 0.
unfoldable pub newer : Text → Text → Bool
unfolding cmp_version
newer a b = is_gt (cmp_version a b)

pub int_lt-asym : (x y : ℤ) → int_lt x y ≡ true → int_lt y x ≡ false
unfolding int_lt
int_lt-asym (pos a) (pos b) e = ground arith
int_lt-asym (pos a) (negsuc b) e = cc
int_lt-asym (negsuc a) (pos b) e = refl
int_lt-asym (negsuc a) (negsuc b) e = ground arith

pub int_lt_irrefl : (x : ℤ) → int_lt x x ≡ false
unfolding int_lt
int_lt_irrefl (pos a) = ground arith
int_lt_irrefl (negsuc a) = ground arith

-- What is not greater is so along a chain.
pub int_le_trans : (x y z : ℤ) → int_lt y x ≡ false → int_lt z y ≡ false → int_lt z x ≡ false
unfolding int_lt
int_le_trans (pos x) (pos y) (pos z) e f = ground arith
int_le_trans (pos x) (pos y) (negsuc z) e f = ground arith
int_le_trans (pos x) (negsuc y) (pos z) e f = ground arith
int_le_trans (pos x) (negsuc y) (negsuc z) e f = ground arith
int_le_trans (negsuc x) (pos y) (pos z) e f = ground arith
int_le_trans (negsuc x) (pos y) (negsuc z) e f = ground arith
int_le_trans (negsuc x) (negsuc y) (pos z) e f = ground arith
int_le_trans (negsuc x) (negsuc y) (negsuc z) e f = ground arith

step_trans :
    (x y z : ℤ) (p q r : Ordering)
    → (is_gt p ≡ false → is_gt q ≡ false → is_gt r ≡ false)
    → is_gt (compare_step x y p) ≡ false
    → is_gt (compare_step y z q) ≡ false
    → is_gt (compare_step x z r) ≡ false
step_trans x y z p q r h e f =
    ground (arith, int_le_trans x y z, int_le_trans y z x, int_le_trans z x y)

step-asym :
    (x y : ℤ) (p q : Ordering)
    → (is_gt p ≡ true → is_gt q ≡ false)
    → is_gt (compare_step x y p) ≡ true
    → is_gt (compare_step y x q) ≡ false
step-asym x y p q h e = ground (arith, int_lt-asym x y, int_lt-asym y x)

compare_numbers-asym :
    (xs ys : List ℤ) → is_gt (compare_numbers xs ys) ≡ true → is_gt (compare_numbers ys xs) ≡ false
unfolding compare_numbers
compare_numbers-asym [] [] e = cc
compare_numbers-asym (x ∷ xs) [] e = step-asym x (pos 0) _ _ (compare_numbers-asym xs []) e
compare_numbers-asym [] (y ∷ ys) e = step-asym (pos 0) y _ _ (compare_numbers-asym [] ys) e
compare_numbers-asym (x ∷ xs) (y ∷ ys) e = step-asym x y _ _ (compare_numbers-asym xs ys) e

compare_numbers_trans :
    (xs ys zs : List ℤ)
    → is_gt (compare_numbers xs ys) ≡ false
    → is_gt (compare_numbers ys zs) ≡ false
    → is_gt (compare_numbers xs zs) ≡ false
unfolding compare_numbers
compare_numbers_trans [] [] [] e f = refl
compare_numbers_trans (x ∷ xs) [] [] e f =
    step_trans x (pos 0) (pos 0) _ Ordering.eq _ (λ g _. g) e refl
compare_numbers_trans [] (y ∷ ys) [] e f =
    step_trans (pos 0) y (pos 0) _ _ Ordering.eq (λ _ _. refl) e f
compare_numbers_trans [] [] (z ∷ zs) e f = f
compare_numbers_trans (x ∷ xs) (y ∷ ys) [] e f =
    step_trans x y (pos 0) _ _ _ (compare_numbers_trans xs ys []) e f
compare_numbers_trans (x ∷ xs) [] (z ∷ zs) e f =
    step_trans x (pos 0) z _ _ _ (compare_numbers_trans xs [] zs) e f
compare_numbers_trans [] (y ∷ ys) (z ∷ zs) e f =
    step_trans (pos 0) y z _ _ _ (compare_numbers_trans [] ys zs) e f
compare_numbers_trans (x ∷ xs) (y ∷ ys) (z ∷ zs) e f =
    step_trans x y z _ _ _ (compare_numbers_trans xs ys zs) e f

pub newer-asym : (a b : Text) → newer a b ≡ true → newer b a ≡ false
unfolding newer cmp_version
newer-asym a b e = compare_numbers-asym (numbers a) (numbers b) e

-- Among versions, one that is not newer than a second, which is not newer than a third, is not
-- newer than the third.
pub newer_trans : (a b c : Text) → newer a b ≡ false → newer b c ≡ false → newer a c ≡ false
unfolding newer cmp_version
newer_trans a b c e f = compare_numbers_trans (numbers a) (numbers b) (numbers c) e f
