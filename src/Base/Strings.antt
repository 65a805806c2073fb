-- ===== src/Base/Strings.antt =====
-- The functions of Go's package strings that the program calls, over texts as lists of code
-- points. Letter case is that of ASCII; any other code point is its own lower case.
use Prim.Native.Nat.{ℕ, ◌+◌}
use Prim.Native.Char.{code}
use Prim.Native.String.{String}
use mathlib.Core.Path.{◌≡◌, refl, ap, ap₂, sym, subst, ◌∙◌}
use mathlib.Core.Logic.{◌↔◌, ◌≢◌}
use mathlib.Core.Bool.{Bool, true, false, ◌&&◌, ◌||◌}
use mathlib.Core.List.{List, [], ◌∷◌, ◌++◌, map, reverse, reverse-append, reverse-reverse}
use mathlib.Core.Option.{Option, none, some}
use native.Mathlib.Omega.{arith}
use llama_chip.Base.Tests.{leb, ltb, ◌==◌, if◌then◌else◌, ==_iff, and_left, and_right}
use llama_chip.Base.Lists.{is_empty}

abbrev pub Text : Type 0
Text = List ℕ

-- A literal. `String` has its own `[]` and `∷`.
abbrev pub codes : String → Text
codes String.[] = []
codes (String.◌∷◌ c s) = code c ∷ codes s

unfoldable pub same : Text → Text → Bool
same [] [] = true
same (a ∷ s) (b ∷ t) = a == b && same s t
same [] (b ∷ t) = false
same (a ∷ s) [] = false

pub same→eq : (s t : Text) → same s t ≡ true → s ≡ t
unfolding same
same→eq [] [] h = refl
same→eq (a ∷ s) (b ∷ t) h =
    ap₂ ◌∷◌ ((==_iff a b).0 (and_left _ _ h)) (same→eq s t (and_right (a == b) _ h))
same→eq [] (b ∷ t) h = cc
same→eq (a ∷ s) [] h = cc

pub same_refl : (s : Text) → same s s ≡ true
unfolding same
same_refl [] = refl
same_refl (a ∷ s) = ground (arith, same_refl s)

pub same_iff : (s t : Text) → (same s t ≡ true) ↔ (s ≡ t)
same_iff s t = (same→eq s t, λ e. subst_same e)
  where
    subst_same : s ≡ t → same s t ≡ true
    subst_same e = rw (← e) (same_refl s)

unfoldable pub lower_code : ℕ → ℕ
lower_code c = if leb b'A' c && leb c b'Z' then c + 32 else c

unfoldable pub lower : Text → Text
unfolding lower_code
lower = map lower_code

pub lower_code_idem : (c : ℕ) → lower_code (lower_code c) ≡ lower_code c
unfolding lower_code
lower_code_idem c = ground arith

pub lower_idem : (s : Text) → lower (lower s) ≡ lower s
unfolding lower
lower_idem [] = refl
lower_idem (c ∷ s) = ap₂ ◌∷◌ (lower_code_idem c) (lower_idem s)

unfoldable pub equal_fold : Text → Text → Bool
unfolding same lower
equal_fold s t = same (lower s) (lower t)

pub equal_fold_iff : (s t : Text) → (equal_fold s t ≡ true) ↔ (lower s ≡ lower t)
unfolding equal_fold
equal_fold_iff s t = same_iff (lower s) (lower t)

abbrev pub is_space : ℕ → Bool
is_space c = (leb 9 c && leb c 13) || c == 32 || c == 0x85 || c == 0xA0

abbrev pub drop_while : (ℕ → Bool) → Text → Text
drop_while p [] = []
drop_while p (c ∷ s) = if p c then drop_while p s else c ∷ s

unfoldable pub trim_space : Text → Text
trim_space s = reverse (drop_while is_space (reverse (drop_while is_space s)))

drop_while_idem : (p : ℕ → Bool) (s : Text) → drop_while p (drop_while p s) ≡ drop_while p s
drop_while_idem p [] = refl
drop_while_idem p (c ∷ s) = ground (arith, drop_while_idem p s)

-- What was dropped, in front of what is left.
dropped : (ℕ → Bool) → Text → Text
dropped p [] = []
dropped p (c ∷ s) = if p c then c ∷ dropped p s else []

dropped-append : (p : ℕ → Bool) (s : Text) → dropped p s ++ drop_while p s ≡ s
unfolding dropped
dropped-append p [] = refl
dropped-append p (c ∷ s) = ground (arith, dropped-append p s)

abbrev StartsWithNot : (ℕ → Bool) → Text → Type 0
StartsWithNot p [] = Unit
StartsWithNot p (c ∷ s) = p c ≡ false

drop_while-start : (p : ℕ → Bool) (s : Text) → StartsWithNot p (drop_while p s)
drop_while-start p [] = tt
drop_while-start p (c ∷ s) = ground (arith, drop_while-start p s)

drop_while_of_start : (p : ℕ → Bool) (s : Text) → StartsWithNot p s → drop_while p s ≡ s
drop_while_of_start p [] h = refl
drop_while_of_start p (c ∷ s) h = rw h refl

start-prefix : (p : ℕ → Bool) (s t : Text) → StartsWithNot p (s ++ t) → StartsWithNot p s
start-prefix p [] t h = tt
start-prefix p (c ∷ s) t h = h

pub trim_space_idem : (s : Text) → trim_space (trim_space s) ≡ trim_space s
unfolding trim_space
trim_space_idem s =
    let x = drop_while is_space s in
    let y = drop_while is_space (reverse x) in
    let whole : reverse y ++ reverse (dropped is_space (reverse x)) ≡ x =
      sym (reverse-append (dropped is_space (reverse x)) y)
      ∙ ap reverse (dropped-append is_space (reverse x))
      ∙ reverse-reverse x in
    let front : drop_while is_space (reverse y) ≡ reverse y =
      drop_while_of_start is_space (reverse y) (
        start-prefix is_space (reverse y) (reverse (dropped is_space (reverse x)))
          (subst (StartsWithNot is_space) (sym whole) (drop_while-start is_space s))) in
    rw (front, reverse-reverse y, drop_while_idem is_space (reverse x)) refl

-- TrimRight with a cutset of one character.
unfoldable pub trim_right : ℕ → Text → Text
trim_right c s = reverse (drop_while (λ d. d == c) (reverse s))

unfoldable pub cut_prefix : Text → Text → Option Text
cut_prefix [] s = some s
cut_prefix (p ∷ ps) [] = none
cut_prefix (p ∷ ps) (c ∷ s) = if p == c then cut_prefix ps s else none

abbrev pub is_some {ℓ} : {A : Type ℓ} → Option A → Bool
is_some none = false
is_some (some a) = true

unfoldable pub has_prefix : Text → Text → Bool
unfolding cut_prefix
has_prefix p s = is_some (cut_prefix p s)

abbrev pub or_self : Text → Option Text → Text
or_self s none = s
or_self s (some t) = t

unfoldable pub trim_prefix : Text → Text → Text
unfolding cut_prefix
trim_prefix p s = or_self s (cut_prefix p s)

unfoldable pub trim_suffix : Text → Text → Text
unfolding trim_prefix
trim_suffix p s = reverse (trim_prefix (reverse p) (reverse s))

-- Contains s p: the text p stands somewhere in s.
unfoldable pub contains : Text → Text → Bool
unfolding has_prefix
contains [] p = is_empty p
contains (c ∷ s) p = has_prefix p (c ∷ s) || contains s p

unfoldable pub has_suffix : Text → Text → Bool
unfolding has_prefix
has_suffix p s = has_prefix (reverse p) (reverse s)

abbrev shift : Option ℕ → Option ℕ
shift none = none
shift (some i) = some (i + 1)

-- Index: where the text p first stands in s.
unfoldable pub index : Text → Text → Option ℕ
unfolding has_prefix
index p [] = if is_empty p then some 0 else none
index p (c ∷ s) = if has_prefix p (c ∷ s) then some 0 else shift (index p s)

pub contains_nil : (s : Text) → contains s [] ≡ true
unfolding contains
contains_nil [] = refl
contains_nil (c ∷ s) = refl

pub has_prefix_refl : (s : Text) → has_prefix s s ≡ true
unfolding has_prefix
has_prefix_refl [] = refl
has_prefix_refl (c ∷ s) = ground (arith, has_prefix_refl s)

pub is_empty-false : (t : Text) → t ≢ [] → is_empty t ≡ false
is_empty-false [] h = absurd (h refl)
is_empty-false (c ∷ t) h = refl

pub ne-nil_of_is_empty : (t : Text) → is_empty t ≡ false → t ≢ []
ne-nil_of_is_empty t e = λ p. ground arith

pub ne_of_same : (s t : Text) → same s t ≡ false → s ≢ t
ne_of_same s t e p = let hit = (same_iff s t).1 p in cc

pub same-false : (s t : Text) → s ≢ t → same s t ≡ false
unfolding same
same-false s t ne = ground (arith, same_iff s t)

-- Go's < on strings.
unfoldable pub text_lt : Text → Text → Bool
text_lt [] [] = false
text_lt [] (b ∷ t) = true
text_lt (a ∷ s) [] = false
text_lt (a ∷ s) (b ∷ t) = let rest = text_lt s t in if a == b then rest else ltb a b
