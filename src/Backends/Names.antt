-- ===== src/Backends/Names.antt =====
-- Which directory names parseDirName takes for a build.
use llama_chip.Base.{
  All, Bool-cases, Option-cases, Text, [], ap, ap₂, arith, cut_prefix, inl, inr, none, refl, some,
  some_inj, subst, true, ℕ, ◌++◌, ◌==◌, ◌↔◌, ◌∙◌, ◌∷◌, ◌≡◌, ◌≢◌,
}
use llama_chip.Backends.Versions.{looks_like_version}
use llama_chip.Backends.Disk.{cut_last, dir_prefix, parse_dir_name, variant_of}

cut_prefix_iff : (p s r : Text) → (cut_prefix p s ≡ some r) ↔ (s ≡ p ++ r)
unfolding cut_prefix
cut_prefix_iff [] s r = (λ e. some_inj e, λ e. ap some e)
cut_prefix_iff (p ∷ ps) [] r = (λ e. cc, λ e. cc)
cut_prefix_iff (p ∷ ps) (c ∷ s) r = elim (Bool-cases (p == c)) [
  | inl hit ↦ (
    (λ e. ap₂ ◌∷◌ (let q : c ≡ p = ground arith in q) ((cut_prefix_iff ps s r).0 (rw hit at e))),
    (λ e. rw hit ((cut_prefix_iff ps s r).1 cc)),
  )
  | inr miss ↦
      ((λ e. let bad = rw miss at e in cc), (λ e. let q : c ≡ p = cc in absurd (ground arith)))
]

abbrev pub FreeOf : ℕ → Text → Type 0
FreeOf c s = All (λ x. x ≢ c) s

cut_last-none : (c : ℕ) (s : Text) → FreeOf c s → cut_last c s ≡ none
unfolding cut_last
cut_last-none c [] h = refl
cut_last-none c (x ∷ s) (n, h) = rw (cut_last-none c s h) (ground arith)

cut_last-append : (c : ℕ) (a b : Text) → FreeOf c b → cut_last c (a ++ c ∷ b) ≡ some (a, b)
unfolding cut_last
cut_last-append c [] b h = rw (cut_last-none c b h) (ground arith)
cut_last-append c (x ∷ a) b h = rw (cut_last-append c a b h) refl

pub cut_last-free : (c : ℕ) (s : Text) → cut_last c s ≡ none → FreeOf c s
unfolding cut_last
cut_last-free c [] e = tt
cut_last-free c (x ∷ s) e = elim (Option-cases (cut_last c s)) [
  | inr (ab, later) ↦ let bad = rw later at e in cc
  | inl absent ↦ elim (Bool-cases (x == c)) [
    | inl hit ↦ let bad = rw (absent, hit) at e in cc
    | inr miss ↦ ((λ q. ground arith), cut_last-free c s absent)
  ]
]

pub cut_last_sound :
    (c : ℕ) (s a b : Text) → cut_last c s ≡ some (a, b) → (s ≡ a ++ c ∷ b) × FreeOf c b
unfolding cut_last
cut_last_sound c [] a b e = cc
cut_last_sound c (x ∷ s) a b e = elim (Option-cases (cut_last c s)) [
  | inr ((a', b'), later) ↦
      let made = some_inj (rw later at e) in
      let (whole, free) = cut_last_sound c s a' b' later in
      let front : x ∷ a' ≡ a = ap (λ z. z.0) made in
      let back : b' ≡ b = ap (λ z. z.1) made in
      (ap (◌∷◌ x) whole ∙ ap₂ (λ f r. f ++ c ∷ r) front back, subst (FreeOf c) back free)
  | inl absent ↦ elim (Bool-cases (x == c)) [
    | inl hit ↦
        let made = some_inj (rw (absent, hit) at e) in
        let front : [] ≡ a = ap (λ z. z.0) made in
        let back : s ≡ b = ap (λ z. z.1) made in
        let here_is : x ≡ c = ground arith in
        (
          ap (λ y. y ∷ s) here_is ∙ ap₂ (λ f r. f ++ c ∷ r) front back,
          subst (FreeOf c) back (cut_last-free c s absent),
        )
    | inr miss ↦ let bad = rw (absent, miss) at e in cc
  ]
]

-- The parts of a name: the tag before the last dash, and a version behind it.
abbrev pub IsBuildName : Text → Text → Text → Text → Type 0
IsBuildName goos name variant ver =
    (tag : Text) × (name ≡ dir_prefix goos ++ (tag ++ b'-' ∷ ver))
    × FreeOf b'-' ver
    × (looks_like_version ver ≡ true)
    × (variant_of tag ≡ variant)

-- parseDirName takes exactly the names that are the prefix for the system, a tag, a dash and a
-- version without a dash, and gives the variant that the tag names and the version.
pub parse_dir_name_iff :
    (goos name variant ver : Text)
    → (parse_dir_name goos name ≡ some (variant, ver)) ↔ IsBuildName goos name variant ver
unfolding parse_dir_name
parse_dir_name_iff goos name variant ver = (
  (λ e. elim (Option-cases (cut_prefix (dir_prefix goos) name)) [
    | inl other ↦ let bad = rw (other, parse_dir_name) at e in cc
    | inr (rest, cut) ↦ elim (Option-cases (cut_last b'-' rest)) [
      | inl whole ↦ let bad = rw (cut, whole, parse_dir_name) at e in cc
      | inr ((tag, v), parts) ↦ elim (Bool-cases (looks_like_version v)) [
        | inr odd ↦ let bad = rw (cut, parts, odd, parse_dir_name) at e in cc
        | inl fine ↦
            let made = some_inj (rw (cut, parts, fine, parse_dir_name) at e) in
            let (split, free) = cut_last_sound b'-' rest tag v parts in
            let same_ver : v ≡ ver = ap (λ z. z.1) made in
            (
              tag,
              (cut_prefix_iff (dir_prefix goos) name rest).0 cut
                  ∙ ap (λ r. dir_prefix goos ++ r) split
                  ∙ ap (λ x. dir_prefix goos ++ (tag ++ b'-' ∷ x)) same_ver,
              subst (FreeOf b'-') same_ver free,
              subst (λ x. looks_like_version x ≡ true) same_ver fine,
              ap (λ z. z.0) made,
            )
      ]
    ]
  ]),
  (λ (tag, whole, free, fine, kind).
      let cut = (cut_prefix_iff (dir_prefix goos) name (tag ++ b'-' ∷ ver)).1 whole in
      let parts = cut_last-append b'-' tag ver free in rw (cut, parts, fine, kind) refl),
)
