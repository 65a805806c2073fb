-- ===== src/Fed/Resolve.antt =====
-- What Resolve finds.
use llama_chip.Base.{
  All, Bool, Bool-cases, List, Option-cases, Some, Text, [], ap, arith, contains, contains_nil,
  false, find, has_prefix_refl, inl, inr, is_some, lookup, lower, none, refl, same, same_iff, some,
  some_inj, sym, trim_space, true, ◌↔◌, ◌∙◌, ◌∷◌, ◌≡◌,
}
use llama_chip.Fed.Defs.{Fed, Route, enabled, resolve_in, resolve_remote, route_key}

pub find-none {ℓ} :
    {A : Type ℓ} (p : A → Bool) (xs : List A) → (find p xs ≡ none) ↔ All (λ x. p x ≡ false) xs
find-none p [] = (λ e. tt, λ h. refl)
find-none p (x ∷ xs) =
    let rest = find-none p xs in
    elim (Bool-cases (p x)) [
      | inl hit ↦ (λ e. ground arith, λ h. ground arith)
      | inr miss ↦ (λ e. (miss, rest.0 (rw miss at e)), λ h. rw miss (rest.1 h.1))
    ]

find-Some {ℓ} :
    {A : Type ℓ} {R : A → Type 0} (p : A → Bool) (xs : List A) (x : A)
    → find p xs ≡ some x
    → ((y : A) → x ≡ y → p y ≡ true → R y)
    → Some R xs
find-Some p [] x e f = cc
find-Some p (y ∷ xs) x e f = elim (Bool-cases (p y)) [
  | inl hit ↦ inl (f y (sym (some_inj (rw hit at e))) hit)
  | inr miss ↦ inr (find-Some p xs x (rw miss at e) f)
]

contains_refl : (s : Text) → contains s s ≡ true
unfolding contains
contains_refl [] = refl
contains_refl (c ∷ s) = rw (has_prefix_refl (c ∷ s)) refl

-- An entry whose key contains the handle.
abbrev pub IsMatch : Text → Route → Text × Route → Type 0
IsMatch k r e = (r ≡ e.1) × (contains e.0 k ≡ true)

lookup-IsMatch :
    (k : Text) (t : List (Text × Route)) (r : Route) → lookup k t ≡ some r → Some (IsMatch k r) t
unfolding lookup
lookup-IsMatch k [] r e = cc
lookup-IsMatch k ((j, v) ∷ t) r e = elim (Bool-cases (same j k)) [
  | inl hit ↦
      let p = (same_iff j k).0 hit in inl (sym (some_inj (rw hit at e)), rw p (contains_refl k))
  | inr miss ↦ inr (lookup-IsMatch k t r (rw miss at e))
]

resolve_in_sound :
    (t : List (Text × Route)) (k : Text) (r : Route)
    → resolve_in t k ≡ some r
    → Some (IsMatch k r) t
unfolding resolve_in
resolve_in_sound t k r e = elim (Option-cases (lookup k t)) [
  | inr (v, exact) ↦ lookup-IsMatch k t r (exact ∙ rw (exact, resolve_in) at e)
  | inl absent ↦ elim (Option-cases (find (λ x. contains x.0 k) t)) [
    | inl missing ↦ let bad = rw (absent, missing, resolve_in) at e in cc
    | inr (x, found) ↦
        let this = some_inj (rw (absent, found, resolve_in) at e) in
        find-Some (λ y. contains y.0 k) t x found (λ y p q. (sym this ∙ ap (λ z. z.1) p, q))
  ]
]

resolve_in-exact :
    (t : List (Text × Route)) (k : Text) (r : Route) → lookup k t ≡ some r → resolve_in t k ≡ some r
unfolding resolve_in
resolve_in-exact t k r e = rw (e, resolve_in) refl

resolve_in_unmatched :
    (t : List (Text × Route)) (k : Text)
    → resolve_in t k ≡ none
    → All (λ e. contains e.0 k ≡ false) t
unfolding resolve_in
resolve_in_unmatched t k e = elim (Option-cases (lookup k t)) [
  | inr (v, found) ↦ let bad = rw (found, resolve_in) at e in cc
  | inl absent ↦ elim (Option-cases (find (λ x. contains x.0 k) t)) [
    | inl missing ↦ (find-none _ t).0 missing
    | inr (x, found) ↦ let bad = rw (absent, found, resolve_in) at e in cc
  ]
]

-- A handle is resolved, for a node that federates, to an entry of the table whose key contains
-- it, to the one with exactly this key if there is one, and to none only if no key contains it.
pub resolve_remote-lem :
    (f : Fed) (model : Text)
    → enabled (some f) ≡ true
    → ((r : Route)
        → resolve_remote (some f) model ≡ some r
        → Some (IsMatch (route_key model) r) f.routes)
      × ((r : Route)
          → lookup (route_key model) f.routes ≡ some r
          → resolve_remote (some f) model ≡ some r)
      × (resolve_remote (some f) model ≡ none
          → All (λ e. contains e.0 (route_key model) ≡ false) f.routes)
unfolding resolve_remote
resolve_remote-lem f model on = (
  λ r e. resolve_in_sound f.routes (route_key model) r (rw (on, resolve_remote) at e),
  λ r e. rw (on, resolve_remote) (resolve_in-exact _ _ r e),
  λ e. resolve_in_unmatched _ _ (rw (on, resolve_remote) at e),
)

-- A handle of nothing but white space resolves to some route as soon as there is one.
pub resolve_remote_blank :
    (f : Fed) (model : Text) (e : Text × Route) (rest : List (Text × Route))
    → enabled (some f) ≡ true
    → trim_space model ≡ []
    → f.routes ≡ e ∷ rest
    → is_some (resolve_remote (some f) model) ≡ true
unfolding lower
resolve_remote_blank f model e rest on blank one =
    elim (Option-cases (resolve_remote (some f) model)) [
      | inr (r, found) ↦ rw found refl
      | inl lost ↦
          let (_, _, none_left) = resolve_remote-lem f model on in
          let (miss, _) = rw one at (none_left lost) in
          let any_key = rw blank at miss in let hit = contains_nil e.0 in cc
    ]

-- Whatever the configuration, a route that Resolve gives is one of the table.
pub resolve_remote_sound :
    (f : Fed) (model : Text) (r : Route)
    → resolve_remote (some f) model ≡ some r
    → Some (IsMatch (route_key model) r) f.routes
unfolding resolve_remote
resolve_remote_sound f model r e = elim (Bool-cases (enabled (some f))) [
  | inl on ↦ resolve_in_sound f.routes (route_key model) r (rw (on, resolve_remote) at e)
  | inr off ↦ let bad = rw (off, resolve_remote) at e in cc
]
