-- ===== src/Fed/Known.antt =====
-- Every model of a roster has a route.
use llama_chip.Base.{
  Bool-cases, List, Option, Some, Text, [], ap, false, inl, inr, is_empty, is_some, lookup, none,
  or_else, refl, same_refl, some, subst, sym, true, ℕ, ◌∙◌, ◌∷◌, ◌≡◌,
}
use llama_chip.Fed.Defs.{Fed, RosterEntry, apply_roster, base_url, is_skipped, route_key}
use llama_chip.Fed.Routes.{apply_roster-kept, kept_offers, lookup-append, offer, offers}

is_some-or_else : {V : Type 0} (a b : Option V) → is_some a ≡ true → is_some (or_else a b) ≡ true
is_some-or_else none b h = cc
is_some-or_else (some v) b h = refl

is_some-or_else_right :
    {V : Type 0} (a b : Option V) → is_some b ≡ true → is_some (or_else a b) ≡ true
is_some-or_else_right none b h = h
is_some-or_else_right (some v) b h = refl

offer-known :
    (peer url m : Text)
    → is_empty (route_key m) ≡ false
    → is_some (lookup (route_key m) (offer peer url m)) ≡ true
unfolding lookup
offer-known peer url m h = rw (h, same_refl (route_key m)) refl

offers-known :
    (peer url : Text) (ms : List Text) (m : Text)
    → is_empty (route_key m) ≡ false
    → Some (λ x. x ≡ m) ms
    → is_some (lookup (route_key m) (offers peer url ms)) ≡ true
offers-known peer url [] m h k = absurd k
offers-known peer url (x ∷ ms) m h (inl p) =
    rw (lookup-append (route_key m) (offer peer url x) (offers peer url ms)) (
      is_some-or_else (lookup (route_key m) (offer peer url x))
        (lookup (route_key m) (offers peer url ms))
        (subst (λ y. is_some (lookup (route_key m) (offer peer url y)) ≡ true) (sym p)
          (offer-known peer url m h)))
offers-known peer url (x ∷ ms) m h (inr k) =
    rw (lookup-append (route_key m) (offer peer url x) (offers peer url ms)) (
      is_some-or_else_right (lookup (route_key m) (offer peer url x))
        (lookup (route_key m) (offers peer url ms)) (offers-known peer url ms m h k))

kept_offers-known :
    (self : Text) (es : List RosterEntry) (e : RosterEntry) (m : Text)
    → is_empty (route_key m) ≡ false
    → is_skipped self e ≡ false
    → Some (λ x. x ≡ m) e.models
    → Some (λ x. x ≡ e) es
    → is_some (lookup (route_key m) (kept_offers self es)) ≡ true
kept_offers-known self [] e m h open_to has k = absurd k
kept_offers-known self (x ∷ es) e m h open_to has (inl p) =
    rw
      (
        p,
        open_to,
        lookup-append (route_key m) (offers e.name (base_url e.mesh_addr) e.models)
            (kept_offers self es),
      )
      (is_some-or_else _ _ (offers-known e.name (base_url e.mesh_addr) e.models m h has))
kept_offers-known self (x ∷ es) e m h open_to has (inr k) =
    let rest = kept_offers-known self es e m h open_to has k in
    elim (Bool-cases (is_skipped self x)) [
      | inl skip ↦ rw skip rest
      | inr keep ↦
          rw
            (
              keep,
              lookup-append (route_key m) (offers x.name (base_url x.mesh_addr) x.models)
                  (kept_offers self es),
            )
            (is_some-or_else_right _ _ rest)
    ]

-- A model of an entry that ApplyRoster does not skip has a route, if its key is not blank.
pub apply_roster-known :
    (now : ℕ) (f : Fed) (es : List RosterEntry) (self : Text) (e : RosterEntry) (m : Text)
    → is_empty (route_key m) ≡ false
    → is_skipped self e ≡ false
    → Some (λ x. x ≡ m) e.models
    → Some (λ x. x ≡ e) es
    → is_some (lookup (route_key m) (apply_roster now f es self).routes) ≡ true
apply_roster-known now f es self e m h open_to has k =
    ap is_some (apply_roster-kept now f es self (route_key m))
    ∙ kept_offers-known self es e m h open_to has k
