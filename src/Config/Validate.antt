-- ===== src/Config/Validate.antt =====
-- `validate` of internal/config/config.go: which configurations it accepts.
use llama_chip.Base.{
  All, All-both, All-mono, Distinct, List, Text, [], any, arith, false, map, none, refl, same,
  same_iff, sym, ◌↔◌, ◌∷◌, ◌≡◌, ◌≢◌,
}
use llama_chip.Config.Defs.{Config, Slot, check_slot, key, validate, validate_from}

-- The upstream of an external slot has a name, and any other slot has a model.
pub record IsUsable (s : Slot) : Type 0 where
  pub named : s.external ≢ [] → s.alias ≢ []
  pub modelled : s.external ≡ [] → s.model ≢ []

-- The state of the loop: each slot left is usable, and its key is new.
abbrev pub Accepts : List Text → List Slot → Type 0
Accepts seen [] = Unit
Accepts seen (s ∷ ss) = IsUsable s × All (λ k. key s ≢ k) seen × Accepts (key s ∷ seen) ss

check_slot_iff : (s : Slot) → (check_slot s ≡ none) ↔ IsUsable s
unfolding check_slot
check_slot_iff s = (
  λ e. record { named = ground arith; modelled = ground arith },
  λ u. ground (arith, u.named, u.modelled),
)

any-same_iff : (k : Text) (seen : List Text) → (any (same k) seen ≡ false) ↔ All (λ j. k ≢ j) seen
any-same_iff k [] = (λ e. tt, λ h. refl)
any-same_iff k (j ∷ seen) = ground (arith, same_iff k j, any-same_iff k seen)

validate_from_iff :
    (seen : List Text) (ss : List Slot) → (validate_from seen ss ≡ none) ↔ Accepts seen ss
unfolding validate_from
validate_from_iff seen [] = (λ e. tt, λ h. refl)
validate_from_iff seen (s ∷ ss) =
    ground (arith, check_slot_iff s, any-same_iff (key s) seen, validate_from_iff (key s ∷ seen) ss)

-- Seen from the keys before, acceptance is distinctness of all keys.
abbrev IsFresh : List Text → List Slot → Type 0
IsFresh seen ss = All (λ k. All (λ j. k ≢ j) seen) (map key ss)

Accepts-sound :
    (seen : List Text) (ss : List Slot)
    → Accepts seen ss
    → All IsUsable ss × Distinct (map key ss) × IsFresh seen ss
Accepts-sound seen [] h = (tt, tt, tt)
Accepts-sound seen (s ∷ ss) (u, new, rest) =
    let (us, d, fresh) = Accepts-sound (key s ∷ seen) ss rest in
    ((u, us), (All-mono (λ k f e. f.0 (sym e)) _ fresh, d), (new, All-mono (λ k f. f.1) _ fresh))

Accepts-complete :
    (seen : List Text) (ss : List Slot)
    → All IsUsable ss
    → Distinct (map key ss)
    → IsFresh seen ss
    → Accepts seen ss
Accepts-complete seen [] us d fresh = tt
Accepts-complete seen (s ∷ ss) (u, us) (ne, d) (new, fresh) =
    let later = All-mono (λ k f (e : k ≡ key s). f (sym e)) (map key ss) ne in
    (
      u,
      new,
      Accepts-complete (key s ∷ seen) ss us d
          (All-both (λ k. k ≢ key s) (λ k. All (λ j. k ≢ j) seen) (map key ss) later fresh),
    )

no_keys : (ks : List Text) → All (λ k. All (λ j. k ≢ j) []) ks
no_keys [] = tt
no_keys (k ∷ ks) = (tt, no_keys ks)

-- `validate` returns no error exactly when every slot is usable (an external slot has an alias,
-- any other a model) and no two slots have names that differ in letter case only.
pub validate_iff :
    (c : Config) → (validate c ≡ none) ↔ (All IsUsable c.slots × Distinct (map key c.slots))
unfolding validate
validate_iff c = (to, from)
  where
    to : validate_from [] c.slots ≡ none → All IsUsable c.slots × Distinct (map key c.slots)
    to e = let (us, d, _) = Accepts-sound [] c.slots ((validate_from_iff [] c.slots).0 e) in (us, d)

    from : All IsUsable c.slots × Distinct (map key c.slots) → validate_from [] c.slots ≡ none
    from (us, d) =
        (validate_from_iff [] c.slots).1
          (Accepts-complete [] c.slots us d (no_keys (map key c.slots)))
