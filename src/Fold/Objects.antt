-- ===== src/Fold/Objects.antt =====
-- Reading and writing the fields of one object, and what parseOrdered accepts.
use llama_chip.Base.{
  Bool-cases, List, Text, [], ap, arith, inl, inr, map, refl, same, same-false, same_iff, same_refl,
  some, sym, ◌∷◌, ◌≡◌, ◌≢◌,
}
use llama_chip.Fold.Defs.{Field, get, set}

module _ {Raw : Type 0} where
  pub get-set : (k : Text) (v : Raw) (m : List (Field Raw)) → get k (set k v m) ≡ some v
  unfolding get set
  get-set k v [] = rw (same_refl k) refl
  get-set k v (f ∷ fs) = ground (arith, get-set k v fs)

  -- A write leaves every other key as it was.
  pub get-set_other :
      (j k : Text) (v : Raw) (m : List (Field Raw)) → j ≢ k → get j (set k v m) ≡ get j m
  unfolding get set
  get-set_other j k v [] ne = rw (same-false k j (λ e. ne (sym e))) refl
  get-set_other j k v (f ∷ fs) ne =
      ground (arith, same_iff f.key k, same_iff f.key j, get-set_other j k v fs ne)

  -- A key that is there keeps its place.
  pub keys-set :
      (k : Text) (v w : Raw) (m : List (Field Raw))
      → get k m ≡ some w
      → map (λ f. f.key) (set k v m) ≡ map (λ f. f.key) m
  unfolding get set
  keys-set k v w [] e = cc
  keys-set k v w (f ∷ fs) e = elim (Bool-cases (same f.key k)) [
    | inl hit ↦ rw hit refl
    | inr miss ↦ rw miss (ap (◌∷◌ f.key) (keys-set k v w fs (rw miss at e)))
  ]
