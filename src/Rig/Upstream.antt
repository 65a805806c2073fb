-- ===== src/Rig/Upstream.antt =====
-- What the polls of an external upstream write.
use llama_chip.Base.{
  All, Bool-cases, List, Option, Text, [], inl, inr, none, refl, some, subst, true, ℕ, ◌++◌, ◌∷◌,
  ◌≡◌,
}
use llama_chip.Rig.Defs.{Instance, State, crashed, healthy, starting, stopped}
use llama_chip.Rig.Calls.{set}
use llama_chip.Rig.Supervise.{Poll, reason, same_state, verdict, watch}

same_state-eq : (a : State) (o : Option State) → same_state a o ≡ true → o ≡ some a
same_state-eq starting none h = cc
same_state-eq healthy none h = cc
same_state-eq crashed none h = cc
same_state-eq stopped none h = cc
same_state-eq starting (some starting) h = refl
same_state-eq starting (some healthy) h = cc
same_state-eq starting (some crashed) h = cc
same_state-eq starting (some stopped) h = cc
same_state-eq healthy (some starting) h = cc
same_state-eq healthy (some healthy) h = refl
same_state-eq healthy (some crashed) h = cc
same_state-eq healthy (some stopped) h = cc
same_state-eq crashed (some starting) h = cc
same_state-eq crashed (some healthy) h = cc
same_state-eq crashed (some crashed) h = refl
same_state-eq crashed (some stopped) h = cc
same_state-eq stopped (some starting) h = cc
same_state-eq stopped (some healthy) h = cc
same_state-eq stopped (some crashed) h = cc
same_state-eq stopped (some stopped) h = refl

same_state_refl : (a : State) → same_state a (some a) ≡ true
same_state_refl starting = refl
same_state_refl healthy = refl
same_state_refl crashed = refl
same_state_refl stopped = refl

abbrev Agrees : Instance → Option State → Type 0
Agrees i none = Unit
Agrees i (some st) = i.state ≡ st

watch-state :
    (itoa : ℕ → Text) (i : Instance) (last : Option State) (ps : List Poll) (p : Poll)
    → Agrees i last
    → (watch itoa i last (ps ++ p ∷ [])).state ≡ verdict p
unfolding watch
watch-state itoa i last [] p h = elim (Bool-cases (same_state (verdict p) last)) [
  | inl known ↦ rw known (subst (Agrees i) (same_state-eq (verdict p) last known) h)
  | inr fresh ↦ rw fresh refl
]
watch-state itoa i last (q ∷ ps) p h = elim (Bool-cases (same_state (verdict q) last)) [
  | inl known ↦ rw known (watch-state itoa i last ps p h)
  | inr fresh ↦
      rw fresh (watch-state itoa (set i (verdict q) (reason itoa q)) (some (verdict q)) ps p refl)
]

watch-quiet :
    (itoa : ℕ → Text) (i : Instance) (st : State) (ps : List Poll)
    → All (λ p. verdict p ≡ st) ps
    → watch itoa i (some st) ps ≡ i
unfolding watch
watch-quiet itoa i st [] h = refl
watch-quiet itoa i st (p ∷ ps) (e, h) = rw (e, same_state_refl st) (watch-quiet itoa i st ps h)

-- The state of an external slot after any polls is what the last of them says; but behind a first
-- failure, further failures write nothing, so that the reason shown stays that of the first.
pub watch-Mirrors :
    (itoa : ℕ → Text) (i : Instance) (ps : List Poll) (p : Poll)
    → ((watch itoa i none (ps ++ p ∷ [])).state ≡ verdict p)
      × (verdict p ≡ crashed
          → All (λ q. verdict q ≡ crashed) ps
          → watch itoa i none (p ∷ ps) ≡ set i crashed (reason itoa p))
unfolding watch
watch-Mirrors itoa i ps p = (
  watch-state itoa i none ps p tt,
  (λ bad worse. rw bad (watch-quiet itoa (set i crashed (reason itoa p)) crashed ps worse)),
)
