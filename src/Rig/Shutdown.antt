-- ===== src/Rig/Shutdown.antt =====
-- StopAll of internal/rig/rig.go.
use llama_chip.Base.{
  All, Bool-cases, List, [], ap, arith, false, inl, inr, map-eq, refl, sym, true, ℕ, ◌==◌, ◌∙◌, ◌∷◌,
  ◌≡◌, ◌≢◌,
}
use llama_chip.Config.{key}
use llama_chip.Rig.Calls.{halted, stop_all, stop_each}
use llama_chip.Rig.Defs.{Instance, Rig, stopped, update}
use llama_chip.Rig.Entries.{entries-eq}
use llama_chip.Rig.Registry.{All-always, IsWf, key_at, update-slot}

update_other : (h : ℕ → Instance) (i j : ℕ) (v : Instance) → i ≢ j → update h i v j ≡ h j
update_other h i j v ne = let miss : (i == j) ≡ false = ground arith in rw miss refl

-- What StopAll leaves at an address.
abbrev IsHalted : Instance → Type 0
IsHalted i = (i.stopping ≡ true) × (i.state ≡ stopped)

stop_each-stays :
    (ids : List ℕ) (h : ℕ → Instance) (j : ℕ) → IsHalted (h j) → IsHalted (stop_each ids h j)
unfolding stop_each
stop_each-stays [] h j e = e
stop_each-stays (i ∷ ids) h j e =
    stop_each-stays ids _ j
      (elim (Bool-cases (i == j)) [ inl hit ↦ rw hit (refl, refl) | inr miss ↦ rw miss e ])

stop_each-IsHalted : (ids : List ℕ) (h : ℕ → Instance) → All (λ i. IsHalted (stop_each ids h i)) ids
unfolding stop_each
stop_each-IsHalted [] h = tt
stop_each-IsHalted (i ∷ ids) h =
    let hit : (i == i) ≡ true = ground arith in
    (
      stop_each-stays ids (update h i (halted (h i))) i (rw hit (refl, refl)),
      stop_each-IsHalted ids (update h i (halted (h i))),
    )

stop_each-other :
    (ids : List ℕ) (h : ℕ → Instance) (j : ℕ) → All (λ i. i ≢ j) ids → stop_each ids h j ≡ h j
unfolding stop_each
stop_each-other [] h j e = refl
stop_each-other (i ∷ ids) h j (ne, e) =
    stop_each-other ids _ j e ∙ update_other h i j (halted (h i)) ne

stop_each-slot : (ids : List ℕ) (h : ℕ → Instance) (j : ℕ) → (stop_each ids h j).slot ≡ (h j).slot
unfolding stop_each
stop_each-slot [] h j = refl
stop_each-slot (i ∷ ids) h j = stop_each-slot ids _ j ∙ update-slot h i (halted (h i)) refl j

-- StopAll marks every instance of the list as stopping and stopped, touches no other, and keeps
-- the list, the map of names and their agreement.
pub stop_all-lem :
    (r : Rig)
    → IsWf r
    → All (λ i. IsHalted ((stop_all r).heap i)) r.instances
      × ((j : ℕ) → All (λ i. i ≢ j) r.instances → (stop_all r).heap j ≡ r.heap j)
      × IsWf (stop_all r)
unfolding stop_all
stop_all-lem r w =
    let same_keys =
      All-always (λ j. ap key (sym (stop_each-slot r.instances r.heap j))) r.instances in
    (
      stop_each-IsHalted r.instances r.heap,
      stop_each-other r.instances r.heap,
      record {
        keyed = w.keyed ∙ entries-eq (key_at r.heap) _ r.instances same_keys;
        distinct = rw (← map-eq (key_at r.heap) _ r.instances same_keys) w.distinct;
        below = w.below;
      },
    )
