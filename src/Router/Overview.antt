-- ===== src/Router/Overview.antt =====
-- What the views of the router tell.
use llama_chip.Base.{
  All, Bool-cases, List, Option, [], ap, arith, inl, inr, is_empty, length, length-map, ltb, map,
  none, refl, select, some, suc, sym, true, ℕ, ◌∙◌, ◌∷◌, ◌≡◌, ◌≢◌,
}
use llama_chip.Rig.{Rig, Status}
use llama_chip.Fed.{Fed, RosterGpu, peers}
use llama_chip.Router.Views.{
  ModelLive, RawSlot, count_active, live, local_model_names, model_live, parse_slots, polled, pool,
  pool_entry, pool_peer, roster_of, self_of, slot_live,
}

-- The count of a model's requests is that of its slots in work.
abbrev pub Counts : ModelLive → Type 0
Counts m =
    (m.active ≡ length (select (λ s. s.processing) m.slots))
    × (m.slots ≢ [] → m.parallel ≡ length m.slots)

count_active-lem :
    (raw : List RawSlot)
    → count_active raw ≡ length (select (λ s. s.processing) (map slot_live raw))
count_active-lem [] = refl
count_active-lem (s ∷ ss) = ground (arith, count_active-lem ss)

polled-Counts : (s : Status) (a : Option (Option (List RawSlot))) → Counts (polled s a)
unfolding parse_slots
polled-Counts s none = (refl, λ ne. absurd (ne refl))
polled-Counts s (some none) = (refl, λ ne. absurd (ne refl))
polled-Counts s (some (some [])) = (refl, λ ne. absurd (ne refl))
polled-Counts s (some (some (x ∷ xs))) =
    let some_slots : ltb 0 (suc (length xs)) ≡ true = ground arith in
    (count_active-lem (x ∷ xs), λ ne. rw some_slots (ap suc (sym (length-map slot_live xs))))

model_live-Counts :
    (slots_at : ℕ → Option (Option (List RawSlot))) (s : Status) → Counts (model_live slots_at s)
unfolding model_live
model_live-Counts slots_at s = elim (Bool-cases (is_empty s.external)) [
  | inl own_server ↦ rw own_server (polled-Counts s (slots_at s.port))
  | inr away ↦ rw away (refl, λ ne. absurd (ne refl))
]

All-map_of :
    {A B : Type 0} (P : B → Type 0) (f : A → B) (xs : List A)
    → ((x : A) → P (f x))
    → All P (map f xs)
All-map_of P f [] h = tt
All-map_of P f (x ∷ xs) h = (h x, All-map_of P f xs h)

-- The live view has a model for every healthy slot, and for each the count of requests is that of
-- its slots in work, and the number of parallel requests is that of its slots where any are told.
pub live-Counts :
    (slots_at : ℕ → Option (Option (List RawSlot))) (r : Rig)
    → All Counts (live slots_at r) × (length (live slots_at r) ≡ length (local_model_names r))
unfolding live
live-Counts slots_at r = (
  All-map_of Counts (model_live slots_at) _ (model_live-Counts slots_at),
  length-map (model_live slots_at) _ ∙ sym (length-map (λ s. s.name) _),
)

-- In the pool a node that is marked as this one is shown with what the rig serves now and the GPUs
-- of the moment, whatever the roster says.
pub pool-Fresh :
    (f : Option Fed) (r : Rig) (gpus : List RosterGpu)
    → All
        (λ n. n.is_self ≡ true → (n.models ≡ local_model_names r) × (n.gpus ≡ gpus))
        (pool f r gpus)
unfolding pool
pool-Fresh f r gpus = elim (Bool-cases (is_empty (roster_of f))) [
  | inl standalone ↦
      rw standalone
        ((λ e. (refl, refl)), All-map_of _ pool_peer (peers f) (λ p e. absurd (ground arith)))
  | inr hub ↦ rw hub (
      All-map_of _ (pool_entry r gpus (self_of f)) (roster_of f)
        (λ e mine. ((rw mine refl), (rw mine refl))))
]
