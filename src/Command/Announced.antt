-- ===== src/Command/Announced.antt =====
-- What a node announces to the hub.
use llama_chip.Base.{
  Bool-cases, List, Option, Some, Text, [], ap, inl, inr, lower, map, refl, select, some, true, ℕ,
  ◌∷◌, ◌≡◌,
}
use llama_chip.Config.{name}
use llama_chip.Gpu.{Gpu}
use llama_chip.Rig.{IsWf, Rig, is_healthy, snapshot, snapshot_of}
use llama_chip.Fed.{Fed}
use llama_chip.Router.{Host, choose, local_target}
use llama_chip.Router.Hops.{choose-local, resolve-named}
use llama_chip.Command.Defs.{local_state}

-- A name of the list is that of a healthy instance.
Some-healthy :
    (r : Rig) (ids : List ℕ) (m : Text)
    → Some
        (λ x. x ≡ m)
        (map
          (λ s. s.name)
          (select (λ s. is_healthy s.state) (map (λ i. snapshot_of (r.heap i)) ids)))
    → (i : ℕ) × Some (λ j. j ≡ i) ids
      × (name (r.heap i).slot ≡ m)
      × (is_healthy (r.heap i).state ≡ true)
unfolding snapshot_of
Some-healthy r [] m h = absurd h
Some-healthy r (i ∷ ids) m h = elim (Bool-cases (is_healthy (r.heap i).state)) [
  | inr ill ↦
      let (j, listed, named, well) = Some-healthy r ids m (rw ill at h) in
      (j, inr listed, named, well)
  | inl well ↦ elim (rw well at h) [
    | inl named ↦ (i, inl refl, named, well)
    | inr later ↦
        let (j, listed, named, fit) = Some-healthy r ids m later in (j, inr listed, named, fit)
  ]
]

-- Every model that a node announces is at that moment served by the node itself: a request for it
-- goes to a slot with this name that is healthy, and to no peer, whatever the federation.
pub choose-local_state :
    (host : Host) (r : Rig) (f : Option Fed) (gpus : Option (List Gpu)) (m : Text)
    → IsWf r
    → Some (λ x. x ≡ m) (local_state r gpus).models
    → (i : ℕ) × (name (r.heap i).slot ≡ m)
      × (is_healthy (r.heap i).state ≡ true)
      × (choose host r f [] m ≡ some (local_target host (r.heap i)))
unfolding local_state snapshot
choose-local_state host r f gpus m wf announced =
    let (i, listed, named, well) = Some-healthy r r.instances m announced in
    (i, named, well, choose-local host r f i m (resolve-named r i m wf listed (ap lower named)))
