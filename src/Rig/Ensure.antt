-- ===== src/Rig/Ensure.antt =====
-- Ensure: which slots give way to a model that is asked for, and when nothing is loaded.
use llama_chip.Base.{
  List, Result, Text, [], ap, arith, contains_nil, err, lookup, lower, none, not, ok, refl, select,
  some, ℕ, ◌++◌, ◌∙◌, ◌∷◌, ◌≡◌,
}
use llama_chip.Config.{Slot, name}
use llama_chip.Rig.Calls.{Action, already_there, ensure, now_loaded, overlaps, resolve, serving}
use llama_chip.Rig.Defs.{Env, Rig, RigError, healthy}

abbrev pub spared : Rig → List ℕ → List ℕ
spared r want = select (λ i. not (overlaps want (r.heap i).slot.gpus)) r.instances

-- What Ensure leaves in the list of instances, for each of its results.
abbrev pub Leaves : Rig → Slot → Rig × Result RigError Action → Type 0
Leaves r s (r', ok (already_there n)) = r' ≡ r
Leaves r s (r', ok (now_loaded n)) = (r'.instances ≡ spared r s.gpus ++ r.next ∷ []) × (n ≡ name s)
Leaves r s (r', err e) = r'.instances ≡ spared r s.gpus

resolve_nil :
    (r : Rig) (i : ℕ) (rest : List ℕ)
    → lookup [] r.by_name ≡ none
    → r.instances ≡ i ∷ rest
    → resolve r [] ≡ some i
unfolding resolve lower
resolve_nil r i rest unnamed first =
    rw (unnamed, first, contains_nil (lower (r.heap i).model.id), resolve)
      (ground (arith, contains_nil (lower (r.heap i).model.id)))

serving_of_resolve :
    (r : Rig) (model : Text) (i : ℕ)
    → resolve r model ≡ some i
    → (r.heap i).state ≡ healthy
    → serving r model ≡ some i
unfolding serving
serving_of_resolve r model i e up = rw (e, serving, up) refl

-- An external slot has no model of its own, and the empty handle is part of every model's ID. So
-- where any slot is loaded, the first one is healthy and none has an empty name, Ensure of a slot
-- without a model answers that this first slot serves it already, and loads nothing, whatever the
-- slot's name and upstream are.
pub ensure_no_model :
    (env : Env) (r : Rig) (s : Slot) (i : ℕ) (rest : List ℕ)
    → s.model ≡ []
    → lookup [] r.by_name ≡ none
    → r.instances ≡ i ∷ rest
    → (r.heap i).state ≡ healthy
    → ensure env r s ≡ (r, ok (already_there (name (r.heap i).slot)))
unfolding ensure
ensure_no_model env r s i rest bare unnamed first up =
    let busy : serving r s.model ≡ some i =
      ap (serving r) bare ∙ serving_of_resolve r [] i (resolve_nil r i rest unnamed first) up in
    rw (busy, ensure) refl
