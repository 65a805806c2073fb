-- ===== src/Rig/Calls.antt =====
-- internal/rig/rig.go: the calls on a rig that runs: Unload, UnloadAll, ApplyProfile, Resolve and
-- Ensure, and what a supervisor writes.
use llama_chip.Base.{
  Bool, List, Option, Result, Text, [], any, contains, delete, equal_fold, err, false, find,
  if◌then◌else◌, is_empty, lookup, lower, map, none, ok, select, some, true, ℕ, ◌==◌, ◌||◌, ◌∷◌,
}
use llama_chip.Config.{Slot, name}
use llama_chip.Models.{Model}
use llama_chip.Rig.Defs.{
  Env, Instance, ProfileError, Rig, RigError, State, healthy, load, load_errors, no_profile,
  no_slot, stopped, update,
}

-- Instance.set: the state, and the error where there is one.
abbrev pub set : Instance → State → Text → Instance
set i st msg = record i { state = st; last_err = if is_empty msg then i.last_err else msg }

-- What a supervisor writes into the heap.
unfoldable pub set_state : Rig → ℕ → State → Text → Rig
set_state r i st msg = record r { heap = update r.heap i (set (r.heap i) st msg) }

abbrev pub remove : ℕ → List ℕ → List ℕ
remove i [] = []
remove i (j ∷ js) = if j == i then js else j ∷ remove i js

-- What Unload does to the instance that the map gives for the name.
unfoldable pub drop_instance : Rig → Text → ℕ → Rig
drop_instance r k i = record r {
  heap = update r.heap i (record (r.heap i) { state = stopped; stopping = true });
  instances = remove i r.instances;
  by_name = delete k r.by_name;
}

unfoldable pub unload : Rig → Text → Result RigError Rig
unfolding drop_instance
unload r n = elim (lookup (lower n) r.by_name) [
  | none ↦ err (no_slot n)
  | some i ↦ ok (drop_instance r (lower n) i)
]

-- `_ = r.Unload(n)` for each name.
abbrev pub state_or {ℓ} : {A : Type ℓ} → A → Result RigError A → A
state_or r (ok r') = r'
state_or r (err e) = r

unfoldable pub unload_each : Rig → List Text → Rig
unfolding unload
unload_each r [] = r
unload_each r (n ∷ ns) = unload_each (state_or r (unload r n)) ns

abbrev pub names : Rig → List Text
names r = map (λ i. name (r.heap i).slot) r.instances

unfoldable pub unload_all : Rig → Rig × List Text
unfolding unload_each
unload_all r = (unload_each r (names r), names r)

unfoldable pub load_each : Env → Rig → List Slot → Rig × List RigError
unfolding load
load_each env r [] = (r, [])
load_each env r (s ∷ ss) = elim (load env r s) [
  | ok r' ↦ load_each env r' ss
  | err e ↦ let (r', errs) = load_each env r ss in (r', e ∷ errs)
]

unfoldable pub apply_profile : Env → Rig → Text → Rig × Option ProfileError
unfolding unload_each load_each
apply_profile env r profile = elim (lookup profile r.profiles) [
  | none ↦ (r, some (no_profile profile))
  | some slots ↦
      let (r', errs) = load_each env (unload_each r (names r)) slots in
      (r', if is_empty errs then none else some (load_errors errs))
]

abbrev pub is_match : Text → Model → Bool
is_match model m = equal_fold m.id model || contains (lower m.id) (lower model)

unfoldable pub resolve : Rig → Text → Option ℕ
resolve r model = elim (lookup (lower model) r.by_name) [
  | some i ↦ some i
  | none ↦ find (λ i. is_match model (r.heap i).model) r.instances
]

abbrev pub is_healthy : State → Bool
is_healthy healthy = true
is_healthy _ = false

-- Whether two lists of GPUs have one in common.
abbrev pub overlaps : List ℕ → List ℕ → Bool
overlaps want gpus = any (λ g. any (λ w. w == g) want) gpus

abbrev pub evicted : Rig → List ℕ → List Text
evicted r want =
    map (λ i. name (r.heap i).slot) (select (λ i. overlaps want (r.heap i).slot.gpus) r.instances)

pub data Action : Type 0 where
  already_there now_loaded : Text → Action

-- The healthy instance that serves a model.
unfoldable pub serving : Rig → Text → Option ℕ
unfolding resolve
serving r model = elim (resolve r model) [
  | none ↦ none
  | some i ↦ if is_healthy (r.heap i).state then some i else none
]

abbrev pub after_load : Rig → Slot → Result RigError Rig → Rig × Result RigError Action
after_load r s (ok r') = (r', ok (now_loaded (name s)))
after_load r s (err e) = (r, err e)

unfoldable pub ensure : Env → Rig → Slot → Rig × Result RigError Action
unfolding unload_each load
ensure env r s = elim (serving r s.model) [
  | some i ↦ (r, ok (already_there (name (r.heap i).slot)))
  | none ↦ let r' = unload_each r (evicted r s.gpus) in after_load r' s (load env r' s)
]

-- StopAll.
abbrev pub halted : Instance → Instance
halted i = record i { state = stopped; stopping = true }

unfoldable pub stop_each : List ℕ → (ℕ → Instance) → ℕ → Instance
stop_each [] h = h
stop_each (i ∷ ids) h = stop_each ids (update h i (halted (h i)))

unfoldable pub stop_all : Rig → Rig
unfolding stop_each
stop_all r = record r { heap = stop_each r.instances r.heap }
