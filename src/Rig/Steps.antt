-- ===== src/Rig/Steps.antt =====
-- The rig over any history of calls and of reports by the supervisors.
use llama_chip.Base.{
  >>=-eq-ok, All, All-both, All-mono, All-of_map, Bool-cases, Distinct, List, Option-cases,
  Result-cases, Text, [], ap, arith, inl, inr, is_empty, lookup, lookup-insert, lower, map, map-eq,
  ne-nil_of_is_empty, none, ok, ok-injective, refl, same_iff, subst, sym, ℕ, ◌∙◌, ◌∷◌, ◌≡◌, ◌≢◌,
}
use llama_chip.Backends.{Backend, found, or_error}
use llama_chip.Config.{Config, Slot, key, name, validate, validate_iff}
use llama_chip.Rig.Calls.{
  after_load, apply_profile, ensure, overlaps, serving, set_state, unload, unload_all,
}
use llama_chip.Rig.Boot.{empty_rig, new_rig, new_slot, new_slots, rig_backend_of}
use llama_chip.Rig.Defs.{
  Env, Instance, Rig, State, add, backend_for, find_in, launched, load, no_model, resolve_backend,
  stopped, tagged,
}
use llama_chip.Rig.Registry.{All-always, IsWf, add-IsWf, key_at, update-slot}
use llama_chip.Rig.Entries.{entries-eq}
use llama_chip.Rig.Load.{add_external-Loaded, load-IsWf}
use llama_chip.Rig.Unload.{unload-IsWf, unload_each-select, unload_names-Dropped}
use llama_chip.Rig.Profile.{load_each-IsWf}

-- One call that the router makes, or one write of a supervisor.
pub data Step (env : Env) : Rig → Rig → Type 0 where
  loads : {r r' : Rig} (s : Slot) → load env r s ≡ ok r' → Step env r r'
  unloads : {r r' : Rig} (n : Text) → unload r n ≡ ok r' → Step env r r'
  unloads_all : {r : Rig} → Step env r (unload_all r).0
  applies : {r : Rig} (profile : Text) → Step env r (apply_profile env r profile).0
  ensures : {r : Rig} (s : Slot) → Step env r (ensure env r s).0
  reports : {r : Rig} (i : ℕ) (st : State) (msg : Text) → Step env r (set_state r i st msg)

pub data Reach (env : Env) (r : Rig) : Rig → Type 0 where
  start : Reach env r r
  next : {t u : Rig} → Reach env r t → Step env t u → Reach env r u

-- What New adds for a slot.
record Added (r : Rig) (s : Slot) (r' : Rig) : Type 0 where
  made : Instance
  added : r' ≡ add r made
  same_key : key made.slot ≡ key s

new_slot-Added :
    (env : Env) (r : Rig) (s : Slot) (r' : Rig) → new_slot env r s ≡ ok r' → Added r s r'
unfolding new_slot
new_slot-Added env r s r' h = elim (Bool-cases (is_empty s.external)) [
  | inl own ↦
      let (m, _, h1) =
        >>=-eq-ok (or_error (no_model s.model) (find_in env s.model)) _ r' (rw own at h) in
      let (be, _, h2) = >>=-eq-ok (tagged (name s) (backend_for env r s)) _ r' h1 in
      record { made = launched s m be; added = sym (ok-injective h2); same_key = refl }
  | inr away ↦
      let l = add_external-Loaded env r s stopped r' (ne-nil_of_is_empty _ away) (rw away at h) in
      record { made = l.made; added = l.added; same_key = ap lower l.named }
]

still_free :
    {r' : Rig} (r : Rig) (s : Slot) (a : Added r s r') (t : Slot)
    → key s ≢ key t
    → lookup (key t) r.by_name ≡ none
    → lookup (key t) r'.by_name ≡ none
unfolding add
still_free r s a t ne e =
    rw (a.added, a.same_key, lookup-insert (key s) (key t) r.next r.by_name)
      (ground (arith, same_iff (key s) (key t)))

new_slots-IsWf :
    (env : Env) (r : Rig) (ss : List Slot) (r' : Rig)
    → IsWf r
    → All (λ s. lookup (key s) r.by_name ≡ none) ss
    → Distinct (map key ss)
    → new_slots env r ss ≡ ok r'
    → IsWf r'
unfolding new_slots add
new_slots-IsWf env r [] r' w f d h = subst IsWf (ok-injective h) w
new_slots-IsWf env r (s ∷ ss) r' w (new, fresh) (n, d) h =
    let (r1, made, rest) = >>=-eq-ok (new_slot env r s) _ r' h in
    let a = new_slot-Added env r s r1 made in
    let w1 =
      subst IsWf (sym a.added)
        (add-IsWf r a.made w (ap (λ k. lookup k r.by_name) a.same_key ∙ new)) in
    let still : All (λ t. lookup (key t) r1.by_name ≡ none) ss =
      All-mono (λ t f. still_free r s a t f.0 f.1) ss
        (All-both (λ t. key s ≢ key t) (λ t. lookup (key t) r.by_name ≡ none) ss
          (All-of_map (λ k. key s ≢ k) key ss n) fresh) in
    new_slots-IsWf env r1 ss r' w1 still d rest

empty_keys :
    (c : Config) (be : Backend) (ss : List Slot)
    → All (λ s. lookup (key s) (empty_rig c be).by_name ≡ none) ss
unfolding lookup
empty_keys c be [] = tt
empty_keys c be (s ∷ ss) = (refl, empty_keys c be ss)

pub new_rig-IsWf :
    (env : Env) (c : Config) (r : Rig) → validate c ≡ none → new_rig env c ≡ ok r → IsWf r
unfolding new_rig
new_rig-IsWf env c r valid h =
    let (be, _, made) =
      >>=-eq-ok (rig_backend_of (resolve_backend env c.backend))
        (λ x. new_slots env (empty_rig c x) c.slots) r h in
    new_slots-IsWf env (empty_rig c be) c.slots r
      (record { keyed = refl; distinct = tt; below = tt }) (empty_keys c be c.slots)
      ((validate_iff c).0 valid).1 made

pub apply_profile-IsWf :
    (env : Env) (r : Rig) (profile : Text) → IsWf r → IsWf (apply_profile env r profile).0
unfolding apply_profile
apply_profile-IsWf env r profile w = elim (Option-cases (lookup profile r.profiles)) [
  | inl unknown ↦ rw (unknown, apply_profile) w
  | inr (slots, found) ↦
      rw (found, apply_profile) (load_each-IsWf env _ slots (unload_names-Dropped r w).wf)
]

after_load-IsWf : (env : Env) (r : Rig) (s : Slot) → IsWf r → IsWf (after_load r s (load env r s)).0
after_load-IsWf env r s w = elim (Result-cases (load env r s)) [
  | inl (r', done) ↦ rw done (load-IsWf env r s r' w done)
  | inr (e, failed) ↦ rw failed w
]

ensure-IsWf : (env : Env) (r : Rig) (s : Slot) → IsWf r → IsWf (ensure env r s).0
unfolding ensure
ensure-IsWf env r s w = elim (Option-cases (serving r s.model)) [
  | inl idle ↦
      rw (idle, ensure)
        (after_load-IsWf env _ s
          (unload_each-select r (λ i. overlaps s.gpus (r.heap i).slot.gpus) w).wf)
  | inr (i, busy) ↦ rw (busy, ensure) w
]

pub set_state-IsWf :
    (r : Rig) (i : ℕ) (st : State) (msg : Text) → IsWf r → IsWf (set_state r i st msg)
unfolding set_state
set_state-IsWf r i st msg w =
    let same_keys = All-always (λ j. ap key (sym (update-slot r.heap i _ refl j))) r.instances in
    record {
      keyed = w.keyed ∙ entries-eq (key_at r.heap) _ r.instances same_keys;
      distinct = rw (← map-eq (key_at r.heap) _ r.instances same_keys) w.distinct;
      below = w.below;
    }

pub Step-IsWf : {env : Env} {r r' : Rig} → Step env r r' → IsWf r → IsWf r'
unfolding unload_all
Step-IsWf {env} {r} {r'} (loads s h) w = load-IsWf env r s r' w h
Step-IsWf {env} {r} {r'} (unloads n h) w = unload-IsWf r n r' w h
Step-IsWf {env} {r} unloads_all w = (unload_names-Dropped r w).wf
Step-IsWf {env} {r} (applies profile) w = apply_profile-IsWf env r profile w
Step-IsWf {env} {r} (ensures s) w = ensure-IsWf env r s w
Step-IsWf {env} {r} (reports i st msg) w = set_state-IsWf r i st msg w

-- From a rig built by New over a configuration that the checks accept, any history of loads,
-- unloads, profile switches, Ensure calls and supervisor reports keeps the list of instances and
-- the map of names in agreement, with names that differ by more than letter case.
pub Reach-IsWf :
    {env : Env} (c : Config) (r0 : Rig) {r : Rig}
    → validate c ≡ none
    → new_rig env c ≡ ok r0
    → Reach env r0 r
    → IsWf r
Reach-IsWf {env} c r0 valid built start = new_rig-IsWf env c r0 valid built
Reach-IsWf c r0 valid built (next h s) = Step-IsWf s (Reach-IsWf c r0 valid built h)
