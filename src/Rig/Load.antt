-- ===== src/Rig/Load.antt =====
-- Load, for slots of both kinds: what a success has checked, and what it leaves behind.
use llama_chip.Base.{
  >>=-eq-ok, Bool, Bool-cases, Option, Result, Text, [], ap, arith, equal_fold, false,
  if◌then◌else◌, inl, inr, is_empty, is_some, lookup, lookup-insert, lower, ne-nil_of_is_empty,
  none, ok, ok-injective, refl, some, subst, sym, trim_right, true, ℕ, ◌==◌, ◌>>◌, ◌∙◌, ◌≡◌, ◌≢◌,
}
use llama_chip.Config.{Slot, key, name}
use llama_chip.Backends.{or_error}
use llama_chip.Rig.Defs.{
  Env, Instance, Rig, RigError, State, add, add_external, already_loaded, backend_for, checked_url,
  find_in, launched, load, load_local, needs_alias, needs_model, next_port, no_model, refuse_if,
  starting, tagged, upstream, with_defaults, with_port,
}
use llama_chip.Rig.Registry.{IsWf, add-IsWf}

-- A load that succeeds adds one instance under a key that was free.
pub record Loaded (r : Rig) (s : Slot) (r' : Rig) : Type 0 where
  pub made : Instance
  pub added : r' ≡ add r made
  pub free : lookup (key s) r.by_name ≡ none
  pub named : name made.slot ≡ name s
  pub gpus : made.slot.gpus ≡ s.gpus
  pub port : s.external ≡ [] → made.port ≡ (if s.port == 0 then next_port r else s.port)

module _ (r : Rig) (s : Slot) where
  name-with_port : name (with_port r (with_defaults s)) ≡ name s
  unfolding name
  name-with_port = ground arith

  gpus-with_port : (with_port r (with_defaults s)).gpus ≡ s.gpus
  gpus-with_port = ground arith

  port-with_port :
      (with_port r (with_defaults s)).port ≡ (if s.port == 0 then next_port r else s.port)
  port-with_port = ground arith

-- A guard that let a computation succeed did not hold.
refuse_if-eq-ok {ℓ} :
    {B : Type ℓ} (b : Bool) (e : RigError) (k : Result RigError B) (x : B)
    → (refuse_if b e >> k) ≡ ok x
    → (b ≡ false) × (k ≡ ok x)
refuse_if-eq-ok true e k x h = cc
refuse_if-eq-ok false e k x h = (refl, h)

is_some-false {ℓ} : {A : Type ℓ} (o : Option A) → is_some o ≡ false → o ≡ none
is_some-false none e = refl
is_some-false (some a) e = cc

load_local-Loaded :
    (env : Env) (r : Rig) (s : Slot) (r' : Rig) → load_local env r s ≡ ok r' → Loaded r s r'
unfolding load_local
load_local-Loaded env r s r' h =
    let (_, h1) = refuse_if-eq-ok (is_empty s.model) needs_model _ r' h in
    let (m, _, h2) = >>=-eq-ok (or_error (no_model s.model) (find_in env s.model)) _ r' h1 in
    let (be, _, h3) = >>=-eq-ok (tagged (name s) (backend_for env r s)) _ r' h2 in
    let (absent, h4) =
      refuse_if-eq-ok (is_some (lookup (key s) r.by_name)) (already_loaded (name s)) _ r' h3 in
    record {
      made = launched (with_port r (with_defaults s)) m be;
      added = sym (ok-injective h4);
      free = is_some-false _ absent;
      named = name-with_port r s;
      gpus = gpus-with_port r s;
      port = λ _. port-with_port r s;
    }

pub add_external-Loaded :
    (env : Env) (r : Rig) (s : Slot) (st : State) (r' : Rig)
    → s.external ≢ []
    → add_external env r s st ≡ ok r'
    → Loaded r s r'
unfolding add_external
add_external-Loaded env r s st r' ext h =
    let (_, h1) = refuse_if-eq-ok (is_empty s.alias) needs_alias _ r' h in
    let (u, _, h2) =
      >>=-eq-ok (checked_url s.external (env.parse_url (trim_right b'/' s.external))) _ r' h1 in
    let (absent, h3) =
      refuse_if-eq-ok (is_some (lookup (key s) r.by_name)) (already_loaded (name s)) _ r' h2 in
    record {
      made = upstream s st u;
      added = sym (ok-injective h3);
      free = is_some-false _ absent;
      named = refl;
      gpus = refl;
      port = λ e. absurd (ext e);
    }

pub load-Loaded : (env : Env) (r : Rig) (s : Slot) (r' : Rig) → load env r s ≡ ok r' → Loaded r s r'
unfolding load
load-Loaded env r s r' h = elim (Bool-cases (is_empty s.external)) [
  | inl own ↦ load_local-Loaded env r s r' (rw own at h)
  | inr away ↦ add_external-Loaded env r s starting r' (ne-nil_of_is_empty _ away) (rw away at h)
]

pub load-IsWf :
    (env : Env) (r : Rig) (s : Slot) (r' : Rig) → IsWf r → load env r s ≡ ok r' → IsWf r'
load-IsWf env r s r' w h =
    let l = load-Loaded env r s r' h in
    subst IsWf (sym l.added)
      (add-IsWf r l.made w (ap (λ t. lookup (lower t) r.by_name) l.named ∙ l.free))

-- A load that succeeds makes the slot's name resolve to the new instance, in any letter case, and
-- every other name still leads to the instance that it led to.
pub load-lookup :
    (env : Env) (r : Rig) (s : Slot) (r' : Rig) (n : Text)
    → load env r s ≡ ok r'
    → lookup (lower n) r'.by_name
      ≡ (if equal_fold (name s) n then some r.next else lookup (lower n) r.by_name)
unfolding add equal_fold
load-lookup env r s r' n h =
    let l = load-Loaded env r s r' h in
    rw (l.added, lookup-insert (key l.made.slot) (lower n) r.next r.by_name, l.named) refl

-- A name that is taken, in any letter case, is refused, whatever else the slot says.
pub load_taken :
    (env : Env) (r : Rig) (s : Slot) (i : ℕ) (r' : Rig)
    → lookup (key s) r.by_name ≡ some i
    → load env r s ≢ ok r'
load_taken env r s i r' e h = cc (e, (load-Loaded env r s r' h).free)
