-- ===== src/Router/Manage.antt =====
-- The handlers that manage the rig: load, unload, unloadAll, applyProfile and ensure. A body that
-- is not read is `none`; the reply is its status.
use llama_chip.Base.{
  Bool-cases, Option, Result, Result-cases, Text, arith, codes, err, if◌then◌else◌, inl, inr, none,
  not, ok, refl, same, same_iff, some, subst, sym, ℕ, ◌≡◌, ◌≢◌, ◌⊎◌,
}
use llama_chip.Config.{Slot}
use llama_chip.Rig.{
  Action, Env, ProfileError, Rig, RigError, Step, applies, apply_profile, ensure, ensures, load,
  loads, unload, unload_all, unloads, unloads_all,
}

pub data ManageOp : Type 0 where
  load_slot ensure_slot : Option Slot → ManageOp
  unload_slot apply_named : Text → ManageOp
  unload_every : ManageOp

abbrev pub on_result : Rig → ℕ → Result RigError Rig → Rig × ℕ
on_result r status (ok r') = (r', status)
on_result r status (err e) = (r, 400)

abbrev pub on_profile : Rig × Option ProfileError → Rig × ℕ
on_profile (r, none) = (r, 202)
on_profile (r, some e) = (r, 400)

abbrev pub on_action : Rig × Result RigError Action → Rig × ℕ
on_action (r, ok a) = (r, 200)
on_action (r, err e) = (r, 400)

-- A handler behind its guard on the method.
unfoldable pub manage_post : Env → Rig → ManageOp → Rig × ℕ
unfolding load unload unload_all apply_profile ensure
manage_post env r (load_slot none) = (r, 400)
manage_post env r (load_slot (some s)) = on_result r 202 (load env r s)
manage_post env r (unload_slot n) = on_result r 200 (unload r n)
manage_post env r unload_every = ((unload_all r).0, 200)
manage_post env r (apply_named n) = on_profile (apply_profile env r n)
manage_post env r (ensure_slot none) = (r, 400)
manage_post env r (ensure_slot (some s)) = on_action (ensure env r s)

unfoldable pub manage : Env → Rig → Text → ManageOp → Rig × ℕ
unfolding manage_post same
manage env r method op = if not (same method (codes "POST")) then (r, 405) else manage_post env r op

-- Whether a refused request leaves the rig as it was: a profile switch and an Ensure may have
-- unloaded slots by then.
abbrev pub IsAtomic : ManageOp → Type 0
IsAtomic (apply_named n) = ⊥
IsAtomic (ensure_slot s) = ⊥
IsAtomic _ = Unit

on_profile-rig : (x : Rig × Option ProfileError) → (on_profile x).0 ≡ x.0
on_profile-rig (r, none) = refl
on_profile-rig (r, some e) = refl

on_action-rig : (x : Rig × Result RigError Action) → (on_action x).0 ≡ x.0
on_action-rig (r, ok a) = refl
on_action-rig (r, err e) = refl

-- What a request may do to the rig.
abbrev pub Managed : Env → Rig → ManageOp → Rig × ℕ → Type 0
Managed env r op x = ((x.0 ≡ r) ⊎ Step env r x.0) × (x.1 ≡ 400 → IsAtomic op → x.0 ≡ r)

manage_post-Managed :
    (env : Env) (r : Rig) (op : ManageOp) → Managed env r op (manage_post env r op)
unfolding manage_post
manage_post-Managed env r (load_slot none) = (inl refl, λ _ _. refl)
manage_post-Managed env r (load_slot (some s)) = elim (Result-cases (load env r s)) [
  | inl (r', done) ↦ rw (done, manage_post) (inr (loads s done), λ e _. absurd (omega (arith, e)))
  | inr (x, failed) ↦ rw (failed, manage_post) (inl refl, λ _ _. refl)
]
manage_post-Managed env r (unload_slot n) = elim (Result-cases (unload r n)) [
  | inl (r', done) ↦ rw (done, manage_post) (inr (unloads n done), λ e _. absurd (omega (arith, e)))
  | inr (x, failed) ↦ rw (failed, manage_post) (inl refl, λ _ _. refl)
]
manage_post-Managed env r unload_every = (inr unloads_all, λ e _. absurd (omega (arith, e)))
manage_post-Managed env r (apply_named n) = (
  inr (subst (Step env r) (sym (on_profile-rig (apply_profile env r n))) (applies n)),
  λ _ a. absurd a,
)
manage_post-Managed env r (ensure_slot none) = (inl refl, λ _ a. absurd a)
manage_post-Managed env r (ensure_slot (some s)) =
    (inr (subst (Step env r) (sym (on_action-rig (ensure env r s))) (ensures s)), λ _ a. absurd a)

-- A management request leaves the rig as it is or makes one step of it, so the invariant of the
-- rig holds along any history of requests; another method than POST is answered 405 and changes
-- nothing; and a load, an unload or an unread body that is answered 400 changes nothing.
pub manage-Managed :
    (env : Env) (r : Rig) (method : Text) (op : ManageOp)
    → Managed env r op (manage env r method op)
      × (method ≢ codes "POST" → manage env r method op ≡ (r, 405))
unfolding manage
manage-Managed env r method op = elim (Bool-cases (same method (codes "POST"))) [
  | inl post ↦
      rw (post, manage) (manage_post-Managed env r op, λ ne. absurd (ne ((same_iff _ _).0 post)))
  | inr other ↦ rw (other, manage) ((inl refl, λ _ _. refl), λ _. refl)
]
