-- ===== src/Rig/Profile.antt =====
-- ApplyProfile: the switch from one layout to another.
use llama_chip.Base.{List, Result-cases, [], inl, inr, ◌∷◌}
use llama_chip.Config.{Slot}
use llama_chip.Rig.Calls.{load_each}
use llama_chip.Rig.Defs.{Env, Rig, load}
use llama_chip.Rig.Registry.{IsWf}
use llama_chip.Rig.Load.{load-IsWf}

pub load_each-IsWf : (env : Env) (r : Rig) (ss : List Slot) → IsWf r → IsWf (load_each env r ss).0
unfolding load_each
load_each-IsWf env r [] w = w
load_each-IsWf env r (s ∷ ss) w = elim (Result-cases (load env r s)) [
  | inl (r1, done) ↦ rw (done, load_each) (load_each-IsWf env r1 ss (load-IsWf env r s r1 w done))
  | inr (x, failed) ↦ rw (failed, load_each) (load_each-IsWf env r ss w)
]
