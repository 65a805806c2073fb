-- ===== src/Rig/Hosted.antt =====
-- The supervisor of an instance and the call that stops it, seen from the rig that has the instance.
use llama_chip.Base.{ℕ, ◌≡◌}
use llama_chip.Rig.Defs.{Instance, Rig, update}

-- What the rig finds an instance by, and sends requests to.
pub record SameSlot (i j : Instance) : Type 0 where
  pub slot : j.slot ≡ i.slot
  pub model : j.model ≡ i.model
  pub port : j.port ≡ i.port
  pub external : j.external ≡ i.external

-- The rig with what the supervisor has made of an instance.
abbrev pub hosting : Rig → ℕ → Instance → Rig
hosting r i v = record r { heap = update r.heap i v }
