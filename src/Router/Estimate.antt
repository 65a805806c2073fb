-- ===== src/Router/Estimate.antt =====
-- The bounds of what guessContext estimates.
use llama_chip.Base.{List, Text, false, ltb, true, ℕ, ◌*◌, ◌≡◌, ◌⊎◌}
use llama_chip.Backends.{int_lt, pos, split_at, ℤ}
use llama_chip.Gpu.{Gpu}
use llama_chip.Models.{Model}
use llama_chip.Router.Context.{Asked, Floats, Guess, avail_mib, free_mib, mib, zero_of, ◌-ℤ◌}

-- A multiple of 4096, of either sign.
abbrev pub IsRounded : ℤ → Type 0
IsRounded x = (n : ℕ) × ((x ≡ pos (n * 4096)) ⊎ (x ≡ pos 0 -ℤ pos (n * 4096)))

module _ {F : Type 0} (fl : Floats F) where
  -- What bounds an estimate for a model.
  pub record IsBounded (m : Model) (gs : List Gpu) (scan : Text → ℤ) (q : Asked) (g : Guess)
      : Type 0 where
    pub free : g.free ≡ free_mib scan gs (split_at b',' q.gpus)
    pub trained : ltb 0 g.train_ctx ≡ true → int_lt (pos g.train_ctx) g.max_ctx ≡ false
    pub rounded : (g.max_ctx ≡ pos g.train_ctx) ⊎ IsRounded g.max_ctx
    pub full :
        fl.below (zero_of fl) (avail_mib fl g.free (mib fl m.bytes)) ≡ false → g.max_ctx ≡ pos 0
