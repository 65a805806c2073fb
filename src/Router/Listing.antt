-- ===== src/Router/Listing.antt =====
-- What listModels shows.
use llama_chip.Base.{All, Distinct, List, Some, Text, lower, map, ◌++◌, ◌≡◌, ◌≢◌}
use llama_chip.Fed.{Fed, Route}
use llama_chip.Rig.{Rig}

-- The lowercased id of an entry, by which names clash.
abbrev pub ids : List (Text × Text) → List Text
ids out = map (λ e. lower e.0) out

-- What the loop over the remote models makes of the keys seen and the routes.
pub record Listed (seen_keys : List Text) (rs : List Route) (out : List (Text × Text))
    : Type 0 where
  pub fresh : All (λ k. All (λ j. k ≢ j) seen_keys) (ids out)
  pub apart : Distinct (ids out)
  pub complete : All (λ r. Some (λ j. lower r.model ≡ j) (seen_keys ++ ids out)) rs
