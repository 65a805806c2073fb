-- ===== src/HubClient/Beats.antt =====
-- What a node knows and says after any beats.
use llama_chip.Base.{
  List, Option, [], err, if◌then◌else◌, ltb, none, ok, or_else, some, ℕ, ◌+◌, ◌∷◌, ◌≡◌,
}
use llama_chip.Fed.{Fed, RosterEntry}
use llama_chip.HubClient.Defs.{
  Client, Fetched, Line, Link, Reply, Sent, Tick, apply, failing, fetch, first_failed, recovered,
}

-- The missed beats that the log accounts for, and its lines of the two kinds.
abbrev pub told : List Line → ℕ
told [] = 0
told (first_failed e ∷ ls) = told ls
told (failing e ∷ ls) = told ls
told (recovered n ∷ ls) = n + told ls

abbrev pub outages : List Line → ℕ
outages [] = 0
outages (first_failed e ∷ ls) = outages ls
outages (failing e ∷ ls) = 1 + outages ls
outages (recovered n ∷ ls) = outages ls

abbrev pub recoveries : List Line → ℕ
recoveries [] = 0
recoveries (first_failed e ∷ ls) = recoveries ls
recoveries (failing e ∷ ls) = recoveries ls
recoveries (recovered n ∷ ls) = 1 + recoveries ls

-- The beats that failed, and the last roster that came.
abbrev pub failed : List (ℕ × Fetched) → ℕ
failed [] = 0
failed ((now, ok es) ∷ rs) = failed rs
failed ((now, err e) ∷ rs) = 1 + failed rs

abbrev ok_at : ℕ → Fetched → Option (ℕ × List RosterEntry)
ok_at now (ok es) = some (now, es)
ok_at now (err e) = none

abbrev pub latest_ok : List (ℕ × Fetched) → Option (ℕ × List RosterEntry)
latest_ok [] = none
latest_ok ((now, r) ∷ rs) = or_else (latest_ok rs) (ok_at now r)

abbrev pub is_down : ℕ → ℕ
is_down n = if ltb 0 n then 1 else 0

module _ {ℓ} {W : Type ℓ} (send : Sent → W → Option Reply × W) (c : Client) where
  abbrev pub results : List Tick → W → List (ℕ × Fetched)
  results [] w = []
  results (t ∷ ts) w = (t.now, (fetch send c t.local w).0) ∷ results ts (fetch send c t.local w).1

  abbrev pub known : Option Fed → Option (ℕ × List RosterEntry) → Option Fed
  known f none = f
  known f (some (now, es)) = apply now c es f

  abbrev Balanced : Link W → Type 0
  Balanced l = outages l.log ≡ recoveries l.log + is_down l.fails
