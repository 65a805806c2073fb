-- ===== src/Rig/Ring.antt =====
-- ring of internal/rig/rig.go: the recent lines of an instance.
use llama_chip.Base.{List, Text, [], codes, drop, if◌then◌else◌, leb, length, ℕ, ◌++◌, ◌-◌, ◌∷◌}

pub record Ring : Type 0 where
  pub lines : List Text
  pub n : ℕ

unfoldable pub new_ring : ℕ → Ring
new_ring n = record { lines = []; n = n }

abbrev pub rest_of {ℓ} : {A : Type ℓ} → List A → List A
rest_of [] = []
rest_of (x ∷ xs) = xs

unfoldable pub push : Ring → Text → Ring
push r s = record r {
  lines = (if leb r.n (length r.lines) then rest_of r.lines else r.lines) ++ s ∷ [];
}

-- strings.Join.
unfoldable pub join : Text → List Text → Text
join sep [] = []
join sep (s ∷ []) = s
join sep (s ∷ t ∷ ts) = s ++ (sep ++ join sep (t ∷ ts))

-- The subtraction stops at 0, where the code sets the negative number to 0. The joined text of no
-- line is the empty one.
unfoldable pub last_lines : Ring → Text
unfolding join
last_lines r = join (codes " | ") (drop (length r.lines - 3) r.lines)

unfoldable pub push_all : Ring → List Text → Ring
unfolding push
push_all r [] = r
push_all r (s ∷ ss) = push_all (push r s) ss
