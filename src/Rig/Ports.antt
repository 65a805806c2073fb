-- ===== src/Rig/Ports.antt =====
-- nextPortLocked: the port that a slot is given is free, and the first free one from the base.
use llama_chip.Base.{
  Bool-cases, List, [], any, arith, false, if◌then◌else◌, inl, inr, leb, length, length-map, suc,
  true, zero, ℕ, ◌+◌, ◌<◌, ◌==◌, ◌∷◌, ◌≡◌, ◌≤◌,
}
use llama_chip.Rig.Defs.{Rig, free_port, next_port, used_ports}

-- How many of the ports lie at p or above.
abbrev at_least : ℕ → List ℕ → ℕ
at_least p [] = 0
at_least p (q ∷ qs) = (if leb p q then 1 else 0) + at_least p qs

at_least-le : (p : ℕ) (qs : List ℕ) → at_least p qs ≤ length qs
at_least-le p [] = omega arith
at_least-le p (q ∷ qs) = ground (arith, at_least-le p qs)

at_least-suc-le : (p : ℕ) (qs : List ℕ) → at_least (p + 1) qs ≤ at_least p qs
at_least-suc-le p [] = omega arith
at_least-suc-le p (q ∷ qs) = ground (arith, at_least-suc-le p qs)

-- Passing a port that is used leaves fewer above.
at_least-suc-lt :
    (p : ℕ) (qs : List ℕ) → any (λ q. q == p) qs ≡ true → at_least (p + 1) qs < at_least p qs
at_least-suc-lt p [] e = cc
at_least-suc-lt p (q ∷ qs) e = ground (arith, at_least-suc-lt p qs, at_least-suc-le p qs)

first_used :
    (p : ℕ) (used : List ℕ)
    → any (λ q. q == p) used ≡ true
    → (q : ℕ) → p ≤ q
    → {B : Type 0} → (p + 1 ≤ q → B → any (λ u. u == q) used ≡ true)
    → B
    → any (λ u. u == q) used ≡ true
first_used p used taken q lo next b = elim (Bool-cases (p == q)) [
  | inl e ↦ let x : p ≡ q = ground arith in rw (← x) taken
  | inr ne ↦ next (ground arith) b
]

free_port-lem :
    (fuel : ℕ) (used : List ℕ) (p : ℕ)
    → at_least p used < fuel
    → (any (λ q. q == free_port fuel used p) used ≡ false)
      × (p ≤ free_port fuel used p)
      × ((q : ℕ) → p ≤ q → q < free_port fuel used p → any (λ u. u == q) used ≡ true)
unfolding free_port
free_port-lem zero used p h = elim h [ ]
free_port-lem (suc fuel) used p h = elim (Bool-cases (any (λ q. q == p) used)) [
  | inl taken ↦
      let step =
        λ (first : (q : ℕ)
              → p + 1 ≤ q
              → q < free_port fuel used (p + 1)
              → any (λ u. u == q) used ≡ true)
            (q : ℕ) (lo : p ≤ q) (hi : q < free_port fuel used (p + 1)).
          first_used p used taken q lo (first q) hi in
      let (free, above, first) =
        free_port-lem fuel used (p + 1) (omega (arith, at_least-suc-lt p used taken)) in
      rw taken (free, omega arith, λ q lo hi. step first q lo hi)
  | inr open_port ↦ rw open_port (open_port, omega arith, λ q lo hi. absurd (omega arith))
]

-- The port that Load gives to a slot that asks for none is at or above the base port, no loaded
-- instance has it, and every port from the base up to it is taken: the loop ends, at the first
-- free port.
pub next_port-lem :
    (r : Rig)
    → (any (λ q. q == next_port r) (used_ports r) ≡ false)
      × (r.base_port ≤ next_port r)
      × ((q : ℕ) → r.base_port ≤ q → q < next_port r → any (λ u. u == q) (used_ports r) ≡ true)
unfolding next_port
next_port-lem r = free_port-lem (suc (length r.instances)) (used_ports r) r.base_port (
    omega (
      arith,
      at_least-le r.base_port (used_ports r),
      length-map (λ i. (r.heap i).port) r.instances,
    ))
