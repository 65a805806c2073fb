-- ===== src/Rig/Backoff.antt =====
-- What holds of an instance and its supervisor at any time.
use llama_chip.Base.{ap, arith, none, refl, some, subst, suc, sym, zero, ℕ, ◌+◌, ◌^◌, ◌≡◌, ◌≤◌}
use llama_chip.Rig.Defs.{Instance}
use llama_chip.Rig.Supervise.{
  Other, Own, Phase, Run, Super, announces, answers, begin, begins_stop, cannot_start, counting,
  declares, doubled, drains, exited, finds_port_taken, goes_on, hears, hears_early, kills,
  leaves_check, leaves_exit, leaves_loop, marks, new_super, notes, opens, other, own, polling,
  polls_again, probing, process_ends, reports_error, reports_exit, sees_stop, started, starts,
  stays, times_out, up, waiting, waits, wakes,
}

-- A process is counted from its start until its exit has been told.
abbrev busy : Phase → ℕ
busy (started p) = 1
busy (polling p) = 1
busy (probing p) = 1
busy (up p) = 1
busy (waiting p) = 1
busy (exited e) = 1
busy (counting e) = 1
busy _ = 0

-- One of the sleeps 1, 2, 4, 8, 16, 32.
abbrev pub IsBackoff : ℕ → Type 0
IsBackoff b = (k : ℕ) × (k ≤ 5) × (b ≡ 2 ^ k)

doubled-pow : (k : ℕ) → k ≤ 5 → IsBackoff (doubled (2 ^ k))
doubled-pow zero h = (1, omega arith, refl)
doubled-pow (suc zero) h = (2, omega arith, refl)
doubled-pow (suc (suc zero)) h = (3, omega arith, refl)
doubled-pow (suc (suc (suc zero))) h = (4, omega arith, refl)
doubled-pow (suc (suc (suc (suc zero)))) h = (5, omega arith, refl)
doubled-pow (suc (suc (suc (suc (suc zero))))) h = (5, omega arith, refl)
doubled-pow (suc (suc (suc (suc (suc (suc k)))))) h = absurd (omega arith)

doubled-IsBackoff : (b : ℕ) → IsBackoff b → IsBackoff (doubled b)
doubled-IsBackoff b (k, h, e) = subst (λ x. IsBackoff (doubled x)) (sym e) (doubled-pow k h)

Own-IsBackoff : {s t : Super} → Own s t → IsBackoff s.backoff → IsBackoff t.backoff
Own-IsBackoff (leaves_loop s e f) b = b
Own-IsBackoff (opens s e f) b = b
Own-IsBackoff (declares s e) b = b
Own-IsBackoff (finds_port_taken s x e) b = b
Own-IsBackoff (cannot_start s x e) b = b
Own-IsBackoff (starts s e) b = b
Own-IsBackoff (notes s p e) b = b
Own-IsBackoff (times_out s p e) b = b
Own-IsBackoff (sees_stop s p e f) b = b
Own-IsBackoff (goes_on s p e f) b = b
Own-IsBackoff (hears_early s p x e f) b = b
Own-IsBackoff (answers s p e) b = b
Own-IsBackoff (polls_again s p e) b = b
Own-IsBackoff (announces s p e) b = (0, omega arith, refl)
Own-IsBackoff (hears s p x e f) b = b
Own-IsBackoff (leaves_exit s x e f) b = b
Own-IsBackoff (stays s x e f) b = b
Own-IsBackoff (reports_exit s x e) b = b
Own-IsBackoff (reports_error s x e) b = b
Own-IsBackoff (leaves_check s e f) b = b
Own-IsBackoff (waits s e f) b = b
Own-IsBackoff (wakes s e) b = doubled-IsBackoff s.backoff b

Other-backoff : {s t : Super} → Other s t → s.backoff ≡ t.backoff
Other-backoff (process_ends s q) = refl
Other-backoff (drains s line) = refl
Other-backoff (begins_stop s i) = refl
Other-backoff (kills s none i) = refl
Other-backoff (kills s (some p) i) = refl
Other-backoff (marks s i) = refl

Own-busy :
    {s t : Super} (r0 : ℕ)
    → Own s t
    → s.inst.restarts + busy s.phase ≤ r0 + s.next
    → t.inst.restarts + busy t.phase ≤ r0 + t.next
Own-busy r0 (leaves_loop s e f) h = let b = ap busy e in omega arith
Own-busy r0 (opens s e f) h = let b = ap busy e in omega arith
Own-busy r0 (declares s e) h = let b = ap busy e in omega arith
Own-busy r0 (finds_port_taken s x e) h = let b = ap busy e in omega arith
Own-busy r0 (cannot_start s x e) h = let b = ap busy e in omega arith
Own-busy r0 (starts s e) h = let b = ap busy e in omega arith
Own-busy r0 (notes s p e) h = let b = ap busy e in omega arith
Own-busy r0 (times_out s p e) h = let b = ap busy e in omega arith
Own-busy r0 (sees_stop s p e f) h = let b = ap busy e in omega arith
Own-busy r0 (goes_on s p e f) h = let b = ap busy e in omega arith
Own-busy r0 (hears_early s p x e f) h = let b = ap busy e in omega arith
Own-busy r0 (answers s p e) h = let b = ap busy e in omega arith
Own-busy r0 (polls_again s p e) h = let b = ap busy e in omega arith
Own-busy r0 (announces s p e) h = let b = ap busy e in omega arith
Own-busy r0 (hears s p x e f) h = let b = ap busy e in omega arith
Own-busy r0 (leaves_exit s x e f) h = let b = ap busy e in omega arith
Own-busy r0 (stays s x e f) h = let b = ap busy e in omega arith
Own-busy r0 (reports_exit s x e) h = let b = ap busy e in omega arith
Own-busy r0 (reports_error s x e) h = let b = ap busy e in omega arith
Own-busy r0 (leaves_check s e f) h = let b = ap busy e in omega arith
Own-busy r0 (waits s e f) h = let b = ap busy e in omega arith
Own-busy r0 (wakes s e) h = let b = ap busy e in omega arith

Other-busy :
    {s t : Super}
    → Other s t
    → (s.inst.restarts ≡ t.inst.restarts) × (s.phase ≡ t.phase) × (s.next ≡ t.next)
Other-busy (process_ends s q) = (refl, refl, refl)
Other-busy (drains s line) = (refl, refl, refl)
Other-busy (begins_stop s i) = (refl, refl, refl)
Other-busy (kills s none i) = (refl, refl, refl)
Other-busy (kills s (some p) i) = (refl, refl, refl)
Other-busy (marks s i) = (refl, refl, refl)

Run-counted :
    (i : Instance) {n : ℕ} {s : Super}
    → Run (new_super i) n s
    → IsBackoff s.backoff × (s.inst.restarts + busy s.phase ≤ i.restarts + s.next)
unfolding new_super
Run-counted i begin = ((0, omega arith, refl), omega arith)
Run-counted i (own r o) =
    let (b, h) = Run-counted i r in (Own-IsBackoff o b, Own-busy i.restarts o h)
Run-counted i (other r o) =
    let (b, h) = Run-counted i r in
    let (e, f, g) = Other-busy o in
    let q = ap busy f in (subst IsBackoff (Other-backoff o) b, omega arith)

-- Over any run of an instance, with whatever processes, errors and calls, the sleep before the next
-- launch is one of 1, 2, 4, 8, 16 and 32 seconds, and the restarts counted are no more than those
-- before and one for each process started.
pub Run-IsBackoff :
    (i : Instance) {n : ℕ} {s : Super}
    → Run (new_super i) n s
    → IsBackoff s.backoff × (s.inst.restarts ≤ i.restarts + s.next)
Run-IsBackoff i r = let (b, h) = Run-counted i r in (b, omega arith)
