-- ===== src/Rig/Rank.antt =====
-- How many steps a supervisor makes once its instance is told to stop.
use llama_chip.Base.{ap, arith, none, refl, some, true, ℕ, ◌+◌, ◌≡◌, ◌≤◌}
use llama_chip.Rig.Supervise.{
  Other, Own, Phase, Run, Super, announces, answers, begin, begins_stop, cannot_start, checking,
  counting, declares, done, drains, exited, failing, finds_port_taken, goes_on, hears, hears_early,
  kills, launching, leaves_check, leaves_exit, leaves_loop, looping, marks, notes, opening, opens,
  other, own, polling, polls_again, probing, process_ends, reports_error, reports_exit, sees_stop,
  sleeping, started, starts, stays, times_out, up, waiting, waits, wakes,
}

-- How many steps of its own the supervisor still makes once it is told to stop, and how many
-- processes it still starts.
abbrev pub rank : Phase → ℕ
rank looping = 1
rank launching = 6
rank opening = 5
rank (started p) = 4
rank (polling p) = 3
rank (probing p) = 4
rank (up p) = 3
rank (waiting p) = 2
rank (failing e) = 2
rank (exited e) = 1
rank (counting e) = 2
rank checking = 1
rank sleeping = 2
rank done = 0

abbrev pub to_start : Phase → ℕ
to_start launching = 1
to_start opening = 1
to_start _ = 0

Own-rank :
    {s t : Super}
    → Own s t
    → s.inst.stopping ≡ true
    → (t.inst.stopping ≡ true)
      × (rank t.phase + 1 ≤ rank s.phase)
      × (t.next + to_start t.phase ≤ s.next + to_start s.phase)
Own-rank (leaves_loop s e f) h =
    let a = ap rank e in let b = ap to_start e in (h, omega arith, omega arith)
Own-rank (opens s e f) h = absurd (ground arith)
Own-rank (declares s e) h =
    let a = ap rank e in let b = ap to_start e in (h, omega arith, omega arith)
Own-rank (finds_port_taken s x e) h =
    let a = ap rank e in let b = ap to_start e in (h, omega arith, omega arith)
Own-rank (cannot_start s x e) h =
    let a = ap rank e in let b = ap to_start e in (h, omega arith, omega arith)
Own-rank (starts s e) h =
    let a = ap rank e in let b = ap to_start e in (h, omega arith, omega arith)
Own-rank (notes s p e) h =
    let a = ap rank e in let b = ap to_start e in (h, omega arith, omega arith)
Own-rank (times_out s p e) h =
    let a = ap rank e in let b = ap to_start e in (h, omega arith, omega arith)
Own-rank (sees_stop s p e f) h =
    let a = ap rank e in let b = ap to_start e in (h, omega arith, omega arith)
Own-rank (goes_on s p e f) h = absurd (ground arith)
Own-rank (hears_early s p x e f) h =
    let a = ap rank e in let b = ap to_start e in (h, omega arith, omega arith)
Own-rank (answers s p e) h =
    let a = ap rank e in let b = ap to_start e in (h, omega arith, omega arith)
Own-rank (polls_again s p e) h =
    let a = ap rank e in let b = ap to_start e in (h, omega arith, omega arith)
Own-rank (announces s p e) h =
    let a = ap rank e in let b = ap to_start e in (h, omega arith, omega arith)
Own-rank (hears s p x e f) h =
    let a = ap rank e in let b = ap to_start e in (h, omega arith, omega arith)
Own-rank (leaves_exit s x e f) h =
    let a = ap rank e in let b = ap to_start e in (h, omega arith, omega arith)
Own-rank (stays s x e f) h = absurd (ground arith)
Own-rank (reports_exit s x e) h =
    let a = ap rank e in let b = ap to_start e in (h, omega arith, omega arith)
Own-rank (reports_error s x e) h =
    let a = ap rank e in let b = ap to_start e in (h, omega arith, omega arith)
Own-rank (leaves_check s e f) h =
    let a = ap rank e in let b = ap to_start e in (h, omega arith, omega arith)
Own-rank (waits s e f) h = absurd (ground arith)
Own-rank (wakes s e) h = let a = ap rank e in let b = ap to_start e in (h, omega arith, omega arith)

Other-rank :
    {s t : Super}
    → Other s t
    → s.inst.stopping ≡ true
    → (t.inst.stopping ≡ true) × (s.phase ≡ t.phase) × (s.next ≡ t.next)
Other-rank (process_ends s q) h = (h, refl, refl)
Other-rank (drains s line) h = (h, refl, refl)
Other-rank (begins_stop s i) h = (refl, refl, refl)
Other-rank (kills s none i) h = (h, refl, refl)
Other-rank (kills s (some p) i) h = (h, refl, refl)
Other-rank (marks s i) h = (h, refl, refl)

pub Run-counted :
    {s t : Super} {n : ℕ}
    → s.inst.stopping ≡ true
    → Run s n t
    → (t.inst.stopping ≡ true)
      × (n + rank t.phase ≤ rank s.phase)
      × (t.next + to_start t.phase ≤ s.next + to_start s.phase)
Run-counted h begin = (h, omega arith, omega arith)
Run-counted h (own r o) =
    let (k, a, b) = Run-counted h r in
    let (k', a', b') = Own-rank o k in (k', omega arith, omega arith)
Run-counted h (other r o) =
    let (k, a, b) = Run-counted h r in
    let (k', p, q) = Other-rank o k in
    let p1 = ap rank p in let p2 = ap to_start p in (k', omega arith, omega arith)

pub rank-le : (ph : Phase) → rank ph ≤ 6
rank-le looping = omega arith
rank-le launching = omega arith
rank-le opening = omega arith
rank-le checking = omega arith
rank-le sleeping = omega arith
rank-le done = omega arith
rank-le (started p) = omega arith
rank-le (polling p) = omega arith
rank-le (probing p) = omega arith
rank-le (up p) = omega arith
rank-le (waiting p) = omega arith
rank-le (failing e) = omega arith
rank-le (exited e) = omega arith
rank-le (counting e) = omega arith

pub to_start-le : (ph : Phase) → to_start ph ≤ 1
to_start-le looping = omega arith
to_start-le launching = omega arith
to_start-le opening = omega arith
to_start-le checking = omega arith
to_start-le sleeping = omega arith
to_start-le done = omega arith
to_start-le (started p) = omega arith
to_start-le (polling p) = omega arith
to_start-le (probing p) = omega arith
to_start-le (up p) = omega arith
to_start-le (waiting p) = omega arith
to_start-le (failing e) = omega arith
to_start-le (exited e) = omega arith
to_start-le (counting e) = omega arith
