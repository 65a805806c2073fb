-- ===== src/Rig/Stopping.antt =====
-- How a stop ends the supervisor of an instance.
use llama_chip.Base.{[], arith, inl, inr, refl, subst, true, ℕ, ◌+◌, ◌≡◌, ◌≤◌, ◌⊎◌}
use llama_chip.Rig.Supervise.{
  Own, Phase, Run, Super, announces, answers, checking, counting, declares, done, exited, failing,
  goes, hears, launching, leaves_check, leaves_exit, leaves_loop, looping, new_super, notes,
  opening, over, polling, probing, reports_error, reports_exit, sees_stop, sleeping, started,
  starts, up, waiting, wakes,
}
use llama_chip.Rig.Defs.{Instance}
use llama_chip.Rig.Rank.{Run-counted, rank-le, to_start-le}
use llama_chip.Rig.Caught.{Follows, IsCaught, Run-Follows}

abbrev pub CanStep : Super → Type 0
CanStep s = (t : Super) × Own s t

over-CanStep :
    (ph : Phase) (s : Super)
    → s.phase ≡ ph
    → s.stopper ≡ over
    → s.inst.stopping ≡ true
    → Follows ph s
    → (ph ≡ done) ⊎ CanStep s
over-CanStep looping s e k b h = inr (goes s done, leaves_loop s e b)
over-CanStep launching s e k b h = inr (_, declares s e)
over-CanStep opening s e k b h = inr (_, starts s e)
over-CanStep (started p) s e k b h = inr (_, notes s p e)
over-CanStep (polling p) s e k b h = inr (_, sees_stop s p e b)
over-CanStep (probing p) s e k b h = inr (_, answers s p e)
over-CanStep (up p) s e k b h = inr (_, announces s p e)
over-CanStep (waiting p) s e k b (h, g) =
    inr (_, hears s p [] e (subst (λ x. IsCaught x s.running p) k g))
over-CanStep (failing x) s e k b h = inr (_, reports_error s x e)
over-CanStep (exited x) s e k b h = inr (_, leaves_exit s x e b)
over-CanStep (counting x) s e k b h = inr (_, reports_exit s x e)
over-CanStep checking s e k b h = inr (_, leaves_check s e b)
over-CanStep sleeping s e k b h = inr (_, wakes s e)
over-CanStep done s e k b h = inl refl

-- From the time that an instance is told to stop, in any run: its supervisor makes six steps of its
-- own at most and starts one process at most; and once the call that stops it is through, the
-- supervisor has returned or can make a step, whatever the processes do.
pub stop-Ends :
    (i : Instance) {m n : ℕ} {s t : Super}
    → Run (new_super i) m s
    → s.inst.stopping ≡ true
    → Run s n t
    → (n ≤ 6) × (t.next ≤ s.next + 1) × (t.stopper ≡ over → (t.phase ≡ done) ⊎ CanStep t)
unfolding new_super
stop-Ends i {m} {n} {s} {t} before told after =
    let (k, h) = Run-Follows tt tt before in
    let (k', h') = Run-Follows k h after in
    let (still, steps, made) = Run-counted told after in
    let a = rank-le s.phase in
    let b = to_start-le s.phase in
    (omega arith, omega arith, λ through. over-CanStep t.phase t refl through still h')
