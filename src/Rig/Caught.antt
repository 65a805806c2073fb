-- ===== src/Rig/Caught.antt =====
-- A stop kills the process that the supervisor waits for.
use llama_chip.Base.{
  Bool, List, [], any, arith, false, none, not, refl, select, some, some_inj, subst, sym, true, ℕ,
  ◌==◌, ◌∙◌, ◌∷◌, ◌≡◌,
}
use llama_chip.Rig.Defs.{stopped}
use llama_chip.Rig.Ring.{push}
use llama_chip.Rig.Supervise.{
  Other, Own, Phase, Run, Stopper, Super, announces, answers, begin, begin_stop, begins_stop,
  cannot_start, checking, counting, declares, done, drains, ends, exited, failing, finds_port_taken,
  goes_on, hears, hears_early, idle, killed, killing, kills, launching, leaves_check, leaves_exit,
  leaves_loop, looping, marking, marks, notes, opening, opens, other, over, own, polling,
  polls_again, probing, process_ends, reports_error, reports_exit, sees_stop, sleeping, started,
  starts, stays, tells, times_out, up, waiting, waits, wakes,
}

-- What holds of the phase, for the process that the supervisor deals with.
abbrev pub IsCaught : Stopper → List ℕ → ℕ → Type 0
IsCaught idle running p = Unit
IsCaught (killing c) running p = c ≡ some p
IsCaught marking running p = any (λ q. q == p) running ≡ false
IsCaught over running p = any (λ q. q == p) running ≡ false

abbrev pub Follows : Phase → Super → Type 0
Follows (polling p) s = s.cmd ≡ some p
Follows (probing p) s = (s.cmd ≡ some p) × IsCaught s.stopper s.running p
Follows (up p) s = (s.cmd ≡ some p) × IsCaught s.stopper s.running p
Follows (waiting p) s = (s.cmd ≡ some p) × IsCaught s.stopper s.running p
Follows done s = s.inst.stopping ≡ true
Follows _ s = Unit

abbrev pub Stands : Stopper → Bool → Type 0
Stands idle stopping = Unit
Stands (killing c) stopping = stopping ≡ true
Stands marking stopping = stopping ≡ true
Stands over stopping = stopping ≡ true

-- Before a stop begins there is nothing to catch.
IsCaught-before :
    (k : Stopper) (running : List ℕ) (p : ℕ) (b : Bool)
    → Stands k b
    → b ≡ false
    → IsCaught k running p
IsCaught-before idle running p b h f = tt
IsCaught-before (killing c) running p b h f = absurd (ground arith)
IsCaught-before marking running p b h f = absurd (ground arith)
IsCaught-before over running p b h f = absurd (ground arith)

any-select :
    (p q : ℕ) (ps : List ℕ)
    → any (λ x. x == p) ps ≡ false
    → any (λ x. x == p) (select (λ x. not (x == q)) ps) ≡ false
any-select p q [] h = refl
any-select p q (x ∷ ps) h = let rest = any-select p q ps in ground arith

any-select_same : (p : ℕ) (ps : List ℕ) → any (λ x. x == p) (select (λ x. not (x == p)) ps) ≡ false
any-select_same p [] = refl
any-select_same p (x ∷ ps) = let rest = any-select_same p ps in ground arith

IsCaught-less :
    (k : Stopper) (running : List ℕ) (p q : ℕ)
    → IsCaught k running p
    → IsCaught k (select (λ x. not (x == q)) running) p
IsCaught-less idle running p q h = tt
IsCaught-less (killing c) running p q h = h
IsCaught-less marking running p q h = any-select p q running h
IsCaught-less over running p q h = any-select p q running h

Own-Stands :
    {s t : Super} → Own s t → Stands s.stopper s.inst.stopping → Stands t.stopper t.inst.stopping
Own-Stands (leaves_loop s e f) h = h
Own-Stands (opens s e f) h = h
Own-Stands (declares s e) h = h
Own-Stands (finds_port_taken s x e) h = h
Own-Stands (cannot_start s x e) h = h
Own-Stands (starts s e) h = h
Own-Stands (notes s p e) h = h
Own-Stands (times_out s p e) h = h
Own-Stands (sees_stop s p e f) h = h
Own-Stands (goes_on s p e f) h = h
Own-Stands (hears_early s p x e f) h = h
Own-Stands (answers s p e) h = h
Own-Stands (polls_again s p e) h = h
Own-Stands (announces s p e) h = h
Own-Stands (hears s p x e f) h = h
Own-Stands (leaves_exit s x e f) h = h
Own-Stands (stays s x e f) h = h
Own-Stands (reports_exit s x e) h = h
Own-Stands (reports_error s x e) h = h
Own-Stands (leaves_check s e f) h = h
Own-Stands (waits s e f) h = h
Own-Stands (wakes s e) h = h

Own-Follows :
    {s t : Super}
    → Own s t
    → Stands s.stopper s.inst.stopping
    → Follows s.phase s
    → Follows t.phase t
Own-Follows (leaves_loop s e f) k h = f
Own-Follows (opens s e f) k h = tt
Own-Follows (declares s e) k h = tt
Own-Follows (finds_port_taken s x e) k h = tt
Own-Follows (cannot_start s x e) k h = tt
Own-Follows (starts s e) k h = tt
Own-Follows (notes s p e) k h = refl
Own-Follows (times_out s p e) k h = tt
Own-Follows (sees_stop s p e f) k h = tt
Own-Follows (goes_on s p e f) k h =
    (subst (λ x. Follows x s) e h, IsCaught-before s.stopper s.running p s.inst.stopping k f)
Own-Follows (hears_early s p x e f) k h = tt
Own-Follows (answers s p e) k h = subst (λ x. Follows x s) e h
Own-Follows (polls_again s p e) k h = (subst (λ x. Follows x s) e h).0
Own-Follows (announces s p e) k h = subst (λ x. Follows x s) e h
Own-Follows (hears s p x e f) k h = tt
Own-Follows (leaves_exit s x e f) k h = f
Own-Follows (stays s x e f) k h = tt
Own-Follows (reports_exit s x e) k h = tt
Own-Follows (reports_error s x e) k h = tt
Own-Follows (leaves_check s e f) k h = f
Own-Follows (waits s e f) k h = tt
Own-Follows (wakes s e) k h = tt

Other-Stands :
    {s t : Super} → Other s t → Stands s.stopper s.inst.stopping → Stands t.stopper t.inst.stopping
Other-Stands (process_ends s q) h = h
Other-Stands (drains s line) h = h
Other-Stands (begins_stop s i) h = refl
Other-Stands (kills s none i) h = subst (λ k. Stands k s.inst.stopping) i h
Other-Stands (kills s (some p) i) h = subst (λ k. Stands k s.inst.stopping) i h
Other-Stands (marks s i) h = subst (λ k. Stands k s.inst.stopping) i h

-- A change of the fields that the phase does not see.
Follows-change :
    (ph : Phase) (s t : Super)
    → s.cmd ≡ t.cmd
    → (s.inst.stopping ≡ true → t.inst.stopping ≡ true)
    → ((p : ℕ) → s.cmd ≡ some p → IsCaught s.stopper s.running p → IsCaught t.stopper t.running p)
    → Follows ph s
    → Follows ph t
Follows-change (polling p) s t c b f h = sym c ∙ h
Follows-change (probing p) s t c b f (h, g) = (sym c ∙ h, f p h g)
Follows-change (up p) s t c b f (h, g) = (sym c ∙ h, f p h g)
Follows-change (waiting p) s t c b f (h, g) = (sym c ∙ h, f p h g)
Follows-change done s t c b f h = b h
Follows-change looping s t c b f h = tt
Follows-change launching s t c b f h = tt
Follows-change opening s t c b f h = tt
Follows-change checking s t c b f h = tt
Follows-change sleeping s t c b f h = tt
Follows-change (started p) s t c b f h = tt
Follows-change (failing e) s t c b f h = tt
Follows-change (exited e) s t c b f h = tt
Follows-change (counting e) s t c b f h = tt

Other-Follows : {s t : Super} → Other s t → Follows s.phase s → Follows t.phase t
Other-Follows (process_ends s q) h =
    Follows-change s.phase s (ends s q) refl (λ b. b)
      (λ p c g. IsCaught-less s.stopper s.running p q g) h
Other-Follows (drains s line) h =
    Follows-change s.phase s (record s { tail = push s.tail line }) refl (λ b. b) (λ p c g. g) h
Other-Follows (begins_stop s i) h =
    Follows-change s.phase s (begin_stop s) refl (λ b. refl) (λ p c g. c) h
Other-Follows (kills s none i) h =
    Follows-change s.phase s (killed s none) refl (λ b. b)
      (λ p c g. let bad = subst (λ k. IsCaught k s.running p) i g in cc) h
Other-Follows (kills s (some q) i) h =
    Follows-change s.phase s (killed s (some q)) refl (λ b. b)
      (λ p c g.
        let hit : q ≡ p = some_inj (subst (λ k. IsCaught k s.running p) i g) in
        subst (λ x. any (λ y. y == p) (select (λ y. not (y == x)) s.running) ≡ false) (sym hit)
          (any-select_same p s.running))
      h
Other-Follows (marks s i) h =
    Follows-change s.phase s (record (tells s stopped []) { stopper = over }) refl (λ b. b)
      (λ p c g. subst (λ k. IsCaught k s.running p) i g) h

pub Run-Follows :
    {s t : Super} {n : ℕ}
    → Stands s.stopper s.inst.stopping
    → Follows s.phase s
    → Run s n t
    → Stands t.stopper t.inst.stopping × Follows t.phase t
Run-Follows k h begin = (k, h)
Run-Follows k h (own r o) =
    let (k', h') = Run-Follows k h r in (Own-Stands o k', Own-Follows o k' h')
Run-Follows k h (other r o) =
    let (k', h') = Run-Follows k h r in (Other-Stands o k', Other-Follows o h')
