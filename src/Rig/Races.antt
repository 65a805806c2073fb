-- ===== src/Rig/Races.antt =====
-- An instance that is stopped while its process starts, its arguments, an upstream and a ring, at
-- concrete inputs.
use llama_chip.Base.{Text, [], codes, none, refl, some, ℕ, ◌+◌, ◌∷◌, ◌≡◌, ◌≤◌, ◌⊎◌}
use llama_chip.Config.Tests.{plain_slot}
use llama_chip.Models.Tests.{gemma}
use llama_chip.Rig.Defs.{Instance, Rig, blank_backend, crashed, launched, starting, stopped}
use llama_chip.Rig.Supervise.{
  Run, Super, begin, begin_stop, begins_stop, checking, declares, done, failing, finds_port_taken,
  goes, killed, kills, launching, leaves_check, looping, marks, new_super, notes, opening, opens,
  other, over, own, polling, reports_error, sees_stop, sleeping, starts, starts_process, tells,
  waits, wakes,
}
use llama_chip.Rig.Tests.{pair}
use llama_chip.Rig.Backoff.{IsBackoff, Run-IsBackoff}
use llama_chip.Rig.Stopping.{CanStep, stop-Ends}

abbrev slow : Instance
slow = launched (plain_slot (codes "gemma") 9100) gemma blank_backend

abbrev opened : Super
opened = goes (tells (goes (new_super slow) launching) starting []) opening

opened-Run : Run (new_super slow) 2 opened
unfolding new_super
opened-Run = own (own begin (opens _ refl refl)) (declares _ refl)

-- The port is taken, and the sleep behind it is over.
abbrev retried : Super
retried =
    goes
      (record (goes
        (goes (tells (goes opened (failing (codes "port"))) crashed (codes "port")) checking)
        sleeping) { backoff = 2 })
      looping

retried-Run : Run (new_super slow) 6 retried
unfolding new_super
retried-Run =
    own
      (own (own (own opened-Run (finds_port_taken _ (codes "port") refl)) (reports_error _ _ refl))
        (waits _ refl refl))
      (wakes _ refl)

Run-IsBackoff_example :
    IsBackoff retried.backoff × (retried.inst.restarts ≤ slow.restarts + retried.next)
Run-IsBackoff_example = Run-IsBackoff slow retried-Run

-- Unload comes right before the process starts, finds none to kill and is through; launch then
-- starts the process, sees the stop and leaves it behind.
abbrev told : Super
told = begin_stop opened

told-Run : Run (new_super slow) 2 told
unfolding new_super
told-Run = other opened-Run (begins_stop _ refl)

abbrev through : Super
through = record (tells (killed told none) stopped []) { stopper = over }

abbrev left : Super
left =
    goes
      (goes
        (tells
          (goes (goes (record (starts_process through) { cmd = some 0 }) (polling 0))
            (failing (codes "stopping")))
          crashed (codes "stopping"))
        checking)
      done

left-Run : Run told 5 left
unfolding new_super
left-Run =
    own
      (own
        (own
          (own (own (other (other begin (kills _ none refl)) (marks _ refl)) (starts _ refl))
            (notes _ 0 refl))
          (sees_stop _ 0 refl refl))
        (reports_error _ _ refl))
      (leaves_check _ refl refl)

stop-Ends_example :
    (5 ≤ 6)
    × (left.next ≤ told.next + 1)
    × (left.stopper ≡ over → (left.phase ≡ done) ⊎ CanStep left)
unfolding new_super
stop-Ends_example = stop-Ends slow told-Run refl left-Run

left_behind : (left.phase ≡ done) × (left.running ≡ 0 ∷ []) × (left.inst.state ≡ crashed)
unfolding new_super
left_behind = (refl, refl, refl)

abbrev plain_number : ℕ → Text
plain_number n = n ∷ []

abbrev alone : Rig
alone = record pair { heap = λ i. slow; instances = 0 ∷ []; by_name = (codes "gemma", 0) ∷ [] }
