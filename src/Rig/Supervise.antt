-- ===== src/Rig/Supervise.antt =====
-- supervise and launch of internal/rig/rig.go: one instance with the goroutine that supervises it,
-- the processes it has started, and the one call of Unload or StopAll that stops it. Each step is
-- what happens between two looks at the shared fields; a process is its number.
use llama_chip.Base.{
  Bool, List, Option, Text, [], any, codes, false, if◌then◌else◌, ltb, none, not, select, some, suc,
  true, ℕ, ◌*◌, ◌++◌, ◌+◌, ◌==◌, ◌∷◌, ◌≡◌,
}
use llama_chip.Rig.Defs.{Instance, State, crashed, healthy, starting, stopped}
use llama_chip.Rig.Calls.{set}
use llama_chip.Rig.Ring.{Ring, last_lines, new_ring, push}

-- Where the supervisor stands: at the head of its loop, in launch before and behind the start of a
-- process, at the head of the poll loop and behind its look at `stopping`, behind launch with an
-- error or a healthy process, at the wait for the exit and behind it, at the last look and in the
-- sleep.
pub data Phase : Type 0 where
  looping launching opening checking sleeping done : Phase
  started polling probing up waiting : ℕ → Phase
  failing exited counting : Text → Phase

-- Where the call that stops the instance stands, with the process that it read.
pub data Stopper : Type 0 where
  idle marking over : Stopper
  killing : Option ℕ → Stopper

pub record Super : Type 0 where
  pub inst : Instance
  pub tail : Ring
  pub phase : Phase
  pub backoff : ℕ
  pub cmd : Option ℕ
  pub running : List ℕ
  pub next : ℕ
  pub stopper : Stopper

unfoldable pub new_super : Instance → Super
unfolding new_ring
new_super i = record {
  inst = i;
  tail = new_ring 60;
  phase = looping;
  backoff = 1;
  cmd = none;
  running = [];
  next = 0;
  stopper = idle;
}

abbrev pub goes : Super → Phase → Super
goes s p = record s { phase = p }

abbrev pub tells : Super → State → Text → Super
tells s st msg = record s { inst = set s.inst st msg }

abbrev pub runs : Super → ℕ → Bool
runs s p = any (λ q. q == p) s.running

abbrev pub doubled : ℕ → ℕ
doubled n = if ltb n 30 then n * 2 else n

-- `exited during load (…) — …`, `exited: … — …` and `health timeout — …`.
abbrev pub early_text : Super → Text → Text
early_text s e = codes "exited during load (" ++ (e ++ (codes ") — " ++ last_lines s.tail))

abbrev pub exit_text : Super → Text → Text
exit_text s e = codes "exited: " ++ (e ++ (codes " — " ++ last_lines s.tail))

abbrev pub timeout_text : Super → Text
timeout_text s = codes "health timeout — " ++ last_lines s.tail

abbrev pub starts_process : Super → Super
starts_process s = record s {
  phase = started s.next;
  running = s.next ∷ s.running;
  next = s.next + 1;
}

abbrev pub counts_restart : Super → Super
counts_restart s = record s { inst = record (s.inst) { restarts = s.inst.restarts + 1 } }

-- The steps of the supervisor. The operating system gives the texts of errors and of exits.
pub data Own : Super → Super → Type 0 where
  leaves_loop : (s : Super) → s.phase ≡ looping → s.inst.stopping ≡ true → Own s (goes s done)
  opens : (s : Super) → s.phase ≡ looping → s.inst.stopping ≡ false → Own s (goes s launching)
  declares : (s : Super) → s.phase ≡ launching → Own s (goes (tells s starting []) opening)
  finds_port_taken : (s : Super) (e : Text) → s.phase ≡ opening → Own s (goes s (failing e))
  cannot_start : (s : Super) (e : Text) → s.phase ≡ opening → Own s (goes s (failing e))
  starts : (s : Super) → s.phase ≡ opening → Own s (starts_process s)
  notes :
      (s : Super) (p : ℕ)
      → s.phase ≡ started p
      → Own s (goes (record s { cmd = some p }) (polling p))
  times_out : (s : Super) (p : ℕ) → s.phase ≡ polling p → Own s (goes s (failing (timeout_text s)))
  sees_stop :
      (s : Super) (p : ℕ)
      → s.phase ≡ polling p
      → s.inst.stopping ≡ true
      → Own s (goes s (failing (codes "stopping")))
  goes_on :
      (s : Super) (p : ℕ)
      → s.phase ≡ polling p
      → s.inst.stopping ≡ false
      → Own s (goes s (probing p))
  hears_early :
      (s : Super) (p : ℕ) (e : Text)
      → s.phase ≡ probing p
      → runs s p ≡ false
      → Own s (goes s (failing (early_text s e)))
  answers : (s : Super) (p : ℕ) → s.phase ≡ probing p → Own s (goes s (up p))
  polls_again : (s : Super) (p : ℕ) → s.phase ≡ probing p → Own s (goes s (polling p))
  announces :
      (s : Super) (p : ℕ)
      → s.phase ≡ up p
      → Own s (goes (tells (record s { backoff = 1 }) healthy []) (waiting p))
  hears :
      (s : Super) (p : ℕ) (e : Text)
      → s.phase ≡ waiting p
      → runs s p ≡ false
      → Own s (goes s (exited e))
  leaves_exit :
      (s : Super) (e : Text) → s.phase ≡ exited e → s.inst.stopping ≡ true → Own s (goes s done)
  stays :
      (s : Super) (e : Text)
      → s.phase ≡ exited e
      → s.inst.stopping ≡ false
      → Own s (goes s (counting e))
  reports_exit :
      (s : Super) (e : Text)
      → s.phase ≡ counting e
      → Own s (goes (tells (counts_restart s) crashed (exit_text s e)) checking)
  reports_error :
      (s : Super) (e : Text) → s.phase ≡ failing e → Own s (goes (tells s crashed e) checking)
  leaves_check : (s : Super) → s.phase ≡ checking → s.inst.stopping ≡ true → Own s (goes s done)
  waits : (s : Super) → s.phase ≡ checking → s.inst.stopping ≡ false → Own s (goes s sleeping)
  wakes :
      (s : Super)
      → s.phase ≡ sleeping
      → Own s (goes (record s { backoff = doubled s.backoff }) looping)

abbrev pub ends : Super → ℕ → Super
ends s p = record s { running = select (λ q. not (q == p)) s.running }

abbrev pub killed : Super → Option ℕ → Super
killed s none = record s { stopper = marking }
killed s (some p) = record (ends s p) { stopper = marking }

abbrev pub begin_stop : Super → Super
begin_stop s = record s { inst = record (s.inst) { stopping = true }; stopper = killing s.cmd }

-- The steps of the rest: a process ends, one writes a line, and the call that stops the instance
-- reads the process under the lock, kills it and writes the state.
pub data Other : Super → Super → Type 0 where
  process_ends : (s : Super) (p : ℕ) → Other s (ends s p)
  drains : (s : Super) (line : Text) → Other s (record s { tail = push s.tail line })
  begins_stop : (s : Super) → s.stopper ≡ idle → Other s (begin_stop s)
  kills : (s : Super) (c : Option ℕ) → s.stopper ≡ killing c → Other s (killed s c)
  marks :
      (s : Super) → s.stopper ≡ marking → Other s (record (tells s stopped []) { stopper = over })

-- A run, with the number of the supervisor's own steps in it.
pub data Run (s : Super) : ℕ → Super → Type 0 where
  begin : Run s 0 s
  own : {n : ℕ} {t u : Super} → Run s n t → Own t u → Run s (suc n) u
  other : {n : ℕ} {t u : Super} → Run s n t → Other t u → Run s n u

-- superviseExternal: the answer of one poll, the state and the reason it gives, and the loop with
-- the state written last.
pub data Poll : Type 0 where
  unreachable : Text → Poll
  answered : ℕ → Poll

unfoldable pub verdict : Poll → State
verdict (unreachable e) = crashed
verdict (answered status) = if status == 200 then healthy else crashed

abbrev pub reason : (ℕ → Text) → Poll → Text
reason itoa (unreachable e) = codes "upstream unreachable: " ++ e
reason itoa (answered status) =
    if status == 200 then [] else codes "upstream /health returned " ++ itoa status

abbrev pub same_state : State → Option State → Bool
same_state healthy (some healthy) = true
same_state crashed (some crashed) = true
same_state starting (some starting) = true
same_state stopped (some stopped) = true
same_state _ _ = false

unfoldable pub watch : (ℕ → Text) → Instance → Option State → List Poll → Instance
unfolding verdict
watch itoa i last [] = i
watch itoa i last (p ∷ ps) =
    if same_state (verdict p) last
    then watch itoa i last ps
    else watch itoa (set i (verdict p) (reason itoa p)) (some (verdict p)) ps
