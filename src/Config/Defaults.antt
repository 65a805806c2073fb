-- ===== src/Config/Defaults.antt =====
-- `applyDefaults` of internal/config/config.go: what it fills in, and the ports that it gives out.
use llama_chip.Base.{
  All, All-mono, All-ne-Some, Bool-cases, Distinct, List, Some, Text, [], ap₂, arith, codes, false,
  if◌then◌else◌, inl, inr, is_empty, length, map, refl, suc, ℕ, ◌+◌, ◌<◌, ◌==◌, ◌∷◌, ◌≡◌, ◌≢◌, ◌≤◌,
  ◌⊎◌,
}
use llama_chip.Config.Defs.{
  Config, Slot, apply_defaults, fill_slot, fill_slots, or_default, port_after,
}

-- A slot that the defaults leave as it is.
pub record IsFilled (s : Slot) : Type 0 where
  pub has_cache : s.kv_cache ≢ []
  pub has_split : s.split_mode ≢ []
  pub has_port : s.port ≢ 0

or_default_fill : (d v : Text) → d ≢ [] → (if is_empty v then d else v) ≢ []
or_default_fill d [] h = h
or_default_fill d (c ∷ v) h = λ e. cc

fill_slot-IsFilled : (port : ℕ) (s : Slot) → port ≢ 0 → IsFilled (fill_slot port s)
unfolding fill_slot
fill_slot-IsFilled port s h = record {
  has_cache = or_default_fill _ s.kv_cache (λ e. cc);
  has_split = or_default_fill _ s.split_mode (λ e. cc);
  has_port = ground arith;
}

fill_slots-IsFilled : (port : ℕ) (ss : List Slot) → port ≢ 0 → All IsFilled (fill_slots port ss)
unfolding fill_slots
fill_slots-IsFilled port [] h = tt
fill_slots-IsFilled port (s ∷ ss) h =
    (fill_slot-IsFilled port s h, fill_slots-IsFilled (port_after port s) ss (ground arith))

fill_slot_of_IsFilled : (port : ℕ) (s : Slot) → IsFilled s → fill_slot port s ≡ s
unfolding fill_slot
fill_slot_of_IsFilled port s f = ground (arith, f.has_cache, f.has_split, f.has_port)

fill_slots_of_IsFilled : (port : ℕ) (ss : List Slot) → All IsFilled ss → fill_slots port ss ≡ ss
unfolding fill_slots
fill_slots_of_IsFilled port [] h = refl
fill_slots_of_IsFilled port (s ∷ ss) (f, h) =
    ap₂ ◌∷◌ (fill_slot_of_IsFilled port s f) (fill_slots_of_IsFilled (port_after port s) ss h)

or_default_idem : (d v : Text) → or_default d (or_default d v) ≡ or_default d v
or_default_idem [] [] = refl
or_default_idem (x ∷ d) [] = refl
or_default_idem d (c ∷ v) = refl

-- Whatever the file gives, the defaults leave every slot with a cache type, a split mode and a
-- port other than 0, and applying the defaults a second time changes nothing.
pub apply_defaults_idem :
    (c : Config)
    → All IsFilled (apply_defaults c).slots × (apply_defaults (apply_defaults c) ≡ apply_defaults c)
unfolding apply_defaults
apply_defaults_idem c =
    let base = if c.base_port == 0 then 9100 else c.base_port in
    let pos : base ≢ 0 = ground arith in
    let filled = fill_slots-IsFilled base c.slots pos in
    (
      filled,
      ground (
        arith,
        fill_slots_of_IsFilled base (fill_slots base c.slots) filled,
        or_default_idem (codes "cuda12") c.backend,
        or_default_idem (codes ":8090") c.listen,
      ),
    )

abbrev pub ports : List Slot → List ℕ
ports = map (λ s. s.port)

abbrev pub Explicit : (ℕ → Type 0) → List Slot → Type 0
Explicit P = All (λ s. s.port ≢ 0 → P s.port)

-- The ports that the file gives, with no two alike.
abbrev pub DistinctGiven : List Slot → Type 0
DistinctGiven [] = Unit
DistinctGiven (s ∷ ss) = (s.port ≢ 0 → Explicit (λ p. s.port ≢ p) ss) × DistinctGiven ss

-- A port below the next one to give out, that no later slot asks for, is not met again.
fill_slots_avoids :
    (q port : ℕ) (ss : List Slot)
    → q < port
    → Explicit (λ p. q ≢ p) ss
    → All (λ p. q ≢ p) (ports (fill_slots port ss))
unfolding fill_slots
fill_slots_avoids q port [] lt h = tt
fill_slots_avoids q port (s ∷ ss) lt (f, h) =
    (ground (arith, f), fill_slots_avoids q (port_after port s) ss (ground arith) h)

-- Nor is one above all that are given out.
fill_slots_above :
    (q port : ℕ) (ss : List Slot)
    → port + length ss ≤ q
    → Explicit (λ p. q ≢ p) ss
    → All (λ p. q ≢ p) (ports (fill_slots port ss))
unfolding fill_slots
fill_slots_above q port [] le h = tt
fill_slots_above q port (s ∷ ss) le (f, h) =
    (ground (arith, f), fill_slots_above q (port_after port s) ss (ground arith) h)

-- A port outside the range of those given out, that no later slot asks for.
abbrev Outside : ℕ → ℕ → ℕ → Type 0
Outside lo hi p = (p < lo) ⊎ (hi ≤ p)

fill_slots-Outside :
    (q port : ℕ) (ss : List Slot)
    → Outside port (port + length ss) q
    → Explicit (λ p. q ≢ p) ss
    → All (λ p. q ≢ p) (ports (fill_slots port ss))
fill_slots-Outside q port ss (inl lt) h = fill_slots_avoids q port ss lt h
fill_slots-Outside q port ss (inr le) h = fill_slots_above q port ss le h

Explicit-given :
    (port n : ℕ) (ss : List Slot)
    → Explicit (Outside port (port + suc n)) ss
    → (next : ℕ) → port ≤ next
    → next ≤ port + 1
    → Explicit (Outside next (next + n)) ss
Explicit-given port n ss h next lo hi = All-mono (λ s f p. ground (arith, f p)) ss h

head_avoids :
    (port : ℕ) (s : Slot) (ss : List Slot)
    → (s.port ≢ 0 → Outside port (port + suc (length ss)) s.port)
    → Explicit (Outside port (port + suc (length ss))) ss
    → (s.port ≢ 0 → Explicit (λ p. s.port ≢ p) ss)
    → All
        (λ p. (if s.port == 0 then port else s.port) ≢ p)
        (ports (fill_slots (port_after port s) ss))
head_avoids port s ss o h f = elim (Bool-cases (s.port == 0)) [
  | inl auto ↦ rw auto (
      fill_slots_avoids port (port + 1) ss (omega arith)
        (All-mono (λ t g p. ground (arith, g p)) ss h))
  | inr given ↦
      let nz : s.port ≢ 0 = ground arith in
      rw given (fill_slots-Outside s.port port ss (ground (arith, o nz)) (f nz))
]

fill_slots-Distinct :
    (port : ℕ) (ss : List Slot)
    → Explicit (Outside port (port + length ss)) ss
    → DistinctGiven ss
    → Distinct (ports (fill_slots port ss))
unfolding fill_slots
fill_slots-Distinct port [] h d = tt
fill_slots-Distinct port (s ∷ ss) (o, h) (f, d) = (
  head_avoids port s ss o h f,
  fill_slots-Distinct (port_after port s) ss
      (Explicit-given port (length ss) ss h (port_after port s) (ground arith) (ground arith)) d,
)

-- What the allocation of ports promises: where the ports given in the file are distinct and lie
-- outside the range that starts at the base port and has one port for each slot, all ports are
-- distinct after the defaults.
pub apply_defaults-Distinct :
    (c : Config)
    → c.base_port ≢ 0
    → Explicit (Outside c.base_port (c.base_port + length c.slots)) c.slots
    → DistinctGiven c.slots
    → Distinct (ports (apply_defaults c).slots)
unfolding apply_defaults
apply_defaults-Distinct c b o d =
    let given : (c.base_port == 0) ≡ false = ground arith in
    rw given (fill_slots-Distinct c.base_port c.slots o d)

-- A port that some slot asks for is met after the defaults.
Some-fill :
    (q port : ℕ) (ss : List Slot)
    → q ≢ 0
    → Some (λ t. t.port ≡ q) ss
    → Some (λ p. p ≡ q) (ports (fill_slots port ss))
unfolding fill_slots
Some-fill q port (s ∷ ss) nz (inl e) = inl (ground arith)
Some-fill q port (s ∷ ss) nz (inr h) = inr (Some-fill q (port_after port s) ss nz h)
Some-fill q port [] nz h = absurd h

-- What it does not do: it never looks at the ports given in the file. A first slot with no port
-- gets the base port also where a later slot asks for that very port, and both then share it.
pub apply_defaults_collision :
    (c : Config) (s : Slot) (ss : List Slot)
    → c.base_port ≢ 0
    → c.slots ≡ s ∷ ss
    → s.port ≡ 0
    → Some (λ t. t.port ≡ c.base_port) ss
    → ¬ Distinct (ports (apply_defaults c).slots)
unfolding apply_defaults fill_slots
apply_defaults_collision c s ss b e z clash d =
    let given : (c.base_port == 0) ≡ false = ground arith in
    let (first, _) = rw (e, given) at d in
    All-ne-Some (λ p f g. f (ground arith)) _ first
      (Some-fill c.base_port (port_after c.base_port s) ss b clash)
