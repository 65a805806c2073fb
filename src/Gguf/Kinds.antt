-- ===== src/Gguf/Kinds.antt =====
-- A value that is read is of the kind that its type code says.
use llama_chip.Base.{All, Bool, Text, err, length, ok, some, ℕ, ◌<◌, ◌^◌, ◌≡◌, ◌≤◌, ◌⊎◌}
use llama_chip.Gguf.Defs.{
  Kind, Reading, Value, array, boolean, float, i64, kind_of, nothing, real, sign_extend, signed,
  string, text, truth, u64, unsigned,
}

abbrev pub IsByte : ℕ → Type 0
IsByte b = b < 256

-- The values of a kind. An array gives its first element, of a kind of its own, or nothing.
pub data HasKind : Kind → Value → Type 0 where
  of_unsigned : (w n : ℕ) → n < 256 ^ w → HasKind (unsigned w) (u64 n)
  of_signed : (w n : ℕ) → n < 256 ^ w → HasKind (signed w) (i64 (sign_extend w n))
  of_real : (w n : ℕ) → n < 256 ^ w → HasKind (real w) (float n)
  of_truth : (b : Bool) → HasKind truth (boolean b)
  of_text : (s : Text) → length s ≤ 2 ^ 20 → All IsByte s → HasKind text (string s)
  of_empty : HasKind array nothing
  of_first : (et : ℕ) (k : Kind) (v : Value) → kind_of et ≡ some k → HasKind k v → HasKind array v

-- A reading that, where it does not fail, gives a result of this sort and leaves bytes.
abbrev pub Holds : {A : Type 0} → (A → Type 0) → Reading A → Type 0
Holds P (ok x) = P x.0 × All IsByte x.1
Holds P (err e) = Unit

abbrev pub IsShortText : Text → Type 0
IsShortText s = (length s ≤ 2 ^ 20) × All IsByte s

-- A value of some kind that a type code has.
abbrev pub IsTyped : Value → Type 0
IsTyped v = (et : ℕ) × (k : Kind) × (kind_of et ≡ some k) × HasKind k v

abbrev IsElement : Value → Type 0
IsElement v = (v ≡ nothing) ⊎ IsTyped v

abbrev IsTypedEntry : Text × Value → Type 0
IsTypedEntry e = IsShortText e.0 × IsTyped e.1
