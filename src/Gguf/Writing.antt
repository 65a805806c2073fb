-- ===== src/Gguf/Writing.antt =====
-- The GGUF format as its documents have it: how a file with a list of metadata entries begins.
use llama_chip.Base.{
  All, List, Text, [], insert, length, not, suc, zero, ℕ, ◌%◌, ◌++◌, ◌/◌, ◌<◌, ◌==◌, ◌^◌, ◌∷◌, ◌≤◌,
}
use llama_chip.Gguf.Defs.{Value, boolean, float, i64, nothing, sign_extend, string, u64}

pub data NumType : Type 0 where
  uint8 int8 uint16 int16 uint32 int32 float32 bool8 uint64 int64 float64 : NumType

abbrev pub width : NumType → ℕ
width uint8 = 1
width int8 = 1
width bool8 = 1
width uint16 = 2
width int16 = 2
width uint32 = 4
width int32 = 4
width float32 = 4
width uint64 = 8
width int64 = 8
width float64 = 8

abbrev pub code_of : NumType → ℕ
code_of uint8 = 0
code_of int8 = 1
code_of uint16 = 2
code_of int16 = 3
code_of uint32 = 4
code_of int32 = 5
code_of float32 = 6
code_of bool8 = 7
code_of uint64 = 10
code_of int64 = 11
code_of float64 = 12

-- What a number of a type, given by its pattern, means.
abbrev pub number : NumType → ℕ → Value
number uint8 n = u64 n
number uint16 n = u64 n
number uint32 n = u64 n
number uint64 n = u64 n
number int8 n = i64 (sign_extend 1 n)
number int16 n = i64 (sign_extend 2 n)
number int32 n = i64 (sign_extend 4 n)
number int64 n = i64 (sign_extend 8 n)
number float32 n = float n
number float64 n = float n
number bool8 n = boolean (not (n == 0))

-- A value of the metadata: a number, a string, or an array of one of them.
pub data Wire : Type 0 where
  num : NumType → ℕ → Wire
  str : Text → Wire
  nums : NumType → List ℕ → Wire
  strs : List Text → Wire

-- The value that the reader keeps of it: of an array, the first element.
abbrev pub meaning : Wire → Value
meaning (num t n) = number t n
meaning (str s) = string s
meaning (nums t []) = nothing
meaning (nums t (n ∷ ns)) = number t n
meaning (strs []) = nothing
meaning (strs (s ∷ ss)) = string s

unfoldable pub le_bytes : ℕ → ℕ → List ℕ
le_bytes zero n = []
le_bytes (suc w) n = n % 256 ∷ le_bytes w (n / 256)

unfoldable pub write_string : Text → List ℕ
unfolding le_bytes
write_string s = le_bytes 8 (length s) ++ s

unfoldable pub write_all {ℓ} : {A : Type ℓ} → (A → List ℕ) → List A → List ℕ
write_all write [] = []
write_all write (x ∷ xs) = write x ++ write_all write xs

-- The type code and the bytes of a value.
abbrev pub write_value : Wire → List ℕ
write_value (num t n) = le_bytes 4 (code_of t) ++ le_bytes (width t) n
write_value (str s) = le_bytes 4 8 ++ write_string s
write_value (nums t ns) =
    le_bytes 4 9
    ++ (le_bytes 4 (code_of t) ++ (le_bytes 8 (length ns) ++ write_all (le_bytes (width t)) ns))
write_value (strs ss) =
    le_bytes 4 9 ++ (le_bytes 4 8 ++ (le_bytes 8 (length ss) ++ write_all write_string ss))

unfoldable pub write_entry : Text × Wire → List ℕ
unfolding write_string write_all
write_entry (k, v) = write_string k ++ write_value v

-- The file up to the tensors: the magic number, the version, the counts, and the entries.
unfoldable pub write_header : ℕ → ℕ → List (Text × Wire) → List ℕ
unfolding write_entry
write_header version tensors es =
    le_bytes 4 0x46554747
    ++ (le_bytes 4 version
        ++ (le_bytes 8 tensors ++ (le_bytes 8 (length es) ++ write_all write_entry es)))

-- The sizes that the format and the reader allow.
abbrev pub IsShort : Text → Type 0
IsShort s = length s ≤ 2 ^ 20

abbrev pub Fits : Wire → Type 0
Fits (num t n) = n < 256 ^ width t
Fits (str s) = IsShort s
Fits (nums t ns) = (length ns < 256 ^ 8) × All (λ n. n < 256 ^ width t) ns
Fits (strs ss) = (length ss < 256 ^ 8) × All IsShort ss

-- The table that the entries make, where a later entry of a key stands for an earlier one.
abbrev pub table : List (Text × Wire) → List (Text × Value) → List (Text × Value)
table [] meta = meta
table ((k, v) ∷ es) meta = table es (insert k (meaning v) meta)
