-- ===== src/Gguf/Defs.antt =====
-- internal/gguf/gguf.go: the reader of a model file's metadata. A file is its list of bytes, which
-- are numbers below 256, and strings are the texts of their bytes.
use llama_chip.Base.{
  Bool, List, Option, Result, String, Text, [], codes, drop, err, false, if◌then◌else◌, insert,
  length, lookup, ltb, none, not, ok, some, suc, take, true, zero, ℕ, ◌%◌, ◌*◌, ◌++◌, ◌+◌, ◌-◌, ◌/◌,
  ◌==◌, ◌>>=◌, ◌^◌, ◌∷◌,
}

pub data GgufError : Type 0 where
  not_gguf eof too_long unknown_type out_of_fuel : GgufError

-- The values that readTyped returns. A signed number is its pattern of 64 bits, a float its own
-- pattern, and `nothing` is nil.
pub data Value : Type 0 where
  u64 i64 float : ℕ → Value
  boolean : Bool → Value
  string : Text → Value
  nothing : Value

-- The type codes: numbers of some bytes, and the rest.
pub data Kind : Type 0 where
  unsigned signed real : ℕ → Kind
  truth text array : Kind

-- The cases of readTyped's switch.
unfoldable pub kind_of : ℕ → Option Kind
kind_of t =
    if t == 0
    then some (unsigned 1)
    else (if t == 1
        then some (signed 1)
        else (if t == 2
            then some (unsigned 2)
            else (if t == 3
                then some (signed 2)
                else (if t == 4
                    then some (unsigned 4)
                    else (if t == 5
                        then some (signed 4)
                        else (if t == 6
                            then some (real 4)
                            else (if t == 7
                                then some truth
                                else (if t == 8
                                    then some text
                                    else (if t == 9
                                        then some array
                                        else (if t == 10
                                            then some (unsigned 8)
                                            else (if t == 11
                                                then some (signed 8)
                                                else (if t == 12
                                                    then some (real 8)
                                                    else none))))))))))))

-- Little-endian bytes as a number.
abbrev pub le_value : List ℕ → ℕ
le_value [] = 0
le_value (b ∷ bs) = b + 256 * le_value bs

-- binary.Read of some bytes: a number and the rest, or what is left is used up.
unfoldable pub read_le : ℕ → List ℕ → Option ℕ × List ℕ
read_le w bs = if ltb (length bs) w then (none, []) else (some (le_value (take w bs)), drop w bs)

-- A number that is not read stays 0.
abbrev pub or_zero : Option ℕ → ℕ
or_zero none = 0
or_zero (some n) = n

-- int64(v) of a number of `w` bytes.
unfoldable pub sign_extend : ℕ → ℕ → ℕ
sign_extend w n = if ltb (n * 2) (256 ^ w) then n else n + 2 ^ 64 - 256 ^ w

abbrev pub Reading : Type 0 → Type 0
Reading A = Result GgufError (A × List ℕ)

-- A number whose end of file is an error, and one whose end of file is not looked at.
abbrev pub checked : Option ℕ × List ℕ → Reading ℕ
checked (none, bs) = err eof
checked (some n, bs) = ok (n, bs)

abbrev pub scalar : (ℕ → Value) → Option ℕ × List ℕ → Reading Value
scalar f (n, bs) = ok (f (or_zero n), bs)

abbrev pub take_string : ℕ × List ℕ → Reading Text
take_string (n, bs) =
    if ltb (2 ^ 20) n
    then err too_long
    else (if ltb (length bs) n then err eof else ok (take n bs, drop n bs))

unfoldable pub read_string : List ℕ → Reading Text
unfolding read_le
read_string bs = checked (read_le 8 bs) >>= take_string

abbrev pub as_string : Text × List ℕ → Reading Value
as_string (s, bs) = ok (string s, bs)

-- The loop over the elements of an array, with the reader of one element: the first one is kept.
unfoldable pub read_items : (List ℕ → Reading Value) → ℕ → Value → Bool → List ℕ → Reading Value
read_items rd zero kept seen bs = ok (kept, bs)
read_items rd (suc n) kept seen bs =
    rd bs >>= λ x. read_items rd n (if seen then kept else x.0) true x.1

-- The reader of an array's elements is looked up for the type code that the file gives.
abbrev pub read_array : (ℕ → List ℕ → Reading Value) → ℕ → ℕ × List ℕ → Reading Value
read_array rd et (n, bs) = read_items (rd et) n nothing false bs

abbrev pub read_kind : (ℕ → List ℕ → Reading Value) → Option Kind → List ℕ → Reading Value
read_kind rd none bs = err unknown_type
read_kind rd (some (unsigned w)) bs = scalar (λ n. u64 n) (read_le w bs)
read_kind rd (some (signed w)) bs = scalar (λ n. i64 (sign_extend w n)) (read_le w bs)
read_kind rd (some (real w)) bs = scalar (λ n. float n) (read_le w bs)
read_kind rd (some truth) bs = scalar (λ n. boolean (not (n == 0))) (read_le 1 bs)
read_kind rd (some text) bs = read_string bs >>= as_string
read_kind rd (some array) bs =
    let (et, bs') = read_le 4 bs in checked (read_le 8 bs') >>= read_array rd (or_zero et)

-- readTyped on fuel for arrays in arrays.
unfoldable pub read_typed : ℕ → ℕ → List ℕ → Reading Value
unfolding read_string read_items read_le kind_of
read_typed zero t bs = err out_of_fuel
read_typed (suc fuel) t bs = read_kind (λ et. read_typed fuel et) (kind_of t) bs

-- Every array takes twelve bytes for its header, so this fuel is enough.
unfoldable pub read_value : List ℕ → Reading Value
unfolding read_typed read_le
read_value bs = checked (read_le 4 bs) >>= λ x. read_typed (suc (length x.1)) x.0 x.1

unfoldable pub read_entry : List ℕ → Reading (Text × Value)
unfolding read_string read_value
read_entry bs = read_string bs >>= λ k. read_value k.1 >>= λ v. ok ((k.0, v.0), v.1)

-- The loop over the entries leaves off at the first that is not read.
unfoldable pub read_meta : ℕ → List ℕ → List (Text × Value) → List (Text × Value)
unfolding read_entry insert
read_meta zero bs meta = meta
read_meta (suc n) bs meta = elim (read_entry bs) [
  | err e ↦ meta
  | ok x ↦ read_meta n x.1 (insert x.0.0 x.0.1 meta)
]

-- u32: what is not a number counts as 0, and a wide number loses its upper half.
abbrev pub u32_of : Option Value → ℕ
u32_of (some (u64 n)) = n % 2 ^ 32
u32_of (some (i64 n)) = n % 2 ^ 32
u32_of _ = 0

abbrev pub string_of : Option Value → Text
string_of (some (string s)) = s
string_of _ = []

pub record Params : Type 0 where
  pub arch : Text
  pub layers : ℕ
  pub kv_heads : ℕ
  pub head_dim : ℕ
  pub train_ctx : ℕ

abbrev pub field : List (Text × Value) → String → ℕ
field meta key =
    u32_of (lookup (string_of (lookup (codes "general.architecture") meta) ++ codes key) meta)

abbrev pub derived_dim : ℕ → ℕ → ℕ → ℕ
derived_dim dim emb heads = if dim == 0 then (if ltb 0 heads then emb / heads else dim) else dim

unfoldable pub params_of : List (Text × Value) → Params
unfolding lookup
params_of meta = record {
  arch = string_of (lookup (codes "general.architecture") meta);
  layers = field meta ".block_count";
  kv_heads =
      let kv = field meta ".attention.head_count_kv" in
      if kv == 0 then field meta ".attention.head_count" else kv;
  head_dim =
      derived_dim (field meta ".attention.key_length") (field meta ".embedding_length")
        (field meta ".attention.head_count");
  train_ctx = field meta ".context_length";
}

abbrev pub limit : ℕ
limit = 8 * 2 ^ 20

abbrev pub is_magic : Option ℕ → Bool
is_magic none = false
is_magic (some n) = n == 0x46554747

unfoldable pub read_head : List ℕ → Result GgufError Params
unfolding read_meta params_of read_le
read_head bs =
    let (magic, r1) = read_le 4 bs in
    let (version, r2) = read_le 4 r1 in
    let (tensors, r3) = read_le 8 r2 in
    if is_magic magic
    then (checked (read_le 8 r3) >>= λ x. ok (params_of (read_meta x.0 x.1 [])))
    else err not_gguf

-- Read over the bytes of the file: the version and the number of tensors are passed over.
unfoldable pub read : List ℕ → Result GgufError Params
unfolding read_head
read file = read_head (take limit file)
