-- ===== src/Router/Context.antt =====
-- guessContext of internal/router/router.go: an estimate of the context that fits on some GPUs.
-- Arithmetic on float64 is the parameter Floats; fmt.Sscanf and the file of the model are
-- parameters too. Sums of megabytes are those of the integers, without their limit of 64 bits.
use llama_chip.Base.{
  Bool, List, Option, Text, [], codes, if◌then◌else◌, is_empty, ltb, none, not, or_else, same, some,
  suc, trim_space, zero, ℕ, ◌&&◌, ◌*◌, ◌+◌, ◌-◌, ◌/◌, ◌==◌, ◌^◌, ◌||◌, ◌∷◌,
}
use llama_chip.Backends.{int_lt, negsuc, pos, split_at, ℤ}
use llama_chip.Gguf.{Params}
use llama_chip.Gpu.{Gpu}
use llama_chip.Models.{Model, find_model}

-- float64, where to_int is the conversion to int, and the decimals are those of the code.
pub record Floats (F : Type 0) : Type 0 where
  pub of_int : ℤ → F
  pub to_int : F → ℤ
  pub decimal : Text → F
  pub minus : F → F → F
  pub times : F → F → F
  pub over : F → F → F
  pub below : F → F → Bool
  pub is_zero : F → Bool

abbrev diff : ℕ → ℕ → ℤ
diff a b = if ltb a b then negsuc (b - a - 1) else pos (a - b)

infixl 20 ◌+ℤ◌
infixl 20 ◌-ℤ◌
abbrev pub ◌+ℤ◌ : ℤ → ℤ → ℤ
pos a +ℤ pos b = pos (a + b)
pos a +ℤ negsuc b = diff a (b + 1)
negsuc a +ℤ pos b = diff b (a + 1)
negsuc a +ℤ negsuc b = negsuc (a + b + 1)

abbrev pub ◌-ℤ◌ : ℤ → ℤ → ℤ
x -ℤ pos zero = x
x -ℤ pos (suc b) = x +ℤ negsuc b
x -ℤ negsuc b = x +ℤ pos (b + 1)

abbrev is_index : ℤ → ℤ → Bool
is_index x y = not (int_lt x y) && not (int_lt y x)

-- byIdx: a later GPU takes the place of an earlier one of the same index.
abbrev pub by_index : List Gpu → ℤ → Option Gpu
by_index [] i = none
by_index (g ∷ gs) i = or_else (by_index gs i) (if is_index g.index i then some g else none)

abbrev free_of : Option Gpu → ℤ
free_of none = pos 0
free_of (some g) = g.mem_total -ℤ g.mem_used

-- The loop over the pieces of the `gpus` parameter.
unfoldable pub free_mib : (Text → ℤ) → List Gpu → List Text → ℤ
unfolding trim_space int_lt
free_mib scan gs [] = pos 0
free_mib scan gs (s ∷ ss) = free_of (by_index gs (scan (trim_space s))) +ℤ free_mib scan gs ss

-- `(n / 4096) * 4096`, where the quotient is cut towards zero.
abbrev pub down_to_4k : ℤ → ℤ
down_to_4k (pos n) = pos (n / 4096 * 4096)
down_to_4k (negsuc n) = pos 0 -ℤ pos ((n + 1) / 4096 * 4096)

pub record Guess : Type 0 where
  pub max_ctx : ℤ
  pub free : ℤ
  pub train_ctx : ℕ

-- What the query asks, and what is there.
pub record Asked : Type 0 where
  pub model : Text
  pub gpus : Text
  pub kv : Text

abbrev pub found_in : Option (List Model) → Text → Option Model
found_in none model = none
found_in (some ms) model = find_model ms model

module _ {F : Type 0} (fl : Floats F) where
  abbrev pub zero_of : F
  zero_of = fl.of_int (pos 0)

  abbrev pub bytes_per_elem : Text → F
  bytes_per_elem kv =
      if same kv (codes "f16") || is_empty kv
      then fl.decimal (codes "2.0")
      else fl.decimal (if same kv (codes "q4_0") then codes "0.5625" else codes "1.0625")

  -- KVBytesPerToken.
  unfoldable pub kv_bytes_per_token : Params → F → F
  kv_bytes_per_token p bpe =
      if p.layers == 0 || p.kv_heads == 0 || p.head_dim == 0
      then zero_of
      else fl.times
          (fl.times
            (fl.times (fl.times (fl.decimal (codes "2")) (fl.of_int (pos p.layers)))
              (fl.of_int (pos p.kv_heads)))
            (fl.of_int (pos p.head_dim)))
          bpe

  -- What the file of the model says of a token: its megabytes, and the context of the training.
  abbrev pub known_kv : F → Option Params → F × ℕ
  known_kv bpe none = (zero_of, 0)
  known_kv bpe (some p) =
      let b = kv_bytes_per_token p bpe in
      if fl.below zero_of b
      then (fl.over b (fl.of_int (pos (2 ^ 20))), p.train_ctx)
      else (zero_of, 0)

  abbrev rough_kv : F → F → F
  rough_kv bpe model_mib =
      fl.times
        (fl.decimal
          (if fl.below bpe (fl.decimal (codes "2")) then codes "0.005" else codes "0.010"))
        (fl.over model_mib (fl.of_int (pos 1024)))

  abbrev pub kv_mib : F → F → F → F
  kv_mib bpe model_mib kv = if fl.is_zero kv then rough_kv bpe model_mib else kv

  unfoldable pub room : F → F → ℤ
  unfolding int_lt
  room avail kv =
      if fl.below zero_of kv && fl.below zero_of avail
      then down_to_4k (fl.to_int (fl.over (fl.times avail (fl.decimal (codes "0.9"))) kv))
      else pos 0

  -- `if trainCtx > 0 && maxCtx > trainCtx { maxCtx = trainCtx }`.
  unfoldable pub within : ℕ → ℤ → ℤ
  unfolding int_lt
  within train ctx = if ltb 0 train && int_lt (pos train) ctx then pos train else ctx

  abbrev pub avail_mib : ℤ → F → F
  avail_mib free model_mib = fl.minus (fl.minus (fl.of_int free) model_mib) (fl.of_int (pos 700))

  abbrev pub mib : ℕ → F
  mib bytes = fl.over (fl.of_int (pos bytes)) (fl.of_int (pos (2 ^ 20)))

  unfoldable pub guess : F → Model → ℤ → Option Params → Guess
  unfolding room within kv_bytes_per_token
  guess bpe m free p =
      let (kv, train) = known_kv bpe p in
      record {
        max_ctx = within train (room (avail_mib free (mib m.bytes)) (kv_mib bpe (mib m.bytes) kv));
        free = free;
        train_ctx = train;
      }

  -- Find over the models of the disk, the cards, and what reading the model's file gives; an
  -- answer of 400 is `none`.
  unfoldable pub guess_context :
      (Text → ℤ)
      → Option (List Model)
      → Option (List Gpu)
      → (Text → Option Params)
      → Asked
      → Option Guess
  unfolding guess free_mib find_model split_at same
  guess_context scan models gpus read_file q = elim (found_in models q.model) [
    | none ↦ none
    | some m ↦ elim gpus [
      | none ↦ none
      | some gs ↦ some (
          guess (bytes_per_elem q.kv) m (free_mib scan gs (split_at b',' q.gpus))
            (read_file m.path))
    ]
  ]
