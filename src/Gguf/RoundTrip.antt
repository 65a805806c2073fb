-- ===== src/Gguf/RoundTrip.antt =====
-- What is written in the format is read back.
use mathlib.Core.List.{append_assoc}
use llama_chip.Base.{
  All, Bool, List, Text, [], ap, arith, drop, false, if◌then◌else◌, length, length-append, ltb, map,
  ok, refl, some, subst, suc, take, true, zero, ℕ, ◌++◌, ◌/◌, ◌<◌, ◌>>=◌, ◌^◌, ◌∙◌, ◌∷◌, ◌≡◌,
}
use llama_chip.Gguf.Defs.{
  Reading, Value, as_string, checked, kind_of, le_value, nothing, or_zero, read_array, read_items,
  read_le, read_string, read_typed, string, take_string,
}
use llama_chip.Gguf.Writing.{
  IsShort, NumType, bool8, code_of, float32, float64, int16, int32, int64, int8, le_bytes, number,
  uint16, uint32, uint64, uint8, width, write_all, write_string,
}

pub length-le_bytes : (w n : ℕ) → length (le_bytes w n) ≡ w
unfolding le_bytes
length-le_bytes zero n = refl
length-le_bytes (suc w) n = ap suc (length-le_bytes w (n / 256))

le_value-le_bytes : (w n : ℕ) → n < 256 ^ w → le_value (le_bytes w n) ≡ n
unfolding le_bytes
le_value-le_bytes zero n h = omega arith
le_value-le_bytes (suc w) n h = omega (arith, le_value-le_bytes w (n / 256) (omega arith))

take-append {ℓ} : {A : Type ℓ} (xs ys : List A) → take (length xs) (xs ++ ys) ≡ xs
take-append [] ys = refl
take-append (x ∷ xs) ys = ap (◌∷◌ x) (take-append xs ys)

drop-append {ℓ} : {A : Type ℓ} (xs ys : List A) → drop (length xs) (xs ++ ys) ≡ ys
drop-append [] ys = refl
drop-append (x ∷ xs) ys = drop-append xs ys

pub read_le-le_bytes :
    (w n : ℕ) (rest : List ℕ) → n < 256 ^ w → read_le w (le_bytes w n ++ rest) ≡ (some n, rest)
unfolding read_le
read_le-le_bytes w n rest h =
    let len = length-le_bytes w n in
    let all = length-append (le_bytes w n) rest in
    let enough : ltb (length (le_bytes w n ++ rest)) w ≡ false = ground arith in
    let front : take w (le_bytes w n ++ rest) ≡ le_bytes w n =
      subst (λ k. take k (le_bytes w n ++ rest) ≡ le_bytes w n) len
        (take-append (le_bytes w n) rest) in
    let back : drop w (le_bytes w n ++ rest) ≡ rest =
      subst (λ k. drop k (le_bytes w n ++ rest) ≡ rest) len (drop-append (le_bytes w n) rest) in
    rw (enough, read_le, front, back, le_value-le_bytes w n h) refl

pub read_string-write_string :
    (s : Text) (rest : List ℕ) → IsShort s → read_string (write_string s ++ rest) ≡ ok (s, rest)
unfolding read_string write_string
read_string-write_string s rest h =
    let all = length-append s rest in
    let fits : ltb (2 ^ 20) (length s) ≡ false = ground arith in
    let there : ltb (length (s ++ rest)) (length s) ≡ false = ground arith in
    let counted =
      ap (read_le 8) (append_assoc (le_bytes 8 (length s)) s rest)
      ∙ read_le-le_bytes 8 (length s) (s ++ rest) (omega arith) in
    ap (λ x. checked x >>= take_string) counted
    ∙ rw (fits, there, take-append s rest, drop-append s rest) refl

pub read_typed-number :
    (fuel : ℕ) (t : NumType) (n : ℕ) (rest : List ℕ)
    → n < 256 ^ width t
    → read_typed (suc fuel) (code_of t) (le_bytes (width t) n ++ rest) ≡ ok (number t n, rest)
unfolding read_typed kind_of
read_typed-number fuel uint8 n rest h = rw (read_le-le_bytes 1 n rest h) refl
read_typed-number fuel int8 n rest h = rw (read_le-le_bytes 1 n rest h) refl
read_typed-number fuel uint16 n rest h = rw (read_le-le_bytes 2 n rest h) refl
read_typed-number fuel int16 n rest h = rw (read_le-le_bytes 2 n rest h) refl
read_typed-number fuel uint32 n rest h = rw (read_le-le_bytes 4 n rest h) refl
read_typed-number fuel int32 n rest h = rw (read_le-le_bytes 4 n rest h) refl
read_typed-number fuel float32 n rest h = rw (read_le-le_bytes 4 n rest h) refl
read_typed-number fuel bool8 n rest h = rw (read_le-le_bytes 1 n rest h) refl
read_typed-number fuel uint64 n rest h = rw (read_le-le_bytes 8 n rest h) refl
read_typed-number fuel int64 n rest h = rw (read_le-le_bytes 8 n rest h) refl
read_typed-number fuel float64 n rest h = rw (read_le-le_bytes 8 n rest h) refl

-- The loop over elements that are read one by one keeps the first.
abbrev pub first_or : Value → Bool → List Value → Value
first_or kept true vs = kept
first_or kept false [] = kept
first_or kept false (v ∷ vs) = v

first_or-cons :
    (kept : Value) (seen : Bool) (v : Value) (vs : List Value)
    → first_or (if seen then kept else v) true vs ≡ first_or kept seen (v ∷ vs)
first_or-cons kept true v vs = refl
first_or-cons kept false v vs = refl

module _ {A : Type 0} (P : A → Type 0) (write : A → List ℕ) (value : A → Value)
    (rd : List ℕ → Reading Value)
    (each : (a : A) (rest : List ℕ) → P a → rd (write a ++ rest) ≡ ok (value a, rest)) where
  read_items-write_all :
      (xs : List A) (kept : Value) (seen : Bool) (rest : List ℕ)
      → All P xs
      → read_items rd (length xs) kept seen (write_all write xs ++ rest)
        ≡ ok (first_or kept seen (map value xs), rest)
  unfolding read_items write_all
  read_items-write_all [] kept true rest h = refl
  read_items-write_all [] kept false rest h = refl
  read_items-write_all (x ∷ xs) kept seen rest (p, h) =
      let one = ap rd (append_assoc (write x) (write_all write xs) rest) ∙ each x _ p in
      ap (λ r. r >>= λ y. read_items rd (length xs) (if seen then kept else y.0) true y.1) one
      ∙ read_items-write_all xs (if seen then kept else value x) true rest h
      ∙ ap (λ v. ok (v, rest)) (first_or-cons kept seen (value x) (map value xs))

pub read_typed-string :
    (fuel : ℕ) (s : Text) (rest : List ℕ)
    → IsShort s
    → read_typed (suc fuel) 8 (write_string s ++ rest) ≡ ok (string s, rest)
unfolding read_typed kind_of
read_typed-string fuel s rest h = ap (λ r. r >>= as_string) (read_string-write_string s rest h)

-- An array, whatever its elements are.
pub read_typed-array :
    {A : Type 0} (P : A → Type 0) (write : A → List ℕ) (value : A → Value) (fuel et : ℕ)
    (xs : List A) (rest : List ℕ)
    → et < 256 ^ 4
    → length xs < 256 ^ 8
    → All P xs
    → ((a : A) (more : List ℕ) → P a → read_typed fuel et (write a ++ more) ≡ ok (value a, more))
    → read_typed
        (suc fuel)
        9
        (le_bytes 4 et ++ (le_bytes 8 (length xs) ++ (write_all write xs ++ rest)))
      ≡ ok (first_or nothing false (map value xs), rest)
unfolding read_typed kind_of
read_typed-array P write value fuel et xs rest small count h each =
    ap (λ r. checked (read_le 8 r.1) >>= read_array (λ t. read_typed fuel t) (or_zero r.0))
      (read_le-le_bytes 4 et _ small)
    ∙ ap (λ r. checked r >>= read_array (λ t. read_typed fuel t) et)
        (read_le-le_bytes 8 (length xs) _ count)
    ∙ read_items-write_all P write value (read_typed fuel et) each xs nothing false rest h
