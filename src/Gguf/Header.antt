-- ===== src/Gguf/Header.antt =====
-- The whole header is read back.
use mathlib.Core.List.{append_assoc}
use llama_chip.Base.{
  All, List, Text, [], ap, arith, false, insert, length, length-append, map, ok, refl, suc, take,
  zero, ℕ, ◌++◌, ◌-◌, ◌<◌, ◌>>=◌, ◌^◌, ◌∙◌, ◌∷◌, ◌≡◌, ◌≤◌,
}
use llama_chip.Gguf.Defs.{
  Value, checked, limit, nothing, params_of, read, read_entry, read_head, read_meta, read_typed,
  read_value, string,
}
use llama_chip.Gguf.Writing.{
  Fits, IsShort, NumType, Wire, code_of, le_bytes, meaning, num, number, nums, str, strs, table,
  uint8, width, write_all, write_entry, write_header, write_string, write_value,
}
use llama_chip.Gguf.RoundTrip.{
  first_or, length-le_bytes, read_le-le_bytes, read_string-write_string, read_typed-array,
  read_typed-number, read_typed-string,
}

number_at :
    (fuel : ℕ) (t : NumType) (n : ℕ) (rest : List ℕ)
    → 0 < fuel
    → n < 256 ^ width t
    → read_typed fuel (code_of t) (le_bytes (width t) n ++ rest) ≡ ok (number t n, rest)
number_at zero t n rest pos h = absurd (omega arith)
number_at (suc fuel) t n rest pos h = read_typed-number fuel t n rest h

string_at :
    (fuel : ℕ) (s : Text) (rest : List ℕ)
    → 0 < fuel
    → IsShort s
    → read_typed fuel 8 (write_string s ++ rest) ≡ ok (string s, rest)
string_at zero s rest pos h = absurd (omega arith)
string_at (suc fuel) s rest pos h = read_typed-string fuel s rest h

code-lt : (t : NumType) → code_of t < 256 ^ 4
code-lt uint8 = omega arith
code-lt t = omega arith

value_by_code :
    (code : ℕ) (bs : List ℕ)
    → code < 256 ^ 4
    → read_value (le_bytes 4 code ++ bs) ≡ read_typed (suc (length bs)) code bs
unfolding read_value
value_by_code code bs h =
    ap (λ r. checked r >>= λ x. read_typed (suc (length x.1)) x.0 x.1)
      (read_le-le_bytes 4 code bs h)

first_meaning :
    (t : NumType) (ns : List ℕ) → first_or nothing false (map (number t) ns) ≡ meaning (nums t ns)
first_meaning t [] = refl
first_meaning t (n ∷ ns) = refl

first_string :
    (ss : List Text) → first_or nothing false (map (λ s. string s) ss) ≡ meaning (strs ss)
first_string [] = refl
first_string (s ∷ ss) = refl

long_enough : (w n : ℕ) (bs : List ℕ) → 0 < w → 0 < length (le_bytes w n ++ bs)
long_enough w n bs h =
    let l = length-append (le_bytes w n) bs in let k = length-le_bytes w n in omega arith

regroup : (a b c d e : List ℕ) → (a ++ (b ++ (c ++ d))) ++ e ≡ a ++ (b ++ (c ++ (d ++ e)))
regroup a b c d e = simp append_assoc

regroup_all :
    (a b c d e f : List ℕ) → (a ++ (b ++ (c ++ (d ++ e)))) ++ f ≡ a ++ (b ++ (c ++ (d ++ (e ++ f))))
regroup_all a b c d e f = simp append_assoc

array_value :
    {A : Type 0} (P : A → Type 0) (write : A → List ℕ) (value : A → Value) (et : ℕ) (xs : List A)
    (rest : List ℕ)
    → et < 256 ^ 4
    → length xs < 256 ^ 8
    → All P xs
    → ((fuel : ℕ) (a : A) (more : List ℕ)
        → 0 < fuel
        → P a
        → read_typed fuel et (write a ++ more) ≡ ok (value a, more))
    → read_value (
        (le_bytes 4 9 ++ (le_bytes 4 et ++ (le_bytes 8 (length xs) ++ write_all write xs))) ++ rest)
      ≡ ok (first_or nothing false (map value xs), rest)
array_value P write value et xs rest small count h each =
    let inner = le_bytes 8 (length xs) ++ (write_all write xs ++ rest) in
    ap read_value
      (regroup (le_bytes 4 9) (le_bytes 4 et) (le_bytes 8 (length xs)) (write_all write xs) rest)
    ∙ value_by_code 9 (le_bytes 4 et ++ inner) (omega arith)
    ∙ read_typed-array P write value _ et xs rest small count h
        (λ a more p. each _ a more (long_enough 4 et inner (omega arith)) p)

read_value-write_value :
    (v : Wire) (rest : List ℕ) → Fits v → read_value (write_value v ++ rest) ≡ ok (meaning v, rest)
read_value-write_value (num t n) rest h =
    ap read_value (append_assoc (le_bytes 4 (code_of t)) (le_bytes (width t) n) rest)
    ∙ value_by_code (code_of t) _ (code-lt t)
    ∙ number_at _ t n rest (omega arith) h
read_value-write_value (str s) rest h =
    ap read_value (append_assoc (le_bytes 4 8) (write_string s) rest)
    ∙ value_by_code 8 _ (omega arith)
    ∙ string_at _ s rest (omega arith) h
read_value-write_value (nums t ns) rest (count, h) =
    array_value (λ n. n < 256 ^ width t) (le_bytes (width t)) (number t) (code_of t) ns rest
      (code-lt t) count h (λ fuel n more pos p. number_at fuel t n more pos p)
    ∙ ap (λ v. ok (v, rest)) (first_meaning t ns)
read_value-write_value (strs ss) rest (count, h) =
    array_value IsShort write_string (λ s. string s) 8 ss rest (omega arith) count h
      (λ fuel s more pos p. string_at fuel s more pos p)
    ∙ ap (λ v. ok (v, rest)) (first_string ss)

-- A key and a value that the reader takes.
abbrev pub IsEntry : Text × Wire → Type 0
IsEntry e = IsShort e.0 × Fits e.1

read_entry-write_entry :
    (e : Text × Wire) (rest : List ℕ)
    → IsEntry e
    → read_entry (write_entry e ++ rest) ≡ ok ((e.0, meaning e.1), rest)
unfolding read_entry write_entry
read_entry-write_entry (k, v) rest (short, fits) =
    ap read_entry (append_assoc (write_string k) (write_value v) rest)
    ∙ ap (λ r. r >>= λ x. read_value x.1 >>= λ y. ok ((x.0, y.0), y.1))
        (read_string-write_string k (write_value v ++ rest) short)
    ∙ ap (λ r. r >>= λ y. ok ((k, y.0), y.1)) (read_value-write_value v rest fits)

read_meta-write :
    (es : List (Text × Wire)) (rest : List ℕ) (meta : List (Text × Value))
    → All IsEntry es
    → read_meta (length es) (write_all write_entry es ++ rest) meta ≡ table es meta
unfolding read_meta write_all
read_meta-write [] rest meta h = refl
read_meta-write (e ∷ es) rest meta (p, h) =
    let one =
      ap read_entry (append_assoc (write_entry e) (write_all write_entry es) rest)
      ∙ read_entry-write_entry e (write_all write_entry es ++ rest) p in
    rw (one, read_meta) (read_meta-write es rest (insert e.0 (meaning e.1) meta) h)

take_within {ℓ} :
    {A : Type ℓ} (n : ℕ) (xs ys : List A)
    → length xs ≤ n
    → take n (xs ++ ys) ≡ xs ++ take (n - length xs) ys
take_within n [] ys h = ap (λ k. take k ys) (let z : n ≡ n - 0 = omega arith in z)
take_within zero (x ∷ xs) ys h = absurd (omega arith)
take_within (suc n) (x ∷ xs) ys h = ap (◌∷◌ x) (
    take_within n xs ys (omega arith)
    ∙ ap (λ k. xs ++ take k ys)
        (let z : n - length xs ≡ suc n - suc (length xs) = omega arith in z))

read_head-parts :
    (version tensors count : ℕ) (body : List ℕ)
    → version < 256 ^ 4
    → tensors < 256 ^ 8
    → count < 256 ^ 8
    → read_head (
        le_bytes 4 0x46554747
        ++ (le_bytes 4 version ++ (le_bytes 8 tensors ++ (le_bytes 8 count ++ body))))
      ≡ ok (params_of (read_meta count body []))
unfolding read_head
read_head-parts version tensors count body hv ht hn =
    let m =
      read_le-le_bytes 4 0x46554747
        (le_bytes 4 version ++ (le_bytes 8 tensors ++ (le_bytes 8 count ++ body))) (omega arith) in
    let v = read_le-le_bytes 4 version (le_bytes 8 tensors ++ (le_bytes 8 count ++ body)) hv in
    let t = read_le-le_bytes 8 tensors (le_bytes 8 count ++ body) ht in
    let c = read_le-le_bytes 8 count body hn in rw (m, v, t, c, read_head) refl

-- A file that begins with a header in the format, of at most eight megabytes, gives the
-- dimensions that its entries state, whatever follows the header.
pub read-write_header :
    (version tensors : ℕ) (es : List (Text × Wire)) (rest : List ℕ)
    → version < 256 ^ 4
    → tensors < 256 ^ 8
    → length es < 256 ^ 8
    → All IsEntry es
    → length (write_header version tensors es) ≤ limit
    → read (write_header version tensors es ++ rest) ≡ ok (params_of (table es []))
unfolding read write_header
read-write_header version tensors es rest hv ht hn h fits =
    let tail = take (limit - length (write_header version tensors es)) rest in
    ap read_head (
      take_within limit (write_header version tensors es) rest fits
      ∙ regroup_all (le_bytes 4 0x46554747) (le_bytes 4 version) (le_bytes 8 tensors)
          (le_bytes 8 (length es)) (write_all write_entry es) tail)
    ∙ read_head-parts version tensors (length es) (write_all write_entry es ++ tail) hv ht hn
    ∙ ap (λ m. ok (params_of m)) (read_meta-write es tail [] h)
