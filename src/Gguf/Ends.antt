-- ===== src/Gguf/Ends.antt =====
-- The reader comes to an end on every file: the fuel is enough, and an entry takes bytes.
use llama_chip.Base.{
  Bool, Bool-cases, List, Option, [], arith, drop, err, false, inl, inr, length, ltb, none, ok,
  some, suc, true, zero, ℕ, ◌+◌, ◌<◌, ◌>>=◌, ◌^◌, ◌∷◌, ◌≡◌, ◌≢◌, ◌≤◌,
}
use llama_chip.Gguf.Defs.{
  Kind, Reading, Value, array, as_string, checked, kind_of, nothing, or_zero, out_of_fuel,
  read_array, read_entry, read_items, read_kind, read_le, read_string, read_typed, read_value, real,
  signed, take_string, text, truth, unsigned,
}

length-drop {ℓ} :
    {A : Type ℓ} (n : ℕ) (xs : List A) → n ≤ length xs → length (drop n xs) + n ≡ length xs
length-drop zero xs h = omega arith
length-drop (suc n) [] h = absurd (omega arith)
length-drop (suc n) (x ∷ xs) h = omega (arith, length-drop n xs)

-- A reading that takes so many bytes at least, or fails for a reason that the file gives.
abbrev pub Takes : {A : Type 0} → ℕ → List ℕ → Reading A → Type 0
Takes k bs (ok x) = length x.1 + k ≤ length bs
Takes k bs (err e) = e ≢ out_of_fuel

Takes->>= :
    {A B : Type 0} (k j : ℕ) (bs : List ℕ) (m : Reading A) (f : A × List ℕ → Reading B)
    → Takes k bs m
    → ((x : A × List ℕ) → length x.1 + k ≤ length bs → Takes j x.1 (f x))
    → Takes (k + j) bs (m >>= f)
Takes->>= k j bs (err e) f t c = t
Takes->>= k j bs (ok x) f t c = further (f x) (c x t)
  where
    further : {B : Type 0} (r : Reading B) → Takes j x.1 r → Takes (k + j) bs r
    further (err e) h = h
    further (ok y) h = omega arith

checked-read_le : (w : ℕ) (bs : List ℕ) → Takes w bs (checked (read_le w bs))
unfolding read_le
checked-read_le w bs = elim (Bool-cases (ltb (length bs) w)) [
  | inl short ↦ rw (short, read_le) (λ e. cc)
  | inr enough ↦ rw (enough, read_le) (omega (arith, length-drop w bs (ground arith)))
]

read_le-rest : (w : ℕ) (bs : List ℕ) → length (read_le w bs).1 ≤ length bs
unfolding read_le
read_le-rest w bs = elim (Bool-cases (ltb (length bs) w)) [
  | inl short ↦ rw (short, read_le) (omega arith)
  | inr enough ↦ rw (enough, read_le) (omega (arith, length-drop w bs (ground arith)))
]

take_string-Takes : (x : ℕ × List ℕ) → Takes 0 x.1 (take_string x)
take_string-Takes (n, bs) = elim (Bool-cases (ltb (2 ^ 20) n)) [
  | inl long ↦ rw long (λ e. cc)
  | inr fits ↦ elim (Bool-cases (ltb (length bs) n)) [
    | inl short ↦ rw (fits, short) (λ e. cc)
    | inr enough ↦ rw (fits, enough) (omega (arith, length-drop n bs (ground arith)))
  ]
]

read_string-Takes : (bs : List ℕ) → Takes 8 bs (read_string bs)
unfolding read_string
read_string-Takes bs =
    Takes->>= 8 0 bs (checked (read_le 8 bs)) take_string (checked-read_le 8 bs)
      (λ x _. take_string-Takes x)

read_items-Takes :
    (rd : List ℕ → Reading Value) (n : ℕ) (kept : Value) (seen : Bool) (bs : List ℕ)
    → ((cs : List ℕ) → length cs ≤ length bs → Takes 0 cs (rd cs))
    → Takes 0 bs (read_items rd n kept seen bs)
unfolding read_items
read_items-Takes rd zero kept seen bs each = omega arith
read_items-Takes rd (suc n) kept seen bs each =
    Takes->>= 0 0 bs (rd bs) _ (each bs (omega arith))
      (λ x le. read_items-Takes rd n _ true x.1 (λ cs l. each cs (omega arith)))

Takes-less :
    {A : Type 0} (j k : ℕ) (bs cs : List ℕ) (r : Reading A)
    → j ≤ k
    → length cs ≤ length bs
    → Takes k cs r
    → Takes j bs r
Takes-less j k bs cs (err e) le l h = h
Takes-less j k bs cs (ok x) le l h = omega arith

read_kind-Takes :
    (rd : ℕ → List ℕ → Reading Value) (bs : List ℕ)
    → ((et : ℕ) (cs : List ℕ) → length cs < length bs → Takes 0 cs (rd et cs))
    → (k : Option Kind) → Takes 0 bs (read_kind rd k bs)
read_kind-Takes rd bs each none = λ e. cc
read_kind-Takes rd bs each (some (unsigned w)) = omega (arith, read_le-rest w bs)
read_kind-Takes rd bs each (some (signed w)) = omega (arith, read_le-rest w bs)
read_kind-Takes rd bs each (some (real w)) = omega (arith, read_le-rest w bs)
read_kind-Takes rd bs each (some truth) = omega (arith, read_le-rest 1 bs)
read_kind-Takes rd bs each (some text) =
    Takes-less 0 8 bs bs _ (omega arith) (omega arith)
      (Takes->>= 8 0 bs (read_string bs) as_string (read_string-Takes bs) (λ x _. omega arith))
read_kind-Takes rd bs each (some array) =
    let et = or_zero (read_le 4 bs).0 in
    let cs = (read_le 4 bs).1 in
    let le = read_le-rest 4 bs in
    let whole =
      Takes->>= 8 0 cs (checked (read_le 8 cs)) (read_array rd et) (checked-read_le 8 cs) (λ x l.
        read_items-Takes (rd et) x.0 nothing false x.1 (λ ds m. each et ds (omega arith))) in
    Takes-less 0 8 bs cs _ (omega arith) le whole

-- With fuel above the number of bytes left, a value is read without running out.
read_typed-Takes : (fuel t : ℕ) (bs : List ℕ) → length bs < fuel → Takes 0 bs (read_typed fuel t bs)
unfolding read_typed
read_typed-Takes zero t bs h = absurd (omega arith)
read_typed-Takes (suc fuel) t bs h =
    read_kind-Takes (λ et. read_typed fuel et) bs
      (λ et cs l. read_typed-Takes fuel et cs (omega arith)) (kind_of t)

read_value-Takes : (bs : List ℕ) → Takes 4 bs (read_value bs)
unfolding read_value
read_value-Takes bs =
    Takes->>= 4 0 bs (checked (read_le 4 bs)) _ (checked-read_le 4 bs)
      (λ x _. read_typed-Takes (suc (length x.1)) x.0 x.1 (omega arith))

-- An entry of the metadata is always read to an end, with arrays in arrays as deep as the file
-- holds them: the fuel never runs out, and an entry that is read takes twelve bytes at least. So
-- the loop over the entries ends after one for every twelve bytes, whatever count the header has.
pub read_entry-Takes : (bs : List ℕ) → Takes 12 bs (read_entry bs)
unfolding read_entry
read_entry-Takes bs =
    Takes->>= 8 4 bs (read_string bs) _ (read_string-Takes bs)
      (λ k _. Takes->>= 4 0 k.1 (read_value k.1) _ (read_value-Takes k.1) (λ v _. omega arith))
