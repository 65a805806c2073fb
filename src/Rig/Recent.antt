-- ===== src/Rig/Recent.antt =====
-- Which lines a ring keeps.
use mathlib.Core.List.{append-nil, append_assoc}
use llama_chip.Base.{
  Bool-cases, List, Text, [], ap, arith, codes, drop, false, inl, inr, leb, length, length-append,
  refl, suc, sym, true, zero, ℕ, ◌++◌, ◌+◌, ◌-◌, ◌<◌, ◌∙◌, ◌∷◌, ◌≡◌, ◌≤◌,
}
use llama_chip.Rig.Ring.{Ring, join, last_lines, new_ring, push, push_all, rest_of}

-- The last lines of a list, as many as there are up to a number.
abbrev pub recent {ℓ} : {A : Type ℓ} → ℕ → List A → List A
recent n xs = drop (length xs - n) xs

drop-append :
    {A : Type 0} (k : ℕ) (xs ys : List A) → k ≤ length xs → drop k (xs ++ ys) ≡ drop k xs ++ ys
drop-append zero xs ys h = refl
drop-append (suc k) [] ys h = absurd (omega arith)
drop-append (suc k) (x ∷ xs) ys h = drop-append k xs ys (omega arith)

rest_of-drop : {A : Type 0} (k : ℕ) (xs : List A) → rest_of (drop k xs) ≡ drop (suc k) xs
rest_of-drop zero [] = refl
rest_of-drop zero (x ∷ xs) = refl
rest_of-drop (suc k) [] = refl
rest_of-drop (suc k) (x ∷ xs) = rest_of-drop k xs

length-drop_lem : {A : Type 0} (k : ℕ) (xs : List A) → length (drop k xs) ≡ length xs - k
length-drop_lem zero xs = omega arith
length-drop_lem (suc k) [] = omega arith
length-drop_lem (suc k) (x ∷ xs) = omega (arith, length-drop_lem k xs)

push-recent :
    (n : ℕ) (seen : List Text) (s : Text) (r : Ring)
    → 0 < n
    → r.n ≡ n
    → r.lines ≡ recent n seen
    → (push r s).lines ≡ recent n (seen ++ s ∷ [])
unfolding push
push-recent n seen s r pos room e =
    let size : length r.lines ≡ length seen - (length seen - n) =
      ap length e ∙ length-drop_lem (length seen - n) seen in
    let grown : length (seen ++ s ∷ []) ≡ length seen + 1 = length-append seen (s ∷ []) in
    elim (Bool-cases (leb n (length seen))) [
      | inl full ↦
          let is_full : leb r.n (length r.lines) ≡ true = ground arith in
          rw is_full (
            ap (λ l. rest_of l ++ s ∷ []) e
            ∙ ap (λ l. l ++ s ∷ []) (rest_of-drop (length seen - n) seen)
            ∙ ap (λ k. drop k seen ++ s ∷ [])
                (let q : suc (length seen - n) ≡ length (seen ++ s ∷ []) - n = ground arith in q)
            ∙ sym (drop-append (length (seen ++ s ∷ []) - n) seen (s ∷ []) (ground arith)))
      | inr short ↦
          let has_room : leb r.n (length r.lines) ≡ false = ground arith in
          rw has_room (
            ap (λ l. l ++ s ∷ []) e
            ∙ ap (λ k. drop k seen ++ s ∷ [])
                (let q : length seen - n ≡ length (seen ++ s ∷ []) - n = ground arith in q)
            ∙ sym (drop-append (length (seen ++ s ∷ []) - n) seen (s ∷ []) (ground arith)))
    ]

drop-empty : (k : ℕ) → [] ≡ drop {A = Text} k []
drop-empty zero = refl
drop-empty (suc k) = refl

push_all-kept :
    (n : ℕ) (seen ss : List Text) (r : Ring)
    → 0 < n
    → r.n ≡ n
    → r.lines ≡ recent n seen
    → (push_all r ss).lines ≡ recent n (seen ++ ss)
unfolding push_all push
push_all-kept n seen [] r pos room e = e ∙ ap (recent n) (sym (append-nil seen))
push_all-kept n seen (s ∷ ss) r pos room e =
    push_all-kept n (seen ++ s ∷ []) ss (push r s) pos room (push-recent n seen s r pos room e)
    ∙ ap (recent n) (append_assoc seen (s ∷ []) ss)

-- A ring for at least one line holds, after any lines have been pushed, the last of them in their
-- order, as many as it is for; what `last` gives are the last three of all lines, or fewer where
-- the ring or the lines are fewer.
pub push_all-recent :
    (n : ℕ) (ss : List Text)
    → 0 < n
    → ((push_all (new_ring n) ss).lines ≡ recent n ss)
      × (last_lines (push_all (new_ring n) ss) ≡ join (codes " | ") (recent 3 (recent n ss)))
unfolding new_ring last_lines
push_all-recent n ss pos =
    let kept = push_all-kept n [] ss (new_ring n) pos refl (drop-empty (0 - n)) in
    (kept, ap (λ l. join (codes " | ") (drop (length l - 3) l)) kept)
