-- ===== src/Fold/Turns.antt =====
-- What the loop of foldSystemTurns keeps: the roles, the blocks and the count.
use llama_chip.Base.{
  >>=-eq-ok, Bool-cases, List, Option-cases, Result, Result-cases, Text, [], ap, arith, codes, err,
  inl, inr, map, ne_of_same, ok, ok-injective, refl, same, some, some_inj, ℕ, ◌++◌, ◌+◌, ◌∙◌, ◌∷◌,
  ◌≡◌,
}
use llama_chip.Fold.Defs.{
  Codec, FoldError, Turn, append_to_last_user, blocks_of, is_user, put_content, role_of,
}
use llama_chip.Fold.Objects.{get-set, get-set_other}

-- The sum of a weight over a list; two lists that weigh the same under every weight have the same
-- members, each as often.
abbrev pub weigh {ℓ} : {A : Type ℓ} → (A → ℕ) → List A → ℕ
weigh f [] = 0
weigh f (x ∷ xs) = f x + weigh f xs

pub weigh-append {ℓ} :
    {A : Type ℓ} (f : A → ℕ) (xs ys : List A) → weigh f (xs ++ ys) ≡ weigh f xs + weigh f ys
weigh-append f [] ys = omega arith
weigh-append f (x ∷ xs) ys = omega (arith, weigh-append f xs ys)

module _ {Raw : Type 0} (codec : Codec Raw) where
  -- The documented behaviour of the JSON package that the fold relies on.
  pub record Laws : Type 0 where
    pub list_back : (xs : List Raw) → codec.as_list (codec.write_list xs) ≡ some xs
    pub user_back : codec.as_text codec.user_role ≡ some (codes "user")

  abbrev pub or_nil : Result FoldError (List Raw) → List Raw
  or_nil (ok bs) = bs
  or_nil (err e) = []

  -- The content blocks of a list of turns, in order.
  abbrev pub blocks : List (Turn codec) → List Raw
  blocks [] = []
  blocks (m ∷ ms) = or_nil (blocks_of codec m) ++ blocks ms

  abbrev pub roles : List (Turn codec) → List Text
  roles ms = map (role_of codec) ms

  pub role_of-put_content :
      (bs : List Raw) (m : Turn codec) → role_of codec (put_content codec bs m) ≡ role_of codec m
  unfolding role_of same
  role_of-put_content bs m =
      rw
        (get-set_other (codes "role") (codes "content") (codec.write_list bs) m
          (ne_of_same _ _ refl))
        refl

  module _ (laws : Laws) where
    pub blocks_of-put_content :
        (bs : List Raw) (m : Turn codec) → blocks_of codec (put_content codec bs m) ≡ ok bs
    unfolding blocks_of
    blocks_of-put_content bs m =
        rw (get-set (codes "content") (codec.write_list bs) m, laws.list_back bs) refl

    pub record Appended (blks : List Raw) (ms ms' : List (Turn codec)) : Type 0 where
      pub same_roles : roles ms' ≡ roles ms
      pub weight : (f : Raw → ℕ) → weigh f (blocks ms') ≡ weigh f (blocks ms) + weigh f blks

    pub append_to_last_user-Appended :
        (blks : List Raw) (ms ms' : List (Turn codec))
        → append_to_last_user codec blks ms ≡ some (ok ms')
        → Appended blks ms ms'
    unfolding append_to_last_user
    append_to_last_user-Appended blks [] ms' e = cc
    append_to_last_user-Appended blks (m ∷ ms) ms' e =
        elim (Option-cases (append_to_last_user codec blks ms)) [
          | inr (r, later) ↦ elim (Result-cases r) [
            | inl (out, fine) ↦
                let h = later ∙ ap some fine in
                let step = append_to_last_user-Appended blks ms out h in
                let made = ok-injective (some_inj (rw (h, append_to_last_user) at e)) in
                rw (← made) (record {
                  same_roles = ap (◌∷◌ (role_of codec m)) step.same_roles;
                  weight = λ f.
                      let now = step.weight f in
                      let old = weigh-append f (or_nil (blocks_of codec m)) (blocks ms) in
                      let new = weigh-append f (or_nil (blocks_of codec m)) (blocks out) in
                      omega arith;
                })
            | inr (x, failed) ↦
                let bad = rw (later ∙ ap some failed, append_to_last_user) at e in cc
          ]
          | inl no_later ↦ elim (Bool-cases (is_user (role_of codec m))) [
            | inl user ↦
                let done = some_inj (rw (no_later, user, append_to_last_user) at e) in
                let (cur, read, made) = >>=-eq-ok (blocks_of codec m) _ ms' done in
                rw (← ok-injective made) (record {
                  same_roles = ap (λ x. x ∷ roles ms) (role_of-put_content (cur ++ blks) m);
                  weight = λ f.
                      let old = weigh-append f cur (blocks ms) in
                      let new = weigh-append f (cur ++ blks) (blocks ms) in
                      let both = weigh-append f cur blks in
                      rw (blocks_of-put_content (cur ++ blks) m, read) (omega arith);
                })
            | inr other ↦ let bad = rw (no_later, other, append_to_last_user) at e in cc
          ]
        ]
