-- ===== src/Fold/Loop.antt =====
-- The whole loop of foldSystemTurns.
use mathlib.Core.List.{append-nil, append_assoc, map-append}
use llama_chip.Base.{
  >>=-eq-ok, Bool, Bool-cases, List, Option-cases, Result-cases, Text, [], ap, arith, false, inl,
  inr, is_empty, length, length-append, not, ok, ok-injective, refl, select, some, sym, true, ℕ,
  ◌&&◌, ◌++◌, ◌+◌, ◌∙◌, ◌∷◌, ◌≡◌,
}
use llama_chip.Fold.Defs.{
  Codec, FoldState, Turn, append_to_last_user, blocks_of, fold_other, fold_system, fold_turn,
  fold_turns, is_system, is_user, put_content, role_of,
}
use llama_chip.Fold.Turns.{
  Laws, append_to_last_user-Appended, blocks, blocks_of-put_content, or_nil, role_of-put_content,
  roles, weigh, weigh-append,
}

module _ {Raw : Type 0} (codec : Codec Raw) where
  weigh-blocks :
      (f : Raw → ℕ) (xs ys : List (Turn codec))
      → weigh f (blocks codec (xs ++ ys)) ≡ weigh f (blocks codec xs) + weigh f (blocks codec ys)
  weigh-blocks f [] ys = omega arith
  weigh-blocks f (x ∷ xs) ys =
      let b = or_nil codec (blocks_of codec x) in
      let ih = weigh-blocks f xs ys in
      let l = weigh-append f b (blocks codec xs) in
      let r = weigh-append f b (blocks codec (xs ++ ys)) in omega arith

  abbrev pub other_roles : List (Turn codec) → List Text
  other_roles ms = select (λ r. not (is_system r)) (roles codec ms)

  abbrev pub system_turns : List (Turn codec) → ℕ
  system_turns ms = length (select is_system (roles codec ms))

  -- What a run of the loop over some turns makes of its state.
  pub record Kept (s : FoldState codec) (ms : List (Turn codec)) (s' : FoldState codec)
      : Type 0 where
    pub same_roles : roles codec s'.out ≡ roles codec s.out ++ other_roles ms
    pub weight :
        (f : Raw → ℕ)
        → weigh f (blocks codec s'.out) + weigh f s'.pending
          ≡ weigh f (blocks codec s.out) + weigh f s.pending + weigh f (blocks codec ms)
    pub counted : s'.folded ≡ s.folded + system_turns ms

  module _ (laws : Laws codec) where
    fold_system-Kept :
        (s : FoldState codec) (m : Turn codec) (s' : FoldState codec)
        → is_system (role_of codec m) ≡ true
        → fold_system codec s m ≡ ok s'
        → Kept s (m ∷ []) s'
    unfolding fold_system
    fold_system-Kept s m s' sys e =
        let (blks, read, h) = >>=-eq-ok (blocks_of codec m) _ s' e in
        let none_kept : roles codec s.out ≡ roles codec s.out ++ other_roles (m ∷ []) =
          rw sys (sym (append-nil (roles codec s.out))) in
        let one : system_turns (m ∷ []) ≡ 1 = rw sys refl in
        elim (Option-cases (append_to_last_user codec blks s.out)) [
          | inl no_user ↦
              let made = ok-injective (rw (no_user) at h) in
              rw (← made) (record {
                same_roles = none_kept;
                weight = λ f.
                    let grown = weigh-append f s.pending blks in
                    let alone = weigh-append f blks [] in rw read (omega arith);
                counted = omega arith;
              })
          | inr (r, user) ↦ elim (Result-cases r) [
            | inl (out, fine) ↦
                let x =
                  append_to_last_user-Appended codec laws blks s.out out (user ∙ ap some fine) in
                let made = ok-injective (rw (user ∙ ap some fine) at h) in
                rw (← made) (record {
                  same_roles = x.same_roles ∙ none_kept;
                  weight = λ f.
                      let grown = x.weight f in
                      let alone = weigh-append f blks [] in rw read (omega arith);
                  counted = omega arith;
                })
            | inr (x, failed) ↦ let bad = rw (user ∙ ap some failed) at h in cc
          ]
        ]

    fold_other-Kept :
        (s : FoldState codec) (m : Turn codec) (s' : FoldState codec)
        → is_system (role_of codec m) ≡ false
        → fold_other codec s m ≡ ok s'
        → Kept s (m ∷ []) s'
    unfolding fold_other
    fold_other-Kept s m s' sys e =
        let one_kept : roles codec s.out ++ role_of codec m ∷ []
            ≡ roles codec s.out ++ other_roles (m ∷ []) =
          rw sys refl in
        let none_counted : system_turns (m ∷ []) ≡ 0 = rw sys refl in
        elim (Bool-cases (not (is_empty s.pending) && is_user (role_of codec m))) [
          | inl takes ↦
              let (cur, read, h) =
                >>=-eq-ok (blocks_of codec m) _ s' (rw (takes, fold_other) at e) in
              let n = put_content codec (s.pending ++ cur) m in
              rw (← ok-injective h) (record {
                same_roles =
                    rw
                      (
                        map-append (role_of codec) s.out (n ∷ []),
                        role_of-put_content codec (s.pending ++ cur) m,
                      )
                      one_kept;
                weight = λ f.
                    let grown = weigh-blocks f s.out (n ∷ []) in
                    let new = weigh-append f (s.pending ++ cur) [] in
                    let both = weigh-append f s.pending cur in
                    let old = weigh-append f cur [] in
                    let grown_by =
                      rw (blocks_of-put_content codec laws (s.pending ++ cur) m) at grown in
                    rw read (omega arith);
                counted = omega arith;
              })
          | inr plain ↦ rw (← ok-injective (rw (plain, fold_other) at e)) (record {
            same_roles = rw (map-append (role_of codec) s.out (m ∷ [])) one_kept;
            weight = λ f. let grown = weigh-blocks f s.out (m ∷ []) in omega arith;
            counted = omega arith;
          })
        ]

    fold_turn-Kept :
        (s : FoldState codec) (m : Turn codec) (s' : FoldState codec)
        → fold_turn codec s m ≡ ok s'
        → Kept s (m ∷ []) s'
    unfolding fold_turn
    fold_turn-Kept s m s' e = elim (Bool-cases (is_system (role_of codec m))) [
      | inl sys ↦ fold_system-Kept s m s' sys (rw (sys, fold_turn) at e)
      | inr other ↦ fold_other-Kept s m s' other (rw (other, fold_turn) at e)
    ]

    select-append {ℓ} :
        {A : Type ℓ} (p : A → Bool) (xs ys : List A)
        → select p (xs ++ ys) ≡ select p xs ++ select p ys
    select-append p [] ys = refl
    select-append p (x ∷ xs) ys = ground (arith, select-append p xs ys)

    Kept-trans :
        (s s1 s2 : FoldState codec) (m : Turn codec) (ms : List (Turn codec))
        → Kept s (m ∷ []) s1
        → Kept s1 ms s2
        → Kept s (m ∷ ms) s2
    Kept-trans s s1 s2 m ms a b =
        let r = role_of codec m in
        record {
          same_roles =
              b.same_roles
              ∙ ap (λ x. x ++ other_roles ms) a.same_roles
              ∙ append_assoc (roles codec s.out) _ _
              ∙ ap (λ x. roles codec s.out ++ x)
                  (sym (select-append (λ t. not (is_system t)) (r ∷ []) (roles codec ms)));
          weight = λ f.
              let one = a.weight f in
              let rest = b.weight f in
              let m_alone = weigh-append f (or_nil codec (blocks_of codec m)) [] in
              let m_first = weigh-append f (or_nil codec (blocks_of codec m)) (blocks codec ms) in
              omega arith;
          counted =
              let one = a.counted in
              let rest = b.counted in
              let split = ap length (select-append is_system (r ∷ []) (roles codec ms)) in
              let sum =
                length-append (select is_system (r ∷ [])) (select is_system (roles codec ms)) in
              omega arith;
        }

    pub fold_turns-Kept :
        (s : FoldState codec) (ms : List (Turn codec)) (s' : FoldState codec)
        → fold_turns codec s ms ≡ ok s'
        → Kept s ms s'
    unfolding fold_turns
    fold_turns-Kept s [] s' e = rw (← ok-injective e) (record {
      same_roles = sym (append-nil (roles codec s.out));
      weight = λ f. omega arith;
      counted = omega arith;
    })
    fold_turns-Kept s (m ∷ ms) s' e =
        let (s1, one, rest) = >>=-eq-ok (fold_turn codec s m) _ s' e in
        Kept-trans s s1 s' m ms (fold_turn-Kept s m s1 one) (fold_turns-Kept s1 ms s' rest)
