-- ===== src/Hub/Tokens.antt =====
-- The life of a token: minted, verified, revoked, listed, and the admin token of the environment.
use llama_chip.Base.{
  All, All-insert, All-mono, Bool, Bool-cases, Distinct, IsSorted, List, Option, Option-cases, Perm,
  Some-append_right, Some→any, Text, [], and_right, any, ap, arith, false, find, if◌then◌else◌, inl,
  inr, insert, insert_new, is_empty, is_empty-false, keys, lookup, ltb, map, map-append_one, none,
  refl, same, same_iff, same_refl, some, sort_by-All, sort_by-IsSorted, sort_by-perm, subst, sym,
  trim_space, true, ◌&&◌, ◌++◌, ◌∙◌, ◌∷◌, ◌≡◌, ◌≢◌,
}
use llama_chip.Hub.Defs.{
  Store, Token, World, active, admin_of, ensure_admin, kind_admin, known_kind, list_tokens, masked,
  mint, minted, opens, revoke, values, verify,
}

-- Every token stands under its own ID, and no ID twice.
pub record IsWf (s : Store) : Type 0 where
  pub own_id : All (λ e. e.0 ≡ e.1.id) s.tokens
  pub distinct : Distinct (keys s.tokens)

find-append_none :
    (p : Token → Bool) (m : List (Text × Token)) (e : Text × Token)
    → All (λ t. p t ≡ false) (values m)
    → p e.1 ≡ true
    → find p (values (m ++ e ∷ [])) ≡ some e.1
find-append_none p [] e h yes_e = rw yes_e refl
find-append_none p (x ∷ m) e (f, h) yes_e = rw f (find-append_none p m e h yes_e)

not_found :
    (p : Token → Bool) (x t : Token) (o : Option Token)
    → x ≢ t
    → (if p x then some x else o) ≡ some t
    → p x ≡ false
not_found p x t o ne e = elim (Bool-cases (p x)) [
  | inl hit ↦ absurd (ne (ground arith))
  | inr miss ↦ miss
]

and_false : (b : Bool) → (b && false) ≡ false
and_false b = ground arith

some_if :
    (plaintext : Text) (o : Option Token) {t : Token}
    → (if is_empty plaintext then none else o) ≡ some t
    → (if is_empty plaintext then none else some t) ≡ some t
some_if [] o e = cc
some_if (c ∷ s) o e = refl

module _ (hash : Text → Text) where
  -- A token of a known kind minted under a fresh ID is what its secret verifies to, if the secret
  -- is not empty and no token in use opens with it already.
  pub verify-mint :
      (w : World) (s : Store) (kind label created_by : Text) (scope : List Text)
      → known_kind kind ≡ true
      → w.fresh_secret ≢ []
      → lookup w.fresh_id s.tokens ≡ none
      → All (λ t. opens hash w.fresh_secret t ≡ false) (values s.tokens)
      → verify hash (mint hash w s kind label created_by scope).0 w.fresh_secret
        ≡ some (minted hash w kind label created_by scope)
  unfolding mint verify
  verify-mint w s kind label created_by scope known nonempty fresh unused =
      let t = minted hash w kind label created_by scope in
      rw (known, is_empty-false w.fresh_secret nonempty, insert_new w.fresh_id t s.tokens fresh)
        (find-append_none (opens hash w.fresh_secret) s.tokens (w.fresh_id, t) unused
          (rw (same_refl (hash w.fresh_secret)) refl))

  find_sound :
      (P : Token → Type 0) (p : Token → Bool) (m : List (Text × Token)) (t : Token)
      → All (λ e. P e.1) m
      → find p (values m) ≡ some t
      → P t × (p t ≡ true)
  find_sound P p [] t h e = cc
  find_sound P p (x ∷ m) t (q, h) e = elim (Bool-cases (p x.1)) [
    | inl hit ↦
        let same_token : x.1 ≡ t = ground arith in
        (subst P same_token q, ap p (sym same_token) ∙ hit)
    | inr miss ↦ find_sound P p m t h (ground arith)
  ]

  verified :
      (plaintext : Text) (o : Option Token) {t : Token}
      → (if is_empty plaintext then none else o) ≡ some t
      → o ≡ some t
  verified [] o e = cc
  verified (c ∷ s) o e = e

  -- Revoking a token locks it out: whatever is presented afterwards, the token that it verifies to
  -- is another one.
  pub verify-revoke :
      (w : World) (s : Store) (id plaintext : Text) (old t : Token)
      → IsWf s
      → lookup id s.tokens ≡ some old
      → verify hash (revoke w s id).0 plaintext ≡ some t
      → t.id ≢ id
  unfolding revoke verify
  verify-revoke w s id plaintext old t wf known e =
      let Locked : Token → Type 0 = λ x. x.id ≡ id → active x ≡ false in
      let out = record old { revoked_at = some w.now } in
      let locked : All (λ x. Locked x.1) (insert id out s.tokens) =
        All-insert (λ x. Locked x.1) id out s.tokens wf.distinct (λ p. refl)
          (All-mono (λ x own ne p. absurd (ne (own ∙ p))) s.tokens wf.own_id) in
      let found : find (opens hash plaintext) (values (insert id out s.tokens)) ≡ some t =
        verified _ _ (rw (known, revoke) at e) in
      let (shut, open_) =
        find_sound Locked (opens hash plaintext) (insert id out s.tokens) t locked found in
      λ p. cc (shut p, and_right (same t.hash (hash plaintext)) (active t) open_)

  find-insert_other :
      (p : Token → Bool) (id : Text) (v t : Token) (m : List (Text × Token))
      → All (λ e. e.0 ≡ e.1.id) m
      → t.id ≢ id
      → p v ≡ false
      → find p (values m) ≡ some t
      → find p (values (insert id v m)) ≡ some t
  unfolding insert
  find-insert_other p id v t [] own ne off e = cc
  find-insert_other p id v t ((j, x) ∷ m) (o, own) ne off e = elim (Bool-cases (same j id)) [
    | inl hit ↦
        let other : p x ≡ false =
          not_found p x t (find p (values m))
            (λ q. ne (ap (λ y. y.id) (sym q) ∙ sym o ∙ (same_iff j id).0 hit)) e in
        ground arith
    | inr miss ↦ ground (arith, find-insert_other p id v t m own ne off)
  ]

  -- Nobody else is locked out: a secret that verified to another token still does.
  pub verify-revoke_other :
      (w : World) (s : Store) (id plaintext : Text) (t : Token)
      → IsWf s
      → t.id ≢ id
      → verify hash s plaintext ≡ some t
      → verify hash (revoke w s id).0 plaintext ≡ some t
  unfolding revoke verify
  verify-revoke_other w s id plaintext t wf ne e = elim (Option-cases (lookup id s.tokens)) [
    | inl unknown ↦ rw (unknown, revoke) e
    | inr (old, known) ↦
        let out = record old { revoked_at = some w.now } in
        let still =
          find-insert_other (opens hash plaintext) id out t s.tokens wf.own_id ne
            (and_false (same old.hash (hash plaintext))) (verified plaintext _ e) in
        rw (known, revoke, still) (some_if plaintext _ e)
  ]

  abbrev admin_test : Text → Token → Bool
  admin_test plaintext t = opens hash plaintext t && same t.kind kind_admin

  ensure_admin_present :
      (w : World) (s : Store) (plaintext : Text)
      → any (admin_test plaintext) (values s.tokens) ≡ true
      → ensure_admin hash w s plaintext ≡ (s, false, none)
  unfolding ensure_admin
  ensure_admin_present w s plaintext e = rw e (ground arith)

  made_admin :
      (w : World) (plaintext : Text) → admin_test plaintext (admin_of hash plaintext w) ≡ true
  unfolding same
  made_admin w plaintext = rw (same_refl (hash plaintext)) refl

  pub ensure_admin_absent :
      (w : World) (s : Store) (plaintext : Text)
      → trim_space plaintext ≢ []
      → lookup w.fresh_id s.tokens ≡ none
      → any (admin_test plaintext) (values s.tokens) ≡ false
      → (ensure_admin hash w s plaintext).0.tokens
        ≡ s.tokens ++ (w.fresh_id, admin_of hash plaintext w) ∷ []
  unfolding ensure_admin
  ensure_admin_absent w s plaintext filled fresh e =
      rw (e, is_empty-false (trim_space plaintext) filled)
        (insert_new w.fresh_id (admin_of hash plaintext w) s.tokens fresh)

  -- After EnsureAdmin with a key that is not blank some admin token in use opens with the key, and
  -- a second call with the key makes none and changes nothing.
  pub ensure_admin-lem :
      (w w' : World) (s : Store) (plaintext : Text)
      → trim_space plaintext ≢ []
      → lookup w.fresh_id s.tokens ≡ none
      → (any
            (λ t. opens hash plaintext t && same t.kind kind_admin)
            (values (ensure_admin hash w s plaintext).0.tokens)
          ≡ true)
        × (ensure_admin hash w' (ensure_admin hash w s plaintext).0 plaintext
            ≡ ((ensure_admin hash w s plaintext).0, false, none))
  ensure_admin-lem w w' s plaintext filled fresh =
      elim (Bool-cases (any (admin_test plaintext) (values s.tokens))) [
        | inl old ↦
            rw (ensure_admin_present w s plaintext old)
              (old, ensure_admin_present w' s plaintext old)
        | inr new ↦
            let after = ensure_admin_absent w s plaintext filled fresh new in
            let there : any (admin_test plaintext)
                  (values (ensure_admin hash w s plaintext).0.tokens)
                ≡ true =
              rw
                (
                  after,
                  map-append_one (λ (e : Text × Token). e.1) s.tokens
                      (w.fresh_id, admin_of hash plaintext w),
                )
                (Some→any (admin_test plaintext) _
                  (Some-append_right _ (values s.tokens) _ (inl (made_admin w plaintext)))) in
            (there, ensure_admin_present w' _ plaintext there)
      ]

  no_hashes : (ts : List Token) → All (λ t. t.hash ≡ []) (map masked ts)
  no_hashes [] = tt
  no_hashes (t ∷ ts) = (refl, no_hashes ts)

  -- A list of the tokens shows no hash, holds every token once, and goes from the newest to the oldest.
  pub list_tokens-lem :
      (s : Store)
      → All (λ t. t.hash ≡ []) (list_tokens s)
        × Perm (list_tokens s) (map masked (values s.tokens))
        × IsSorted (λ a b. ltb b.created_at a.created_at) (list_tokens s)
  unfolding list_tokens
  list_tokens-lem s = (
    sort_by-All (λ a b. ltb b.created_at a.created_at) (λ t. t.hash ≡ []) _
        (no_hashes (values s.tokens)),
    sort_by-perm _ (map masked (values s.tokens)),
    sort_by-IsSorted (λ a b. ltb b.created_at a.created_at) (λ a b e. ground arith) _,
  )
