-- ===== src/Hub/Padded.antt =====
-- An admin key from the environment with white space at an end.
use llama_chip.Base.{
  Bool-cases, Text, [], ap, arith, false, inl, inr, insert, is_empty, none, refl, same, same_iff,
  sym, trim_space, trim_space_idem, ◌∷◌, ◌≡◌, ◌≢◌, ◌⊎◌,
}
use llama_chip.Hub.Defs.{Store, World, admin_of, ensure_admin, values, verify}
use llama_chip.Hub.Server.{authed, bearer}

-- A verification over a store that holds at most the admin token of the key.
module _ (hash : Text → Text) (w : World) (plaintext : Text) where
  abbrev Only : Store → Type 0
  Only s = (values s.tokens ≡ []) ⊎ (values s.tokens ≡ admin_of hash plaintext w ∷ [])

  verify-Only :
      (s : Store) (p : Text)
      → Only s
      → same (hash plaintext) (hash p) ≡ false
      → verify hash s p ≡ none
  unfolding verify
  verify-Only s p (inl e) miss = rw e (ground arith)
  verify-Only s p (inr e) miss = rw (e, miss) (ground arith)

  ensure_admin-Only : (s : Store) → s.tokens ≡ [] → Only (ensure_admin hash w s plaintext).0
  unfolding ensure_admin insert
  ensure_admin-Only s e = elim (Bool-cases (is_empty (trim_space plaintext))) [
    | inl blank ↦ rw blank (inl (ap values e))
    | inr filled ↦ rw (filled, e) (inr refl)
  ]

module _ (hash : Text → Text) where
  -- EnsureAdmin hashes the key as it is given, while the server trims the bearer that it looks up.
  -- So where the key has white space at an end, and its hash is that of no other text, the admin
  -- token made for it in an empty store is one that no Authorization header opens.
  pub authed-ensure_admin_padded :
      (w : World) (s : Store) (plaintext header : Text)
      → s.tokens ≡ []
      → trim_space plaintext ≢ plaintext
      → ((other : Text) → hash other ≡ hash plaintext → other ≡ plaintext)
      → authed hash (ensure_admin hash w s plaintext).0 header ≡ none
  unfolding authed
  authed-ensure_admin_padded w s plaintext header empty padded only =
      let p = bearer hash header in
      let miss : same (hash plaintext) (hash p) ≡ false =
        differs p (λ e. padded (rw (← only p (sym e)) (trim_space_idem _))) in
      verify-Only hash w plaintext _ p (ensure_admin-Only hash w plaintext s empty) miss
    where
      differs : (p : Text) → hash plaintext ≢ hash p → same (hash plaintext) (hash p) ≡ false
      differs p ne = elim (Bool-cases (same (hash plaintext) (hash p))) [
        | inl hit ↦ absurd (ne ((same_iff _ _).0 hit))
        | inr miss ↦ miss
      ]
