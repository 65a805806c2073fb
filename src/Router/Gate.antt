-- ===== src/Router/Gate.antt =====
-- Who may ask a node.
use llama_chip.Base.{
  Bool-cases, Option, [], codes, false, inl, inr, is_empty, ne-nil_of_is_empty, ne_of_same, refl,
  same, same_iff, true, ◌++◌, ◌≡◌, ◌≢◌, ◌⊎◌,
}
use llama_chip.Fed.{Fed, FedConfig, is_empty_iff, no_federation, token}
use llama_chip.Router.Defs.{Host, Request, is_loopback, with_auth}

abbrev pub MayPass : Host → FedConfig → Request → Type 0
MayPass host c q =
    (c.token ≡ [])
    ⊎ ((q.path ≡ codes "/health")
        ⊎ ((is_loopback host q.remote_addr ≡ true)
            ⊎ (q.authorization ≡ codes "Bearer " ++ c.token)))

pub record Barred (host : Host) (c : FedConfig) (q : Request) : Type 0 where
  pub token_set : c.token ≢ []
  pub not_health : q.path ≢ codes "/health"
  pub not_local : is_loopback host q.remote_addr ≡ false
  pub not_bearer : q.authorization ≢ codes "Bearer " ++ c.token

module _ {A : Type 0} where
  -- A request is let through if there is no token, for the health check, from the machine itself
  -- and with the bearer of the token, and is refused otherwise.
  pub gate_iff :
      (host : Host) (c : FedConfig) (f : Option Fed) (q : Request) (refused next : A)
      → token f ≡ c.token
      → ((with_auth host f q refused next ≡ next) × MayPass host c q)
        ⊎ ((with_auth host f q refused next ≡ refused) × Barred host c q)
  unfolding with_auth
  gate_iff host c f q refused next same_token = elim (Bool-cases (is_empty c.token)) [
    | inl blank ↦ inl (rw (same_token, blank, with_auth) refl, inl ((is_empty_iff c.token).0 blank))
    | inr set ↦ elim (Bool-cases (same q.path (codes "/health"))) [
      | inl health ↦
          inl (rw (same_token, set, health, with_auth) refl, inr (inl ((same_iff _ _).0 health)))
      | inr other ↦ elim (Bool-cases (is_loopback host q.remote_addr)) [
        | inl here ↦ inl (rw (same_token, set, other, here, with_auth) refl, inr (inr (inl here)))
        | inr away ↦ elim (Bool-cases (same q.authorization (codes "Bearer " ++ c.token))) [
          | inl key ↦ inl (
            rw (same_token, set, other, away, key, with_auth) refl,
            inr (inr (inr ((same_iff _ _).0 key))),
          )
          | inr wrong ↦ inr (
            rw (same_token, set, other, away, wrong, with_auth) refl,
            record {
              token_set = ne-nil_of_is_empty c.token set;
              not_health = ne_of_same _ _ other;
              not_local = away;
              not_bearer = ne_of_same _ _ wrong;
            },
          )
        ]
      ]
    ]
  ]

  pub gate_cases :
      (host : Host) (f : Option Fed) (q : Request) (refused next : A)
      → (with_auth host f q refused next ≡ next) ⊎ (with_auth host f q refused next ≡ refused)
  gate_cases host f q refused next =
      let of_token : FedConfig = record no_federation { token = token f } in
      elim (gate_iff host of_token f q refused next refl) [
        | inl (through, _) ↦ inl through
        | inr (barred, _) ↦ inr barred
      ]
