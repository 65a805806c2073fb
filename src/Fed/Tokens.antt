-- ===== src/Fed/Tokens.antt =====
-- When a node federates, and which bearer it sends to which peer.
use llama_chip.Base.{
  All, All-mono, List, Text, [], ap, arith, equal_fold, equal_fold_iff, false, is_empty,
  is_empty-false, lookup, lookup-absent, lower, none, not, refl, some, sym, true, ◌||◌, ◌↔◌, ◌∷◌,
  ◌≡◌, ◌≢◌,
}
use llama_chip.Fed.Resolve.{find-none}
use llama_chip.Fed.Defs.{Fed, FedConfig, enabled, new_fed, outbound_token, peer_token, token}

pub is_empty_iff {ℓ} : {A : Type ℓ} (xs : List A) → (is_empty xs ≡ true) ↔ (xs ≡ [])
is_empty_iff [] = (λ e. refl, λ e. refl)
is_empty_iff (x ∷ xs) = (λ e. cc, λ e. cc)

-- New gives nothing only for a configuration without peers, hub and token; what it gives for one
-- with only a token does not federate.
pub new_fed-enabled :
    (c : FedConfig)
    → ((new_fed c ≡ none) ↔ ((c.peers ≡ []) × (c.hub_url ≡ []) × (c.token ≡ [])))
      × (enabled (new_fed c) ≡ (not (is_empty c.peers) || not (is_empty c.hub_url)))
      × (token (new_fed c) ≡ c.token)
unfolding new_fed enabled
new_fed-enabled c =
    ground (arith, is_empty_iff c.peers, is_empty_iff c.hub_url, is_empty_iff c.token)

peer_token-exact :
    (f : Fed) (name t : Text)
    → lookup name f.cfg.peer_tokens ≡ some t
    → peer_token (some f) name ≡ t
unfolding peer_token
peer_token-exact f name t e = rw (e, peer_token) refl

fold_apart : (k : Text) {name : Text} → equal_fold k name ≡ false → name ≢ k
fold_apart k {name} g p = let hit = (equal_fold_iff k name).1 (ap lower (sym p)) in cc

peer_token_unnamed :
    (f : Fed) (name : Text)
    → All (λ e. equal_fold e.0 name ≡ false) f.cfg.peer_tokens
    → peer_token (some f) name ≡ []
unfolding peer_token
peer_token_unnamed f name h =
    let absent =
      lookup-absent name f.cfg.peer_tokens
        (All-mono (λ e g p. fold_apart e.0 g p) f.cfg.peer_tokens h) in
    rw (absent, peer_token, (find-none (λ e. equal_fold e.0 name) f.cfg.peer_tokens).1 h) refl

-- The bearer for a peer: the token under its name, if it has one that is not empty; the node's
-- own token, if no name is that of the peer in any letter case.
pub outbound_token-lem :
    (f : Fed) (name : Text)
    → ((t : Text)
        → lookup name f.cfg.peer_tokens ≡ some t
        → t ≢ []
        → outbound_token (some f) name ≡ t)
      × (All (λ e. equal_fold e.0 name ≡ false) f.cfg.peer_tokens
          → outbound_token (some f) name ≡ f.cfg.token)
unfolding outbound_token
outbound_token-lem f name = (
  λ t e ne. rw (peer_token-exact f name t e, outbound_token, is_empty-false t ne) refl,
  λ h. rw (peer_token_unnamed f name h, outbound_token) refl,
)
