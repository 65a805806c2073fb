-- ===== src/Hub/Kept.antt =====
-- What every request keeps of the hub's maps.
use llama_chip.Base.{
  All, Bool, Bool-cases, Distinct, List, Option, Option-cases, Result, Result-cases, Text, [], any,
  ap, codes, err, false, if◌then◌else◌, inl, inr, insert, insert-Distinct, is_empty, keys,
  keys-select-Distinct, lookup, none, not, ok, refl, same, same_iff, some, some_inj, sym,
  trim_space, true, ◌&&◌, ◌∙◌, ◌∷◌, ◌≡◌,
}
use llama_chip.Hub.Defs.{
  Node, Store, StoreError, Token, World, admin_of, ensure_admin, is_stale, kind_admin, known_kind,
  list_roster, mint, minted, opens, pruned, register, revoke, values,
}
use llama_chip.Hub.Server.{
  Endpoint, MintBody, Response, accept_node, admin_only, authed, deny, dispatch, is_post, me,
  mint_reply, or_node, register_node, revoke_reply, revoke_token, roster, serve_me, serve_register,
  serve_revoke, serve_roster, serve_tokens, tokens,
}

-- Every token stands under its ID, every ID and every node stands once.
pub record IsKept (s : Store) : Type 0 where
  pub own_id : All (λ e. e.0 ≡ e.1.id) s.tokens
  pub distinct : Distinct (keys s.tokens)
  pub nodes_distinct : Distinct (keys s.roster)

insert-own :
    (k : Text) (t : Token) (m : List (Text × Token))
    → k ≡ t.id
    → All (λ e. e.0 ≡ e.1.id) m
    → All (λ e. e.0 ≡ e.1.id) (insert k t m)
unfolding insert
insert-own k t [] p h = (p, tt)
insert-own k t ((j, u) ∷ m) p (q, h) = elim (Bool-cases (same j k)) [
  | inl hit ↦ rw hit (p, h)
  | inr miss ↦ rw miss (q, insert-own k t m p h)
]

lookup-own :
    (k : Text) (t : Token) (m : List (Text × Token))
    → All (λ e. e.0 ≡ e.1.id) m
    → lookup k m ≡ some t
    → k ≡ t.id
unfolding lookup
lookup-own k t [] h e = cc
lookup-own k t ((j, u) ∷ m) (q, h) e = elim (Bool-cases (same j k)) [
  | inl hit ↦ sym ((same_iff j k).0 hit) ∙ q ∙ ap (λ x. x.id) (some_inj (rw hit at e))
  | inr miss ↦ lookup-own k t m h (rw miss at e)
]

register-IsKept :
    (w : World) (s : Store) (n : Node) (owner : Text) → IsKept s → IsKept (register w s n owner)
unfolding register
register-IsKept w s n owner h = record {
  own_id = h.own_id;
  distinct = h.distinct;
  nodes_distinct = insert-Distinct n.name _ s.roster h.nodes_distinct;
}

list_roster-IsKept : (w : World) (s : Store) → IsKept s → IsKept (list_roster w s).0
unfolding list_roster pruned
list_roster-IsKept w s h = record {
  own_id = h.own_id;
  distinct = h.distinct;
  nodes_distinct = keys-select-Distinct (λ e. not (is_stale w s e.1)) s.roster h.nodes_distinct;
}

pub put-IsKept :
    (s : Store) (k : Text) (t : Token)
    → k ≡ t.id
    → IsKept s
    → IsKept (record s { tokens = insert k t s.tokens })
put-IsKept s k t p h = record {
  own_id = insert-own k t s.tokens p h.own_id;
  distinct = insert-Distinct k t s.tokens h.distinct;
  nodes_distinct = h.nodes_distinct;
}

revoke-IsKept : (w : World) (s : Store) (id : Text) → IsKept s → IsKept (revoke w s id).0
unfolding revoke
revoke-IsKept w s id h = elim (Option-cases (lookup id s.tokens)) [
  | inl unknown ↦ rw (unknown, revoke) h
  | inr (t, known) ↦
      rw (known, revoke)
        (put-IsKept s id (record t { revoked_at = some w.now })
          (lookup-own id t s.tokens h.own_id known) h)
]

-- A branch on a test.
if-IsKept {ℓ} :
    {X : Type ℓ} (b : Bool) (x y : Store × X)
    → IsKept x.0
    → IsKept y.0
    → IsKept (if b then x else y).0
if-IsKept true x y h k = h
if-IsKept false x y h k = k

module _ (hash : Text → Text) (w : World) (s : Store) (h : IsKept s) where
  mint-IsKept :
      (kind label by : Text) (scope : List Text) → IsKept (mint hash w s kind label by scope).0
  unfolding mint
  mint-IsKept kind label by scope =
      if-IsKept (known_kind kind) _ _ (put-IsKept s _ (minted hash w kind label by scope) refl h) h

  pub ensure_admin-IsKept : (key : Text) → IsKept (ensure_admin hash w s key).0
  unfolding ensure_admin
  ensure_admin-IsKept key = elim (Bool-cases (is_empty (trim_space key))) [
    | inl blank ↦ rw (blank, ensure_admin) h
    | inr filled ↦
        elim (Bool-cases
          (any (λ t. opens hash key t && same t.kind kind_admin) (values s.tokens))) [
            | inl there ↦ rw (filled, there, ensure_admin) h
            | inr missing ↦
                rw (filled, missing, ensure_admin)
                  (put-IsKept s w.fresh_id (admin_of hash key w) refl h)
          ]
  ]

  accept_node-IsKept : (t : Token) (n : Node) → IsKept (accept_node hash w s t n).0
  unfolding accept_node
  accept_node-IsKept t n =
      if-IsKept _ _ _ h (list_roster-IsKept w _ (register-IsKept w s _ t.label h))

  by_body :
      (t : Token) (b : Option Node)
      → IsKept
          (elim b as (λ _. Store × Response) [
            | none ↦ (s, deny 400 "bad node json")
            | some n ↦ accept_node hash w s t n
          ]).0
  by_body t none = h
  by_body t (some n) = accept_node-IsKept t n

  serve_register-IsKept :
      (method auth : Text) (body : Option Node)
      → IsKept (serve_register hash w s method auth body).0
  unfolding serve_register
  serve_register-IsKept method auth body = elim (Bool-cases (is_post method)) [
    | inr other ↦ rw (other, serve_register) h
    | inl post ↦ elim (Option-cases (authed hash s auth)) [
      | inl e ↦ rw (post, e, serve_register) h
      | inr (t, e) ↦ rw (post, e, serve_register) (if-IsKept _ _ _ h (by_body t body))
    ]
  ]

  serve_roster-IsKept : (auth : Text) → IsKept (serve_roster hash w s auth).0
  unfolding serve_roster
  serve_roster-IsKept auth = elim (Option-cases (authed hash s auth)) [
    | inl e ↦ rw (e, serve_roster) h
    | inr (t, e) ↦ rw (e, serve_roster) (list_roster-IsKept w s h)
  ]

  mint_reply-IsKept :
      (x : Store × Result StoreError Token) → IsKept x.0 → IsKept (mint_reply hash w x).0
  mint_reply-IsKept (s', ok t) k = k
  mint_reply-IsKept (s', err e) k = k

  minted_by :
      (t : Token) (body : Option MintBody)
      → IsKept
          (elim body as (λ _. Store × Response) [
            | none ↦ (s, deny 400 "bad json")
            | some b ↦
                mint_reply hash w (mint hash w s (or_node hash b.kind) b.label t.label b.scope)
          ]).0
  minted_by t none = h
  minted_by t (some b) =
      mint_reply-IsKept _ (mint-IsKept (or_node hash b.kind) b.label t.label b.scope)

  serve_tokens-IsKept :
      (method auth : Text) (body : Option MintBody)
      → IsKept (serve_tokens hash w s method auth body).0
  unfolding serve_tokens
  serve_tokens-IsKept method auth body = elim (Result-cases (admin_only hash s auth)) [
    | inr (r, e) ↦ rw (e, serve_tokens) h
    | inl (t, e) ↦ elim (Bool-cases (same method (codes "GET"))) [
      | inl get ↦ rw (e, get, serve_tokens) h
      | inr other ↦ elim (Bool-cases (is_post method)) [
        | inl post ↦ rw (e, other, post, serve_tokens) (minted_by t body)
        | inr neither ↦ rw (e, other, neither, serve_tokens) h
      ]
    ]
  ]

  revoke_reply-IsKept :
      (id : Text) (x : Store × Option StoreError) → IsKept x.0 → IsKept (revoke_reply hash id x).0
  revoke_reply-IsKept id (s', none) k = k
  revoke_reply-IsKept id (s', some e) k = k

  serve_revoke-IsKept : (method auth id : Text) → IsKept (serve_revoke hash w s method auth id).0
  unfolding serve_revoke
  serve_revoke-IsKept method auth id = elim (Bool-cases (is_post method)) [
    | inr other ↦ rw (other, serve_revoke) h
    | inl post ↦ elim (Result-cases (admin_only hash s auth)) [
      | inr (r, e) ↦ rw (post, e, serve_revoke) h
      | inl (t, e) ↦ rw (post, e, serve_revoke) (revoke_reply-IsKept id _ (revoke-IsKept w s id h))
    ]
  ]

  serve_me-IsKept : (auth : Text) → IsKept (serve_me hash s auth).0
  unfolding serve_me
  serve_me-IsKept auth = elim (Option-cases (authed hash s auth)) [
    | inl e ↦ rw (e, serve_me) h
    | inr (t, e) ↦ rw (e, serve_me) h
  ]

  pub dispatch-IsKept :
      (method auth : Text) (e : Endpoint) → IsKept (dispatch hash w s method auth e).0
  unfolding dispatch
  dispatch-IsKept method auth me = serve_me-IsKept auth
  dispatch-IsKept method auth roster = serve_roster-IsKept auth
  dispatch-IsKept method auth (register_node body) = serve_register-IsKept method auth body
  dispatch-IsKept method auth (tokens body) = serve_tokens-IsKept method auth body
  dispatch-IsKept method auth (revoke_token id) = serve_revoke-IsKept method auth id
