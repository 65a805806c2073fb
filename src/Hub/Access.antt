-- ===== src/Hub/Access.antt =====
-- Who may do what at the hub.
use llama_chip.Base.{
  Bool-cases, List, Option, Option-cases, Result-cases, Text, arith, err, false, inl, inr, none,
  refl, same, same_iff, some, ◌≡◌, ◌≢◌, ◌⊎◌,
}
use llama_chip.Hub.Defs.{
  Node, Store, Token, World, kind_admin, kind_node, list_roster, mint, pruned, register, revoke,
}
use llama_chip.Hub.Server.{
  Endpoint, MintBody, Request, Response, accept_node, admin_only, authed, deny, dispatch, me,
  or_node, register_node, revoke_token, roster, serve, serve_me, serve_register, serve_revoke,
  serve_roster, serve_tokens, tokens, unauthorized,
}

register-tokens :
    (w : World) (s : Store) (n : Node) (owner : Text) → (register w s n owner).tokens ≡ s.tokens
unfolding register
register-tokens w s n owner = refl

list_roster-tokens : (w : World) (s : Store) → (list_roster w s).0.tokens ≡ s.tokens
unfolding list_roster
list_roster-tokens w s = refl

module _ (hash : Text → Text) (w : World) (s : Store) (q : Request) where
  abbrev caller : Option Token
  caller = authed hash s q.authorization

  -- The bearer is not that of an admin.
  abbrev NoAdmin : Type 0
  NoAdmin = (t : Token) → caller ≡ some t → t.kind ≢ kind_admin

  not_admin : (t : Token) → NoAdmin → caller ≡ some t → same t.kind kind_admin ≡ false
  not_admin t h e = elim (Bool-cases (same t.kind kind_admin)) [
    | inl hit ↦ absurd (h t e ((same_iff _ _).0 hit))
    | inr miss ↦ miss
  ]

  admin_only-refused : NoAdmin → (r : Response) × (admin_only hash s q.authorization ≡ err r)
  unfolding admin_only
  admin_only-refused h = elim (Option-cases caller) [
    | inl e ↦ (unauthorized hash, rw (e, admin_only) refl)
    | inr (t, e) ↦ (deny 403 "admin token required", rw (e, admin_only, not_admin t h e) refl)
  ]

  accept_node-tokens : (t : Token) (n : Node) → (accept_node hash w s t n).0.tokens ≡ s.tokens
  unfolding accept_node register list_roster
  accept_node-tokens t n = ground arith

  serve_register-tokens :
      (body : Option Node)
      → (serve_register hash w s q.method q.authorization body).0.tokens ≡ s.tokens
  unfolding serve_register
  serve_register-tokens none = ground arith
  serve_register-tokens (some n) = elim (Option-cases caller) [
    | inl e ↦ rw (e, serve_register) (ground arith)
    | inr (t, e) ↦ rw (e, serve_register) (ground (arith, accept_node-tokens t n))
  ]

  dispatch-tokens :
      (e : Endpoint) → NoAdmin → (dispatch hash w s q.method q.authorization e).0.tokens ≡ s.tokens
  unfolding dispatch
  dispatch-tokens me h = ground arith
  dispatch-tokens roster h = ground (arith, list_roster-tokens w s)
  dispatch-tokens (register_node body) h = serve_register-tokens body
  dispatch-tokens (tokens body) h =
      let (r, e) = admin_only-refused h in rw (e, dispatch, serve_tokens) refl
  dispatch-tokens (revoke_token id) h =
      let (r, e) = admin_only-refused h in rw (e, dispatch, serve_revoke) (ground arith)

  -- Without the bearer of an admin token no request changes the tokens.
  pub serve-tokens : NoAdmin → (serve hash w s q).0.tokens ≡ s.tokens
  unfolding serve
  serve-tokens h = dispatch-tokens q.endpoint h

  -- The bearer is neither that of an admin nor that of a node.
  abbrev pub NoContributor : Type 0
  NoContributor =
      (t : Token)
      → caller ≡ some t
      → (same t.kind kind_admin ≡ false) × (same t.kind kind_node ≡ false)

  mint-roster :
      (kind label by : Text) (scope : List Text)
      → (mint hash w s kind label by scope).0.roster ≡ s.roster
  unfolding mint
  mint-roster kind label by scope = ground arith

  revoke-roster : (id : Text) → (revoke w s id).0.roster ≡ s.roster
  unfolding revoke
  revoke-roster id = ground arith

  serve_tokens-roster :
      (body : Option MintBody)
      → (serve_tokens hash w s q.method q.authorization body).0.roster ≡ s.roster
  unfolding serve_tokens
  serve_tokens-roster none = ground arith
  serve_tokens-roster (some b) = elim (Result-cases (admin_only hash s q.authorization)) [
    | inl (t, e) ↦
        rw (e, serve_tokens)
          (ground (arith, mint-roster (or_node hash b.kind) b.label t.label b.scope))
    | inr (r, e) ↦ rw (e, serve_tokens) refl
  ]

  serve_revoke-roster :
      (id : Text) → (serve_revoke hash w s q.method q.authorization id).0.roster ≡ s.roster
  unfolding serve_revoke
  serve_revoke-roster id = ground (arith, revoke-roster id)

  serve_register-roster :
      (body : Option Node)
      → NoContributor
      → (serve_register hash w s q.method q.authorization body).0.roster ≡ s.roster
  unfolding serve_register
  serve_register-roster body h = elim (Option-cases caller) [
    | inl e ↦ rw (e, serve_register) (ground arith)
    | inr (t, e) ↦ let (a, b) = h t e in rw (e, serve_register, a, b) (ground arith)
  ]

  serve_roster-roster :
      ((serve_roster hash w s q.authorization).0.roster ≡ s.roster)
      ⊎ ((serve_roster hash w s q.authorization).0.roster ≡ (pruned w s).roster)
  unfolding serve_roster list_roster
  serve_roster-roster = elim (Option-cases caller) [
    | inl e ↦ rw (e, serve_roster) (inl refl)
    | inr (t, e) ↦ rw (e, serve_roster) (inr refl)
  ]

  -- Without the bearer of an admin or of a node no request puts a node into the roster: it stays as
  -- it was, but for the stale nodes that a reading drops.
  pub serve-roster :
      NoContributor
      → ((serve hash w s q).0.roster ≡ s.roster)
        ⊎ ((serve hash w s q).0.roster ≡ (pruned w s).roster)
  unfolding serve
  serve-roster h = go q.endpoint
    where
      go :
          (e : Endpoint)
          → ((dispatch hash w s q.method q.authorization e).0.roster ≡ s.roster)
            ⊎ ((dispatch hash w s q.method q.authorization e).0.roster ≡ (pruned w s).roster)
      go me = inl (ground arith)
      go roster = serve_roster-roster
      go (register_node body) = inl (serve_register-roster body h)
      go (tokens body) = inl (serve_tokens-roster body)
      go (revoke_token id) = inl (serve_revoke-roster id)

  -- A request whose bearer is that of no token in use changes nothing, and its answer is 401, or
  -- 405 where the method is wrong.
  pub serve_unauthorized :
      caller ≡ none
      → ((serve hash w s q).0 ≡ s)
        × (((serve hash w s q).1.status ≡ 401) ⊎ ((serve hash w s q).1.status ≡ 405))
  unfolding serve admin_only
  serve_unauthorized e = go q.endpoint
    where
      shut : admin_only hash s q.authorization ≡ err (unauthorized hash)
      shut = rw (e, admin_only) refl

      go :
          (p : Endpoint)
          → ((dispatch hash w s q.method q.authorization p).0 ≡ s)
            × (((dispatch hash w s q.method q.authorization p).1.status ≡ 401)
                ⊎ ((dispatch hash w s q.method q.authorization p).1.status ≡ 405))
      go me = rw (e, dispatch, serve_me) (refl, inl refl)
      go roster = rw (e, dispatch, serve_roster) (refl, inl refl)
      go (register_node body) = rw (e, dispatch, serve_register) (ground arith)
      go (tokens body) = rw (shut, dispatch, serve_tokens) (refl, inl refl)
      go (revoke_token id) = rw (shut, dispatch, serve_revoke) (ground arith)
