-- ===== src/Hub/Tests.antt =====
-- The hub at concrete inputs, with the text itself for its hash.
use llama_chip.Base.{
  Text, [], ap, codes, insert, lookup, ne_of_same, none, ok, refl, same, some, some_inj, sort_by,
  sym, trim_prefix, trim_space, true, ℕ, ◌++◌, ◌∙◌, ◌∷◌, ◌≡◌, ◌≢◌, ◌⊎◌,
}
use llama_chip.Hub.Defs.{
  Node, Store, Token, World, kind_admin, kind_node, kind_user, known_kind, mint, minted, pruned,
  revoke, verify,
}
use llama_chip.Hub.Server.{Request, authed, revoke_token, serve, tokens}
use llama_chip.Hub.Tokens.{IsWf, verify-mint, verify-revoke}
use llama_chip.Hub.Persist.{new_store, saved}
use llama_chip.Hub.Restart.{new_store-saved}
use llama_chip.Hub.Access.{serve-roster, serve-tokens}

abbrev plain : Text → Text
plain t = t

abbrev token_of : Text → Text → Token
token_of id kind = record {
  id = id;
  hash = codes "lck_" ++ id;
  kind = kind;
  label = id;
  scope = [];
  created_at = 1;
  created_by = [];
  revoked_at = none;
}

abbrev node_of : Text → ℕ → Node
node_of name seen = record {
  name = name;
  mesh_addr = codes "http://m/";
  models = [];
  gpus = [];
  owner = [];
  last_seen = seen;
}

abbrev hub : Store
hub = record {
  path = [];
  tokens =
      (codes "a", token_of (codes "a") kind_admin)
      ∷ (codes "u", token_of (codes "u") kind_user)
      ∷ [];
  roster = (codes "old", node_of (codes "old") 1) ∷ (codes "new", node_of (codes "new") 50) ∷ [];
  node_ttl = 30;
}

abbrev bare : Store
bare = record hub { tokens = [] }

abbrev at : ℕ → World
at now = record { now = now; fresh_id = codes "f"; fresh_secret = codes "lck_s"; can_write = true }

hub-IsWf : IsWf hub
unfolding same
hub-IsWf = record { own_id = (refl, (refl, tt)); distinct = ((ne_of_same _ _ refl, tt), (tt, tt)) }

verify-mint_example :
    verify plain (mint plain (at 60) hub kind_node (codes "n") (codes "a") []).0 (codes "lck_s")
    ≡ some (minted plain (at 60) kind_node (codes "n") (codes "a") [])
unfolding known_kind same lookup
verify-mint_example =
    verify-mint plain (at 60) hub kind_node (codes "n") (codes "a") [] refl (λ e. cc) refl
      (refl, (refl, tt))

verify_user : verify plain hub (codes "lck_u") ≡ some (token_of (codes "u") kind_user)
unfolding verify same
verify_user = refl

verify-revoke_example : (token_of (codes "u") kind_user).id ≢ codes "a"
unfolding revoke verify same lookup
verify-revoke_example =
    verify-revoke plain (at 60) hub (codes "a") (codes "lck_u") (token_of (codes "a") kind_admin)
      (token_of (codes "u") kind_user) hub-IsWf refl refl

abbrev ask : Request
ask = record {
  method = codes "POST";
  authorization = codes "Bearer lck_u";
  endpoint = revoke_token (codes "a");
}

serve-tokens_example : (serve plain (at 60) hub ask).0.tokens ≡ hub.tokens
unfolding authed trim_space trim_prefix verify same
serve-tokens_example =
    serve-tokens plain (at 60) hub ask
      (λ t e k. ne_of_same kind_user kind_admin refl (ap (λ x. x.kind) (some_inj e) ∙ k))

serve-roster_example :
    ((serve plain (at 60) hub ask).0.roster ≡ hub.roster)
    ⊎ ((serve plain (at 60) hub ask).0.roster ≡ (pruned (at 60) hub).roster)
unfolding authed trim_space trim_prefix verify same
serve-roster_example = serve-roster plain (at 60) hub ask (λ t e.
    let k = ap (λ x. x.kind) (some_inj e) in
    (ap (λ x. same x kind_admin) (sym k), ap (λ x. same x kind_node) (sym k)))

abbrev stranger : Request
stranger = record ask { authorization = codes "Bearer nobody" }

abbrev on_disk : Store
on_disk = record hub { path = codes "tokens.json" }

on_disk-IsWf : IsWf on_disk
unfolding same
on_disk-IsWf = record { own_id = hub-IsWf.own_id; distinct = hub-IsWf.distinct }

abbrev restarted : Store
restarted = record on_disk { roster = []; node_ttl = 5 }

restarts : new_store on_disk.path 5 (ok (some (saved on_disk))) ≡ ok restarted
unfolding new_store saved insert same sort_by
restarts = refl

new_store-saved_example :
    ((k : Text) → lookup k restarted.tokens ≡ lookup k on_disk.tokens) × (restarted.roster ≡ [])
new_store-saved_example = new_store-saved on_disk restarted 5 on_disk-IsWf refl restarts

-- A hub that is started, gets its admin key and hands out a token.
abbrev asked_first : Request
asked_first = record {
  method = codes "POST";
  authorization = codes "Bearer k";
  endpoint = tokens (some (record { kind = []; label = codes "n"; scope = [] }));
}

abbrev opened : Store
opened = record { path = []; tokens = []; roster = []; node_ttl = 5 }
