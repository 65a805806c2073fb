-- ===== src/HubClient/Tests.antt =====
-- A node, a client and a hub, with the text itself for its hash.
use llama_chip.Base.{
  List, Option, Some, Text, [], arith, codes, equal_fold, if◌then◌else◌, inl, lower, map, none,
  refl, same, some, suc, trim_prefix, trim_right, trim_space, true, ℕ, ◌==◌, ◌∷◌, ◌≡◌,
}
use llama_chip.Fed.{Fed, Offers, Route, enabled, resolve_remote, token}
use llama_chip.Fed.Tests.{plan}
use llama_chip.Hub.{
  Store, Token, World, authed, is_blank, kind_node, kind_user, list_roster, verify,
}
use llama_chip.HubClient.Defs.{
  Client, Link, LocalState, Reply, Sent, Tick, failing, fetch, first_failed, new_client, on_tick,
  on_ticks, post_register, recovered, run, unreachable,
}
use llama_chip.HubClient.Wire.{hub_send, roster_entry}
use llama_chip.HubClient.Discovery.{announced-Resolves}

abbrev plain : Text → Text
plain t = t

abbrev token_of : Text → Text → Token
token_of id kind = record {
  id = id;
  hash = id;
  kind = kind;
  label = id;
  scope = [];
  created_at = 1;
  created_by = [];
  revoked_at = none;
}

abbrev hub : Store
hub = record {
  path = [];
  tokens =
      (codes "n", token_of (codes "n") kind_node)
      ∷ (codes "u", token_of (codes "u") kind_user)
      ∷ [];
  roster = [];
  node_ttl = 30;
}

abbrev at : ℕ → World
at now = record { now = now; fresh_id = []; fresh_secret = []; can_write = true }

abbrev client_of : Text → Text → Text → Client
client_of token name mesh = record {
  hub_url = codes "http://hub";
  token = token;
  node_name = name;
  advertise = mesh;
  interval = 5;
}

abbrev giver : Client
giver = client_of (codes "n") (codes "gpu") (codes "http://10.0.0.2:8090")

abbrev asker : Client
asker = client_of (codes "u") (codes "me") []

made_client :
    new_client (codes "http://hub/") (codes "n") (codes "gpu") (codes "http://10.0.0.2:8090/") 5
    ≡ some giver
unfolding new_client trim_space trim_right
made_client = refl

abbrev serving_state : Option LocalState
serving_state = some (record { models = codes "Qwen" ∷ []; gpus = [] })

abbrev first_tick : Tick
first_tick = record { now = 9; local = none }

abbrev mesh : Fed
mesh = record { cfg = plan; routes = []; health = []; roster = []; self_name = [] }

announced-Resolves_example :
    (r : Route) × (resolve_remote
        (run
          (hub_send plain (codes "http://hub") (at 60))
          asker
          first_tick
          []
          (some mesh)
          (fetch (hub_send plain (codes "http://hub") (at 50)) giver serving_state hub).1).fedn
        (codes "Qwen")
      ≡ some r)
    × Some (Offers (codes "me") (codes "qwen") r) (
        map roster_entry
          (list_roster
            (at 60)
            (fetch (hub_send plain (codes "http://hub") (at 50)) giver serving_state hub).1).1)
unfolding authed verify same trim_space trim_prefix enabled is_blank equal_fold trim_right lower
announced-Resolves_example =
    announced-Resolves plain (codes "http://hub") giver asker hub (at 50) (at 60) serving_state
      (token_of (codes "n") kind_node) (token_of (codes "u") kind_user) first_tick mesh
      (codes "Qwen") refl refl refl refl refl refl refl refl refl tt (omega arith) refl refl
      (inl refl)

-- A network that is down at first, then up, then down.
abbrev flaky : Sent → ℕ → Option Reply × ℕ
flaky q n =
    (if n == 3 then some (record { status = 200; roster = some []; nodes = none }) else none, suc n)

abbrev beats : List Tick
beats = first_tick ∷ first_tick ∷ first_tick ∷ first_tick ∷ []

abbrev after : Link ℕ
after = run flaky asker first_tick beats (some mesh) 0

log_after :
    after.log
    ≡ first_failed unreachable ∷ failing unreachable ∷ recovered 2 ∷ failing unreachable ∷ []
unfolding run on_ticks on_tick fetch post_register
log_after = refl
