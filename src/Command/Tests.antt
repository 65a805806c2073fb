-- ===== src/Command/Tests.antt =====
-- The commands at concrete inputs: a node with no slots, a default profile of one external slot,
-- and a token.
use llama_chip.Base.{
  Text, [], codes, cut_prefix, delete, false, inl, insert, lookup, lower, none, ok, refl, same,
  some, trim_right, true, ℕ, ◌∷◌, ◌≡◌,
}
use llama_chip.Config.{Config, Federation, fill_slots, load_config, name}
use llama_chip.Backends.{latest}
use llama_chip.Config.Tests.{config_of}
use llama_chip.Fed.{fed_config, new_fed, token}
use llama_chip.Fold.Tests.{Json, word}
use llama_chip.Rig.{IsWf, add, apply_profile, empty_rig, is_healthy, new_rig}
use llama_chip.Rig.Tests.{box, cuda, outside, pair, pair-IsWf, upstream_at}
use llama_chip.Router.Life.{Life, asked, born, lives}
use llama_chip.Router.Mux.{Incoming, Router, handle}
use llama_chip.Router.Meeting.{world}
use llama_chip.Command.Defs.{
  Started, cmd_serve, command, configured, exit_status, hub_client, local_state, pull_ref,
  started_rig,
}
use llama_chip.Router.{choose, local_target}
use llama_chip.Router.Tests.{host}
use llama_chip.Command.Announced.{choose-local_state}
use llama_chip.Command.Lists.{cmd_backends}
use llama_chip.Command.Serve.{Guarded, serve-Guarded, serve-Life}

unknown_command : exit_status (λ c. true) (codes "sevre" ∷ []) ≡ 2
unfolding exit_status command lookup same
unknown_command = refl

failed_command : exit_status (λ c. false) (codes "gpu" ∷ []) ≡ 1
unfolding exit_status command lookup same
failed_command = refl

pull_default : pull_ref ([] ∷ []) ≡ codes "latest"
unfolding pull_ref
pull_default = refl

abbrev shared : Federation
shared = record {
  node_name = codes "me";
  advertise = [];
  token = codes "shared";
  poll_interval_sec = 0;
  peers = [];
  hub_url = [];
  hub_token = [];
  peer_tokens = [];
}

abbrev file : Config
file = record (config_of []) {
  backend = codes "cuda12";
  listen = codes ":9";
  profiles = (codes "solo", outside ∷ []) ∷ [];
  default_profile = codes "solo";
  federation = some shared;
}

abbrev here : Started
here = record {
  config = file;
  router = record { rig = add (empty_rig file cuda) upstream_at; fed = new_fed (fed_config file) };
  skipped = none;
  client = none;
}

came_up : (cmd_serve box (λ a. true) [] (some file)).1 ≡ ok here
unfolding cmd_serve configured load_config new_rig started_rig apply_profile new_fed fed_config
    hub_client lookup same lower name trim_right delete insert cut_prefix fill_slots latest
came_up = refl

abbrev pub unload_call : Text → Incoming Json
unload_call bearer = record {
  request = record {
    path = codes "/api/unload";
    node = [];
    authorization = bearer;
    remote_addr = codes "10.0.0.9";
  };
  method = codes "POST";
  body = word [];
  op = [];
  rest = [];
  asked = record { model = []; gpus = []; kv = [] };
}

abbrev pub after_unload : Router
after_unload = (handle world here.router (unload_call (codes "Bearer shared"))).0

abbrev one_life : Life ℕ Json here.router after_unload
one_life = lives born (asked world (unload_call (codes "Bearer shared")))

serve-Life_example : IsWf after_unload.rig × (token after_unload.fed ≡ codes "shared")
unfolding fed_config new_fed
serve-Life_example = serve-Life box (λ a. true) [] (some file) here came_up one_life

serve-Guarded_example :
    Guarded world (fed_config file) after_unload (unload_call (codes "Bearer x"))
serve-Guarded_example =
    serve-Guarded box (λ a. true) [] (some file) here world (unload_call (codes "Bearer x")) came_up
      one_life

stub_listed :
    cmd_backends (some []) (cuda ∷ []) ≡ some (record { rows = []; newest = none; managed = [] })
unfolding cmd_backends
stub_listed = refl

choose-local_state_example :
    (i : ℕ) × (name (pair.heap i).slot ≡ codes "gemma")
    × (is_healthy (pair.heap i).state ≡ true)
    × (choose host pair none [] (codes "gemma") ≡ some (local_target host (pair.heap i)))
unfolding local_state
choose-local_state_example =
    choose-local_state host pair none none (codes "gemma") pair-IsWf (inl refl)
