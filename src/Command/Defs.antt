-- ===== src/Command/Defs.antt =====
-- cmd/llama-chip/main.go: main, and cmdServe up to the time that the server takes requests.
--
-- The configuration file as it decodes, the port of the machine and the disk are parameters. What
-- cmdServe starts in the background is a list of effects in their order; lines of the log are left
-- out.
use llama_chip.Base.{
  Bool, List, Option, Result, Text, [], codes, err, if◌then◌else◌, is_empty, lookup, map, none, not,
  ok, some, ℕ, ◌&&◌, ◌*◌, ◌++◌, ◌∷◌,
}
use llama_chip.Config.{Config, ConfigError, Federation, load_config}
use llama_chip.Fed.{Fed, enabled, fed_config, hub_managed, new_fed}
use llama_chip.Gpu.{Gpu}
use llama_chip.HubClient.{Client, LocalState, new_client}
use llama_chip.Rig.{
  Env, Instance, ProfileError, Rig, RigError, apply_profile, args, new_rig, snapshot,
}
use llama_chip.Router.Views.{local_model_names}
use llama_chip.Router.Mux.{Router, local_gpus, node_name}

pub data Command : Type 0 where
  backends models gpu help : Command
  serve runtime pull pull_ggml : List Text → Command

abbrev commands : List Text → List (Text × Command)
commands args =
    (codes "backends", backends)
    ∷ (codes "models", models)
    ∷ (codes "gpu", gpu)
    ∷ (codes "serve", serve args)
    ∷ (codes "runtime", runtime args)
    ∷ (codes "pull", pull args)
    ∷ (codes "pull-ggml", pull_ggml args)
    ∷ (codes "-h", help)
    ∷ (codes "--help", help)
    ∷ (codes "help", help)
    ∷ []

-- The command of the arguments behind the program's name.
unfoldable pub command : List Text → Option Command
unfolding lookup
command [] = none
command (c ∷ args) = lookup c (commands args)

-- main: the exit status, where `runs` tells whether a command comes back without an error.
unfoldable pub exit_status : (Command → Bool) → List Text → ℕ
unfolding command
exit_status runs args = elim (command args) [
  | none ↦ 2
  | some c ↦ elim c [
    | help ↦ 0
    | backends ↦ if runs backends then 0 else 1
    | models ↦ if runs models then 0 else 1
    | gpu ↦ if runs gpu then 0 else 1
    | serve a ↦ if runs (serve a) then 0 else 1
    | runtime a ↦ if runs (runtime a) then 0 else 1
    | pull a ↦ if runs (pull a) then 0 else 1
    | pull_ggml a ↦ if runs (pull_ggml a) then 0 else 1
  ]
]

abbrev first_or : Text → List Text → Text
first_or d [] = d
first_or d (a ∷ args) = if is_empty a then d else a

-- The arguments of lms in cmdPull, and the reference of cmdPullGGML.
unfoldable pub pull_args : List Text → List Text
pull_args args =
    codes "runtime" ∷ codes "get" ∷ first_or (codes "llama.cpp:cuda12") args ∷ codes "-y" ∷ []

unfoldable pub pull_ref : List Text → Text
pull_ref args = first_or (codes "latest") args

-- What is started in the background, after the port is bound.
pub data Effect : Type 0 where
  binds : Text → Effect
  supervises polls_upstream : ℕ → Effect
  polls_peers beats : Effect

pub data ServeError : Type 0 where
  unreadable : ServeError
  bad_config : ConfigError → ServeError
  bad_rig : RigError → ServeError
  port_taken : Text → ServeError

-- What cmdServe has when it begins to serve.
pub record Started : Type 0 where
  pub config : Config
  pub router : Router
  pub skipped : Option ProfileError
  pub client : Option Client

-- config.Load with the `listen` flag over it.
abbrev pub flagged : Text → Config → Config
flagged listen c = if is_empty listen then c else record c { listen = listen }

abbrev pub checked_config : Text → Config × Option ConfigError → Result ServeError Config
checked_config listen (c, none) = ok (flagged listen c)
checked_config listen (c, some e) = err (bad_config e)

unfoldable pub configured : Text → Option Config → Result ServeError Config
unfolding load_config
configured listen none = err unreadable
configured listen (some c) = checked_config listen (load_config c)

-- The supervisor of an instance, as Start and Load begin it.
abbrev pub start_one : Instance → ℕ → Effect
start_one i n = elim i.external [ none ↦ supervises n | some u ↦ polls_upstream n ]

abbrev pub starts : Rig → List ℕ → List Effect
starts r = map (λ n. start_one (r.heap n) n)

-- Whether the default profile is applied.
abbrev pub wants_profile : Config → Bool
wants_profile c = is_empty c.slots && not (is_empty c.default_profile)

-- The rig behind Start and the default profile.
unfoldable pub started_rig : Env → Config → Rig → Rig × Option ProfileError
unfolding apply_profile
started_rig env c r = if wants_profile c then apply_profile env r c.default_profile else (r, none)

abbrev pub loaded : Config → Rig → List Effect
loaded c r = if wants_profile c then starts r r.instances else []

abbrev pub fed_effects : Option Fed → List Effect
fed_effects f = if enabled f && not (hub_managed f) then polls_peers ∷ [] else []

-- The client of a configuration that names a hub; the interval is in nanoseconds.
unfoldable pub hub_client : Option Fed → Option Federation → Option Client
unfolding new_client
hub_client f none = none
hub_client f (some fc) =
    if is_empty fc.hub_url
    then none
    else new_client fc.hub_url fc.hub_token (node_name f) fc.advertise
        (fc.poll_interval_sec * 1000000000)

-- What the client of the hub announces of the node.
unfoldable pub local_state : Rig → Option (List Gpu) → LocalState
unfolding snapshot
local_state r gpus = record { models = local_model_names r; gpus = local_gpus gpus }

abbrev pub client_effects : Option Client → List Effect
client_effects none = []
client_effects (some c) = beats ∷ []

abbrev pub begin : Env → Config → Rig → List Effect × Result ServeError Started
begin env c r =
    let (r', skipped) = started_rig env c r in
    let f = new_fed (fed_config c) in
    let client = hub_client f c.federation in
    (
      binds c.listen
          ∷ (starts r r.instances ++ (loaded c r' ++ (fed_effects f ++ client_effects client))),
      ok (record {
        config = c;
        router = record { rig = r'; fed = f };
        skipped = skipped;
        client = client;
      }),
    )

unfoldable pub cmd_serve :
    Env → (Text → Bool) → Text → Option Config → List Effect × Result ServeError Started
unfolding configured new_rig started_rig new_fed fed_config hub_client
cmd_serve env can_bind listen file = elim (configured listen file) [
  | err e ↦ ([], err e)
  | ok c ↦ elim (new_rig env c) [
    | err e ↦ ([], err (bad_rig e))
    | ok r ↦ if can_bind c.listen then begin env c r else ([], err (port_taken c.listen))
  ]
]
