-- ===== src/Command/Serve.antt =====
-- What cmdServe of cmd/llama-chip/main.go starts, and what holds for as long as the node runs.
use mathlib.Core.List.{append-nil, append_assoc}
use llama_chip.Base.{
  >>=-eq-ok, Bool, Bool-cases, List, Option, Result-cases, Text, [], and_left, ap, err, inl, inr,
  is_empty, none, ok, ok-injective, refl, some, subst, sym, true, ◌++◌, ◌∙◌, ◌∷◌, ◌≡◌, ◌⊎◌,
}
use llama_chip.Config.{Config, ConfigError, load_config, validate}
use llama_chip.Fed.{FedConfig, fed_config, is_empty_iff, new_fed, new_fed-enabled, token, up}
use llama_chip.Rig.{
  Env, IsWf, Rig, apply_profile-IsWf, empty_rig, new_rig, new_rig-IsWf, new_slots, resolve_backend,
  rig_backend_of,
}
use llama_chip.Router.Entry.{Touched}
use llama_chip.Router.Gate.{Barred, MayPass, gate_iff}
use llama_chip.Router.Life.{Life, Life-IsKept, handle-Touched}
use llama_chip.Router.Mux.{Incoming, Router, World, handle, mux, status_only}
use llama_chip.Command.Defs.{
  Effect, ServeError, Started, bad_rig, begin, binds, checked_config, client_effects, cmd_serve,
  configured, fed_effects, flagged, hub_client, loaded, port_taken, started_rig, starts,
  wants_profile,
}

flagged-validate :
    (listen : Text) (c : Config) → validate c ≡ none → validate (flagged listen c) ≡ none
unfolding validate
flagged-validate listen c e = elim (Bool-cases (is_empty listen)) [
  | inl bare ↦ rw bare e
  | inr given ↦ rw given e
]

checked_config-validate :
    (listen : Text) (x : Config × Option ConfigError) (c : Config)
    → x.1 ≡ validate x.0
    → checked_config listen x ≡ ok c
    → validate c ≡ none
checked_config-validate listen (c0, none) c e h =
    subst (λ y. validate y ≡ none) (ok-injective h) (flagged-validate listen c0 (sym e))
checked_config-validate listen (c0, some x) c e h = cc

configured-validate :
    (listen : Text) (file : Option Config) (c : Config)
    → configured listen file ≡ ok c
    → validate c ≡ none
unfolding configured load_config
configured-validate listen none c h = cc
configured-validate listen (some x) c h = checked_config-validate listen (load_config x) c refl h

started_rig-IsWf : (env : Env) (c : Config) (r : Rig) → IsWf r → IsWf (started_rig env c r).0
unfolding started_rig
started_rig-IsWf env c r wf = elim (Bool-cases (wants_profile c)) [
  | inl wanted ↦ rw wanted (apply_profile-IsWf env r c.default_profile wf)
  | inr plain ↦ rw plain wf
]

new_rig-nil :
    (env : Env) (c : Config) (r : Rig) → c.slots ≡ [] → new_rig env c ≡ ok r → r.instances ≡ []
unfolding new_rig new_slots
new_rig-nil env c r bare h =
    let (be, _, made) =
      >>=-eq-ok (rig_backend_of (resolve_backend env c.backend))
        (λ x. new_slots env (empty_rig c x) c.slots) r h in
    ap (λ x. x.instances) (sym (ok-injective (rw bare at made)))

-- The supervisors that Start and the default profile begin are those of the instances that the
-- rig then has.
starts-all :
    (env : Env) (c : Config) (r : Rig)
    → new_rig env c ≡ ok r
    → let r' = (started_rig env c r).0 in
      starts r r.instances ++ loaded c r' ≡ starts r' r'.instances
unfolding started_rig
starts-all env c r h = elim (Bool-cases (wants_profile c)) [
  | inl wanted ↦
      let none_yet = new_rig-nil env c r ((is_empty_iff c.slots).0 (and_left _ _ wanted)) h in
      rw (wanted, none_yet) refl
  | inr plain ↦ rw plain (append-nil (starts r r.instances))
]

starts-then :
    (env : Env) (c : Config) (r : Rig) (made : new_rig env c ≡ ok r) (rest : List Effect)
    → let r' = (started_rig env c r).0 in
      starts r r.instances ++ (loaded c r' ++ rest) ≡ starts r' r'.instances ++ rest
starts-then env c r made rest =
    sym (append_assoc (starts r r.instances) (loaded c (started_rig env c r).0) rest)
    ∙ ap (λ x. x ++ rest) (starts-all env c r made)

-- A node that serves: its port was bound before anything else, then a supervisor was started for
-- every instance of its rig, and then the poll of the peers or the client of the hub.
pub record Ready (can_bind : Text → Bool) (es : List Effect) (s : Started) : Type 0 where
  pub bound : can_bind s.config.listen ≡ true
  pub effects :
      es
      ≡ binds s.config.listen
        ∷ (starts s.router.rig s.router.rig.instances
            ++ (fed_effects s.router.fed ++ client_effects s.client))
  pub wf : IsWf s.router.rig
  pub fed : s.router.fed ≡ new_fed (fed_config s.config)

begin-Ready :
    (env : Env) (can_bind : Text → Bool) (c : Config) (r : Rig)
    → validate c ≡ none
    → new_rig env c ≡ ok r
    → can_bind c.listen ≡ true
    → (s : Started) × ((begin env c r).1 ≡ ok s) × Ready can_bind (begin env c r).0 s
begin-Ready env can_bind c r valid made free =
    let (r', skipped) = started_rig env c r in
    let f = new_fed (fed_config c) in
    let client = hub_client f c.federation in
    (
      record {
        config = c;
        router = record { rig = r'; fed = f };
        skipped = skipped;
        client = client;
      },
      refl,
      record {
        bound = free;
        effects =
            ap (λ x. binds c.listen ∷ x)
              (starts-then env c r made (fed_effects f ++ client_effects client));
        wf = started_rig-IsWf env c r (new_rig-IsWf env c r valid made);
        fed = refl;
      },
    )

pub cmd_serve-Ready :
    (env : Env) (can_bind : Text → Bool) (listen : Text) (file : Option Config)
    → let x = cmd_serve env can_bind listen file in
      ((e : ServeError) × (x.1 ≡ err e) × (x.0 ≡ []))
      ⊎ ((s : Started) × (x.1 ≡ ok s) × Ready can_bind x.0 s)
unfolding cmd_serve
cmd_serve-Ready env can_bind listen file = elim (Result-cases (configured listen file)) [
  | inr (e, bad) ↦ inl (rw (bad, cmd_serve) (e, refl, refl))
  | inl (c, fine) ↦ elim (Result-cases (new_rig env c)) [
    | inr (e, bad) ↦ inl (rw (fine, bad, cmd_serve) (bad_rig e, refl, refl))
    | inl (r, made) ↦ elim (Bool-cases (can_bind c.listen)) [
      | inr taken ↦ inl (rw (fine, made, taken, cmd_serve) (port_taken c.listen, refl, refl))
      | inl free ↦ inr (
          rw (fine, made, free, cmd_serve)
            (begin-Ready env can_bind c r (configured-validate listen file c fine) made free))
    ]
  ]
]

-- What a request makes of a node with the federation of a configuration.
abbrev pub Guarded : {F Raw : Type 0} → World F Raw → FedConfig → Router → Incoming Raw → Type 0
Guarded w c r q =
    ((handle w r q ≡ (r, status_only 401)) × Barred w.host c q.request)
    ⊎ ((handle w r q ≡ mux w r q)
        × MayPass w.host c q.request
        × Touched w.env q.method r (handle w r q).0)

module _ {F Raw : Type 0} where
  -- From a `serve` that came up, whatever requests, reports, polls, rosters and stops follow in
  -- whatever order, the rig stays well formed and the token stays that of the configuration.
  pub serve-Life :
      (env : Env) (can_bind : Text → Bool) (listen : Text) (file : Option Config) (s : Started)
      {r : Router}
      → (cmd_serve env can_bind listen file).1 ≡ ok s
      → Life F Raw s.router r
      → IsWf r.rig × (token r.fed ≡ (fed_config s.config).token)
  serve-Life env can_bind listen file s up life = elim (cmd_serve-Ready env can_bind listen file) [
    | inl (e, failed, _) ↦ cc
    | inr (s', done, ready) ↦
        let same_start : s' ≡ s = ok-injective (sym done ∙ up) in
        let ready_s =
          subst (λ x. Ready can_bind (cmd_serve env can_bind listen file).0 x) same_start ready in
        let k = Life-IsKept ready_s.wf life in
        let (_, _, t) = new_fed-enabled (fed_config s.config) in
        (k.wf, k.bearer ∙ ap token ready_s.fed ∙ t)
  ]

  -- At any time of a node that `serve` brought up: a request with a token set, from elsewhere, that
  -- is no health check and does not carry the token is answered 401 and changes nothing; every
  -- other one reaches the mux, and it leaves the node as it is unless it is a POST, which makes one
  -- step of the rig at most.
  pub serve-Guarded :
      (env : Env) (can_bind : Text → Bool) (listen : Text) (file : Option Config) (s : Started)
      {r : Router} (w : World F Raw) (q : Incoming Raw)
      → (cmd_serve env can_bind listen file).1 ≡ ok s
      → Life F Raw s.router r
      → Guarded w (fed_config s.config) r q
  unfolding handle
  serve-Guarded env can_bind listen file s {r} w q up life =
      let (_, same_token) = serve-Life env can_bind listen file s up life in
      elim (gate_iff w.host (fed_config s.config) r.fed q.request (r, status_only 401) (mux w r q)
        same_token) [
          | inl (through, may) ↦ inr (through, may, handle-Touched w r q)
          | inr (refused, barred) ↦ inl (refused, barred)
        ]
