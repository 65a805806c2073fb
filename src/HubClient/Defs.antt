-- ===== src/HubClient/Defs.antt =====
-- internal/hubclient/hubclient.go. What is behind the HTTP client is the parameter `send`, from a
-- request and the state of the world to a reply, if there is one, and the state after; a reply has
-- its status and what its body decodes to.
use llama_chip.Base.{
  List, Option, Result, String, Text, [], codes, err, if◌then◌else◌, is_empty, ltb, none, ok, some,
  trim_right, trim_space, ℕ, ◌++◌, ◌+◌, ◌==◌, ◌∷◌,
}
use llama_chip.Fed.{Fed, RosterEntry, RosterGpu, apply_roster, token}

pub record LocalState : Type 0 where
  pub models : List Text
  pub gpus : List RosterGpu

-- The interval is in nanoseconds, and 0 for what is not positive.
pub record Client : Type 0 where
  pub hub_url : Text
  pub token : Text
  pub node_name : Text
  pub advertise : Text
  pub interval : ℕ

unfoldable pub new_client : Text → Text → Text → Text → ℕ → Option Client
unfolding trim_space trim_right
new_client hub_url token node_name advertise interval =
    if is_empty (trim_space hub_url)
    then none
    else some (record {
      hub_url = trim_right b'/' hub_url;
      token = token;
      node_name = node_name;
      advertise = trim_right b'/' advertise;
      interval = if interval == 0 then 5000000000 else interval;
    })

pub record Announce : Type 0 where
  pub name : Text
  pub mesh_addr : Text
  pub models : List Text
  pub gpus : List RosterGpu

pub record Sent : Type 0 where
  pub method : Text
  pub url : Text
  pub authorization : Text
  pub body : Option Announce

pub record Reply : Type 0 where
  pub status : ℕ
  pub roster : Option (List RosterEntry)
  pub nodes : Option (List RosterEntry)

pub data ClientError : Type 0 where
  forbidden unreachable bad_json : ClientError
  refused : ℕ → ClientError

unfoldable pub sent : Client → String → String → Option Announce → Sent
sent c method path body = record {
  method = codes method;
  url = c.hub_url ++ codes path;
  authorization = if is_empty c.token then [] else codes "Bearer " ++ c.token;
  body = body;
}

-- The answer of c.local, where the client has one.
abbrev pub state_or_none : Option LocalState → LocalState
state_or_none none = record { models = []; gpus = [] }
state_or_none (some st) = st

abbrev pub announce : Client → Option LocalState → Announce
announce c local = record {
  name = c.node_name;
  mesh_addr = c.advertise;
  models = (state_or_none local).models;
  gpus = (state_or_none local).gpus;
}

abbrev pub Fetched : Type 0
Fetched = Result ClientError (List RosterEntry)

abbrev pub decoded : Option (List RosterEntry) → Fetched
decoded none = err bad_json
decoded (some es) = ok es

abbrev pub register_reply : Option Reply → Fetched
register_reply none = err unreachable
register_reply (some r) =
    if r.status == 403
    then err forbidden
    else (if r.status == 200 then decoded r.roster else err (refused r.status))

abbrev pub roster_reply : Option Reply → Fetched
roster_reply none = err unreachable
roster_reply (some r) = if r.status == 200 then decoded r.nodes else err (refused r.status)

-- What the loop writes into the log.
pub data Line : Type 0 where
  first_failed failing : ClientError → Line
  recovered : ℕ → Line

-- One beat: the time, and what the node serves.
pub record Tick : Type 0 where
  pub now : ℕ
  pub local : Option LocalState

pub record Link {ℓ} (W : Type ℓ) : Type ℓ where
  pub fedn : Option Fed
  pub fails : ℕ
  pub log : List Line
  pub world : W

-- ApplyRoster of a federation that may be nil.
abbrev pub apply : ℕ → Client → List RosterEntry → Option Fed → Option Fed
apply now c es none = none
apply now c es (some f) = some (apply_roster now f es c.node_name)

module _ {ℓ} {W : Type ℓ} (send : Sent → W → Option Reply × W) (c : Client) where
  unfoldable pub post_register : Option LocalState → W → Fetched × W
  unfolding sent
  post_register local w =
      let (r, w') = send (sent c "POST" "/api/register" (some (announce c local))) w in
      (register_reply r, w')

  unfoldable pub get_roster : W → Fetched × W
  unfolding sent
  get_roster w = let (r, w') = send (sent c "GET" "/api/roster" none) w in (roster_reply r, w')

  abbrev after_post : Fetched × W → Fetched × W
  after_post (ok es, w) = (ok es, w)
  after_post (err forbidden, w) = get_roster w
  after_post (err unreachable, w) = (err unreachable, w)
  after_post (err bad_json, w) = (err bad_json, w)
  after_post (err (refused n), w) = (err (refused n), w)

  -- The calls of registerOnce.
  unfoldable pub fetch : Option LocalState → W → Fetched × W
  unfolding post_register get_roster
  fetch local w = after_post (post_register local w)

  abbrev pub applied : ℕ → Option Fed → Fetched → Option Fed
  applied now f (ok es) = apply now c es f
  applied now f (err e) = f

  abbrev pub first_lines : Fetched → List Line
  first_lines (ok es) = []
  first_lines (err e) = first_failed e ∷ []

  abbrev pub tick_lines : ℕ → Fetched → List Line
  tick_lines fails (ok es) = if ltb 0 fails then recovered fails ∷ [] else []
  tick_lines fails (err e) = if fails == 0 then failing e ∷ [] else []

  abbrev pub fails_after : ℕ → Fetched → ℕ
  fails_after fails (ok es) = 0
  fails_after fails (err e) = fails + 1

  -- One turn of the loop in Run, with registerOnce in it.
  unfoldable pub on_tick : Tick → Link W → Link W
  unfolding fetch
  on_tick t l =
      let (r, w') = fetch t.local l.world in
      record {
        fedn = applied t.now l.fedn r;
        fails = fails_after l.fails r;
        log = l.log ++ tick_lines l.fails r;
        world = w';
      }

  unfoldable pub on_ticks : List Tick → Link W → Link W
  unfolding on_tick
  on_ticks [] l = l
  on_ticks (t ∷ ts) l = on_ticks ts (on_tick t l)

  -- Run up to the time that the context is cancelled: the first call, and one turn for every tick.
  unfoldable pub run : Tick → List Tick → Option Fed → W → Link W
  unfolding on_ticks fetch
  run t ts f w =
      let (r, w') = fetch t.local w in
      on_ticks ts (record { fedn = applied t.now f r; fails = 0; log = first_lines r; world = w' })
