-- ===== src/Hub/Defs.antt =====
-- internal/hub/store.go: the store and its operations. The clock's reading, the random bytes'
-- text and whether the token file can be written are arguments of the operations; times are
-- numbers, and SHA-256 in hexadecimal is the parameter `hash`.
use llama_chip.Base.{
  Bool, List, Option, Result, Text, [], any, codes, err, false, find, if◌then◌else◌, insert,
  is_empty, is_some, lookup, ltb, map, none, not, ok, same, select, some, sort_by, text_lt,
  trim_space, true, ℕ, ◌&&◌, ◌+◌, ◌||◌,
}
use llama_chip.Backends.{ℤ}

abbrev pub kind_admin : Text
kind_admin = codes "admin"

abbrev pub kind_node : Text
kind_node = codes "node"

abbrev pub kind_user : Text
kind_user = codes "user"

pub record Token : Type 0 where
  pub id : Text
  pub hash : Text
  pub kind : Text
  pub label : Text
  pub scope : List Text
  pub created_at : ℕ
  pub created_by : Text
  pub revoked_at : Option ℕ

abbrev pub active : Token → Bool
active t = not (is_some t.revoked_at)

pub record GpuStat : Type 0 where
  pub index : ℤ
  pub name : Text
  pub mem_used : ℤ
  pub mem_total : ℤ
  pub util : ℤ

pub record Node : Type 0 where
  pub name : Text
  pub mesh_addr : Text
  pub models : List Text
  pub gpus : List GpuStat
  pub owner : Text
  pub last_seen : ℕ

pub record Store : Type 0 where
  pub path : Text
  pub tokens : List (Text × Token)
  pub roster : List (Text × Node)
  pub node_ttl : ℕ

pub data StoreError : Type 0 where
  unknown_kind no_token : Text → StoreError
  not_saved : StoreError

-- What one operation takes from outside: the time, the bytes read for an ID and for a secret, and
-- whether a write of the token file succeeds.
pub record World : Type 0 where
  pub now : ℕ
  pub fresh_id : Text
  pub fresh_secret : Text
  pub can_write : Bool

-- saveLocked: in memory there is nothing to write.
unfoldable pub save_locked : World → Store → Option StoreError
save_locked w s = if is_empty s.path || w.can_write then none else some not_saved

abbrev pub values {ℓ} : {V : Type ℓ} → List (Text × V) → List V
values m = map (λ e. e.1) m

unfoldable pub known_kind : Text → Bool
known_kind kind = same kind kind_admin || same kind kind_node || same kind kind_user

module _ (hash : Text → Text) where
  abbrev pub opens : Text → Token → Bool
  opens plaintext t = same t.hash (hash plaintext) && active t

  abbrev pub admin_of : Text → World → Token
  admin_of plaintext w = record {
    id = w.fresh_id;
    hash = hash plaintext;
    kind = kind_admin;
    label = codes "admin (env)";
    scope = [];
    created_at = w.now;
    created_by = [];
    revoked_at = none;
  }

  -- The store, whether a token was made, and the error of the write.
  unfoldable pub ensure_admin : World → Store → Text → Store × Bool × Option StoreError
  unfolding save_locked insert
  ensure_admin w s plaintext =
      if is_empty (trim_space plaintext)
      then (s, false, none)
      else (if any (λ t. opens plaintext t && same t.kind kind_admin) (values s.tokens)
          then (s, false, none)
          else let s' = record s { tokens = insert w.fresh_id (admin_of plaintext w) s.tokens } in
            (s', true, save_locked w s'))

  abbrev pub minted : World → Text → Text → Text → List Text → Token
  minted w kind label created_by scope = record {
    id = w.fresh_id;
    hash = hash w.fresh_secret;
    kind = kind;
    label = label;
    scope = scope;
    created_at = w.now;
    created_by = created_by;
    revoked_at = none;
  }

  -- Mint puts the token into the map before it knows whether the file can be written.
  unfoldable pub mint :
      World → Store → Text → Text → Text → List Text → Store × Result StoreError Token
  unfolding save_locked insert
  mint w s kind label created_by scope =
      if known_kind kind
      then (let t = minted w kind label created_by scope in
          let s' = record s { tokens = insert t.id t s.tokens } in
          (s', elim (save_locked w s') [ none ↦ ok t | some e ↦ err e ]))
      else (s, err (unknown_kind kind))

  -- Go's loop over the map meets the tokens in any order; this one takes the order of insertion.
  unfoldable pub verify : Store → Text → Option Token
  verify s plaintext = if is_empty plaintext then none else find (opens plaintext) (values s.tokens)

unfoldable pub revoke : World → Store → Text → Store × Option StoreError
unfolding save_locked insert lookup
revoke w s id = elim (lookup id s.tokens) [
  | none ↦ (s, some (no_token id))
  | some t ↦
      let s' = record s { tokens = insert id (record t { revoked_at = some w.now }) s.tokens } in
      (s', save_locked w s')
]

abbrev pub masked : Token → Token
masked t = record t { hash = [] }

-- Tokens, newest first.
unfoldable pub list_tokens : Store → List Token
list_tokens s = sort_by (λ a b. ltb b.created_at a.created_at) (map masked (values s.tokens))

unfoldable pub register : World → Store → Node → Text → Store
unfolding insert
register w s n owner = record s {
  roster = insert n.name (record n { owner = owner; last_seen = w.now }) s.roster;
}

-- LastSeen.Before(now - ttl).
abbrev pub is_stale : World → Store → Node → Bool
is_stale w s n = ltb (n.last_seen + s.node_ttl) w.now

unfoldable pub pruned : World → Store → Store
pruned w s = record s { roster = select (λ e. not (is_stale w s e.1)) s.roster }

-- Roster drops the stale nodes from the store, and lists the others by name.
unfoldable pub list_roster : World → Store → Store × List Node
unfolding pruned text_lt
list_roster w s =
    let s' = pruned w s in (s', sort_by (λ a b. text_lt a.name b.name) (values s'.roster))
