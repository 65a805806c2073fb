-- ===== src/Hub/Persist.antt =====
-- NewStore, load and what saveLocked writes, of internal/hub/store.go. The token file is what its
-- JSON decodes to, or none where there is no file, or an error of the read or the parse.
use llama_chip.Base.{
  List, Option, Result, Text, [], err, if◌then◌else◌, insert, is_empty, ltb, none, ok, some,
  sort_by, ℕ, ◌==◌, ◌∷◌,
}
use llama_chip.Hub.Defs.{Store, Token, values}

pub data LoadError : Type 0 where
  unread unparsed : LoadError

-- The loop of load: a later token under an ID replaces an earlier one.
unfoldable pub load_all : List Token → List (Text × Token) → List (Text × Token)
unfolding insert
load_all [] m = m
load_all (t ∷ ts) m = load_all ts (insert t.id t m)

abbrev pub loaded : Store → Result LoadError (Option (List Token)) → Result LoadError Store
loaded s (err e) = err e
loaded s (ok none) = ok s
loaded s (ok (some ts)) = ok (record s { tokens = load_all ts s.tokens })

abbrev pub empty_store : Text → ℕ → Store
empty_store path ttl = record {
  path = path;
  tokens = [];
  roster = [];
  node_ttl = if ttl == 0 then 30000000000 else ttl;
}

-- The time to live in nanoseconds, 0 for what is not positive.
unfoldable pub new_store :
    Text → ℕ → Result LoadError (Option (List Token)) → Result LoadError Store
unfolding load_all
new_store path ttl file =
    if is_empty path then ok (empty_store path ttl) else loaded (empty_store path ttl) file

-- The tokens that saveLocked writes, oldest first.
unfoldable pub saved : Store → List Token
saved s = sort_by (λ a b. ltb a.created_at b.created_at) (values s.tokens)
