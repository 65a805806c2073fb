-- ===== src/Hub/History.antt =====
-- What every history of requests keeps of the hub's maps.
use llama_chip.Base.{List, Option, Result, Text, ok, ℕ, ◌≡◌}
use llama_chip.Hub.Defs.{Store, Token, World, ensure_admin}
use llama_chip.Hub.Persist.{LoadError, new_store}
use llama_chip.Hub.Server.{Request, serve}

-- A hub in operation: it is started on a file, the admin key is made known, and requests come.
pub data Served (hash : Text → Text) : Store → Type 0 where
  started :
      (path : Text) (ttl : ℕ) (file : Result LoadError (Option (List Token))) (s : Store)
      → new_store path ttl file ≡ ok s
      → Served hash s
  seeded :
      (w : World) (s : Store) (key : Text)
      → Served hash s
      → Served hash (ensure_admin hash w s key).0
  answered :
      (w : World) (s : Store) (q : Request) → Served hash s → Served hash (serve hash w s q).0
