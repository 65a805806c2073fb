-- ===== src/Hub/Ledger.antt =====
-- The tokens of a hub without the order of its map: an abstract ledger, and the operations on it.
use mathlib.Core.Quot
use mathlib.Core.Quot.{Quot, Quot-set}
use llama_chip.Base.{
  List, Option, Text, [], ap, if◌then◌else◌, insert, lookup, lookup-insert, none, same, some, sym,
  ℕ, ◌∙◌, ◌∷◌, ◌≡◌,
}
use llama_chip.Hub.Defs.{
  Node, Store, Token, World, known_kind, list_roster, mint, minted, register, revoke,
}

-- Two maps that have the same token under every ID.
abbrev pub SameTokens : List (Text × Token) → List (Text × Token) → Type 0
SameTokens m n = (k : Text) → lookup k m ≡ lookup k n

abbrev pub Ledger : Type 0
Ledger = Quot SameTokens

abbrev pub ledger : Store → Ledger
ledger s = Quot.mk s.tokens

pub insert-SameTokens :
    (id : Text) (t : Token) (m n : List (Text × Token))
    → SameTokens m n
    → SameTokens (insert id t m) (insert id t n)
insert-SameTokens id t m n h k =
    lookup-insert id k t m
    ∙ ap (λ o. if same id k then some t else o) (h k)
    ∙ sym (lookup-insert id k t n)

unfoldable pub enter : Text → Token → Ledger → Ledger
unfolding insert
enter id t =
    Quot.lift Quot-set (λ m. Quot.mk (insert id t m))
      (λ m n h. Quot.sound (insert-SameTokens id t m n h))

-- The map with a token struck out, if it is there.
abbrev struck : ℕ → Text → List (Text × Token) → Option Token → List (Text × Token)
struck now id m none = m
struck now id m (some t) = insert id (record t { revoked_at = some now }) m

pub struck-SameTokens :
    (now : ℕ) (id : Text) (m n : List (Text × Token)) (o : Option Token)
    → SameTokens m n
    → SameTokens (struck now id m o) (struck now id n o)
struck-SameTokens now id m n none h = h
struck-SameTokens now id m n (some t) h = insert-SameTokens id _ m n h

unfoldable pub strike : ℕ → Text → Ledger → Ledger
unfolding insert lookup
strike now id =
    Quot.lift Quot-set (λ m. Quot.mk (struck now id m (lookup id m)))
      (λ m n h. Quot.sound (λ k.
        ap (λ o. lookup k (struck now id m o)) (h id)
        ∙ struck-SameTokens now id m n (lookup id n) h k))

-- The operations on the store that the handlers of the hub call.
pub data StoreOp : Type 0 where
  mints : World → Text → Text → Text → List Text → StoreOp
  revokes : World → Text → StoreOp
  registers : World → Node → Text → StoreOp
  lists : World → StoreOp

module _ (hash : Text → Text) where
  unfoldable pub carry_out : StoreOp → Store → Store
  unfolding mint revoke register list_roster
  carry_out (mints w kind label by scope) s = (mint hash w s kind label by scope).0
  carry_out (revokes w id) s = (revoke w s id).0
  carry_out (registers w n owner) s = register w s n owner
  carry_out (lists w) s = (list_roster w s).0

  abbrev pub carry_all : List StoreOp → Store → Store
  carry_all [] s = s
  carry_all (op ∷ ops) s = carry_all ops (carry_out op s)

  -- What an operation does to the ledger.
  unfoldable pub account : StoreOp → Ledger → Ledger
  unfolding enter strike
  account (mints w kind label by scope) l =
      if known_kind kind then enter w.fresh_id (minted hash w kind label by scope) l else l
  account (revokes w id) l = strike w.now id l
  account (registers w n owner) l = l
  account (lists w) l = l

  abbrev pub account_all : List StoreOp → Ledger → Ledger
  account_all [] l = l
  account_all (op ∷ ops) l = account_all ops (account op l)
