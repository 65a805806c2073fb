-- ===== src/Router/Remote.antt =====
-- remote of internal/router/router.go: the calls that one node makes to manage another. What a
-- POST carries is passed on as it is and left out here.
use llama_chip.Base.{
  Bool, Bool-cases, List, Option, Option-cases, Result, String, Text, [], ap, codes, err, false,
  if◌then◌else◌, inl, inr, is_empty, lookup, ne-nil_of_is_empty, none, not, ok, ok-injective, some,
  sym, true, ℕ, ◌++◌, ◌∷◌, ◌≡◌, ◌≢◌,
}
use llama_chip.Fed.{Fed, enabled, node_addr, token}

pub record OpSpec : Type 0 where
  pub path : Text
  pub is_post : Bool

abbrev reads : String → OpSpec
reads p = record { path = codes p; is_post = false }

abbrev writes : String → OpSpec
writes p = record { path = codes p; is_post = true }

-- remoteOps.
unfoldable pub remote_ops : List (Text × OpSpec)
remote_ops =
    (codes "models", reads "/api/models")
    ∷ (codes "backends", reads "/api/backends")
    ∷ (codes "profiles", reads "/api/profiles")
    ∷ (codes "gpu", reads "/api/gpu")
    ∷ (codes "status", reads "/api/status")
    ∷ (codes "live", reads "/api/live")
    ∷ (codes "guess-context", reads "/api/guess-context")
    ∷ (codes "load", writes "/api/load")
    ∷ (codes "unload", writes "/api/unload")
    ∷ (codes "unload-all", writes "/api/unload-all")
    ∷ (codes "profile", writes "/api/profile")
    ∷ (codes "ensure", writes "/api/ensure")
    ∷ []

-- The request that goes out; `rest` is what the query holds beside `node` and `op`.
pub record RemoteCall : Type 0 where
  pub target : Text
  pub is_post : Bool
  pub bearer : Text

abbrev pub with_query : Text → Text → Text
with_query target rest = if is_empty rest then target else target ++ codes "?" ++ rest

abbrev pub call_of : Option Fed → Text → OpSpec → Text → RemoteCall
call_of f base spec rest = record {
  target = with_query (base ++ spec.path) rest;
  is_post = spec.is_post;
  bearer = token f;
}

abbrev pub to_node : Option Fed → OpSpec → Text → Option Text → Result ℕ RemoteCall
to_node f spec rest none = err 404
to_node f spec rest (some base) = if is_empty base then err 404 else ok (call_of f base spec rest)

abbrev pub known_op : Option Fed → Text → Text → Option OpSpec → Result ℕ RemoteCall
known_op f node rest none = err 400
known_op f node rest (some spec) =
    if is_empty node then err 400 else to_node f spec rest (node_addr f node)

-- The call, or the status of the refusal.
unfoldable pub remote : Option Fed → Text → Text → Text → Result ℕ RemoteCall
unfolding enabled lookup remote_ops node_addr
remote f node op rest =
    if not (enabled f) then err 400 else known_op f node rest (lookup op remote_ops)

-- A management call leaves the node only if it federates, for an operation of the list, to the
-- address known for the node, which is not empty; and it carries the node's own token, also where
-- another one is configured for that peer.
pub remote-lem :
    (f : Option Fed) (node op rest : Text) (c : RemoteCall)
    → remote f node op rest ≡ ok c
    → (enabled f ≡ true)
      × (spec : OpSpec) × (base : Text) × (lookup op remote_ops ≡ some spec)
      × (node_addr f node ≡ some base)
      × (base ≢ [])
      × (c.target ≡ with_query (base ++ spec.path) rest)
      × (c.is_post ≡ spec.is_post)
      × (c.bearer ≡ token f)
unfolding remote
remote-lem f node op rest c e = elim (Bool-cases (enabled f)) [
  | inr off ↦ let bad = rw (off, remote) at e in cc
  | inl on ↦ elim (Option-cases (lookup op remote_ops)) [
    | inl unknown ↦ let bad = rw (on, unknown, remote) at e in cc
    | inr (spec, known) ↦ elim (Bool-cases (is_empty node)) [
      | inl unnamed ↦ let bad = rw (on, known, unnamed, remote) at e in cc
      | inr named ↦ elim (Option-cases (node_addr f node)) [
        | inl lost ↦ let bad = rw (on, known, named, lost, remote) at e in cc
        | inr (base, found) ↦ elim (Bool-cases (is_empty base)) [
          | inl blank ↦ let bad = rw (on, known, named, found, blank, remote) at e in cc
          | inr there ↦
              let made = sym (ok-injective (rw (on, known, named, found, there, remote) at e)) in
              (
                on,
                spec,
                base,
                known,
                found,
                ne-nil_of_is_empty base there,
                ap (λ x. x.target) made,
                ap (λ x. x.is_post) made,
                ap (λ x. x.bearer) made,
              )
        ]
      ]
    ]
  ]
]
