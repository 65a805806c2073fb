-- ===== src/Router/Entry.antt =====
-- What a request may do to a node.
use llama_chip.Base.{
  Bool-cases, Option-cases, Text, ap, codes, inl, inr, lookup, ne_of_same, not, refl, same,
  same_iff, subst, sym, ◌≡◌, ◌⊎◌,
}
use llama_chip.Rig.{Env, Step}
use llama_chip.Router.Manage.{
  ManageOp, apply_named, ensure_slot, load_slot, manage-Managed, unload_every, unload_slot,
}
use llama_chip.Router.Mux.{
  Handler, Incoming, Router, World, adds, calls_remote, drops, drops_all, guesses, is_alive,
  lists_models, manage_op, mux, needs, proxies, routes, run_handler, switches, tells_backends,
  tells_gpus, tells_live, tells_local, tells_models, tells_pool, tells_profiles, tells_status,
}

-- The router stays, or a POST makes one step of its rig.
abbrev pub Touched : Env → Text → Router → Router → Type 0
Touched env method r r' =
    (r' ≡ r) ⊎ ((method ≡ codes "POST") × Step env r.rig r'.rig × (r'.fed ≡ r.fed))

module _ {F Raw : Type 0} (w : World F Raw) where
  manage_op-Touched :
      (q : Incoming Raw) (op : ManageOp) (r : Router)
      → Touched w.env q.method r (manage_op w q op r).0
  manage_op-Touched q op r =
      let (may, other) = manage-Managed w.env r.rig q.method op in
      elim (Bool-cases (same q.method (codes "POST"))) [
        | inr wrong ↦ inl (ap (λ x. record r { rig = x.0 }) (other (ne_of_same _ _ wrong)))
        | inl post ↦ elim (may.0) [
          | inl still ↦ inl (ap (λ x. record r { rig = x }) still)
          | inr step ↦ inr ((same_iff _ _).0 post, step, refl)
        ]
      ]

  run_handler-Touched :
      (h : Handler) (r : Router) (q : Incoming Raw)
      → Touched w.env q.method r (run_handler w h r q).0
  unfolding run_handler
  run_handler-Touched proxies r q = inl refl
  run_handler-Touched lists_models r q = inl refl
  run_handler-Touched tells_status r q = inl refl
  run_handler-Touched tells_gpus r q = inl refl
  run_handler-Touched tells_models r q = inl refl
  run_handler-Touched tells_backends r q = inl refl
  run_handler-Touched adds r q = manage_op-Touched q (load_slot (w.slot_body q.body)) r
  run_handler-Touched drops r q = manage_op-Touched q (unload_slot (w.name_body q.body)) r
  run_handler-Touched drops_all r q = manage_op-Touched q unload_every r
  run_handler-Touched tells_profiles r q = inl refl
  run_handler-Touched switches r q = manage_op-Touched q (apply_named (w.name_body q.body)) r
  run_handler-Touched needs r q = manage_op-Touched q (ensure_slot (w.slot_body q.body)) r
  run_handler-Touched guesses r q = inl refl
  run_handler-Touched tells_live r q = inl refl
  run_handler-Touched tells_pool r q = inl refl
  run_handler-Touched calls_remote r q = inl refl
  run_handler-Touched tells_local r q = inl refl
  run_handler-Touched is_alive r q = inl refl

  pub mux-Touched : (r : Router) (q : Incoming Raw) → Touched w.env q.method r (mux w r q).0
  unfolding mux
  mux-Touched r q = elim (Bool-cases (not (same (w.clean q.request.path) q.request.path))) [
    | inl unclean ↦ rw (unclean, mux) (inl refl)
    | inr clean ↦ elim (Option-cases (lookup q.request.path routes)) [
      | inl free ↦ rw (clean, free, mux) (inl refl)
      | inr (h, taken) ↦
          let same_run : mux w r q ≡ run_handler w h r q = rw (clean, taken, mux) refl in
          subst (λ x. Touched w.env q.method r x.0) (sym same_run) (run_handler-Touched h r q)
    ]
  ]
