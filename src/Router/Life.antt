-- ===== src/Router/Life.antt =====
-- The life of a node: requests, reports by the supervisors, polls, the hub's rosters and StopAll,
-- in any order. The world may answer differently at every request.
use llama_chip.Base.{
  List, Text, ap, inl, inr, is_empty, not, refl, some, subst, sym, ℕ, ◌||◌, ◌∙◌, ◌≡◌,
}
use llama_chip.Fed.{Fed, Net, RosterEntry, apply_roster, enabled, poll_all, token}
use llama_chip.Rig.{
  Env, IsWf, Rig, State, Step-IsWf, set_state, set_state-IsWf, stop_all, stop_all-lem,
}
use llama_chip.Router.Entry.{Touched, mux-Touched}
use llama_chip.Router.Gate.{gate_cases}
use llama_chip.Router.Mux.{Incoming, Router, World, handle, mux, node_name, status_only}

pub data Turn (F Raw : Type 0) : Router → Router → Type 1 where
  asked : {r : Router} (w : World F Raw) (q : Incoming Raw) → Turn F Raw r (handle w r q).0
  reported :
      {r : Router} (i : ℕ) (st : State) (msg : Text)
      → Turn F Raw r (record r { rig = set_state r.rig i st msg })
  polled :
      {r : Router} (net : Net) (f : Fed)
      → r.fed ≡ some f
      → Turn F Raw r (record r { fed = some (poll_all net f) })
  told :
      {r : Router} (now : ℕ) (f : Fed) (es : List RosterEntry) (self : Text)
      → r.fed ≡ some f
      → Turn F Raw r (record r { fed = some (apply_roster now f es self) })
  halts : {r : Router} → Turn F Raw r (record r { rig = stop_all r.rig })

pub data Life (F Raw : Type 0) (r0 : Router) : Router → Type 1 where
  born : Life F Raw r0 r0
  lives : {r r' : Router} → Life F Raw r0 r → Turn F Raw r r' → Life F Raw r0 r'

-- What a life does not change.
pub record IsKept (r0 r : Router) : Type 0 where
  pub wf : IsWf r.rig
  pub bearer : token r.fed ≡ token r0.fed
  pub named : node_name r.fed ≡ node_name r0.fed
  pub federates : enabled r.fed ≡ enabled r0.fed

Touched-IsKept :
    (env : Env) (method : Text) (r0 r r' : Router)
    → Touched env method r r'
    → IsKept r0 r
    → IsKept r0 r'
Touched-IsKept env method r0 r r' (inl still) k = subst (IsKept r0) (sym still) k
Touched-IsKept env method r0 r r' (inr (post, step, same_fed)) k = record {
  wf = Step-IsWf step k.wf;
  bearer = ap token same_fed ∙ k.bearer;
  named = ap node_name same_fed ∙ k.named;
  federates = ap enabled same_fed ∙ k.federates;
}

rig-IsKept :
    (r0 r : Router) (rig : Rig) → IsWf rig → IsKept r0 r → IsKept r0 (record r { rig = rig })
rig-IsKept r0 r rig wf k = record {
  wf = wf;
  bearer = k.bearer;
  named = k.named;
  federates = k.federates;
}

-- The parts of a federation that come from its configuration alone.
fed-IsKept :
    (r0 r : Router) (f f' : Fed)
    → r.fed ≡ some f
    → f'.cfg ≡ f.cfg
    → IsKept r0 r
    → IsKept r0 (record r { fed = some f' })
unfolding enabled
fed-IsKept r0 r f f' e same_cfg k = record {
  wf = k.wf;
  bearer = ap (λ c. c.token) same_cfg ∙ sym (ap token e) ∙ k.bearer;
  named = ap (λ c. c.node_name) same_cfg ∙ sym (ap node_name e) ∙ k.named;
  federates =
      ap (λ c. not (is_empty c.peers) || not (is_empty c.hub_url)) same_cfg
      ∙ sym (ap enabled e)
      ∙ k.federates;
}

module _ {F Raw : Type 0} where
  pub handle-Touched :
      (w : World F Raw) (r : Router) (q : Incoming Raw) → Touched w.env q.method r (handle w r q).0
  unfolding handle
  handle-Touched w r q = elim (gate_cases w.host r.fed q.request (r, status_only 401) (mux w r q)) [
    | inl through ↦ subst (λ x. Touched w.env q.method r x.0) (sym through) (mux-Touched w r q)
    | inr barred ↦ inl (ap (λ x. x.0) barred)
  ]

  Turn-IsKept : {r0 r r' : Router} → Turn F Raw r r' → IsKept r0 r → IsKept r0 r'
  unfolding poll_all apply_roster
  Turn-IsKept {r0} {r} (asked w q) k =
      Touched-IsKept w.env q.method r0 r (handle w r q).0 (handle-Touched w r q) k
  Turn-IsKept {r0} {r} (reported i st msg) k =
      rig-IsKept r0 r (set_state r.rig i st msg) (set_state-IsWf r.rig i st msg k.wf) k
  Turn-IsKept {r0} {r} (polled net f e) k = fed-IsKept r0 r f (poll_all net f) e refl k
  Turn-IsKept {r0} {r} (told now f es self e) k =
      fed-IsKept r0 r f (apply_roster now f es self) e refl k
  Turn-IsKept {r0} {r} halts k = rig-IsKept r0 r (stop_all r.rig) (stop_all-lem r.rig k.wf).2 k

  -- Whatever happens to a node whose rig is well formed, its rig stays well formed, and the token,
  -- the name and whether it federates stay those of its start.
  pub Life-IsKept : {r0 r : Router} → IsWf r0.rig → Life F Raw r0 r → IsKept r0 r
  Life-IsKept {r0} wf born = record { wf = wf; bearer = refl; named = refl; federates = refl }
  Life-IsKept wf (lives l t) = Turn-IsKept t (Life-IsKept wf l)
