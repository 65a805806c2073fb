-- ===== src/Rig/Registry.antt =====
-- The list of instances and the map of names agree, whatever is loaded and unloaded.
use llama_chip.Base.{
  All, All-append, All-mono, Bool-cases, Distinct, List, Text, [], ap, arith, delete, inl, inr,
  insert_new, lookup, map, map-eq, none, refl, some, sym, true, ℕ, ◌++◌, ◌<◌, ◌==◌, ◌∙◌, ◌∷◌, ◌≡◌,
}
use llama_chip.Config.{key}
use llama_chip.Rig.Calls.{drop_instance, remove}
use llama_chip.Rig.Defs.{Instance, Rig, add, stopped, update}
use llama_chip.Rig.Entries.{
  All-remove, Distinct-remove, delete-entries, entries, entries-concat, entries-eq, keys-concat,
  lookup-entries-none,
}

abbrev pub key_at : (ℕ → Instance) → ℕ → Text
key_at h i = key (h i).slot

-- The list and the map hold the same instances, under keys that are all distinct.
pub record IsWf (r : Rig) : Type 0 where
  pub keyed : r.by_name ≡ entries (key_at r.heap) r.instances
  pub distinct : Distinct (map (key_at r.heap) r.instances)
  pub below : All (λ i. i < r.next) r.instances

pub update-fresh :
    (h : ℕ → Instance) (n : ℕ) (v : Instance) (ids : List ℕ)
    → All (λ i. i < n) ids
    → All (λ i. h i ≡ update h n v i) ids
update-fresh h n v [] b = tt
update-fresh h n v (i ∷ ids) (lt, b) = (ground arith, update-fresh h n v ids b)

pub add-IsWf :
    (r : Rig) (v : Instance) → IsWf r → lookup (key v.slot) r.by_name ≡ none → IsWf (add r v)
unfolding add
add-IsWf r v w e =
    let same_keys =
      All-mono (λ i e. ap (λ x. key x.slot) e) r.instances
        (update-fresh r.heap r.next v r.instances w.below) in
    let new = lookup-entries-none (key_at r.heap) (key v.slot) r.instances (rw w.keyed at e) in
    record {
      keyed =
          insert_new (key v.slot) r.next r.by_name e
          ∙ ap (λ m. m ++ (key v.slot, r.next) ∷ []) w.keyed
          ∙ entries-concat (key_at r.heap) (key_at (update r.heap r.next v)) r.next (key v.slot)
              r.instances same_keys (ground arith);
      distinct =
          keys-concat (key_at r.heap) (key_at (update r.heap r.next v)) r.next (key v.slot)
            r.instances same_keys (ground arith) w.distinct new;
      below =
          All-append _ r.instances (r.next ∷ [])
            (All-mono (λ i lt. omega arith) r.instances w.below) (omega arith, tt);
    }

pub update-slot :
    (h : ℕ → Instance) (n : ℕ) (v : Instance)
    → v.slot ≡ (h n).slot
    → (i : ℕ) → (update h n v i).slot ≡ (h i).slot
update-slot h n v e i = elim (Bool-cases (n == i)) [
  | inl hit ↦ let p : n ≡ i = ground arith in rw (hit, ← p) e
  | inr miss ↦ rw miss refl
]

-- A write to the heap that leaves the slot of the instance alone leaves all keys.
update-key :
    (h : ℕ → Instance) (n : ℕ) (v : Instance)
    → v.slot ≡ (h n).slot
    → (i : ℕ) → key_at h i ≡ key_at (update h n v) i
update-key h n v e i = ap key (sym (update-slot h n v e i))

pub All-always : {P : ℕ → Type 0} → ((i : ℕ) → P i) → (ids : List ℕ) → All P ids
All-always f [] = tt
All-always f (i ∷ ids) = (f i, All-always f ids)

pub drop_instance-IsWf :
    (r : Rig) (k : Text) (i : ℕ) → IsWf r → lookup k r.by_name ≡ some i → IsWf (drop_instance r k i)
unfolding drop_instance
drop_instance-IsWf r k i w e =
    let same_keys =
      All-always
        (update-key r.heap i (record (r.heap i) { state = stopped; stopping = true }) refl) in
    record {
      keyed =
          ap (delete k) w.keyed
          ∙ delete-entries (key_at r.heap) k r.instances i w.distinct (rw w.keyed at e)
          ∙ entries-eq (key_at r.heap) _ (remove i r.instances) (same_keys _);
      distinct =
          rw (← map-eq (key_at r.heap) _ (remove i r.instances) (same_keys _))
            (Distinct-remove (key_at r.heap) i r.instances w.distinct);
      below = All-remove _ i r.instances w.below;
    }
