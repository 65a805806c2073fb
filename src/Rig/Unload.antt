-- ===== src/Rig/Unload.antt =====
-- Unload, and the loops that unload a list of slots by their names.
use llama_chip.Base.{
  All, All-both, All-mono, All-ne-Some, All-of_map, All-select, Bool, Bool-cases, Distinct,
  Distinct-of_map, Distinct-select, List, Option-cases, Some, Text, [], ap, arith, err, false, inl,
  inr, lookup, lower, map, map-eq, none, not, ok, refl, same_iff, same_refl, select, some, subst,
  sym, true, ℕ, ◌==◌, ◌∙◌, ◌∷◌, ◌≡◌, ◌≢◌, ◌⊎◌,
}
use llama_chip.Config.{key, name}
use llama_chip.Rig.Calls.{drop_instance, names, remove, unload, unload_all, unload_each}
use llama_chip.Rig.Defs.{Instance, Rig, no_slot, stopped}
use llama_chip.Rig.Entries.{entries}
use llama_chip.Rig.Registry.{All-always, IsWf, drop_instance-IsWf, key_at, update-slot}

-- Unload takes the named instance, in any letter case, out of the map and out of the list, marks
-- it as stopping and stopped, and touches nothing else; an unknown name is an error.
pub unload-lem :
    (r : Rig) (n : Text)
    → ((lookup (lower n) r.by_name ≡ none) × (unload r n ≡ err (no_slot n)))
      ⊎ ((i : ℕ) × (lookup (lower n) r.by_name ≡ some i)
          × (unload r n ≡ ok (drop_instance r (lower n) i)))
unfolding unload
unload-lem r n = elim (Option-cases (lookup (lower n) r.by_name)) [
  | inl e ↦ inl (e, rw (e, unload) refl)
  | inr (i, e) ↦ inr (i, e, rw (e, unload) refl)
]

pub unload-IsWf : (r : Rig) (n : Text) (r' : Rig) → IsWf r → unload r n ≡ ok r' → IsWf r'
unload-IsWf r n r' w h = elim (unload-lem r n) [
  | inl (_, bad) ↦ cc
  | inr (i, e, done) ↦
      let same_rig : drop_instance r (lower n) i ≡ r' = cc in
      subst IsWf same_rig (drop_instance-IsWf r (lower n) i w e)
]

-- Where r' comes from r by taking the listed instances out.
pub record Dropped (r r' : Rig) (ids : List ℕ) : Type 0 where
  pub wf : IsWf r'
  pub left : r'.instances ≡ ids
  pub slots : (i : ℕ) → (r'.heap i).slot ≡ (r.heap i).slot
  pub profiles : r'.profiles ≡ r.profiles
  pub next : r'.next ≡ r.next

abbrev pub remove_all : List ℕ → List ℕ → List ℕ
remove_all [] ids = ids
remove_all (j ∷ js) ids = remove_all js (remove j ids)

-- The instance of the list whose name is given is the one that Unload takes out.
pub lookup-member :
    (f : ℕ → Text) (ids : List ℕ) (i : ℕ)
    → Distinct (map f ids)
    → Some (λ j. j ≡ i) ids
    → lookup (f i) (entries f ids) ≡ some i
unfolding lookup
lookup-member f [] i d m = absurd m
lookup-member f (j ∷ ids) i (n, d) (inl e) = rw (e, same_refl (f i)) refl
lookup-member f (j ∷ ids) i (n, d) (inr m) =
    let ne : f j ≢ f i =
      λ p. All-ne-Some (λ x g e. g (p ∙ ap f (sym e))) ids (All-of_map (λ y. f j ≢ y) f ids n) m in
    ground (arith, same_iff (f j) (f i), lookup-member f ids i d m)

unload-Dropped :
    (r : Rig) (i : ℕ)
    → IsWf r
    → Some (λ j. j ≡ i) r.instances
    → (r' : Rig) × (unload r (name (r.heap i).slot) ≡ ok r') × Dropped r r' (remove i r.instances)
unfolding unload
unload-Dropped r i w m =
    let e : lookup (key (r.heap i).slot) r.by_name ≡ some i =
      rw w.keyed (lookup-member (key_at r.heap) r.instances i w.distinct m) in
    (
      drop_instance r (key (r.heap i).slot) i,
      rw (e, unload) refl,
      record {
        wf = drop_instance-IsWf r (key (r.heap i).slot) i w e;
        left = refl;
        slots = update-slot r.heap i (record (r.heap i) { state = stopped; stopping = true }) refl;
        profiles = refl;
        next = refl;
      },
    )

Some-remove :
    (k j : ℕ) (ids : List ℕ) → j ≢ k → Some (λ i. i ≡ k) ids → Some (λ i. i ≡ k) (remove j ids)
Some-remove k j [] ne m = m
Some-remove k j (i ∷ ids) ne (inl e) = ground arith
Some-remove k j (i ∷ ids) ne (inr m) = ground (arith, Some-remove k j ids ne m)

abbrev names_at : (ℕ → Instance) → List ℕ → List Text
names_at h = map (λ i. name (h i).slot)

-- The loop takes out every instance whose name it is given.
unload_each-Dropped :
    (r : Rig) (js : List ℕ)
    → IsWf r
    → Distinct js
    → All (λ k. Some (λ i. i ≡ k) r.instances) js
    → Dropped r (unload_each r (names_at r.heap js)) (remove_all js r.instances)
unfolding unload_each
unload_each-Dropped r [] w d m = record {
  wf = w;
  left = refl;
  slots = λ i. refl;
  profiles = refl;
  next = refl;
}
unload_each-Dropped r (j ∷ js) w (n, d) (m, ms) =
    let (r1, done, x) = unload-Dropped r j w m in
    let same_names : names_at r.heap js ≡ names_at r1.heap js =
      map-eq _ _ js (All-always (λ i. ap name (sym (x.slots i))) js) in
    let inside : All (λ k. Some (λ i. i ≡ k) r1.instances) js = rw x.left (
      All-mono (λ k f. Some-remove k j r.instances f.0 f.1) js
        (All-both (λ k. j ≢ k) (λ k. Some (λ i. i ≡ k) r.instances) js n ms)) in
    let y = unload_each-Dropped r1 js x.wf d inside in
    rw (same_names, unload_each, done)
      (record {
        wf = y.wf;
        left = y.left ∙ ap (remove_all js) x.left;
        slots = λ i. y.slots i ∙ x.slots i;
        profiles = y.profiles ∙ x.profiles;
        next = y.next ∙ x.next;
      })

remove_all-cons :
    (js : List ℕ) (i : ℕ) (ids : List ℕ)
    → All (λ j. i ≢ j) js
    → remove_all js (i ∷ ids) ≡ i ∷ remove_all js ids
remove_all-cons [] i ids h = refl
remove_all-cons (j ∷ js) i ids (n, h) =
    let miss : (i == j) ≡ false = ground arith in rw miss (remove_all-cons js i (remove j ids) h)

remove_all-select :
    (p : ℕ → Bool) (ids : List ℕ)
    → Distinct ids
    → remove_all (select p ids) ids ≡ select (λ i. not (p i)) ids
remove_all-select p [] d = refl
remove_all-select p (i ∷ ids) (n, d) = elim (Bool-cases (p i)) [
  | inl out ↦
      let hit : (i == i) ≡ true = ground arith in
      let rest = remove_all-select p ids d in ground arith
  | inr stay ↦ rw stay (
      remove_all-cons (select p ids) i ids (All-select (λ j. i ≢ j) p ids n)
      ∙ ap (◌∷◌ i) (remove_all-select p ids d))
]

members : (ids : List ℕ) → All (λ k. Some (λ i. i ≡ k) ids) ids
members [] = tt
members (i ∷ ids) = (inl refl, All-mono (λ k m. inr m) ids (members ids))

-- Unloading the names of the instances that pass a test leaves the others, in their order.
pub unload_each-select :
    (r : Rig) (p : ℕ → Bool)
    → IsWf r
    → Dropped r
        (unload_each r (names_at r.heap (select p r.instances)))
        (select (λ i. not (p i)) r.instances)
unload_each-select r p w =
    let d = Distinct-of_map (key_at r.heap) r.instances w.distinct in
    let x =
      unload_each-Dropped r (select p r.instances) w (Distinct-select p r.instances d)
        (All-select _ p r.instances (members r.instances)) in
    record {
      wf = x.wf;
      left = x.left ∙ remove_all-select p r.instances d;
      slots = x.slots;
      profiles = x.profiles;
      next = x.next;
    }

select-all : (ids : List ℕ) → select (λ i. true) ids ≡ ids
select-all [] = refl
select-all (i ∷ ids) = ap (◌∷◌ i) (select-all ids)

select-none : (ids : List ℕ) → select (λ i. false) ids ≡ []
select-none [] = refl
select-none (i ∷ ids) = select-none ids

pub unload_names-Dropped : (r : Rig) → IsWf r → Dropped r (unload_each r (names r)) []
unload_names-Dropped r w =
    let x = unload_each-select r (λ i. true) w in
    rw (select-all r.instances, select-none r.instances) at x

-- UnloadAll leaves no instance in the list and no name in the map, keeps the rest of the rig's
-- invariant, and reports the names of all the slots that were loaded.
pub unload_all-lem :
    (r : Rig)
    → IsWf r
    → ((unload_all r).0.instances ≡ [])
      × ((unload_all r).0.by_name ≡ [])
      × ((unload_all r).1 ≡ names r)
unfolding unload_all
unload_all-lem r w =
    let x = unload_names-Dropped r w in (x.left, x.wf.keyed ∙ ap (entries _) x.left, refl)
