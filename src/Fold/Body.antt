-- ===== src/Fold/Body.antt =====
-- parseOrdered and the rewriting of the body.
use mathlib.Core.List.{append-nil, append_assoc}
use llama_chip.Base.{
  All, All-both, All-mono, Bool-cases, Distinct, List, Option-cases, Result-cases, Text, [], any,
  any-same-absent, any-same-false, ap, codes, inl, inr, map, ok, ok-injective, refl, same, some,
  subst, sym, ◌++◌, ◌↔◌, ◌∙◌, ◌∷◌, ◌≡◌, ◌≢◌, ◌⊎◌,
}
use llama_chip.Fold.Defs.{
  Codec, Ending, Field, Folded, Scan, Turn, at_end, broken, closed, finish, fold_messages,
  fold_start, fold_system_turns, fold_turns, get, is_system, not_object, parse_all, parse_ordered,
  read_fields, read_scan, rewrite_messages, role_of, scanned, set, trailing, unreadable,
}
use llama_chip.Fold.Objects.{get-set_other, keys-set}

All-fresh : (ks : List Text) → All (λ k. All (λ j. k ≢ j) []) ks
All-fresh [] = tt
All-fresh (k ∷ ks) = (tt, All-fresh ks)

module _ {Raw : Type 0} where
  abbrev pub field_keys : List (Field Raw) → List Text
  field_keys fs = map (λ f. f.key) fs

  finish_iff :
      (out : List (Field Raw)) (e : Ending) (r : List (Field Raw))
      → (finish out e ≡ ok r) ↔ ((e ≡ at_end) × (r ≡ out))
  finish_iff out at_end r = (λ h. (refl, sym (ok-injective h)), λ (_, q). rw q refl)
  finish_iff out trailing r = (λ h. cc, λ (p, _). cc)
  finish_iff out broken r = (λ h. cc, λ (p, _). cc)

  -- The loop gives back the fields with those read before, if no key is among those seen.
  read_fields_iff :
      (seen : List Text) (out fs : List (Field Raw)) (e : Ending) (r : List (Field Raw))
      → (read_fields seen out fs e ≡ ok r) ↔ (
          (e ≡ at_end)
          × (r ≡ out ++ fs)
          × All (λ k. All (λ j. k ≢ j) seen) (field_keys fs)
          × Distinct (field_keys fs))
  unfolding read_fields
  read_fields_iff seen out [] e r =
      let f = finish_iff out e r in
      (
        (λ h. ((f.0 h).0, (f.0 h).1 ∙ sym (append-nil out), tt, tt)),
        λ (p, q, _, _). f.1 (p, q ∙ append-nil out),
      )
  read_fields_iff seen out (f ∷ fs) e r =
      let ih = read_fields_iff (f.key ∷ seen) (out ++ f ∷ []) fs e r in
      elim (Bool-cases (any (λ k. same k f.key) seen)) [
        | inl again ↦ (
          (λ h. let bad = rw (again, read_fields) at h in cc),
          (λ (p, q, (fresh, _), _). let no = any-same-absent f.key seen fresh in cc),
        )
        | inr new ↦ (
          (λ h.
              let (p, q, away, apart) = ih.0 (rw (new, read_fields) at h) in
              (
                p,
                q ∙ append_assoc out (f ∷ []) fs,
                (any-same-false f.key seen new, All-mono (λ k a. a.1) (field_keys fs) away),
                (All-mono (λ k a b. a.0 (sym b)) (field_keys fs) away, apart),
              )),
          (λ (p, q, (_, away), (first, apart)).
              rw (new, read_fields)
                (ih.1 (
                  p,
                  q ∙ sym (append_assoc out (f ∷ []) fs),
                  All-both (λ k. k ≢ f.key) (λ k. All (λ j. k ≢ j) seen) (field_keys fs)
                      (All-mono (λ k a b. a (sym b)) (field_keys fs) first) away,
                  apart,
                ))),
        )
      ]

  read_scan_iff :
      (s : Scan Raw) (fs : List (Field Raw))
      → (read_scan s ≡ ok fs) ↔ ((s ≡ scanned fs at_end) × Distinct (field_keys fs))
  unfolding read_scan
  read_scan_iff unreadable fs = (λ h. cc, λ (p, _). cc)
  read_scan_iff not_object fs = (λ h. cc, λ (p, _). cc)
  read_scan_iff (scanned gs e) fs =
      let f = read_fields_iff [] [] gs e fs in
      (
        (λ h. let (p, q, _, d) = f.0 h in rw (p, q) (refl, d)),
        (λ (p, d). f.1 (
          ap (λ s. ending s) p,
          sym (ap (λ s. fields s) p),
          All-fresh (field_keys gs),
          rw (ap (λ s. fields s) p) d,
        )),
      )
    where
      ending : Scan Raw → Ending
      ending (scanned _ x) = x
      ending _ = at_end

      fields : Scan Raw → List (Field Raw)
      fields (scanned xs _) = xs
      fields _ = []

module _ {Raw : Type 0} (codec : Codec Raw) where
  -- parseOrdered accepts exactly the input that is one whole object, with nothing behind it and
  -- no key twice, and gives its fields in their order.
  pub parse_ordered_iff :
      (raw : Raw) (fs : List (Field Raw))
      → (parse_ordered codec raw ≡ ok fs)
        ↔ ((codec.scan raw ≡ scanned fs at_end) × Distinct (field_keys fs))
  unfolding parse_ordered
  parse_ordered_iff raw fs = read_scan_iff (codec.scan raw) fs

  -- The body as it came, with nothing folded.
  abbrev pub Untouched : Raw → Folded codec → Type 0
  Untouched body r = (r.body ≡ body) × (r.count ≡ 0)

  -- The object of the body with its fields in their places, and a new value of `messages` only.
  abbrev pub OnlyMessages : Raw → Folded codec → Type 0
  OnlyMessages body r =
      (doc : Turn codec) × (doc' : Turn codec) × (parse_ordered codec body ≡ ok doc)
      × (r.body ≡ codec.write_object doc')
      × (field_keys doc' ≡ field_keys doc)
      × ((j : Text) → j ≢ codes "messages" → get j doc' ≡ get j doc)

  rewrite_messages-lem :
      (body : Raw) (doc : Turn codec) (raw : Raw) (msgs : List (Turn codec))
      → parse_ordered codec body ≡ ok doc
      → get (codes "messages") doc ≡ some raw
      → Untouched body (rewrite_messages codec body doc msgs)
        ⊎ OnlyMessages body (rewrite_messages codec body doc msgs)
  unfolding rewrite_messages
  rewrite_messages-lem body doc raw msgs read there =
      elim (Bool-cases (any (λ m. is_system (role_of codec m)) msgs)) [
        | inr quiet ↦ rw (quiet, rewrite_messages) (inl (refl, refl))
        | inl turns ↦ elim (Result-cases (fold_turns codec (fold_start codec) msgs)) [
          | inr (e, failed) ↦ rw (turns, failed, rewrite_messages) (inl (refl, refl))
          | inl (s, fine) ↦
              let v = codec.write_list (map codec.write_object (closed codec s)) in
              rw (turns, fine, rewrite_messages)
                (inr (
                  doc,
                  set (codes "messages") v doc,
                  read,
                  refl,
                  keys-set (codes "messages") v raw doc there,
                  λ j ne. get-set_other j (codes "messages") v doc ne,
                ))
        ]
      ]

  fold_messages-lem :
      (body : Raw) (doc : Turn codec) (raw : Raw)
      → parse_ordered codec body ≡ ok doc
      → get (codes "messages") doc ≡ some raw
      → Untouched body (fold_messages codec body doc raw)
        ⊎ OnlyMessages body (fold_messages codec body doc raw)
  unfolding fold_messages
  fold_messages-lem body doc raw read there = elim (Option-cases (codec.as_list raw)) [
    | inl bad ↦ rw (bad, fold_messages) (inl (refl, refl))
    | inr (rs, list) ↦ elim (Result-cases (parse_all codec rs)) [
      | inr (e, failed) ↦ rw (list, failed, fold_messages) (inl (refl, refl))
      | inl (msgs, fine) ↦
          rw (list, fine, fold_messages) (rewrite_messages-lem body doc raw msgs read there)
    ]
  ]

  -- The body goes out as it came, or its object keeps every field in its place and every value
  -- but that of `messages`.
  pub fold_system_turns-lem :
      (body : Raw)
      → Untouched body (fold_system_turns codec body)
        ⊎ OnlyMessages body (fold_system_turns codec body)
  unfolding fold_system_turns
  fold_system_turns-lem body = elim (Result-cases (parse_ordered codec body)) [
    | inr (e, failed) ↦ rw (failed, fold_system_turns) (inl (refl, refl))
    | inl (doc, read) ↦ elim (Option-cases (get (codes "messages") doc)) [
      | inl absent ↦ rw (read, absent, fold_system_turns) (inl (refl, refl))
      | inr (raw, there) ↦
          let through : fold_system_turns codec body ≡ fold_messages codec body doc raw =
            rw (read, there, fold_system_turns) refl in
          subst (λ r. Untouched body r ⊎ OnlyMessages body r) (sym through)
            (fold_messages-lem body doc raw read there)
    ]
  ]
