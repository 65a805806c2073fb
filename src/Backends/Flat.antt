-- ===== src/Backends/Flat.antt =====
-- Where an archive writes, and which assets are taken.
use llama_chip.Base.{
  All, All-append, Bool, Bool-cases, List, Option-cases, Text, [], any, arith, codes, false, inl,
  inr, is_empty, refl, same, subst, ◌∷◌, ◌≡◌, ◌≢◌, ◌⊎◌,
}
use llama_chip.Backends.Disk.{cut_last}
use llama_chip.Backends.Names.{FreeOf, cut_last-free, cut_last_sound}
use llama_chip.Backends.Pull.{
  Call, TarEntry, TarType, ZipEntry, base_name, calls_for, create, directory, entry_calls,
  extract_tar, extract_zip, hard_link, is_fatal, is_special, links, other_type, regular, removes,
  strip_slashes, symlink, writes_file,
}

-- A single name below the destination.
abbrev pub IsFlat : Text → Type 0
IsFlat n = FreeOf b'/' n × (n ≢ []) × (n ≢ codes ".") × (n ≢ codes "..")

base_name-FreeOf : (s : Text) → FreeOf b'/' (base_name s) ⊎ (base_name s ≡ codes "/")
unfolding base_name
base_name-FreeOf s = elim (Bool-cases (is_empty s)) [
  | inl empty ↦ rw (empty, base_name) (inl (omega arith, tt))
  | inr full ↦ elim (Bool-cases (is_empty (strip_slashes s))) [
    | inl slashes ↦ rw (full, slashes, base_name) (inr refl)
    | inr name_left ↦ elim (Option-cases (cut_last b'/' (strip_slashes s))) [
      | inl whole ↦
          rw (full, name_left, whole, base_name) (inl (cut_last-free b'/' (strip_slashes s) whole))
      | inr ((a, b), parts) ↦
          rw (full, name_left, parts, base_name)
            (inl (cut_last_sound b'/' (strip_slashes s) a b parts).1)
    ]
  ]
]

-- A place that a call changes, and the name that a link gets to point to.
abbrev pub IsPlaced : Text → Type 0
IsPlaced n = IsFlat n ⊎ (n ≡ codes "/")

abbrev pub StaysInside : Call → Type 0
StaysInside (removes n) = IsPlaced n
StaysInside (links target n) = (FreeOf b'/' target ⊎ (target ≡ codes "/")) × IsPlaced n
StaysInside (writes_file n mode data_of) = IsPlaced n

base_name-IsPlaced : (s : Text) → is_special (base_name s) ≡ false → IsPlaced (base_name s)
unfolding same
base_name-IsPlaced s h = elim (base_name-FreeOf s) [
  | inr slash ↦ inr slash
  | inl free ↦ inl (
    free,
    (λ q. let bad = subst (λ n. is_special n ≡ false) q h in cc),
    (λ q. let bad = subst (λ n. is_special n ≡ false) q h in cc),
    (λ q. let bad = subst (λ n. is_special n ≡ false) q h in cc),
  )
]

calls_for-StaysInside :
    (n target : Text) (t : TarType)
    → (FreeOf b'/' target ⊎ (target ≡ codes "/"))
    → IsPlaced n
    → All StaysInside (calls_for n target t)
calls_for-StaysInside n target directory g h = tt
calls_for-StaysInside n target symlink g h = (h, ((g, h), tt))
calls_for-StaysInside n target hard_link g h = (h, ((g, h), tt))
calls_for-StaysInside n target (regular mode data_of) g h = (h, tt)
calls_for-StaysInside n target other_type g h = tt

entry_calls-StaysInside : (n : Text) (e : TarEntry) → IsPlaced n → All StaysInside (entry_calls n e)
unfolding entry_calls
entry_calls-StaysInside n e h =
    calls_for-StaysInside n (base_name e.link_name) e.type (base_name-FreeOf e.link_name) h

-- Whatever names an archive holds and whichever calls fail, every call of the extraction is for a
-- single name below the destination, never `.`, `..` or a path, or else for the name `/`; and a
-- link never points along a path.
pub extract_tar-StaysInside :
    (fails : Call → Bool) (ends_well : Bool) (es : List TarEntry)
    → All StaysInside (extract_tar fails ends_well es).0
unfolding extract_tar
extract_tar-StaysInside fails ends_well [] = tt
extract_tar-StaysInside fails ends_well (e ∷ es) =
    let rest = extract_tar-StaysInside fails ends_well es in
    elim (Bool-cases (is_special (base_name e.name))) [
      | inl skipped ↦ rw (skipped, extract_tar) rest
      | inr taken ↦
          let here_calls =
            entry_calls-StaysInside (base_name e.name) e (base_name-IsPlaced e.name taken) in
          elim (Bool-cases (any (is_fatal fails) (entry_calls (base_name e.name) e))) [
            | inl broken ↦ rw (taken, broken, extract_tar) here_calls
            | inr fine ↦
                rw (taken, fine, extract_tar)
                  (All-append StaysInside (entry_calls (base_name e.name) e) _ here_calls rest)
          ]
    ]

-- A single name, which for a zip archive may be `.` or `..`, or else `/`.
abbrev pub IsSingle : Call → Type 0
IsSingle (removes n) = FreeOf b'/' n ⊎ (n ≡ codes "/")
IsSingle (links target n) = FreeOf b'/' n ⊎ (n ≡ codes "/")
IsSingle (writes_file n mode content) = FreeOf b'/' n ⊎ (n ≡ codes "/")

-- Every file that a zip archive makes has a single name below the destination.
pub extract_zip-IsSingle :
    (fails : Call → Bool) (es : List ZipEntry) → All IsSingle (extract_zip fails es).0
unfolding extract_zip
extract_zip-IsSingle fails [] = tt
extract_zip-IsSingle fails (e ∷ es) =
    let rest = extract_zip-IsSingle fails es in
    elim (Bool-cases e.is_dir) [
      | inl folder ↦ rw (folder, extract_zip) rest
      | inr file ↦ elim (Option-cases e.content) [
        | inl shut ↦ rw (file, shut, extract_zip) tt
        | inr (content, readable) ↦
            let single = base_name-FreeOf e.name in
            elim (Bool-cases (fails (create (base_name e.name) content))) [
              | inl broken ↦ rw (file, readable, broken, extract_zip) (single, tt)
              | inr fine ↦ rw (file, readable, fine, extract_zip) (single, rest)
            ]
      ]
    ]
