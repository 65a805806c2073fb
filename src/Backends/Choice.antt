-- ===== src/Backends/Choice.antt =====
-- Which build a variant or a tag gives.
use llama_chip.Base.{
  All, All-mono, Bool, Bool-cases, List, Option, Text, and_left, and_right, ap, codes, false, find,
  find-sorted, inl, inr, none, ok, ok-injective, refl, same, same_iff, some, sort_by-IsSorted, true,
  ◌&&◌, ◌≡◌,
}
use llama_chip.Backends.Defs.{Backend, latest, none_pulled, or_error, resolve_ggml}
use llama_chip.Backends.Versions.{
  int_le_trans, int_lt, int_lt-asym, int_lt_irrefl, newer, newer-asym, newer_trans,
}
use llama_chip.Backends.Disk.{
  Entry, Platform, discover_builds, discover_managed, found, found_managed, ggml_build_num,
}

newer_irrefl : (a : Text) → newer a a ≡ false
newer_irrefl a = elim (Bool-cases (newer a a)) [
  | inl yes_newer ↦ newer-asym a a yes_newer
  | inr not_newer ↦ not_newer
]

-- What Latest gives over the builds that Discover finds is runnable and of the variant asked for,
-- and no runnable build of this variant is newer, by the numbers of its version.
pub latest-newest :
    (p : Platform) (root : Text) (es : List Entry) (variant : Text) (b : Backend)
    → latest (discover_builds p root es) variant ≡ some b
    → (b.variant ≡ variant)
      × (b.complete ≡ true)
      × All
          (λ c. c.variant ≡ variant → c.complete ≡ true → newer c.version b.version ≡ false)
          (discover_builds p root es)
unfolding latest discover_builds
latest-newest p root es variant b e =
    let less : Backend → Backend → Bool = λ x y. newer x.version y.version in
    let (fits, best) =
      find-sorted less (λ x y. newer-asym x.version y.version)
        (λ x y z g h. newer_trans z.version y.version x.version h g)
        (λ c. same c.variant variant && c.complete) (discover_builds p root es) b
        (λ x. newer_irrefl x.version)
        (sort_by-IsSorted less (λ x y. newer-asym x.version y.version) (found p root es)) e in
    (
      (same_iff b.variant variant).0 (and_left _ _ fits),
      and_right _ _ fits,
      All-mono (λ c h v r. h (rw ((same_iff c.variant variant).1 v, r) refl)) _ best,
    )

-- What `ggml@latest` gives over the builds that DiscoverManaged finds is runnable, and no runnable
-- one has a greater build number.
pub resolve_ggml-newest :
    (p : Platform) (root : Text) (es : List Entry) (b : Backend)
    → resolve_ggml (discover_managed p root es) (codes "latest") ≡ ok b
    → (b.complete ≡ true)
      × All
          (λ c.
            c.complete ≡ true
            → int_lt (ggml_build_num b.version) (ggml_build_num c.version) ≡ false)
          (discover_managed p root es)
unfolding resolve_ggml discover_managed same
resolve_ggml-newest p root es b e =
    let less : Backend → Backend → Bool =
      λ x y. int_lt (ggml_build_num y.version) (ggml_build_num x.version) in
    let asym =
      λ (x y : Backend). int_lt-asym (ggml_build_num y.version) (ggml_build_num x.version) in
    find-sorted less asym
      (λ x y z g h.
        int_le_trans (ggml_build_num z.version) (ggml_build_num y.version)
          (ggml_build_num x.version) h g)
      (λ c. c.complete) (discover_managed p root es) b
      (λ x. int_lt_irrefl (ggml_build_num x.version))
      (sort_by-IsSorted less asym (found_managed p root es))
      (found_of (find (λ c. c.complete) (discover_managed p root es)) e)
  where
    found_of : (o : Option Backend) → or_error none_pulled o ≡ ok b → o ≡ some b
    found_of none h = cc
    found_of (some c) h = ap some (ok-injective h)
