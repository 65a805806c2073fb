-- ===== src/Backends/Again.antt =====
-- What a pull leaves behind.
use llama_chip.Base.{
  Bool, Bool-cases, List, Option, Result, Text, ap, codes, err, false, if◌then◌else◌, inl, inr,
  none, ok, ok-injective, refl, same, some, subst, sym, true, ◌≡◌,
}
use llama_chip.Backends.Defs.{Backend}
use llama_chip.Backends.Disk.{Platform, is_nonempty}
use llama_chip.Backends.Pull.{AssetError}
use llama_chip.Backends.Install.{
  Calls, Release, fetch_all, finish_pull, install, managed_backend, managed_dir, pull_assets,
  pull_ggml,
}

module _ {ℓ} {W : Type ℓ} (c : Calls W) (p : Platform)
    (chmod : (s : Text) (w : W) → c.size_of s (c.make_executable s w) ≡ c.size_of s w) where
  finish_pull-server :
      (b b' : Backend) (r : Option Text × W) (w' : W)
      → finish_pull c p b r ≡ (ok b', w')
      → (b' ≡ b) × (is_nonempty (c.size_of b.server w') ≡ true)
  finish_pull-server b b' (some u, w) w' e = cc
  finish_pull-server b b' (none, w) w' e = elim (Bool-cases (is_nonempty (c.size_of b.server w))) [
    | inr empty ↦ let bad = rw empty at e in cc
    | inl there ↦
        let made = rw there at e in
        let kept : (if same p.goos (codes "windows") then w else c.make_executable b.server w)
            ≡ w' =
          ap (λ x. x.1) made in
        (
          sym (ok-injective (ap (λ x. x.0) made)),
          subst (λ x. is_nonempty (c.size_of b.server x) ≡ true) kept
              (elim (Bool-cases (same p.goos (codes "windows"))) [
                | inl windows ↦ rw windows there
                | inr other ↦ rw (other, chmod b.server w) there
              ]),
        )
  ]

  install-server :
      (b b' : Backend) (us : List Text) (r : Bool × W) (w' : W)
      → install c p b us r ≡ (ok b', w')
      → (b' ≡ b) × (is_nonempty (c.size_of b.server w') ≡ true)
  install-server b b' us (false, w) w' e = cc
  install-server b b' us (true, w) w' e = finish_pull-server b b' (fetch_all c b.dir us w) w' e

  pull_assets-server :
      (b b' : Backend) (urls : Result AssetError (List Text)) (w w' : W)
      → pull_assets c p b urls w ≡ (ok b', w')
      → (b' ≡ b) × (is_nonempty (c.size_of b.server w') ≡ true) × (us : List Text) × (urls ≡ ok us)
  pull_assets-server b b' (err x) w w' e = cc
  pull_assets-server b b' (ok us) w w' e = elim (Bool-cases (is_nonempty (c.size_of b.server w))) [
    | inl there ↦
        let made = rw there at e in
        (
          sym (ok-injective (ap (λ x. x.0) made)),
          subst (λ x. is_nonempty (c.size_of b.server x) ≡ true) (ap (λ x. x.1) made) there,
          us,
          refl,
        )
    | inr missing ↦
        let (same_build, there) =
          install-server b b' us (c.make_dir b.dir w) w' (rw missing at e) in
        (same_build, there, us, refl)
  ]

  -- If chmod keeps the size of a file: a pull that gives a build leaves a server binary of some
  -- size in the directory named for the release, and the same pull once more gives the same build
  -- and leaves the disk as it is.
  pub pull_ggml-again :
      (root : Text) (rel : Release) (b : Backend) (w w' : W)
      → pull_ggml c p root (some rel) w ≡ (ok b, w')
      → (b.dir ≡ managed_dir p root rel.tag_name)
        × (is_nonempty (c.size_of b.server w') ≡ true)
        × (pull_ggml c p root (some rel) w' ≡ (ok b, w'))
  unfolding pull_ggml
  pull_ggml-again root rel b w w' e =
      let (made, there, us, urls) =
        pull_assets-server (managed_backend p (managed_dir p root rel.tag_name) rel.tag_name) b _ w
          w' e in
      (
        ap (λ x. x.dir) made,
        subst (λ x. is_nonempty (c.size_of x.server w') ≡ true) (sym made) there,
        rw (urls, there) (ap (λ x. (ok x, w')) (sym made)),
      )
