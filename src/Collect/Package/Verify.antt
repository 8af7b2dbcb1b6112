-- ===== src/Collect/Package/Verify.antt =====
-- Which files `verify` of crates/blankres-collect/src/pkg.rs reports as modified.
use blankres.Prelude.{
  not, Bool, true, false, ◌&&◌, ◌||◌, Option, none, some, List, [], ◌∷◌, ◌++◌, any, ◌≡◌, ◌∙◌, refl,
  ap, arith, inl, inr, Bool-cases, Option-cases,
}
use blankres.Collect.Interfaces.{IoResult}
use blankres.Collect.DpkgIndex.{Index, package_of}
use blankres.Collect.Paths.{path_lookup}
use blankres.Collect.Package.{
  DpkgBackend, Groups, md5sums, push_path, push_owned, by_package, file_modified, judged,
  group_modified, group_with, groups_modified, verify,
}
use blankres.Collect.Package.Sorted.{is_ascending, sort-is_ascending, any-sort}
use blankres.Report.Payload.{ModifiedFile}
use blankres.Text.{Text, text_eq}
use blankres.Text.Bytes.{Bytes}
use blankres.Text.Equality.{text_eq_iff}

abbrev holds : (ModifiedFile → Bool) → Option ModifiedFile → Bool
holds p none = false
holds p (some f) = p f

any-append :
    {A : Type 0} (p : A → Bool) (xs ys : List A) → any p (xs ++ ys) ≡ (any p xs || any p ys)
any-append p [] ys = refl
any-append p (x ∷ xs) ys = ground (arith, any-append p xs ys)

-- A test on a group, by a test on a package with one of its paths.
abbrev in_group : (Text → Text → Bool) → Text × List Text → Bool
in_group q (name, paths) = any (q name) paths

any-push_path :
    (q : Text → Text → Bool) (name path : Text) (gs : Groups)
    → any (in_group q) (push_path name path gs) ≡ (any (in_group q) gs || q name path)
unfolding push_path
any-push_path q name path [] = ground arith
any-push_path q name path ((key, ps) ∷ gs) = elim (Bool-cases (text_eq key name)) [
  | inl same ↦
      let key_name : key ≡ name = (text_eq_iff key name).0 same in
      rw (same, any-append (q key) ps (path ∷ []), key_name) (ground arith)
  | inr other ↦ rw (other, any-push_path q name path gs) (ground arith)
]

-- A test on the package that owns a path.
abbrev when_owned : (Text → Text → Bool) → Text → Option Text → Bool
when_owned q path none = false
when_owned q path (some name) = q name path

any-push_owned :
    (q : Text → Text → Bool) (found : Option Text) (path : Text) (gs : Groups)
    → any (in_group q) (push_owned found path gs) ≡ (any (in_group q) gs || when_owned q path found)
any-push_owned q none path gs = ground arith
any-push_owned q (some name) path gs = any-push_path q name path gs

any-by_package :
    (q : Text → Text → Bool) (index : Index) (gs : Groups) (paths : List Text)
    → any (in_group q) (by_package index gs paths)
      ≡ (any (in_group q) gs || any (λ path. when_owned q path (package_of index path)) paths)
unfolding by_package
any-by_package q index gs [] = ground arith
any-by_package q index gs (path ∷ paths) =
    let found = package_of index path in
    any-by_package q index (push_owned found path gs) paths
    ∙ ap (λ x. x || any (λ p. when_owned q p (package_of index p)) paths)
        (any-push_owned q found path gs)
    ∙ ground arith

module _ (md5_hex : Bytes → Text) (order : Groups → Groups) where
  -- The bytes can be read, and have another digest than the one that is recorded.
  abbrev pub has_other_digest : Option Text → IoResult Bytes → Bool
  has_other_digest none bytes = false
  has_other_digest (some expected) (IoResult.err e) = false
  has_other_digest (some expected) (IoResult.ok bytes) = not (text_eq (md5_hex bytes) expected)

  -- A path that is modified by itself, by its owner, and meets a test on the report of it.
  abbrev pub is_modified : (ModifiedFile → Bool) → DpkgBackend → Text → Option Text → Bool
  is_modified p b path none = false
  is_modified p b path (some name) =
      has_other_digest (path_lookup path (md5sums b name)) (b.fs.read_bytes path)
      && p (record { path = path; package_name = name })

  judged-holds :
      (p : ModifiedFile → Bool) (name path expected : Text) (bytes : IoResult Bytes)
      → holds p (judged md5_hex order name path expected bytes) ≡ (
          has_other_digest (some expected) bytes && p (record { path = path; package_name = name }))
  judged-holds p name path expected (IoResult.err e) = refl
  judged-holds p name path expected (IoResult.ok bytes) = ground arith

  file_modified-holds :
      (p : ModifiedFile → Bool) (b : DpkgBackend) (name path : Text) (found : Option Text)
      → holds p (file_modified md5_hex order b.fs name path found) ≡ (
          has_other_digest found (b.fs.read_bytes path)
          && p (record { path = path; package_name = name }))
  file_modified-holds p b name path none = refl
  file_modified-holds p b name path (some expected) =
      judged-holds p name path expected (b.fs.read_bytes path)

  group_modified-any :
      (p : ModifiedFile → Bool) (b : DpkgBackend) (name : Text) (sums : List (Text × Text))
      (paths : List Text)
      → any p (group_modified md5_hex order b.fs name sums paths)
        ≡ any
            (λ path. holds p (file_modified md5_hex order b.fs name path (path_lookup path sums)))
            paths
  unfolding group_modified
  group_modified-any p b name sums [] = refl
  group_modified-any p b name sums (path ∷ paths) =
      elim (Option-cases (file_modified md5_hex order b.fs name path (path_lookup path sums))) [
        | inl e ↦ rw e (group_modified-any p b name sums paths)
        | inr (f, e) ↦ rw e (ap (λ x. p f || x) (group_modified-any p b name sums paths))
      ]

  none_listed :
      (p : ModifiedFile → Bool) (b : DpkgBackend) (name : Text) (paths : List Text)
      → false
        ≡ any
            (λ path. holds p (file_modified md5_hex order b.fs name path (path_lookup path [])))
            paths
  unfolding path_lookup
  none_listed p b name [] = refl
  none_listed p b name (path ∷ paths) = none_listed p b name paths

  group_with-any :
      (p : ModifiedFile → Bool) (b : DpkgBackend) (name : Text) (sums : List (Text × Text))
      (paths : List Text)
      → any p (group_with md5_hex order b.fs name sums paths)
        ≡ any
            (λ path. holds p (file_modified md5_hex order b.fs name path (path_lookup path sums)))
            paths
  group_with-any p b name [] paths = none_listed p b name paths
  group_with-any p b name (sum ∷ sums) paths = group_modified-any p b name (sum ∷ sums) paths

  groups_modified-any :
      (p : ModifiedFile → Bool) (b : DpkgBackend) (gs : Groups)
      → any p (groups_modified md5_hex order b gs)
        ≡ any
            (in_group (λ name path.
              holds p
                (file_modified md5_hex order b.fs name path (path_lookup path (md5sums b name)))))
            gs
  unfolding groups_modified
  groups_modified-any p b [] = refl
  groups_modified-any p b ((name, paths) ∷ gs) =
      any-append p (group_with md5_hex order b.fs name (md5sums b name) paths)
        (groups_modified md5_hex order b gs)
      ∙ rw (group_with-any p b name (md5sums b name) paths, groups_modified-any p b gs) refl

  abbrev pushes : (ModifiedFile → Bool) → DpkgBackend → Text → Text → Bool
  pushes p b name path =
      holds p (file_modified md5_hex order b.fs name path (path_lookup path (md5sums b name)))

  when_owned-pushes :
      (p : ModifiedFile → Bool) (b : DpkgBackend) (path : Text) (found : Option Text)
      → when_owned (pushes p b) path found ≡ is_modified p b path found
  when_owned-pushes p b path none = refl
  when_owned-pushes p b path (some name) =
      file_modified-holds p b name path (path_lookup path (md5sums b name))

  any-when_owned :
      (p : ModifiedFile → Bool) (b : DpkgBackend) (paths : List Text)
      → any (λ path. when_owned (pushes p b) path (package_of b.index path)) paths
        ≡ any (λ path. is_modified p b path (package_of b.index path)) paths
  any-when_owned p b [] = refl
  any-when_owned p b (path ∷ paths) =
      ap (λ x. x || any (λ q. when_owned (pushes p b) q (package_of b.index q)) paths)
        (when_owned-pushes p b path (package_of b.index path))
      ∙ ap (λ x. is_modified p b path (package_of b.index path) || x) (any-when_owned p b paths)

  -- In whatever order the packages are walked, `verify` reports, in the order of their paths, exactly the
  -- paths that are modified by themselves: those whose owner lists a digest for them and whose bytes can be
  -- read and have another digest. The report names the path and its owner.
  pub verify_exact :
      (b : DpkgBackend) (paths : List Text) (p : ModifiedFile → Bool)
      → ((q : Text × List Text → Bool) (gs : Groups) → any q (order gs) ≡ any q gs)
      → (any p (verify md5_hex order b paths)
          ≡ any (λ path. is_modified p b path (package_of b.index path)) paths)
        × (is_ascending (verify md5_hex order b paths) ≡ true)
  unfolding verify
  verify_exact b paths p same_groups = (
    any-sort p (groups_modified md5_hex order b (order (by_package b.index [] paths)))
        ∙ groups_modified-any p b (order (by_package b.index [] paths))
        ∙ same_groups _ (by_package b.index [] paths)
        ∙ any-by_package (pushes p b) b.index [] paths
        ∙ any-when_owned p b paths,
    sort-is_ascending (groups_modified md5_hex order b (order (by_package b.index [] paths))),
  )
