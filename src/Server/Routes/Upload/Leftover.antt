-- ===== src/Server/Routes/Upload/Leftover.antt =====
-- The temporary files that `post_report` of crates/blankres-server/src/routes.rs leaves behind.
use blankres.Prelude.{
  ℕ, ◌+◌, Bool, true, false, ◌&&◌, Option, List, [], ◌∷◌, ◌≡◌, ◌⊎◌, inl, inr, refl, arith,
}
use blankres.Server.Routes.{ApiResult, ApiResult-cases, err, Part, internal_error}
use blankres.Server.Routes.Upload.{Upload, read_part, read_parts}
use blankres.Server.Storage.{Disk, Storage, begin, finish, abort}
use blankres.Text.{Text}
use blankres.Text.Bytes.{Bytes}

abbrev pub all_unlink : List Part → Bool
all_unlink [] = true
all_unlink (p ∷ ps) = p.disk.unlinks && all_unlink ps

abbrev can_finish : Disk → Bool
can_finish disk = disk.syncs && disk.makes_dir && disk.renames

abbrev pub all_finish : List Part → Bool
all_finish [] = true
all_finish (p ∷ ps) = can_finish p.disk && all_finish ps

-- Where the disk deletes what it is told to, there are no more temporary files than before, or one more
-- behind an internal error, of a blob that could not be finished.
abbrev pub Left : {A : Type 0} → ℕ → Bool → Bool → ApiResult A × Storage → Type 0
Left n unlinks finishes (answer, storage) =
    (unlinks ≡ false)
    ⊎ ((storage.incoming ≡ n)
        ⊎ ((storage.incoming ≡ n + 1) × (answer ≡ err internal_error) × (finishes ≡ false)))

module _ {M : Type 0} (sha256_hex : Bytes → Text) (from_slice : Bytes → Option M) where
  read_part-Left :
      (limit : ℕ) (part : Part) (u : Upload M) (s : Storage)
      → Left s.incoming part.disk.unlinks
          (can_finish part.disk)
          (read_part sha256_hex from_slice limit part u s)
  unfolding read_part begin finish abort
  read_part-Left limit part u s = ground arith

  pub read_parts-Left :
      (limit : ℕ) (malformed : Bool) (parts : List Part) (u : Upload M) (s : Storage)
      → Left s.incoming
          (all_unlink parts)
          (all_finish parts)
          (read_parts sha256_hex from_slice limit malformed parts u s)
  unfolding read_parts
  read_parts-Left limit malformed [] u s = inr (inl refl)
  read_parts-Left limit malformed (p ∷ ps) u s =
      let first = read_part-Left limit p u s in
      elim (ApiResult-cases (read_part sha256_hex from_slice limit p u s).0) [
        | inl (status, e) ↦ ground (arith, first, e)
        | inr (u', e) ↦
            let (a, s') = read_part sha256_hex from_slice limit p u s in
            ground (arith, first, e, read_parts-Left limit malformed ps u' s')
      ]
