-- ===== src/Server/Storage.antt =====
-- crates/blankres-server/src/storage.rs: blobs by their digest, and the temporary files of the writes
-- under way. What of it the disk refuses is an argument.
use blankres.Prelude.{
  Bool, not, ◌&&◌, ℕ, ◌+◌, ◌-◌, Option, none, some, [], ◌++◌, length, ltb, if◌then◌else◌,
}
use blankres.Report.Event.{is_some}
use blankres.Text.{Text}
use blankres.Text.Bytes.{Bytes}
use blankres.TextMap.{TextMap, lookup, insert}

pub record Blob : Type 0 where
  pub sha256 : Text
  pub size : ℕ

-- The files under `blobs`, and how many there are under `incoming`.
pub record Storage : Type 0 where
  pub blobs : TextMap Bytes
  pub incoming : ℕ

-- What the disk does for one writer: whether the file can be created, a chunk be written behind the bytes
-- that are there, the file be flushed and synced, the directory of the blob be made, the file be renamed
-- into it, and the temporary file be deleted.
pub record Disk : Type 0 where
  pub creates : Bool
  pub writes : ℕ → Bool
  pub syncs : Bool
  pub makes_dir : Bool
  pub renames : Bool
  pub unlinks : Bool

-- `content` is what was written and hashed so far.
pub record BlobWriter : Type 0 where
  pub content : Bytes
  pub written : ℕ

-- `LocalStorage::begin`; `none` is its error.
unfoldable pub begin : Disk → Storage → Option (BlobWriter × Storage)
begin disk s =
    if disk.creates
    then some (record { content = []; written = 0 }, record s { incoming = s.incoming + 1 })
    else none

-- `BlobWriter::write`; `none` is an error, `TooLarge` or `Io`.
unfoldable pub write : Disk → BlobWriter → Bytes → ℕ → Option BlobWriter
write disk w chunk limit =
    if ltb limit (w.written + length chunk)
    then none
    else if not (disk.writes w.written)
    then none
    else some (record { content = w.content ++ chunk; written = w.written + length chunk })

-- The temporary file is deleted, or it is not and the error is ignored.
abbrev unlinked : Disk → Storage → Storage
unlinked disk s = if disk.unlinks then record s { incoming = s.incoming - 1 } else s

-- `BlobWriter::finish`; `none` is its error, behind which the temporary file is still there.
unfoldable pub finish : (Bytes → Text) → Disk → BlobWriter → Storage → Option Blob × Storage
unfolding lookup insert
finish sha256_hex disk w s =
    let sha256 = sha256_hex w.content in
    let blob : Blob = record { sha256 = sha256; size = w.written } in
    if not (disk.syncs && disk.makes_dir)
    then (none, s)
    else if is_some (lookup sha256 s.blobs)
    then (some blob, unlinked disk s)
    else if not disk.renames
    then (none, s)
    else (some blob, record { blobs = insert sha256 w.content s.blobs; incoming = s.incoming - 1 })

-- `BlobWriter::abort`
unfoldable pub abort : Disk → Storage → Storage
abort disk s = unlinked disk s
