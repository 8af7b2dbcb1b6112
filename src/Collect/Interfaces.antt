-- ===== src/Collect/Interfaces.antt =====
-- What the collectors use of crates/blankres-collect/src/sys.rs and pkg.rs: the traits `Filesystem`
-- and `PackageBackend`, as records of operations. An `io::Error` is the text that it prints.
use blankres.Prelude.{ℕ, List, Option}
use blankres.Report.Event.{PackageInfo}
use blankres.Report.Payload.{ModifiedFile}
use blankres.Text.{Text}
use blankres.Text.Bytes.{Bytes}

pub data IoResult (A : Type 0) : Type 0 where
  ok : A → IoResult A
  err : Text → IoResult A

pub record Filesystem : Type 0 where
  pub read_to_string : Text → IoResult Text
  pub metadata_len : Text → IoResult ℕ
  -- The entries of a directory, as full paths.
  pub list_dir : Text → IoResult (List Text)
  pub modified_secs : Text → IoResult ℕ
  pub read_bytes : Text → IoResult Bytes

pub record PackageBackend : Type 0 where
  pub owner : Text → Option PackageInfo
  pub verify : List Text → List ModifiedFile
