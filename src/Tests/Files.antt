-- ===== src/Tests/Files.antt =====
-- crates/blankres-report/src/apport.rs and crates/blankres-collect/src/pkg.rs at concrete inputs.
use blankres.Prelude.{Bool, true, List, [], ◌∷◌, any, map, ◌≡◌, refl}
use blankres.Collect.DpkgIndex.{package_of}
use blankres.Collect.Interfaces.{IoResult, Filesystem}
use blankres.Collect.Package.{DpkgBackend, Groups, verify}
use blankres.Collect.Package.Verify.{is_modified, verify_exact}
use blankres.Collect.Package.Sorted.{is_ascending}
use blankres.Report.Apport.{Result, ok, parse, decode_chunks}
use blankres.Report.Apport.Printer.{Field, text_field, binary_field, field_value}
use blankres.Report.Apport.RoundTrip.{AllFields, parse-print}
use blankres.Report.Payload.{ModifiedFile}
use blankres.Tests.Data.{digest}
use blankres.Text.{Text, codes, lines, text_eq, starts_with, trim, trim_start}
use blankres.Text.Bytes.{Bytes}
use blankres.TextMap.{collect_onto}

abbrev decode : Text → Result Text Bytes
decode t = ok t

abbrev inflate : Bytes → Result Text Bytes
inflate b = ok b

abbrev fields : List Field
fields =
    text_field (codes "Title") (codes "cat crashed") (codes "second" ∷ [] ∷ [])
    ∷ binary_field (codes "CoreDump") (codes "ab" ∷ codes "cd" ∷ []) (codes "abcd")
    ∷ []

abbrev crash_file : Text
crash_file = codes "Title: cat crashed\n second\n .\nCoreDump: base64\n ab\n cd\n"

fields-AllFields : AllFields decode inflate fields
unfolding decode_chunks starts_with trim trim_start text_eq
fields-AllFields =
    (((refl, refl, refl), refl, refl, refl), (((refl, refl, refl), (codes "abcd", refl, refl)), tt))

parse-print_example :
    parse decode inflate crash_file ≡ ok (collect_onto [] (map field_value fields))
unfolding lines
parse-print_example = parse-print decode inflate crash_file fields fields-AllFields refl

abbrev disk : Filesystem
disk = record {
  read_to_string = λ path. IoResult.ok (codes "00  usr/bin/cat\n");
  metadata_len = λ path. IoResult.ok 3;
  list_dir = λ path. IoResult.err [];
  modified_secs = λ path. IoResult.err [];
  read_bytes = λ path. IoResult.ok (codes "11");
}

abbrev backend : DpkgBackend
backend = record {
  fs = disk;
  index = record {
    paths = (codes "/usr/bin/cat", codes "coreutils") ∷ [];
    built_from_status_mtime = 0;
  };
  info_dir = codes "/info";
  versions = [];
}

abbrev unchanged : Groups → Groups
unchanged gs = gs

abbrev is_cat : ModifiedFile → Bool
is_cat f = text_eq f.path (codes "/usr/bin/cat")

verify_exact_example :
    (any is_cat (verify digest unchanged backend (codes "/usr/bin/cat" ∷ []))
      ≡ any
          (λ path. is_modified digest unchanged is_cat backend path (package_of backend.index path))
          (codes "/usr/bin/cat" ∷ []))
    × (is_ascending (verify digest unchanged backend (codes "/usr/bin/cat" ∷ [])) ≡ true)
verify_exact_example =
    verify_exact digest unchanged backend (codes "/usr/bin/cat" ∷ []) is_cat (λ q gs. refl)
