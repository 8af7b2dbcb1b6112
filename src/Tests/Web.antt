-- ===== src/Tests/Web.antt =====
-- crates/blankres-server/src/web.rs at concrete inputs.
use blankres.Prelude.{Option, none, some, List, [], ◌∷◌, ◌++◌, ◌≡◌, refl, arith}
use blankres.Server.Web.{Row, rows_html, reports_fragment}
use blankres.Server.Web.Skeleton.{skeleton, skeletons_of, rows_markup}
use blankres.Server.Web.Panics.{reports_fragment_panics}
use blankres.Text.{Text, codes}
use blankres.Text.Bytes.{byte_len}

abbrev row : Text → Row
row signature = record {
  received_at = codes "today";
  age = 3;
  executable = codes "<b>";
  package_name = none;
  package_version = none;
  signal = some 11;
  kind = codes "nativecrash";
  distro = codes "blankon";
  distro_version = codes "12";
  architecture = codes "amd64";
  signature = signature;
  signature_events = 1;
  payloads = 0;
}

-- One row, and what is shown of it.
abbrev rows : List Row
rows = row (codes "0123456789abcdef") ∷ []

abbrev or_empty : Option Text → Text
or_empty none = []
or_empty (some t) = t

rows_shown : rows_html rows ≡ some (or_empty (rows_html rows))
unfolding rows_html
rows_shown = refl

rows_markup_example : skeleton (or_empty (rows_html rows)) ≡ skeletons_of rows
rows_markup_example = rows_markup rows rows_shown

-- Eleven letters, and one that takes two bytes.
reports_fragment_panics_example :
    reports_fragment (row (codes "0123456789a" ++ 233 ∷ []) ∷ []) ≡ none
unfolding byte_len
reports_fragment_panics_example =
    reports_fragment_panics [] (row (codes "0123456789a" ++ 233 ∷ [])) [] (codes "0123456789a") 233
      [] refl (omega arith) (omega arith)
