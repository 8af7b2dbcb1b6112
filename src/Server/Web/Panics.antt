-- ===== src/Server/Web/Panics.antt =====
-- The panic of the dashboard of crates/blankres-server/src/web.rs.
use blankres.Prelude.{
  ℕ, ◌≤◌, ◌<◌, ◌+◌, ◌-◌, Option, none, some, List, [], ◌∷◌, ◌++◌, ◌≡◌, refl, arith, min,
}
use blankres.Server.Web.{Row, and_rest, row_html, rows_html, reports_fragment}
use blankres.Text.{Text}
use blankres.Text.Bytes.{char_len, byte_len, slice_to}

-- A character that begins before the cut and ends behind it.
slice_to-inside :
    (n : ℕ) (s : Text) (c : ℕ) (rest : Text)
    → byte_len s < n
    → n < byte_len s + char_len c
    → slice_to n (s ++ c ∷ rest) ≡ none
unfolding slice_to byte_len
slice_to-inside n [] c rest h k = ground arith
slice_to-inside n (d ∷ s) c rest h k = ground (arith, slice_to-inside (n - char_len d) s c rest)

byte_len-inside :
    (s : Text) (c : ℕ) (rest : Text) → byte_len s + char_len c ≤ byte_len (s ++ c ∷ rest)
unfolding byte_len
byte_len-inside [] c rest = omega arith
byte_len-inside (d ∷ s) c rest = omega (arith, byte_len-inside s c rest)

row_html_panics :
    (row : Row) (s : Text) (c : ℕ) (rest : Text)
    → row.signature ≡ s ++ c ∷ rest
    → byte_len s < 12
    → 12 < byte_len s + char_len c
    → row_html row ≡ none
unfolding row_html
row_html_panics row s c rest e h k =
    let cut : min 12 (byte_len row.signature) ≡ 12 =
      rw e (omega (arith, byte_len-inside s c rest)) in
    rw (cut, e, slice_to-inside 12 s c rest h k) refl

and_rest-none : (html : Option Text) → and_rest html none ≡ none
and_rest-none none = refl
and_rest-none (some h) = refl

rows_html_panics :
    (before : List Row) (row : Row) (after : List Row)
    → row_html row ≡ none
    → rows_html (before ++ row ∷ after) ≡ none
unfolding rows_html
rows_html_panics [] row after e = rw e refl
rows_html_panics (r ∷ before) row after e =
    rw (rows_html_panics before row after e) (and_rest-none (row_html r))

-- The hash of a signature is what the client has sent. Where a character of one lies across its twelfth
-- byte, the dashboard that shows the event panics, whatever else it shows.
pub reports_fragment_panics :
    (before : List Row) (row : Row) (after : List Row) (s : Text) (c : ℕ) (rest : Text)
    → row.signature ≡ s ++ c ∷ rest
    → byte_len s < 12
    → 12 < byte_len s + char_len c
    → reports_fragment (before ++ row ∷ after) ≡ none
unfolding reports_fragment
reports_fragment_panics [] row after s c rest e h k =
    rows_html_panics [] row after (row_html_panics row s c rest e h k)
reports_fragment_panics (r ∷ before) row after s c rest e h k =
    rows_html_panics (r ∷ before) row after (row_html_panics row s c rest e h k)
