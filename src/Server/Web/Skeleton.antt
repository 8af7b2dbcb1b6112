-- ===== src/Server/Web/Skeleton.antt =====
-- The markup of the dashboard of crates/blankres-server/src/web.rs does not depend on what clients send.
use blankres.Prelude.{
  ℕ, suc, zero, ◌≤◌, map, Bool-cases, inl, inr, ◌/◌, ◌%◌, Bool, true, false, ◌||◌, Option, none,
  some, List, [], ◌∷◌, ◌++◌, ◌≡◌, ◌∙◌, refl, sym, arith, filter, ltb, ◌==◌, Option-cases,
}
use blankres.Report.Event.{is_some}
use blankres.Server.Web.{
  Row, esc, escaped, package_cell, payload_cell, with_short, row_with, row_html, rows_html,
}
use blankres.Text.{Text, codes, concat}
use blankres.Text.Numbers.{to_decimal, digits_onto, digit_char}

-- The characters that end a text or an attribute of HTML.
abbrev pub is_markup : ℕ → Bool
is_markup c = c == b'<' || c == b'>' || c == b'"' || c == 39

abbrev pub skeleton : Text → Text
skeleton = filter is_markup

skeleton-append : (s t : Text) → skeleton (s ++ t) ≡ skeleton s ++ skeleton t
skeleton-append [] t = refl
skeleton-append (c ∷ s) t = ground (arith, skeleton-append s t)

skeleton-escaped : (c : ℕ) → skeleton (escaped c) ≡ []
skeleton-escaped c = ground arith

skeleton-esc : (s : Text) → skeleton (esc s) ≡ []
unfolding esc
skeleton-esc [] = refl
skeleton-esc (c ∷ s) = rw (skeleton-append (escaped c) (esc s), skeleton-escaped c) (skeleton-esc s)

digit_char_plain : (d : ℕ) → d ≤ 9 → is_markup (digit_char d) ≡ false
unfolding digit_char
digit_char_plain d h = ground arith

skeleton-digits_onto : (f n : ℕ) (acc : Text) → skeleton (digits_onto f 10 n acc) ≡ skeleton acc
unfolding digits_onto
skeleton-digits_onto zero n acc = refl
skeleton-digits_onto (suc f) n acc = elim (Bool-cases (ltb n 10)) [
  | inl small ↦ rw small (ground (arith, digit_char_plain n))
  | inr large ↦ rw large (
      skeleton-digits_onto f (n / 10) (digit_char (n % 10) ∷ acc)
      ∙ ground (arith, digit_char_plain (n % 10)))
]

skeleton-to_decimal : (n : ℕ) → skeleton (to_decimal n) ≡ []
unfolding to_decimal
skeleton-to_decimal n = skeleton-digits_onto 20 n []

skeleton-concat : (ws : List Text) → skeleton (concat ws) ≡ concat (map skeleton ws)
unfolding concat
skeleton-concat [] = refl
skeleton-concat (w ∷ ws) = rw (skeleton-append w (concat ws), skeleton-concat ws) refl

-- The markup of the cell of the package, and of that of the payload.
abbrev package_skeleton : Bool → Text
package_skeleton true = []
package_skeleton false = skeleton (package_cell none none)

skeleton-package_cell :
    (name version : Option Text)
    → skeleton (package_cell name version) ≡ package_skeleton (is_some name)
unfolding concat
skeleton-package_cell none version = refl
skeleton-package_cell (some name) none = skeleton-esc name
skeleton-package_cell (some name) (some version) =
    rw (skeleton-concat, skeleton-esc name, skeleton-esc version) refl

abbrev payload_skeleton : Bool → Text
payload_skeleton true =
    skeleton (codes "<span class=\"badge badge-payload\">") ++ skeleton (codes "</span>")
payload_skeleton false = skeleton (payload_cell 0)

skeleton-payload_cell : (n : ℕ) → skeleton (payload_cell n) ≡ payload_skeleton (ltb 0 n)
unfolding concat
skeleton-payload_cell n = elim (Bool-cases (ltb 0 n)) [
  | inl positive ↦ rw (positive, skeleton-concat, skeleton-to_decimal n) refl
  | inr zero_payloads ↦ rw zero_payloads refl
]

abbrev row_skeleton : Text → Text → Text
row_skeleton package_part payload_part =
    skeleton (codes "<tr><td class=\"nowrap\" title=\"")
    ++ (skeleton (codes "\"></td><td class=\"mono\"></td><td>")
        ++ (package_part
            ++ (skeleton (
                  codes
                    "</td><td class=\"nowrap\"></td><td class=\"nowrap\"> <span class=\"metric\"></span></td><td class=\"mono nowrap\"><a href=\"/v1/signatures/\"></a> <span class=\"metric\">x</span></td><td class=\"nowrap\">")
                ++ (payload_part ++ skeleton (codes "</td></tr>")))))

skeleton-row_with :
    (r : Row) (short : Text)
    → skeleton (row_with r short)
      ≡ row_skeleton
          (package_skeleton (is_some r.package_name))
          (payload_skeleton (ltb 0 r.payloads))
unfolding concat
skeleton-row_with r short =
    rw (skeleton-concat, skeleton-package_cell, skeleton-payload_cell, skeleton-to_decimal)
      (simp skeleton-esc)

abbrev pub skeleton_of : Row → Text
skeleton_of r =
    row_skeleton (package_skeleton (is_some r.package_name)) (payload_skeleton (ltb 0 r.payloads))

abbrev pub skeletons_of : List Row → Text
skeletons_of [] = []
skeletons_of (r ∷ rows) = skeleton_of r ++ skeletons_of rows

some_injective : {s t : Text} → some s ≡ some t → s ≡ t
some_injective e = cc

skeleton-with_short :
    (r : Row) (short : Option Text) {html : Text}
    → with_short r short ≡ some html
    → skeleton html ≡ skeleton_of r
skeleton-with_short r none e = absurd (cc)
skeleton-with_short r (some short) e = rw (sym (some_injective e)) (skeleton-row_with r short)

skeleton-row_html : (r : Row) {html : Text} → row_html r ≡ some html → skeleton html ≡ skeleton_of r
unfolding row_html
skeleton-row_html r e = skeleton-with_short r _ e

-- The markup of the table is that of its rows, and the markup of a row depends only on whether it has
-- a package and whether it has a payload: no text that a client has sent, escaped as it is, opens or
-- closes an element or an attribute.
pub rows_markup :
    (rows : List Row) {html : Text} → rows_html rows ≡ some html → skeleton html ≡ skeletons_of rows
unfolding rows_html
rows_markup [] e = ground (arith, e)
rows_markup (r ∷ rows) {html = html} e = elim (Option-cases (row_html r)) [
  | inl panics ↦ ground (arith, panics, e)
  | inr (h, one) ↦ elim (Option-cases (rows_html rows)) [
    | inl panics ↦ ground (arith, one, panics, e)
    | inr (t, more) ↦
        let whole : h ++ t ≡ html = ground (arith, one, more, e) in
        rw (sym whole, skeleton-append h t, skeleton-row_html r one, rows_markup rows more) refl
  ]
]
