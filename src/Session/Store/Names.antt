-- ===== src/Session/Store/Names.antt =====
-- The file that crates/blankres-report/src/report.rs names for a report is one that store.rs lists.
use blankres.Prelude.{
  map, min, ℕ, ◌+◌, ◌==◌, true, false, some, [], ◌∷◌, ◌++◌, count, ◌≤◌, ◌≡◌, ◌∙◌, refl, sym, ap,
  arith, inl, inr, Option-cases, Bool-cases, if◌then◌else◌,
}
use blankres.Report.Payload.{PendingUpload, file_name, file_name_with, get_or_zero}
use blankres.Session.Store.{is_report}
use blankres.Text.{Text, codes, text_eq, after_last, drop_while}
use blankres.Text.Bytes.{byte_len, slice_to}
use blankres.Text.Numbers.{to_decimal}
use blankres.Text.Equality.{text_eq_iff, text_eq_refl}

after_last-skip :
    (sep : ℕ) (s t : Text) {e : Text} → after_last sep t ≡ some e → after_last sep (s ++ t) ≡ some e
unfolding after_last
after_last-skip sep [] t h = h
after_last-skip sep (c ∷ s) t h = rw (after_last-skip sep s t h) refl

abbrev dots : Text → ℕ
dots = count (λ c. c == b'.')

dots-append : (s t : Text) → dots (s ++ t) ≡ dots s + dots t
unfolding count
dots-append [] t = omega arith
dots-append (c ∷ s) t = omega (arith, dots-append s t)

report_extension : after_last b'.' (codes ".report") ≡ some (codes "report")
unfolding after_last
report_extension = refl

abbrev full_name : Text → Text → Text → Text
full_name exe uid short = exe ++ (codes "." ++ (uid ++ (codes "." ++ (short ++ codes ".report"))))

full_name-dots : (exe uid short : Text) → 3 ≤ dots (full_name exe uid short)
unfolding count
full_name-dots exe uid short = omega (
  arith,
  dots-append exe (codes "." ++ (uid ++ (codes "." ++ (short ++ codes ".report")))),
  dots-append uid (codes "." ++ (short ++ codes ".report")),
  dots-append short (codes ".report"),
)

bare_extension-dots : dots (codes ".report") ≡ 1
unfolding count
bare_extension-dots = refl

full_name-ne : (exe uid short : Text) → text_eq (full_name exe uid short) (codes ".report") ≡ false
full_name-ne exe uid short =
    elim (Bool-cases (text_eq (full_name exe uid short) (codes ".report"))) [
      | inr other ↦ other
      | inl same ↦
          let equal = ap dots ((text_eq_iff (full_name exe uid short) (codes ".report")).0 same) in
          absurd (omega (arith, full_name-dots exe uid short, equal, bare_extension-dots))
    ]

-- The name of a report's file is one that `list` reads.
full_name-is_report : (exe uid short : Text) → is_report (full_name exe uid short) ≡ true
unfolding is_report
full_name-is_report exe uid short =
    let last = codes ".report" in
    let cut = codes "." ++ (short ++ last) in
    let owned = codes "." ++ (uid ++ cut) in
    let extension : after_last b'.' (full_name exe uid short) ≡ some (codes "report") =
      after_last-skip b'.' exe owned (
        after_last-skip b'.' (codes ".") (uid ++ cut) (
          after_last-skip b'.' uid cut (
            after_last-skip b'.' (codes ".") (short ++ last)
              (after_last-skip b'.' short last report_extension)))) in
    rw (extension, full_name-ne exe uid short, text_eq_refl (codes "report")) refl

pub file_name-is_report :
    (p : PendingUpload) {name : Text} → file_name p ≡ some name → is_report name ≡ true
unfolding file_name
file_name-is_report p {name = name} e =
    let exe =
      map (λ c. if c == b'/' then b'_' else c)
        (drop_while (λ c. c == b'/') p.report.event.executable) in
    let hash = p.report.event.signature.hash in
    let uid = to_decimal (get_or_zero p.report.uid) in
    elim (Option-cases (slice_to (min 12 (byte_len hash)) hash)) [
      | inl panics ↦ absurd (ground (arith, e, panics))
      | inr (short, cut) ↦
          let named : some (full_name exe uid short) ≡ some name =
            ap (λ x. file_name_with exe (get_or_zero p.report.uid) x) (sym cut) ∙ e in
          let same : full_name exe uid short ≡ name = cc named in
          rw (sym same) (full_name-is_report exe uid short)
    ]
