-- ===== src/Collect/Stage2/TailBounds.antt =====
-- The end of a log that crates/blankres-collect/src/stage2.rs attaches: `tail`.
use blankres.Prelude.{
  ◌==◌, if◌then◌else◌, ℕ, zero, suc, ◌+◌, ◌-◌, ◌≤◌, none, some, [], ◌∷◌, ◌++◌, ◌≡◌, refl, arith,
  leb, ◌⊎◌, inl, inr, Option-cases, Bool-cases, ap,
}
use blankres.Collect.Stage2.{cut_up, tail}
use blankres.Collect.Stage2.Bounds.{char_len_bounds, byte_len-append}
use blankres.Text.{Text, codes}
use blankres.Text.Bytes.{char_len, byte_len, slice_from}

append_nil : (s : Text) → s ≡ s ++ []
append_nil [] = refl
append_nil (c ∷ s) = ap (λ t. c ∷ t) (append_nil s)

slice_from_zero : (s : Text) → slice_from 0 s ≡ some s
unfolding slice_from
slice_from_zero [] = refl
slice_from_zero (c ∷ s) = refl

-- A cut that succeeds is what follows a prefix of that many bytes.
slice_from-split :
    (n : ℕ) (s : Text) {q : Text}
    → slice_from n s ≡ some q
    → (p : Text) × (byte_len p ≡ n) × (s ≡ p ++ q)
unfolding slice_from byte_len
slice_from-split n [] h = ([], ground arith, ground arith)
slice_from-split n (c ∷ s) {q = q} h = elim (Option-cases (slice_from (n - char_len c) s)) [
  | inl stuck ↦ ([], ground (arith, stuck), ground (arith, stuck))
  | inr (r, e) ↦
      let (p, size, parts) = slice_from-split (n - char_len c) s e in
      (if n == 0 then [] else c ∷ p, ground (arith, e, size, parts), ground (arith, e, size, parts))
]

length_left : (n : ℕ) (s : Text) {q : Text} → slice_from n s ≡ some q → byte_len s ≡ n + byte_len q
length_left n s {q = q} h =
    let (p, size, parts) = slice_from-split n s h in
    ground (arith, size, parts, byte_len-append p q)

boundary_after :
    (n : ℕ) (s : Text)
    → n ≤ byte_len s
    → (k : ℕ) × (q : Text) × (k ≤ 3) × (slice_from (n + k) s ≡ some q)
unfolding byte_len slice_from
boundary_after n [] h = (0, [], omega arith, ground arith)
boundary_after n (c ∷ s) h = elim (Bool-cases (leb (char_len c) n)) [
  | inl fits ↦
      let (k, q, small, e) = boundary_after (n - char_len c) s (ground arith) in
      let (pos, _) = char_len_bounds c in
      let same : n + k - char_len c ≡ n - char_len c + k = ground arith in
      (k, q, small, ground (arith, e, same, pos))
  | inr inside ↦ elim (Bool-cases (n == 0)) [
    | inl start ↦ (0, c ∷ s, omega arith, ground arith)
    | inr later ↦
        let reached : n + (char_len c - n) ≡ char_len c = ground arith in
        (
          char_len c - n,
          s,
          ground (arith, char_len_bounds c),
          ground (arith, reached, slice_from_zero s, char_len_bounds c),
        )
  ]
]

cut_up_found :
    (left n : ℕ) (s : Text) {q : Text} → slice_from n s ≡ some q → cut_up (suc left) n s ≡ q
unfolding cut_up
cut_up_found left n s e = rw (e, cut_up)

cut_up_inside :
    (left n : ℕ) (s : Text) → slice_from n s ≡ none → cut_up (suc left) n s ≡ cut_up left (n + 1) s
unfolding cut_up
cut_up_inside left n s e = rw (e, cut_up)

cut_up-split :
    (left n : ℕ) (s : Text)
    → n + left ≡ byte_len s
    → (p : Text) × (byte_len (cut_up left n s) ≤ left) × (s ≡ p ++ cut_up left n s)
unfolding cut_up byte_len
cut_up-split zero n s h = (s, omega arith, append_nil s)
cut_up-split (suc left) n s h = elim (Option-cases (slice_from n s)) [
  | inl inside ↦
      let (p, size, parts) = cut_up-split left (n + 1) s (omega arith) in
      rw (cut_up_inside left n s inside) (p, omega arith, parts)
  | inr (q, e) ↦
      let (p, size, parts) = slice_from-split n s e in
      rw (cut_up_found left n s e) (p, omega (arith, length_left n s e), parts)
]

cut_up_ge :
    (left n m : ℕ) (s : Text) {q : Text}
    → n + left ≡ byte_len s
    → n ≤ m
    → slice_from m s ≡ some q
    → byte_len q ≤ byte_len (cut_up left n s)
cut_up_ge zero n m s h below e = omega (arith, length_left m s e)
cut_up_ge (suc left) n m s h below e = elim (Option-cases (slice_from n s)) [
  | inl inside ↦ rw (cut_up_inside left n s inside) (
      cut_up_ge left (n + 1) m s (omega arith)
        (ground (arith, inside, e, ap (λ k. slice_from k s), below)) e)
  | inr (r, f) ↦ rw (cut_up_found left n s f) (omega (arith, length_left n s f, length_left m s e))
]

-- A text within the limit is kept as it is. Of a longer one a suffix of whole characters is kept that is
-- at most `limit` bytes long and misses it by less than one character, behind a mark.
tail_bounds :
    (content : Text) (limit : ℕ)
    → ((byte_len content ≤ limit) × (tail content limit ≡ content))
      ⊎ ((dropped : Text) × (kept : Text) × (tail content limit ≡ codes "[truncated]\n" ++ kept)
          × (content ≡ dropped ++ kept)
          × (byte_len kept ≤ limit)
          × (limit ≤ byte_len kept + 3))
unfolding tail
tail_bounds content limit = elim (Bool-cases (leb (byte_len content) limit)) [
  | inl fits ↦ inl (ground arith, rw fits)
  | inr long ↦
      let start = byte_len content - limit in
      let whole : byte_len content - limit + limit ≡ byte_len content = ground arith in
      let (p, size, parts) = cut_up-split limit start content whole in
      let (k, q, small, e) = boundary_after start content (omega arith) in
      inr (
        p,
        cut_up limit start content,
        rw long,
        parts,
        size,
        omega (
          arith,
          cut_up_ge limit start (start + k) content whole (omega arith) e,
          length_left (start + k) content e,
          whole,
        ),
      )
]
