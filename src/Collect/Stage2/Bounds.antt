-- ===== src/Collect/Stage2/Bounds.antt =====
-- The cuts of crates/blankres-collect/src/stage2.rs are bounded, and fall on character boundaries.
use blankres.Prelude.{
  ◌==◌, if◌then◌else◌, ℕ, zero, suc, ◌+◌, ◌-◌, ◌≤◌, none, some, [], ◌∷◌, ◌++◌, ◌≡◌, refl, arith,
  leb, ◌⊎◌, inl, inr, Option-cases, Bool-cases, ap,
}
use blankres.Collect.Stage2.{cut_down, truncate}
use blankres.Text.{Text, codes}
use blankres.Text.Bytes.{char_len, byte_len, slice_to}

pub byte_len-append : (s t : Text) → byte_len (s ++ t) ≡ byte_len s + byte_len t
unfolding byte_len
byte_len-append [] t = omega arith
byte_len-append (c ∷ s) t = omega (arith, byte_len-append s t)

pub char_len_bounds : (c : ℕ) → (1 ≤ char_len c) × (char_len c ≤ 4)
unfolding char_len
char_len_bounds c = ground arith

-- A cut that succeeds is a prefix of that many bytes.
slice_to-split :
    (n : ℕ) (s : Text) {p : Text}
    → slice_to n s ≡ some p
    → (rest : Text) × (byte_len p ≡ n) × (s ≡ p ++ rest)
unfolding slice_to byte_len
slice_to-split n [] h = ([], ground arith, ground arith)
slice_to-split n (c ∷ s) {p = p} h = elim (Option-cases (slice_to (n - char_len c) s)) [
  | inl stuck ↦ (c ∷ s, ground (arith, stuck), ground (arith, stuck))
  | inr (q, e) ↦
      let (rest, size, parts) = slice_to-split (n - char_len c) s e in
      (
        if n == 0 then c ∷ s else rest,
        ground (arith, e, size, parts),
        ground (arith, e, size, parts),
      )
]

cut_down_found :
    (n : ℕ) (s : Text) {p : Text} → slice_to (suc n) s ≡ some p → cut_down (suc n) s ≡ p
unfolding cut_down
cut_down_found n s e = rw (e, cut_down)

cut_down_inside : (n : ℕ) (s : Text) → slice_to (suc n) s ≡ none → cut_down (suc n) s ≡ cut_down n s
unfolding cut_down
cut_down_inside n s e = rw (e, cut_down)

cut_down-split :
    (n : ℕ) (s : Text) → (rest : Text) × (byte_len (cut_down n s) ≤ n) × (s ≡ cut_down n s ++ rest)
unfolding cut_down byte_len
cut_down-split zero s = (s, omega arith, refl)
cut_down-split (suc n) s = elim (Option-cases (slice_to (suc n) s)) [
  | inl inside ↦
      let (rest, size, parts) = cut_down-split n s in
      rw (cut_down_inside n s inside) (rest, omega arith, parts)
  | inr (p, e) ↦
      let (rest, size, parts) = slice_to-split (suc n) s e in
      rw (cut_down_found n s e) (rest, omega arith, parts)
]

-- One of four neighbouring positions is a character boundary.
boundary_near :
    (n : ℕ) (s : Text)
    → n ≤ byte_len s
    → (k : ℕ) × (p : Text) × (k ≤ 3) × (k ≤ n) × (slice_to (n - k) s ≡ some p)
unfolding byte_len slice_to
boundary_near n [] h = (0, [], omega arith, omega arith, ground arith)
boundary_near n (c ∷ s) h = elim (Bool-cases (leb (char_len c) n)) [
  | inl fits ↦
      let (k, p, small, below, e) = boundary_near (n - char_len c) s (ground arith) in
      let (pos, _) = char_len_bounds c in
      let same : n - k - char_len c ≡ n - char_len c - k = omega arith in
      (k, c ∷ p, small, omega arith, ground (arith, e, same, pos, below))
  | inr inside ↦ (n, [], ground (arith, char_len_bounds c), omega arith, ground arith)
]

cut_down_ge :
    (m n : ℕ) (s : Text) {p : Text} → m ≤ n → slice_to m s ≡ some p → m ≤ byte_len (cut_down n s)
unfolding cut_down
cut_down_ge m zero s h e = omega arith
cut_down_ge m (suc n) s {p = p} h e = elim (Option-cases (slice_to (suc n) s)) [
  | inl inside ↦
      rw (cut_down_inside n s inside)
        (cut_down_ge m n s (ground (arith, inside, e, ap (λ k. slice_to k s), h)) e)
  | inr (q, f) ↦
      let (rest, size, parts) = slice_to-split (suc n) s f in
      rw (cut_down_found n s f) (omega arith)
]

-- A text within the limit is kept as it is. A longer one is cut to a prefix of whole characters that
-- is at most `limit` bytes long and misses it by less than one character, and marked.
truncate_bounds :
    (content : Text) (limit : ℕ)
    → ((byte_len content ≤ limit) × (truncate content limit ≡ content))
      ⊎ ((kept : Text) × (rest : Text) × (truncate content limit ≡ kept ++ codes "\n[truncated]")
          × (content ≡ kept ++ rest)
          × (byte_len kept ≤ limit)
          × (limit ≤ byte_len kept + 3))
unfolding truncate
truncate_bounds content limit = elim (Bool-cases (leb (byte_len content) limit)) [
  | inl fits ↦ inl (ground arith, rw fits)
  | inr long ↦
      let (rest, size, parts) = cut_down-split limit content in
      let (k, p, small, below, e) = boundary_near limit content (ground arith) in
      inr (
        cut_down limit content,
        rest,
        rw long,
        parts,
        size,
        omega (arith, cut_down_ge (limit - k) limit content (omega arith) e),
      )
]
