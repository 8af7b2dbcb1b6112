-- ===== src/Daemon/State/Signatures.antt =====
-- The counts and the declined problems of crates/blankres-daemon/src/state.rs.
use blankres.Prelude.{ℕ, ◌+◌, ◌%◌, ◌^◌, true, ◌||◌, ◌≡◌, arith, if◌then◌else◌}
use blankres.Daemon.State.{
  State, SignatureState, signature_or_default, note_signature, is_declined, decline, salt,
}
use blankres.Text.{Text, text_eq}
use blankres.Text.Equality.{text_eq_iff, text_eq_refl}
use blankres.TextMap.{lookup}
use blankres.TextMap.Laws.{lookup-insert}

abbrev pub count_of : State → Text → ℕ
count_of s hash = (signature_or_default (lookup hash s.signatures)).count

-- Noting a crash counts it for its signature alone, modulo 2^32, returns that count, and declines
-- nothing; declining marks exactly its signature and changes no count. A second salt is the first.
signature_operations :
    (s : State) (h k fresh later : Text)
    → ((note_signature s h).0 ≡ count_of (note_signature s h).1 h)
      × (count_of (note_signature s h).1 k
          ≡ (if text_eq h k then (count_of s h + 1) % 2 ^ 32 else count_of s k))
      × (is_declined (note_signature s h).1 k ≡ is_declined s k)
      × (is_declined (decline s h) k ≡ (text_eq h k || is_declined s k))
      × (count_of (decline s h) k ≡ count_of s k)
      × (salt (salt s fresh).1 later ≡ salt s fresh)
unfolding note_signature is_declined decline salt
signature_operations s h k fresh later =
    let noted : SignatureState = record (signature_or_default (lookup h s.signatures)) {
      count = (count_of s h + 1) % 2 ^ 32;
    } in
    let marked : SignatureState = record (signature_or_default (lookup h s.signatures)) {
      declined = true;
    } in
    (
      ground (arith, lookup-insert h h noted s.signatures, text_eq_refl h),
      ground (arith, lookup-insert h k noted s.signatures, text_eq_iff h k),
      ground (arith, lookup-insert h k noted s.signatures, text_eq_iff h k),
      ground (arith, lookup-insert h k marked s.signatures, text_eq_iff h k),
      ground (arith, lookup-insert h k marked s.signatures, text_eq_iff h k),
      ground arith,
    )

pub count_of-note_signature :
    (s : State) (h : Text) → count_of (note_signature s h).1 h ≡ (count_of s h + 1) % 2 ^ 32
count_of-note_signature s h = ground (arith, signature_operations s h h h h, text_eq_refl h)
