-- ===== src/Collect/System/MachineId.antt =====
-- What the machine's identifier of crates/blankres-collect/src/system.rs tells apart.
use blankres.Prelude.{[], ◌∷◌, ◌++◌, ◌≡◌, ap}
use blankres.Collect.System.{machine_input}
use blankres.Text.{Text, trim}
use blankres.Text.Bytes.{utf8}
use blankres.Text.Utf8.{IsNulFree, utf8_injective}

-- Two inputs of the hash of a machine's identifier that agree have the same salt and, but for white space
-- around it, the same identifier; neither holds a NUL.
pub machine_input_injective :
    (id id' salt salt' : Text)
    → IsNulFree salt
    → IsNulFree salt'
    → IsNulFree (trim id)
    → IsNulFree (trim id')
    → machine_input id (utf8 salt) ≡ machine_input id' (utf8 salt')
    → (salt ≡ salt') × (trim id ≡ trim id')
unfolding machine_input
machine_input_injective id id' salt salt' hs hs' hi hi' e =
    let (same_salt, rest) =
      utf8_injective salt salt' (utf8 (trim id)) (utf8 (trim id')) hs hs' (cc e) in
    let (same_id, end) =
      utf8_injective (trim id) (trim id') [] [] hi hi' (ap (λ x. x ++ 0 ∷ []) rest) in
    (same_salt, same_id)
