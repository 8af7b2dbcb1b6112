-- ===== src/Collect/System.antt =====
-- crates/blankres-collect/src/system.rs: who the machine is. The architecture is that of the build; SHA-256
-- with its hexadecimal print is a parameter of what hashes.
pub mod MachineId
use blankres.Prelude.{◌==◌, Option, none, some, List, [], ◌∷◌, ◌++◌, if◌then◌else◌}
use blankres.Collect.Interfaces.{IoResult, Filesystem}
use blankres.Report.Event.{SystemInfo}
use blankres.Text.{Text, codes, text_eq, split_once, trim, drop_while, drop_while_end, lines}
use blankres.Text.Bytes.{Bytes, utf8}

abbrev pub os_release_path : Text
os_release_path = codes "/etc/os-release"

abbrev pub machine_id_path : Text
machine_id_path = codes "/etc/machine-id"

-- `trim_matches('"')`
unfoldable pub trim_quotes : Text → Text
unfolding drop_while drop_while_end
trim_quotes s = drop_while_end (λ c. c == b'"') (drop_while (λ c. c == b'"') s)

abbrev pub or_unknown : Option Text → Text
or_unknown none = codes "unknown"
or_unknown (some t) = t

-- `name` and `version` behind one line of the file.
abbrev pub release_field :
    Option Text × Option Text → Option (Text × Text) → Option Text × Option Text
release_field (name, version) none = (name, version)
release_field (name, version) (some (key, value)) =
    let plain = trim_quotes (trim value) in
    if text_eq (trim key) (codes "NAME")
    then (some plain, version)
    else if text_eq (trim key) (codes "VERSION_ID")
    then (name, some plain)
    else (name, version)

unfoldable pub release_fields : Option Text × Option Text → List Text → Option Text × Option Text
unfolding split_once trim trim_quotes text_eq
release_fields found [] = found
release_fields found (line ∷ rest) =
    release_fields (release_field found (split_once b'=' line)) rest

abbrev pub release_of : IoResult Text → Text × Text
release_of (IoResult.err e) = (codes "unknown", codes "unknown")
release_of (IoResult.ok content) =
    let (name, version) = release_fields (none, none) (lines content) in
    (or_unknown name, or_unknown version)

unfoldable pub os_release : Filesystem → Text → Text × Text
unfolding release_fields lines
os_release fs path = release_of (fs.read_to_string path)

unfoldable pub system_info : Filesystem → Text → Text → SystemInfo
unfolding os_release
system_info fs architecture kernel_version =
    let (distro, distro_version) = os_release fs os_release_path in
    record {
      distro = distro;
      distro_version = distro_version;
      architecture = architecture;
      kernel_version = kernel_version;
    }

-- All that `pseudonymous_machine_id` hands to the hasher, in order.
unfoldable pub machine_input : Text → Bytes → Bytes
unfolding trim utf8
machine_input machine_id salt =
    codes "blankres-machine-v1" ++ (0 ∷ (salt ++ (0 ∷ utf8 (trim machine_id))))

abbrev text_or_unknown : IoResult Text → Text
text_or_unknown (IoResult.ok t) = t
text_or_unknown (IoResult.err e) = codes "unknown"

module _ (sha256_hex : Bytes → Text) where
  unfoldable pub pseudonymous_machine_id : Text → Bytes → Text
  unfolding machine_input
  pseudonymous_machine_id machine_id salt = sha256_hex (machine_input machine_id salt)

  unfoldable pub read_machine_id : Filesystem → Bytes → Text
  unfolding pseudonymous_machine_id
  read_machine_id fs salt =
      pseudonymous_machine_id (text_or_unknown (fs.read_to_string machine_id_path)) salt
