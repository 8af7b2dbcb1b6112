-- ===== src/Tests/Data.antt =====
-- A crash, a report and a configuration, for the examples.
use blankres.Prelude.{ℕ, true, false, none, some, [], ◌∷◌}
use blankres.Report.Event.{
  CrashEvent, precise, PayloadDirective, SystemInfo, no_package, native_crash,
}
use blankres.Report.Payload.{Attachment, file, Report}
use blankres.Server.Config.{Config}
use blankres.Server.Db.{Db, SignatureRow, TokenRow}
use blankres.Text.{Text, codes}
use blankres.Text.Bytes.{Bytes}

-- A stand-in for the hasher.
abbrev pub digest : Bytes → Text
digest bytes = bytes

abbrev pub shown : ℕ → Text
shown id = id ∷ []

abbrev pub hash_a : Text
hash_a = codes "aa"

abbrev pub system : SystemInfo
system = record {
  distro = codes "blankon";
  distro_version = codes "12";
  architecture = codes "amd64";
  kernel_version = codes "6.1";
}

abbrev pub crash : CrashEvent
crash = record {
  schema = 1;
  signature = record { hash = hash_a; precision = precise; frames = codes "main" ∷ [] };
  kind = native_crash;
  timestamp = 1000;
  executable = codes "/usr/bin/cat";
  signal = some 11;
  signal_name = none;
  package_info = no_package;
  system = system;
  machine_id = codes "m";
  crash_count = 1;
  client_version = codes "0.1";
  core_available = true;
  core_size = some 3;
}

abbrev pub directive : PayloadDirective
directive = record {
  id = codes "7";
  need_payload = true;
  upload_token = some (codes "t");
  max_bytes = some 100;
  expires_at = some 5000;
}

abbrev pub core_file : Attachment
core_file = file (codes "core-dump") (codes "/var/core") 3 none

abbrev pub crash_report : Report
crash_report = record {
  event = crash;
  directive_id = codes "7";
  command_line = codes "cat" ∷ [];
  environment = [];
  environment_withheld = 0;
  uid = some 1000;
  stack_trace = [];
  modified_files = [];
  attachments = core_file ∷ [];
  skipped = [];
}

abbrev pub server_config : Config
server_config = record {
  token_hashes = [];
  payloads_per_signature = 1;
  max_payload_bytes = 100;
  upload_token_ttl_secs = 60;
  public_url = none;
}

abbrev pub row_a : SignatureRow
row_a = record {
  hash = hash_a;
  precision = precise;
  events = 1;
  payloads = 0;
  suppressed = false;
  executable = codes "/usr/bin/cat";
  package_name = none;
  frames = codes "main" ∷ [];
}

abbrev pub token_t : TokenRow
token_t = record {
  token_hash = codes "t";
  event_id = 7;
  signature = hash_a;
  max_bytes = 100;
  expires_at = 50;
  redeemed_at = none;
}

-- One event, with one token issued for its payload.
abbrev pub one_token : Db ℕ
one_token = record {
  signatures = row_a ∷ [];
  events = record { id = 7; event = crash; payload_wanted = true } ∷ [];
  upload_tokens = token_t ∷ [];
  reports = [];
}
