-- ===== src/Tests/Collect.antt =====
-- crates/blankres-collect at concrete inputs.
use blankres.Prelude.{◌+◌, ◌≤◌, [], ◌∷◌, ◌≡◌, refl, arith, one_if}
use blankres.Collect.Budget.{Exhausted, Budget, IsValid, charge_all, charge_all_bounds}
use blankres.Collect.Interfaces.{IoResult, Filesystem}
use blankres.Collect.Record.{CoredumpRecord, core_path, proc_maps, proc_status}
use blankres.Collect.Stage2.{collect_sections}
use blankres.Collect.Stage2.Sections.{mentions, sections_accounted}
use blankres.Report.Event.{is_some}
use blankres.Text.{Text, codes}

abbrev budget : Budget
budget = record { started = 0; time_allowed = 50; bytes_allowed = 10; bytes_used = 4 }

budget-IsValid : IsValid budget
budget-IsValid = record { within = omega arith; fits = ground arith }

charge_all_bounds_example :
    ((charge_all budget ((1, 5) ∷ (2, 3) ∷ [])).1.bytes_used
      ≡ 4 + (charge_all budget ((1, 5) ∷ (2, 3) ∷ [])).0)
    × ((charge_all budget ((1, 5) ∷ (2, 3) ∷ [])).1.bytes_used ≤ 10)
    × ((charge_all budget ((1, 5) ∷ (2, 3) ∷ [])).1.bytes_allowed ≡ 10)
charge_all_bounds_example = charge_all_bounds budget ((1, 5) ∷ (2, 3) ∷ []) budget-IsValid refl

abbrev files : Filesystem
files = record {
  read_to_string = λ path. IoResult.err (codes "absent");
  metadata_len = λ path. IoResult.ok 3;
  list_dir = λ path. IoResult.err [];
  modified_secs = λ path. IoResult.err [];
  read_bytes = λ path. IoResult.err [];
}

abbrev coredump : CoredumpRecord
coredump = record {
  fields = (codes "FILENAME", codes "/var/core") ∷ (codes "PROC_MAPS", codes "7f00") ∷ [];
  message = [];
  timestamp = 1000;
  cursor = codes "c";
}

abbrev reason : Exhausted → Text
reason e = codes "exhausted"

sections_accounted_example :
    (mentions (codes "core-dump") (collect_sections reason files coredump 1 budget)
      ≡ one_if (is_some (core_path coredump)))
    × (mentions (codes "proc-maps") (collect_sections reason files coredump 1 budget)
        ≡ one_if (is_some (proc_maps coredump)))
    × (mentions (codes "proc-status") (collect_sections reason files coredump 1 budget)
        ≡ one_if (is_some (proc_status coredump)))
sections_accounted_example = sections_accounted reason files coredump 1 budget
