-- ===== src/Actions/Executors/Results.antt =====
-- `ExecutionOutcome` and `VerificationOutcome` of adminos/domain/actions.py.
use timmeny_admin_os.Common.{
  String, Bool, true, false, Option, none, some, Json, null, str, arr, Members, end, member,
  entries,
}
use timmeny_admin_os.Actions.Rows.{ReviewAction, ReviewItem}
use timmeny_admin_os.Actions.Mail.{GmailThread}

pub record ExecutionOutcome : Type 0 where
  pub external_kind : String
  pub external_ref : Option String
  pub detail : Members
  pub already_applied : Bool
  pub adopted : Bool

pub record VerificationOutcome : Type 0 where
  pub verified : Bool
  pub detail : Members

-- `action.prepared_params or {}`.
abbrev pub plan : ReviewAction → Members
plan action = elim action.prepared_params [ none ↦ end | some p ↦ p ]

abbrev pub labels_of : GmailThread → Json
labels_of thread = arr (entries thread.label_ids)

abbrev pub wrote : ReviewItem → Members → ExecutionOutcome
wrote item detail = record {
  external_kind = "gmail_thread";
  external_ref = some item.source_thread_id;
  detail = detail;
  already_applied = false;
  adopted = false;
}

abbrev pub found_done : ReviewItem → GmailThread → String → ExecutionOutcome
found_done item thread already = record {
  external_kind = "gmail_thread";
  external_ref = some item.source_thread_id;
  detail = member "labels" (labels_of thread) (member "already" (str already) end);
  already_applied = true;
  adopted = false;
}

abbrev pub shown : Bool → GmailThread → VerificationOutcome
shown verified thread = record {
  verified = verified;
  detail = member "labels" (labels_of thread) end;
}

abbrev pub optional : Option String → Json
optional none = null
optional (some s) = str s
