-- ===== src/Examples/Runs.antt =====
-- One morning's review with one group, and a rule that a person confirmed.
use timmeny_admin_os.Common.{ℕ, Option, none, some, [], ◌∷◌, if◌then◌else◌}
use timmeny_admin_os.Capabilities.{gmail_archive}
use timmeny_admin_os.Capabilities.Config.{MatchRule}
use timmeny_admin_os.Plan.Begin.{Loaded}
use timmeny_admin_os.Candidates.{RuleState, CandidateRule, is_active, dump_match}
use timmeny_admin_os.Review.Rows.{RunState, GroupState, ReviewRun, ReviewGroup}
use timmeny_admin_os.Examples.Samples.{mail}

abbrev pub morning : ReviewRun
morning = record {
  id = "r1";
  review_date = 20;
  channel = "email";
  scope_name = "inbox";
  revision = 1;
  state = RunState.in_progress;
  config_version = "v1";
  config_digest = "d";
  started_at = 1;
  completed_at = none;
  abandoned_at = none;
  evidence_refresh_at = none;
  snapshot_at = some 1;
  supersedes_run_id = none;
}

abbrev pub group : ReviewGroup
group = record {
  id = "g1";
  run_id = "r1";
  capability_key = "mail";
  capability_name = "Mail";
  policy_version = "1";
  position = 1;
  state = GroupState.pending;
  started_at = none;
  completed_at = none;
}

abbrev pub one_capability : Loaded
one_capability = record {
  capabilities = mail ∷ [];
  version = "v1";
  digest = "d";
  channel = "email";
}

abbrev pub of_shop : MatchRule
of_shop = record {
  subject_contains = [];
  participant_domains = "shop.example" ∷ [];
  participants = [];
  older_than_days = some 3;
  newer_than_days = none;
}

abbrev pub archive_rule : RuleState → Option ℕ → CandidateRule
archive_rule state promoted = record {
  id = "c1";
  capability_key = "mail";
  state = state;
  match_conditions = dump_match of_shop;
  action = gmail_archive;
  action_params = none;
  rationale = "Offers";
  confidence = 95;
  observed_count = 1;
  source = "user";
  policy_version = "1";
  proposed_by = some "human";
  proposed_at = some 1;
  confirmed_by = if is_active state then some "ann" else none;
  confirmed_at = if is_active state then some 2 else none;
  automatable_at = promoted;
  retired_at = none;
  retired_reason = none;
}
