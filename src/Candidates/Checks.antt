-- ===== src/Candidates/Checks.antt =====
-- What a capability lets a rule do (adminos/domain/rules.py).
use timmeny_admin_os.Common.{
  String, Bool, false, not, ◌&&◌, Option, some, List, ◌==◌, keep, elem, Json, str, Members, get,
  Result, ◌>>◌, refuse_if,
}
use timmeny_admin_os.Capabilities.{ActionKind, gmail_move, kind_eq, destination_param}
use timmeny_admin_os.Capabilities.Config.{CapabilityConfig, permits}
use timmeny_admin_os.Actions.Approvals.{or_empty}
use timmeny_admin_os.Candidates.Match.{
  RuleRefused, learns_no_rules, not_a_destination, not_permitted,
}
use timmeny_admin_os.Candidates.Rows.{CandidateRule}

unfoldable pub is_destination : List String → Option Json → Bool
is_destination destinations (some (str d)) = elem d destinations
is_destination destinations _ = false

unfoldable pub check_rule_usable :
    CapabilityConfig → ActionKind → Option Members → Result RuleRefused (Unit {0})
unfolding is_destination kind_eq get permits
check_rule_usable capability action params = do
  refuse_if (not (permits capability action)) (not_permitted action)
  refuse_if
      (kind_eq action gmail_move
        && not (is_destination capability.destinations (get (or_empty params) destination_param)))
      not_a_destination

unfoldable pub check_learning_allowed :
    CapabilityConfig → ActionKind → Option Members → Result RuleRefused (Unit {0})
unfolding check_rule_usable
check_learning_allowed capability action params = do
  refuse_if (not capability.learning.allow_rule_learning) learns_no_rules
  check_rule_usable capability action params

unfoldable pub read_rules : String → List CandidateRule → List CandidateRule
read_rules capability_key rules = keep (λ r. r.capability_key == capability_key) rules
