-- ===== src/Candidates.antt =====
-- adminos/domain/rules.py: the rules that a review has noticed, and their standing. The rows stand in
-- the order in which they were created; `digest` is `hashlib.sha256` of a payload's JSON text, and
-- `fresh` the identity that the database gives a row.
mod Match
mod Rows
mod Checks
mod Recording
pub mod RoundTrip
pub mod Equivalent
pub mod Active
pub mod Inert
pub mod Vetted
unfoldable pub use Match.*
unfoldable pub use Rows.*
unfoldable pub use Checks.*
unfoldable pub use Recording.*
use timmeny_admin_os.Common.{
  ℕ, suc, String, Bool, true, false, not, ◌&&◌, ◌||◌, Option, none, some, List, [], ◌∷◌, ◌++◌, ◌==◌,
  if◌then◌else◌, keep, elem, Json, str, obj, Members, end, member, get, Result, ok, raised, ◌>>=◌,
  ◌>>◌, refuse_if,
}
use timmeny_admin_os.Capabilities.{ActionKind, gmail_move, kind_eq, action_value, destination_param}
use timmeny_admin_os.Capabilities.Config.{CapabilityConfig, MatchRule, permits, may_execute}
use timmeny_admin_os.Actions.Approvals.{or_empty}

check_promotion : CapabilityConfig → ActionKind → RuleState → Result RuleRefused (Unit {0})
unfolding may_execute
check_promotion capability action automatable = do
  refuse_if (not capability.learning.allow_automatable_rules) acts_only_approved
  refuse_if (not (may_execute capability action)) (may_not_execute action)
check_promotion capability action _ = ok tt

-- The columns that a move to the state writes.
unfoldable pub moved : RuleState → String → Option String → ℕ → CandidateRule → CandidateRule
moved automatable actor reason now rule = record rule {
  automatable_at = some now;
  state = automatable;
}
moved confirmed actor reason now rule = record rule {
  confirmed_by = some actor;
  confirmed_at = some now;
  automatable_at = none;
  state = confirmed;
}
moved proposed actor reason now rule = record rule {
  proposed_by = some actor;
  proposed_at = some now;
  state = proposed;
}
moved retired actor reason now rule = record rule {
  retired_at = some now;
  retired_reason = reason;
  state = retired;
}
moved observed actor reason now rule = record rule { state = observed }

unfoldable pub check_transition :
    CapabilityConfig → CandidateRule → RuleState → Result RuleRefused (Unit {0})
unfolding may_become check_learning_allowed check_promotion
check_transition capability rule target = do
  refuse_if (not (may_become rule.state target)) cannot_become
  check_learning_allowed capability rule.action rule.action_params
  check_promotion capability rule.action target

unfoldable pub transition_rule :
    CapabilityConfig
    → CandidateRule
    → RuleState
    → String
    → Option String
    → ℕ
    → List CandidateRule
    → Result RuleRefused (CandidateRule × List CandidateRule)
unfolding check_transition moved save_rule
transition_rule capability rule target actor reason now rules = do
  check_transition capability rule target
  let after = moved target actor reason now rule in ok (after, save_rule after rules)

-- What an active rule of the capability contributes: nothing where it is no longer usable.
unfoldable pub as_learned : CapabilityConfig → CandidateRule → Result RuleRefused LearnedRule
unfolding load_match is_automatable may_execute
as_learned capability rule = do
  match ← load_match rule.match_conditions
  ok (record {
    id = rule.id;
    capability_key = rule.capability_key;
    match = match;
    action = rule.action;
    confidence = rule.confidence;
    rationale = rule.rationale;
    automatable =
        is_automatable rule.state
        && capability.learning.allow_automatable_rules
        && may_execute capability rule.action;
    params = or_empty rule.action_params;
  })

unfoldable pub usable : CapabilityConfig → CandidateRule → Bool
unfolding check_rule_usable
usable capability rule = elim (check_rule_usable capability rule.action rule.action_params) [
  | ok _ ↦ true
  | raised _ ↦ false
]

unfoldable pub learned_each :
    CapabilityConfig → List CandidateRule → Result RuleRefused (List LearnedRule)
unfolding usable as_learned
learned_each capability [] = ok []
learned_each capability (r ∷ rest) =
    let later = learned_each capability rest in
    if usable capability r
    then (as_learned capability r >>= λ learned. later >>= λ others. ok (learned ∷ others))
    else later

unfoldable pub read_active_rules :
    CapabilityConfig → List CandidateRule → Result RuleRefused (List LearnedRule)
unfolding is_active read_rules learned_each
read_active_rules capability rules =
    if capability.learning.allow_rule_learning
    then learned_each capability (keep (λ r. is_active r.state) (read_rules capability.key rules))
    else ok []
