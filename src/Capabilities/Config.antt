-- ===== src/Capabilities/Config.antt =====
-- `CapabilityConfig` of adminos/capabilities/config.py with the parts that grant something: where it
-- files mail, its playbook, its recommendation policy, its approval, execution and learning rules,
-- and the validators. `upper` is `str.upper`.
pub mod Grants
use timmeny_admin_os.Common.{
  ℕ, String, Bool, true, false, not, ◌&&◌, ◌||◌, Option, none, some, List, [], ◌∷◌, ◌==◌, all, any,
  leb, elem, keep, map, sort_by, is_empty, is_none, is_set, if◌then◌else◌, Result, ok, raised,
  ◌>>=◌, ◌>>◌, refuse_if,
}
use timmeny_admin_os.Capabilities.Granted.{
  ActionKind, gmail_move, gmail_send_draft, gmail_draft_reply, kind_eq, action_kind,
  is_recommendation, PlaybookStep, step_eq,
}

-- What the validators' `ValueError`s say, without the wording.
pub data ConfigProblem : Type 0 where
  reserved_destination : String → ConfigProblem
  not_recommendable : String → ConfigProblem
  move_without_folder : String → ConfigProblem
  folder_without_move : String → ConfigProblem
  rule_not_allowed : String → ConfigProblem
  default_is_action : String → ConfigProblem
  auto_approve_not_allowed : ActionKind → ConfigProblem
  execute_not_allowed : ActionKind → ConfigProblem
  no_destinations : ConfigProblem
  unknown_destination : String → String → ConfigProblem
  send_without_draft : ConfigProblem
  automatable_without_learning : ConfigProblem

-- A truthy optional text: `if value:`.
abbrev pub truthy : Option String → Bool
truthy none = false
truthy (some s) = is_set s

pub record Playbook : Type 0 where
  pub id : String
  pub steps : List PlaybookStep

unfoldable pub allows : Playbook → PlaybookStep → Bool
unfolding step_eq
allows p step = any (step_eq step) p.steps

pub record MatchRule : Type 0 where
  pub subject_contains : List String
  pub participant_domains : List String
  pub participants : List String
  pub older_than_days : Option ℕ
  pub newer_than_days : Option ℕ

-- A confidence is a percentage.
pub record RecommendationRule : Type 0 where
  pub id : String
  pub when : MatchRule
  pub recommend : String
  pub move_to : Option String
  pub confidence : ℕ
  pub rationale : String
  pub aligns_with : List String

pub record RecommendationPolicy : Type 0 where
  pub version : String
  pub default : String
  pub categories : List String
  pub rules : List RecommendationRule
  pub allow_ai_recommendation : Bool
  pub min_ai_confidence : ℕ

pub record ApprovalRules : Type 0 where
  pub auto_approve : List ActionKind
  pub min_confidence_for_auto : ℕ
  pub allow_bulk_decisions : Bool

pub record ExecutionRules : Type 0 where
  pub permitted_actions : List ActionKind
  pub require_verification : Bool

pub record CompletionRules : Type 0 where
  pub require_all_items_decided : Bool
  pub require_executed_actions : Bool

-- `Literal["capability", "global", "none"]`.
pub data LearningScope : Type 0 where
  capability global no_learning : LearningScope

pub record LearningRules : Type 0 where
  pub scope : LearningScope
  pub record_decisions : Bool
  pub allow_rule_learning : Bool
  pub allow_automatable_rules : Bool

pub record ObjectiveRules : Type 0 where
  pub default_keys : List String
  pub require_alignment : Bool

pub data Mailbox : Type 0 where
  inbox archive snoozed anywhere : Mailbox

pub record CapabilityConfig : Type 0 where
  pub key : String
  pub name : String
  pub enabled : Bool
  pub position : ℕ
  pub mailbox : Mailbox
  pub destinations : List String
  pub playbook : Playbook
  pub recommendation_policy : RecommendationPolicy
  pub allowed_actions : List ActionKind
  pub approval : ApprovalRules
  pub execution : ExecutionRules
  pub completion : CompletionRules
  pub learning : LearningRules
  pub objectives : ObjectiveRules

-- `action in actions`.
abbrev pub has_action : ActionKind → List ActionKind → Bool
has_action k ks = any (kind_eq k) ks

unfoldable pub permits : CapabilityConfig → ActionKind → Bool
unfolding kind_eq
permits c action = has_action action c.allowed_actions

unfoldable pub may_execute : CapabilityConfig → ActionKind → Bool
unfolding kind_eq
may_execute c action = has_action action c.execution.permitted_actions

unfoldable pub auto_approves : CapabilityConfig → ActionKind → ℕ → Bool
unfolding kind_eq
auto_approves c action confidence =
    has_action action c.approval.auto_approve && leb c.approval.min_confidence_for_auto confidence

-- Gmail's own labels, `RESERVED_LABELS`.
abbrev pub reserved_labels : List String
reserved_labels =
    "INBOX" ∷ "TRASH" ∷ "SPAM" ∷ "SENT" ∷ "DRAFT" ∷ "STARRED" ∷ "UNREAD" ∷ "IMPORTANT" ∷ "CHAT" ∷ []

-- `GmailScope.check_destinations`.
unfoldable pub check_destinations :
    (String → String) → List String → Result ConfigProblem (Unit {0})
check_destinations upper [] = ok tt
check_destinations upper (d ∷ ds) =
    refuse_if (elem (upper d) reserved_labels) (reserved_destination d)
    >> check_destinations upper ds

-- `RecommendationRule.check_recommendation`.
recommends_move : String → Bool
unfolding kind_eq action_kind
recommends_move value = elim (action_kind value) [ none ↦ false | some k ↦ kind_eq gmail_move k ]

unfoldable pub check_recommendation : RecommendationRule → Result ConfigProblem (Unit {0})
unfolding recommends_move
check_recommendation r = do
  refuse_if (is_none (action_kind r.recommend) && not (is_recommendation r.recommend))
      (not_recommendable r.recommend)
  refuse_if (recommends_move r.recommend && not (truthy r.move_to)) (move_without_folder r.id)
  refuse_if (truthy r.move_to && not (recommends_move r.recommend)) (folder_without_move r.id)

-- The loops of `check_permissions_cover_every_action`, one for each thing that they walk.
recommend_allowed : List ActionKind → Option ActionKind → Bool
unfolding kind_eq
recommend_allowed allowed none = true
recommend_allowed allowed (some k) = has_action k allowed

check_rules_allowed : List ActionKind → List RecommendationRule → Result ConfigProblem (Unit {0})
unfolding recommend_allowed
check_rules_allowed allowed [] = ok tt
check_rules_allowed allowed (r ∷ rs) =
    refuse_if (not (recommend_allowed allowed (action_kind r.recommend))) (rule_not_allowed r.id)
    >> check_rules_allowed allowed rs

check_covered :
    (ActionKind → ConfigProblem)
    → List ActionKind
    → List ActionKind
    → Result ConfigProblem (Unit {0})
unfolding kind_eq
check_covered problem allowed [] = ok tt
check_covered problem allowed (k ∷ ks) =
    refuse_if (not (has_action k allowed)) (problem k) >> check_covered problem allowed ks

known_folder : List String → Option String → Bool
known_folder destinations none = true
known_folder destinations (some d) = if is_set d then elem d destinations else true

check_folders : List String → List RecommendationRule → Result ConfigProblem (Unit {0})
unfolding known_folder
check_folders destinations [] = ok tt
check_folders destinations (r ∷ rs) =
    refuse_if (not (known_folder destinations r.move_to)) (unknown_destination r.id r.recommend)
    >> check_folders destinations rs

-- `CapabilityConfig.check_permissions_cover_every_action`.
unfoldable pub check_permissions : CapabilityConfig → Result ConfigProblem (Unit {0})
unfolding check_rules_allowed check_covered check_folders permits may_execute
check_permissions c = do
  check_rules_allowed c.allowed_actions c.recommendation_policy.rules
  refuse_if (not (is_none (action_kind c.recommendation_policy.default)))
      (default_is_action c.recommendation_policy.default)
  check_covered auto_approve_not_allowed c.allowed_actions c.approval.auto_approve
  check_covered execute_not_allowed c.allowed_actions c.execution.permitted_actions
  refuse_if (permits c gmail_move && is_empty c.destinations) no_destinations
  check_folders c.destinations c.recommendation_policy.rules
  refuse_if (may_execute c gmail_send_draft && not (may_execute c gmail_draft_reply))
      send_without_draft
  refuse_if (c.learning.allow_automatable_rules && not c.learning.allow_rule_learning)
      automatable_without_learning

-- `LoadedCapabilities.enabled` and `.get`, of the capabilities of a parsed configuration; `none` is
-- `UnknownCapability`.
unfoldable pub enabled : List CapabilityConfig → List CapabilityConfig
enabled loaded = sort_by (λ c. c.position) (keep (λ c. c.enabled) loaded)

unfoldable pub enabled_keys : List CapabilityConfig → List String
unfolding enabled
enabled_keys loaded = map (λ c. c.key) (enabled loaded)

unfoldable pub find_capability : String → List CapabilityConfig → Option CapabilityConfig
find_capability key [] = none
find_capability key (c ∷ cs) = if c.key == key then some c else find_capability key cs
