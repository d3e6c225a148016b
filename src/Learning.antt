-- ===== src/Learning.antt =====
-- adminos/domain/learning.py: what a decision taught, and the rule that it might imply. `digest` and
-- `fresh` are those of the rules' table, and `event_id` the identity that the database gives an event.
use timmeny_admin_os.Common.{
  ℕ, String, Bool, true, false, not, ◌&&◌, ◌||◌, Option, none, some, List, [], ◌∷◌, ◌++◌, ◌<>◌,
  if◌then◌else◌, is_set, is_empty, is_none, elem, after_first, Json, null, str, arr, entries,
  Members, end, member, get, Result, ok, raised,
}
use timmeny_admin_os.Capabilities.{
  ActionKind, gmail_move, kind_eq, action_kind, action_value, destination_param,
}
use timmeny_admin_os.Capabilities.Config.{CapabilityConfig, no_learning, MatchRule}
use timmeny_admin_os.Actions.Rows.{
  ReviewItem, ReviewDecision, DecisionKind, approve, dismiss, defer,
}
use timmeny_admin_os.Actions.Approvals.{or_empty}
use timmeny_admin_os.Candidates.{observed, CandidateRule, RuleRefused, record_rule}

pub data LearningKind : Type 0 where
  override dismissed_recommendation deferred_recommendation confirmed_recommendation : LearningKind

pub record LearningEvent : Type 0 where
  pub id : String
  pub capability_key : String
  pub run_id : String
  pub item_id : String
  pub decision_id : String
  pub kind : LearningKind
  pub recommended : String
  pub chosen : String
  pub recommendation_source : String
  pub policy_version : String
  pub rule_id : Option String
  pub model_version : Option String
  pub signals : Members
  pub note : Option String
  pub candidate_rule_id : Option String

pub record Lessons : Type 0 where
  pub events : List LearningEvent
  pub rules : List CandidateRule

-- `kind in CORRECTIONS`.
unfoldable pub is_correction : LearningKind → Bool
is_correction confirmed_recommendation = false
is_correction _ = true

-- `decision.recommendation in ACTION_VALUES`.
unfoldable pub proposes_action : String → Bool
unfolding action_kind
proposes_action recommendation = not (is_none (action_kind recommendation))

classified : DecisionKind → Bool → LearningKind
classified DecisionKind.override proposes = LearningKind.override
classified defer proposes = deferred_recommendation
classified dismiss true = dismissed_recommendation
classified dismiss false = confirmed_recommendation
classified approve proposes = confirmed_recommendation

unfoldable pub classify_decision : ReviewDecision → LearningKind
unfolding classified proposes_action
classify_decision decision = classified decision.decision (proposes_action decision.recommendation)

-- `decision.decision`, its value.
unfoldable pub decision_value : DecisionKind → String
decision_value approve = "approve"
decision_value DecisionKind.override = "override"
decision_value dismiss = "dismiss"
decision_value defer = "defer"

abbrev at_sign : ℕ
at_sign = 64

unfoldable pub read_participants : ReviewItem → List String
read_participants item = elim item.participants [ none ↦ [] | some people ↦ people ]

-- A domain that was found and is set joins those before it, once.
add_domain : Option String → List String → List String
add_domain none domains = domains
add_domain (some domain) domains =
    if is_set domain && not (elem domain domains) then domains ++ domain ∷ [] else domains

domains_of : List String → List String → List String
unfolding add_domain
domains_of [] domains = domains
domains_of (address ∷ rest) domains =
    domains_of rest (add_domain (after_first at_sign address) domains)

unfoldable pub read_domains : ReviewItem → List String
unfolding domains_of read_participants
read_domains item = domains_of (read_participants item) []

unfoldable pub derive_signals : ReviewItem → Members
unfolding read_participants read_domains
derive_signals item =
    member "subject" (elim item.subject [ none ↦ null | some s ↦ str s ])
      (member "participants" (arr (entries (read_participants item))) (
        member "participant_domains" (arr (entries (read_domains item)))
          (member "recommendation_source" (str item.recommendation_source) end)))

domains_only : List String → MatchRule
domains_only domains = record {
  subject_contains = [];
  participant_domains = domains;
  participants = [];
  older_than_days = none;
  newer_than_days = none;
}

unfoldable pub signals_to_match : ReviewItem → Option MatchRule
unfolding read_domains domains_only
signals_to_match item =
    if is_empty (read_domains item) then none else some (domains_only (read_domains item))

destination_named : Option Json → String
destination_named (some (str d)) = " into " <> d
destination_named _ = ""

-- `describe`.
unfoldable pub describe : ActionKind → Members → String
unfolding kind_eq action_value destination_named get
describe action params =
    if kind_eq action gmail_move
    then action_value action <> destination_named (get params destination_param)
    else action_value action

abbrev learned_source : String
learned_source = "learning"

module _ (digest : Members → String) (fresh : List CandidateRule → String) where
  -- `except RuleRefused`: no candidate, and nothing written.
  unfoldable pub noted :
      List CandidateRule
      → Result RuleRefused (CandidateRule × List CandidateRule)
      → Option CandidateRule × List CandidateRule
  noted rules (raised e) = (none, rules)
  noted rules (ok (rule, after)) = (some rule, after)

  unfoldable pub observe_rule :
      CapabilityConfig
      → ActionKind
      → Members
      → ℕ
      → List CandidateRule
      → MatchRule
      → Result RuleRefused (CandidateRule × List CandidateRule)
  unfolding record_rule describe
  observe_rule capability action params now rules match =
      record_rule digest fresh capability match action
        ("Observed after "
          <> capability.name
          <> " mail from these senders was corrected to "
          <> describe action params
          <> ".")
        observed learned_source (some params) 0 none now rules

  unfoldable pub observe_match :
      CapabilityConfig
      → ActionKind
      → Members
      → ℕ
      → List CandidateRule
      → Option MatchRule
      → Option CandidateRule × List CandidateRule
  unfolding noted observe_rule
  observe_match capability action params now rules none = (none, rules)
  observe_match capability action params now rules (some match) =
      noted rules (observe_rule capability action params now rules match)

  unfoldable pub observe_action :
      CapabilityConfig
      → ReviewItem
      → Option Members
      → ℕ
      → List CandidateRule
      → Option ActionKind
      → Option CandidateRule × List CandidateRule
  unfolding observe_match signals_to_match
  observe_action capability item params now rules none = (none, rules)
  observe_action capability item params now rules (some action) =
      if capability.learning.allow_rule_learning
      then observe_match capability action (or_empty params) now rules (signals_to_match item)
      else (none, rules)

  unfoldable pub observe_candidate :
      CapabilityConfig
      → ReviewItem
      → ReviewDecision
      → LearningKind
      → ℕ
      → List CandidateRule
      → Option CandidateRule × List CandidateRule
  unfolding is_correction observe_action
  observe_candidate capability item decision kind now rules =
      if is_correction kind
      then observe_action capability item decision.action_params now rules decision.action
      else (none, rules)

  -- `decision.action or decision.decision`.
  chosen_value : ReviewDecision → String
  unfolding action_value decision_value
  chosen_value decision = elim decision.action [
    | none ↦ decision_value decision.decision
    | some a ↦ action_value a
  ]

  new_event :
      (List LearningEvent → String)
      → CapabilityConfig
      → String
      → ReviewItem
      → ReviewDecision
      → Option CandidateRule
      → List LearningEvent
      → LearningEvent
  unfolding classify_decision chosen_value derive_signals
  new_event event_id capability run_id item decision candidate events = record {
    id = event_id events;
    capability_key = capability.key;
    run_id = run_id;
    item_id = item.id;
    decision_id = decision.id;
    kind = classify_decision decision;
    recommended = item.recommendation;
    chosen = chosen_value decision;
    recommendation_source = item.recommendation_source;
    policy_version = item.policy_version;
    rule_id = item.rule_id;
    model_version = item.model_version;
    signals = derive_signals item;
    note = decision.note;
    candidate_rule_id = elim candidate [ none ↦ none | some r ↦ some r.id ];
  }

  -- `capability.learning.scope == NO_LEARNING or not capability.learning.record_decisions`.
  unfoldable pub learns_nothing : CapabilityConfig → Bool
  learns_nothing capability =
      elim capability.learning.scope [ no_learning ↦ true | _ ↦ false ]
      || not capability.learning.record_decisions

  unfoldable pub record_learning :
      (List LearningEvent → String)
      → CapabilityConfig
      → String
      → ReviewItem
      → ReviewDecision
      → ℕ
      → Lessons
      → Lessons
  unfolding learns_nothing observe_candidate classify_decision new_event
  record_learning event_id capability run_id item decision now lessons =
      if learns_nothing capability
      then lessons
      else (let (candidate, rules) =
            observe_candidate capability item decision (classify_decision decision) now
              lessons.rules in
          record {
            events =
                lessons.events
                ++ new_event event_id capability run_id item decision candidate lessons.events ∷ [];
            rules = rules;
          })
