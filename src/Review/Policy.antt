-- ===== src/Review/Policy.antt =====
-- `evaluate_policy`, `matches` and `record_assessment` of adminos/domain/review.py. `fold` is
-- `str.casefold`; times are counted in seconds, and a confidence is a percentage.
use timmeny_admin_os.Common.{
  ℕ, ◌+◌, ◌*◌, String, Bool, true, false, not, ◌&&◌, ◌||◌, Option, none, some, List, [], ◌∷◌, ◌<>◌,
  if◌then◌else◌, any, elem, map, is_empty, is_set, contains, ends_with, drop_leading, leb, nat_eqb,
  str, Members, end, member, Result, ok, ◌>>◌, refuse_if,
}
use timmeny_admin_os.Capabilities.{
  ActionKind, action_kind, action_value, recommend, destination_param,
}
use timmeny_admin_os.Capabilities.Config.{
  CapabilityConfig, RecommendationRule, MatchRule, allows, permits,
}
use timmeny_admin_os.Actions.Rows.{ReviewItem}
use timmeny_admin_os.Candidates.{LearnedRule}
use timmeny_admin_os.Review.Checking.{is_pending}

-- `Evidence` of adminos/db/models.py, with what a review reads of it.
pub record Evidence : Type 0 where
  pub id : String
  pub source_system : String
  pub source_thread_id : String
  pub subject : Option String
  pub participants : Option (List String)
  pub received_at : Option ℕ
  pub content_hash : Option String
  pub capability_keys : List String
  pub label_ids : Option (List String)
  pub snoozed : Option Bool

pub record PolicyOutcome : Type 0 where
  pub recommendation : String
  pub confidence : ℕ
  pub rationale : String
  pub source : String
  pub rule_id : Option String
  pub objective_keys : List String
  pub automatable : Bool
  pub params : Members

abbrev pub learned_source : String
learned_source = "learned_rule"

abbrev pub policy_source : String
policy_source = "policy"

abbrev pub default_source : String
default_source = "default"

abbrev seconds_of : ℕ → ℕ
seconds_of days = days * 86400

or_empty : Option String → String
or_empty none = ""
or_empty (some s) = s

is_at : ℕ → Bool
is_at c = nat_eqb c 64

-- The age is compared as `now` with the time of receipt and the days.
old_enough : Option ℕ → Option ℕ → ℕ → Bool
old_enough none received now = true
old_enough (some days) none now = false
old_enough (some days) (some received) now = leb (received + seconds_of days) now

new_enough : Option ℕ → Option ℕ → ℕ → Bool
new_enough none received now = true
new_enough (some days) none now = false
new_enough (some days) (some received) now = leb now (received + seconds_of days)

people_of : Evidence → List String
people_of evidence = elim evidence.participants [ none ↦ [] | some people ↦ people ]

module _ (fold : String → String) where
  matches_subject : MatchRule → Evidence → Bool
  unfolding or_empty contains
  matches_subject rule evidence =
      is_empty rule.subject_contains
      || any (λ term. contains (fold (or_empty evidence.subject)) (fold term)) rule.subject_contains

  matches_people : MatchRule → List String → Bool
  matches_people rule people =
      is_empty rule.participants || any (λ p. elem (fold p) people) rule.participants

  matches_domains : MatchRule → List String → Bool
  unfolding ends_with drop_leading is_at
  matches_domains rule people =
      is_empty rule.participant_domains
      || any
          (λ address.
            any (λ d. ends_with address ("@" <> drop_leading is_at (fold d)))
              rule.participant_domains)
          people

  unfoldable pub matches : MatchRule → Evidence → ℕ → Bool
  unfolding matches_subject matches_people matches_domains people_of old_enough new_enough
  matches rule evidence now =
      matches_subject rule evidence
      && matches_people rule (map fold (people_of evidence))
      && matches_domains rule (map fold (people_of evidence))
      && old_enough rule.older_than_days evidence.received_at now
      && new_enough rule.newer_than_days evidence.received_at now

  unfoldable pub first_learned : List LearnedRule → Evidence → ℕ → Option LearnedRule
  unfolding matches
  first_learned [] evidence now = none
  first_learned (r ∷ rest) evidence now =
      if matches r.match evidence now then some r else first_learned rest evidence now

  unfoldable pub first_rule : List RecommendationRule → Evidence → ℕ → Option RecommendationRule
  unfolding matches
  first_rule [] evidence now = none
  first_rule (r ∷ rest) evidence now =
      if matches r.when evidence now then some r else first_rule rest evidence now

  -- `rule.params()`.
  rule_params : Option String → Members
  rule_params none = end
  rule_params (some folder) =
      if is_set folder then member destination_param (str folder) end else end

  unfoldable pub by_default : CapabilityConfig → PolicyOutcome
  by_default capability = record {
    recommendation = capability.recommendation_policy.default;
    confidence = 0;
    rationale = "No " <> capability.name <> " rule matched, so it defers to review.";
    source = default_source;
    rule_id = none;
    objective_keys = capability.objectives.default_keys;
    automatable = false;
    params = end;
  }

  unfoldable pub by_rule : CapabilityConfig → Option RecommendationRule → PolicyOutcome
  unfolding by_default rule_params
  by_rule capability none = by_default capability
  by_rule capability (some rule) = record {
    recommendation = rule.recommend;
    confidence = rule.confidence;
    rationale = rule.rationale;
    source = policy_source;
    rule_id = some rule.id;
    objective_keys =
        if is_empty rule.aligns_with then capability.objectives.default_keys else rule.aligns_with;
    automatable = false;
    params = rule_params rule.move_to;
  }

  unfoldable pub by_learned : CapabilityConfig → Option LearnedRule → Evidence → ℕ → PolicyOutcome
  unfolding by_rule first_rule action_value
  by_learned capability none evidence now =
      by_rule capability (first_rule capability.recommendation_policy.rules evidence now)
  by_learned capability (some learned) evidence now = record {
    recommendation = action_value learned.action;
    confidence = learned.confidence;
    rationale = learned.rationale;
    source = learned_source;
    rule_id = some learned.id;
    objective_keys = capability.objectives.default_keys;
    automatable = learned.automatable;
    params = learned.params;
  }

  unfoldable pub evaluate_policy :
      CapabilityConfig → Evidence → ℕ → List LearnedRule → PolicyOutcome
  unfolding by_learned first_learned by_default
  evaluate_policy capability evidence now learned =
      if allows capability.playbook recommend
      then by_learned capability (first_learned learned evidence now) evidence now
      else by_default capability

-- `Assessment`, and what refuses it.
pub record Assessment : Type 0 where
  pub category : String
  pub confidence : ℕ
  pub rationale : String
  pub model_version : String
  pub recommendation : Option String

pub data AssessmentRefused : Type 0 where
  unknown_category : String → AssessmentRefused
  takes_no_recommendation : AssessmentRefused
  not_allowed : ActionKind → AssessmentRefused

permitted_kind : CapabilityConfig → Option ActionKind → Result AssessmentRefused (Unit {0})
unfolding permits
permitted_kind capability none = ok tt
permitted_kind capability (some kind) = refuse_if (not (permits capability kind)) (not_allowed kind)

check_suggestion : CapabilityConfig → Option String → Result AssessmentRefused (Unit {0})
unfolding permitted_kind action_kind
check_suggestion capability none = ok tt
check_suggestion capability (some value) = do
  refuse_if (not capability.recommendation_policy.allow_ai_recommendation) takes_no_recommendation
  permitted_kind capability (action_kind value)

-- The suggestion is adopted for a row still pending, where the model is confident enough.
adopt : CapabilityConfig → Assessment → Option String → ReviewItem → ReviewItem
unfolding is_pending
adopt capability assessment none item = item
adopt capability assessment (some value) item =
    if is_pending item.state
      && leb capability.recommendation_policy.min_ai_confidence assessment.confidence
    then record item {
      recommendation = value;
      recommendation_source = "ai";
      recommendation_confidence = assessment.confidence;
      recommendation_rationale = some assessment.rationale;
    }
    else item

-- The provenance of the row is left out.
unfoldable pub record_assessment :
    CapabilityConfig → Assessment → ReviewItem → Result AssessmentRefused ReviewItem
unfolding check_suggestion adopt
record_assessment capability assessment item = do
  refuse_if (not (elem assessment.category capability.recommendation_policy.categories))
      (unknown_category assessment.category)
  check_suggestion capability assessment.recommendation
  ok (
      adopt capability assessment assessment.recommendation (record item {
        category = some assessment.category;
        model_version = some assessment.model_version;
      }))
