-- ===== src/Review/Inert.antt =====
-- A decision of adminos/domain/review.py changes no recommendation by itself.
use timmeny_admin_os.Common.{
  ℕ, String, ◌≡◌, refl, ap, ◌∙◌, Bool-cases, if-both, inl, inr, Option, none, some, List, map,
  Members, Result, ok, raised, >>=-ok, ok-injective,
}
use timmeny_admin_os.Capabilities.{ActionKind}
use timmeny_admin_os.Capabilities.Config.{CapabilityConfig, MatchRule}
use timmeny_admin_os.Actions.Rows.{ReviewItem, ReviewDecision}
use timmeny_admin_os.Actions.Approvals.{or_empty}
use timmeny_admin_os.Plan.Arrange.Order.{IsDistinct}
use timmeny_admin_os.Candidates.{CandidateRule, RuleRefused, observed, read_active_rules}
use timmeny_admin_os.Candidates.Inert.{record_rule-IsInert}
use timmeny_admin_os.Learning.{
  LearningEvent, LearningKind, Lessons, is_correction, signals_to_match, noted, observe_rule,
  observe_match, observe_action, observe_candidate, learns_nothing, record_learning,
  classify_decision,
}
use timmeny_admin_os.Review.Deciding.{
  Identities, ReviewTables, Ruling, asked_params, decided, decision_row, apply_decision, checked,
  record_decision,
}

module _ (digest : Members → String) (fresh : List CandidateRule → String)
    (c : CapabilityConfig) where
  module _ (capability : CapabilityConfig) (now : ℕ) (rules : List CandidateRule)
      (distinct : IsDistinct (map (λ r. r.id) rules)) where
    noted-IsInert :
        (r : Result RuleRefused (CandidateRule × List CandidateRule))
        → ((rule : CandidateRule) (after : List CandidateRule)
            → r ≡ ok (rule, after)
            → read_active_rules c after ≡ read_active_rules c rules)
        → read_active_rules c (noted digest fresh rules r).1 ≡ read_active_rules c rules
    unfolding noted
    noted-IsInert (raised e) h = refl
    noted-IsInert (ok (rule, after)) h = h rule after refl

    observe_rule-IsInert :
        (action : ActionKind) (params : Members) (match : MatchRule) (rule : CandidateRule)
        (after : List CandidateRule)
        → observe_rule digest fresh capability action params now rules match ≡ ok (rule, after)
        → read_active_rules c after ≡ read_active_rules c rules
    unfolding observe_rule
    observe_rule-IsInert action params match rule after h =
        record_rule-IsInert digest fresh capability match action _ observed _ (some params) 0 none
          now rules rule after c distinct h

    observe_match-IsInert :
        (action : ActionKind) (params : Members) (match : Option MatchRule)
        → read_active_rules c
            (observe_match digest fresh capability action params now rules match).1
          ≡ read_active_rules c rules
    unfolding observe_match
    observe_match-IsInert action params none = refl
    observe_match-IsInert action params (some match) =
        noted-IsInert (observe_rule digest fresh capability action params now rules match)
          (λ rule after h. observe_rule-IsInert action params match rule after h)

    observe_action-IsInert :
        (item : ReviewItem) (params : Option Members) (action : Option ActionKind)
        → read_active_rules c
            (observe_action digest fresh capability item params now rules action).1
          ≡ read_active_rules c rules
    unfolding observe_action
    observe_action-IsInert item params none = refl
    observe_action-IsInert item params (some action) =
        if-both
          (λ (o : Option CandidateRule × List CandidateRule).
            read_active_rules c o.1 ≡ read_active_rules c rules)
          capability.learning.allow_rule_learning _ (none, rules)
          (observe_match-IsInert action (or_empty params) (signals_to_match item)) refl

    observe_candidate-IsInert :
        (item : ReviewItem) (decision : ReviewDecision) (kind : LearningKind)
        → read_active_rules c
            (observe_candidate digest fresh capability item decision kind now rules).1
          ≡ read_active_rules c rules
    unfolding observe_candidate
    observe_candidate-IsInert item decision kind = elim (Bool-cases (is_correction kind)) [
      | inl corrects ↦
          rw corrects (observe_action-IsInert item decision.action_params decision.action)
      | inr agrees ↦ rw agrees refl
    ]

  record_learning-IsInert :
      (event_id : List LearningEvent → String) (capability : CapabilityConfig) (run_id : String)
      (item : ReviewItem) (decision : ReviewDecision) (now : ℕ) (lessons : Lessons)
      → IsDistinct (map (λ r. r.id) lessons.rules)
      → read_active_rules c
          (record_learning digest fresh event_id capability run_id item decision now lessons).rules
        ≡ read_active_rules c lessons.rules
  unfolding record_learning
  record_learning-IsInert event_id capability run_id item decision now lessons distinct =
      elim (Bool-cases (learns_nothing digest fresh capability)) [
        | inl silent ↦ rw silent refl
        | inr learns ↦ rw learns (
            observe_candidate-IsInert capability now lessons.rules distinct item decision
              (classify_decision decision))
      ]

applied-lessons :
    (ids : Identities) (capability : CapabilityConfig) (run_id : String) (now : ℕ) (ruling : Ruling)
    (item : ReviewItem) (k : Option ActionKind) (tables : ReviewTables)
    → (after : ReviewItem) × (row : ReviewDecision) × ((apply_decision ids capability run_id now
          ruling item k tables).1.lessons
        ≡ record_learning ids.digest ids.fresh_rule ids.fresh_event capability run_id after row now
            tables.lessons)
unfolding apply_decision
applied-lessons ids capability run_id now ruling item k tables =
    let params = asked_params ruling.action_params item ruling.decision in
    let after = decided ruling.decision k params now item in
    (after, decision_row ids capability run_id now ruling after k params tables.decisions, refl)

-- Whatever is decided, and whatever rule the correction is noticed as, the rules that shape the
-- recommendations are those that they were before, for every capability, where the identities of the
-- rules' table are distinct.
pub record_decision-IsInert :
    (ids : Identities) (capability : CapabilityConfig) (run_id : String) (now : ℕ) (ruling : Ruling)
    (item after : ReviewItem) (tables tables' : ReviewTables) (c : CapabilityConfig)
    → IsDistinct (map (λ r. r.id) tables.lessons.rules)
    → record_decision ids capability run_id now ruling item tables ≡ ok (after, tables')
    → read_active_rules c tables'.lessons.rules ≡ read_active_rules c tables.lessons.rules
unfolding record_decision
record_decision-IsInert ids capability run_id now ruling item after tables tables' c distinct h =
    let (k, _, made) = >>=-ok (checked ids capability run_id now ruling item) _ h in
    let (decided_item, row, lessons) =
      applied-lessons ids capability run_id now ruling item k tables in
    ap (λ p. read_active_rules c p.1.lessons.rules) (ok-injective made)
    ∙ ap (λ l. read_active_rules c l.rules) lessons
    ∙ record_learning-IsInert ids.digest ids.fresh_rule c ids.fresh_event capability run_id
        decided_item row now tables.lessons distinct
