-- ===== src/Review/Deciding.antt =====
-- `record_decision` and `decide_group` of adminos/domain/review.py, over the rows that they change. The
-- digest and the identities that the standard library and the database provide are an `Identities`.
use timmeny_admin_os.Common.{
  ℕ, String, not, Option, none, some, List, [], ◌∷◌, ◌++◌, ◌==◌, if◌then◌else◌, is_empty, elem,
  keep, map, Members, Result, ok, raised, ◌>>=◌, ◌>>◌, refuse_if,
}
use timmeny_admin_os.Capabilities.{ActionKind}
use timmeny_admin_os.Capabilities.Config.{CapabilityConfig}
use timmeny_admin_os.Actions.Rows.{
  approved, dismissed, deferred, ReviewItem, ReviewDecision, DecisionKind, defer,
}
use timmeny_admin_os.Candidates.{CandidateRule}
use timmeny_admin_os.Learning.{LearningEvent, Lessons, record_learning}
use timmeny_admin_os.Plan.Arrange.{sort_keys, dedupe}
use timmeny_admin_os.Plan.Begin.{ReviewPlan, human_actor, activate_plan}
use timmeny_admin_os.Review.Reading.{read_group_items}
use timmeny_admin_os.Review.Checking.{
  DecisionRefused, is_pending, recommended_params, check_decision, followed_recommendation,
}

pub record Identities : Type 0 where
  pub digest : Members → String
  pub fresh_rule : List CandidateRule → String
  pub fresh_event : List LearningEvent → String
  pub fresh_decision : List ReviewDecision → String

pub record ReviewTables : Type 0 where
  pub items : List ReviewItem
  pub decisions : List ReviewDecision
  pub plans : List ReviewPlan
  pub lessons : Lessons

-- The writes to the columns of an item that was read.
unfoldable pub save_item : ReviewItem → List ReviewItem → List ReviewItem
save_item item [] = []
save_item item (i ∷ rest) =
    let others = save_item item rest in if i.id == item.id then item ∷ rest else i ∷ others

-- `action_params if action_params is not None else recommended_params(item, decision)`.
unfoldable pub asked_params : Option Members → ReviewItem → DecisionKind → Members
unfolding recommended_params
asked_params none item decision = recommended_params item decision
asked_params (some params) item decision = params

-- The item's columns after the decision.
unfoldable pub decided : DecisionKind → Option ActionKind → Members → ℕ → ReviewItem → ReviewItem
decided decision (some chosen) params now item = record item {
  state = approved;
  approved_action = some chosen;
  approved_params = some params;
  decided_at = some now;
}
decided defer none params now item = record item {
  state = deferred;
  approved_action = none;
  approved_params = none;
  decided_at = some now;
}
decided _ none params now item = record item {
  state = dismissed;
  approved_action = none;
  approved_params = none;
  decided_at = some now;
}

-- What a caller says of a decision.
pub record Ruling : Type 0 where
  pub decision : DecisionKind
  pub action : Option ActionKind
  pub action_params : Option Members
  pub note : Option String
  pub actor : String
  pub batch_id : Option String

-- `IneligibleItem`, and what `decide_group` raises.
pub record IneligibleItem : Type 0 where
  pub item_id : String
  pub thread_id : String
  pub subject : Option String
  pub reason : DecisionRefused

pub data GroupProblem : Type 0 where
  no_bulk_decisions : GroupProblem
  missing_items : List String → GroupProblem
  bulk_refused : List IneligibleItem → GroupProblem
  refused : DecisionRefused → GroupProblem

unfoldable pub ineligible :
    ReviewItem → Result DecisionRefused (Option ActionKind) → List IneligibleItem
ineligible item (ok _) = []
ineligible item (raised reason) =
    record {
      item_id = item.id;
      thread_id = item.source_thread_id;
      subject = item.subject;
      reason = reason;
    }
    ∷ []

unfoldable pub lift_refusal : {A : Type 0} → Result DecisionRefused A → Result GroupProblem A
lift_refusal (ok a) = ok a
lift_refusal (raised e) = raised (refused e)

-- The rows that are named, or those still pending where none is.
unfoldable pub selected_items : Option (List String) → List ReviewItem → List ReviewItem
unfolding is_pending
selected_items none items = keep (λ i. is_pending i.state) items
selected_items (some named) items = keep (λ i. elem i.id named) items

unfoldable pub missing : Option (List String) → List ReviewItem → List String
unfolding sort_keys dedupe
missing none selected = []
missing (some named) selected =
    sort_keys (keep (λ id. not (elem id (map (λ i. i.id) selected))) (dedupe named))

module _ (ids : Identities) (capability : CapabilityConfig) (run_id : String) (now : ℕ) where
  unfoldable pub decision_row :
      Ruling → ReviewItem → Option ActionKind → Members → List ReviewDecision → ReviewDecision
  unfolding followed_recommendation
  decision_row ruling item chosen params decisions = record {
    id = ids.fresh_decision decisions;
    run_id = run_id;
    item_id = item.id;
    capability_key = capability.key;
    decision = ruling.decision;
    action = chosen;
    action_params = if capability.learning.record_decisions then some params else none;
    followed_recommendation = followed_recommendation item ruling.decision chosen;
    recommendation = item.recommendation;
    actor = ruling.actor;
    batch_id = ruling.batch_id;
    learning_scope = capability.learning.scope;
    note = if capability.learning.record_decisions then ruling.note else none;
    created_at = now;
  }

  -- A decision of a person begins the plan of the review.
  plans_after : String → List ReviewPlan → List ReviewPlan
  unfolding activate_plan
  plans_after actor plans =
      if actor == human_actor then (activate_plan run_id actor now plans).1 else plans

  unfoldable pub apply_decision :
      Ruling → ReviewItem → Option ActionKind → ReviewTables → ReviewItem × ReviewTables
  unfolding asked_params decided decision_row plans_after record_learning save_item
  apply_decision ruling item chosen tables =
      let params = asked_params ruling.action_params item ruling.decision in
      let after = decided ruling.decision chosen params now item in
      let row = decision_row ruling after chosen params tables.decisions in
      (
        after,
        record {
          items = save_item after tables.items;
          decisions = tables.decisions ++ row ∷ [];
          plans = plans_after ruling.actor tables.plans;
          lessons =
              record_learning ids.digest ids.fresh_rule ids.fresh_event capability run_id after row
                now tables.lessons;
        },
      )

  unfoldable pub checked : Ruling → ReviewItem → Result DecisionRefused (Option ActionKind)
  unfolding check_decision asked_params
  checked ruling item =
      check_decision capability item ruling.decision ruling.action
        (some (asked_params ruling.action_params item ruling.decision))

  unfoldable pub record_decision :
      Ruling → ReviewItem → ReviewTables → Result DecisionRefused (ReviewItem × ReviewTables)
  unfolding checked apply_decision
  record_decision ruling item tables = do
    chosen ← checked ruling item
    ok (apply_decision ruling item chosen tables)

  unfoldable pub all_ineligible : Ruling → List ReviewItem → List IneligibleItem
  unfolding ineligible checked
  all_ineligible ruling [] = []
  all_ineligible ruling (i ∷ rest) = ineligible i (checked ruling i) ++ all_ineligible ruling rest

  -- The last loop of `decide_group`: each selected item, one after another.
  unfoldable pub decide_each :
      Ruling → List ReviewItem → ReviewTables → Result GroupProblem (List ReviewItem × ReviewTables)
  unfolding lift_refusal record_decision
  decide_each ruling [] tables = ok ([], tables)
  decide_each ruling (i ∷ rest) tables = lift_refusal (record_decision ruling i tables) >>= λ done.
      decide_each ruling rest done.1 >>= λ others. ok (done.0 ∷ others.0, others.1)

  unfoldable pub decide_group :
      String
      → Option (List String)
      → Ruling
      → ReviewTables
      → Result GroupProblem (List ReviewItem × ReviewTables)
  unfolding selected_items missing all_ineligible decide_each read_group_items
  decide_group group_id named ruling tables =
      let selected = selected_items named (read_group_items group_id tables.items) in
      let refusing = all_ineligible ruling selected in
      let lacking = missing named selected in
      refuse_if (not capability.approval.allow_bulk_decisions) no_bulk_decisions
      >> (refuse_if (not (is_empty lacking)) (missing_items lacking)
          >> (refuse_if (not (is_empty refusing)) (bulk_refused refusing)
              >> decide_each ruling selected tables))
