-- ===== src/Review/Filling.antt =====
-- `fill_review`, `open_fresh_review` and `continue_review` of adminos/domain/review.py, whole. Nothing is
-- kept of a filling that raises.
use timmeny_admin_os.Common.{
  ℕ, String, Option, none, some, List, [], ◌∷◌, ◌++◌, Result, ok, raised, ◌>>=◌, ◌==◌,
  if◌then◌else◌, map,
}
use timmeny_admin_os.Capabilities.Config.{CapabilityConfig, enabled}
use timmeny_admin_os.Actions.Rows.{ReviewAction}
use timmeny_admin_os.Candidates.{RuleRefused, CandidateRule, read_active_rules}
use timmeny_admin_os.Mailboxes.{ReviewScope, capability_scope}
use timmeny_admin_os.Plan.Begin.{ReviewPlan, Loaded}
use timmeny_admin_os.Scopes.{ActionScope}
use timmeny_admin_os.Review.Rows.{GroupState, ReviewRun, ReviewGroup}
use timmeny_admin_os.Review.Reading.{find_group}
use timmeny_admin_os.Review.States.{GroupView, RunView}
use timmeny_admin_os.Review.Refreshing.{refresh_states}
use timmeny_admin_os.Review.Policy.{Evidence}
use timmeny_admin_os.Review.Collecting.{Fresh, Sheet, populate_group, withdraw_out_of_scope}
use timmeny_admin_os.Review.Opening.{Subject, OpeningProblem, open_fresh, continue_review}

-- The `RuleRefused` of a stored condition, the `UnknownCapability` of a group that is not configured, or
-- why there was nothing to continue.
pub data FillingProblem : Type 0 where
  unreadable_rule : RuleRefused → FillingProblem
  unknown_group : FillingProblem
  not_continued : OpeningProblem → FillingProblem

unfoldable pub lift_rule : {A : Type 0} → Result RuleRefused A → Result FillingProblem A
lift_rule (ok a) = ok a
lift_rule (raised e) = raised (unreadable_rule e)

-- The rows of a review and the tables that it is refreshed from.
pub record Filled : Type 0 where
  pub view : RunView
  pub plans : List ReviewPlan
  pub sheet : Sheet

-- `if evidence_refresh_at is not None: run.evidence_refresh_at = evidence_refresh_at`.
abbrev pub refreshed_at : Option ℕ → ReviewRun → ReviewRun
refreshed_at none run = run
refreshed_at (some t) run = record run { evidence_refresh_at = some t }

-- The columns that refreshing wrote, in the row that has them.
group_in : ReviewGroup → List GroupView → ReviewGroup
group_in group [] = group
group_in group (v ∷ rest) = if v.group.id == group.id then v.group else group_in group rest

abbrev pub run_in : ReviewRun → ReviewRun → ReviewRun
run_in written run = if run.id == written.id then written else run

module _ (fold : String → String) (fresh : Fresh) (now : ℕ) (run_id : String) where
  pending_group : CapabilityConfig → List ReviewGroup → ReviewGroup
  pending_group capability groups = record {
    id = fresh.group groups;
    run_id = run_id;
    capability_key = capability.key;
    capability_name = capability.name;
    policy_version = capability.recommendation_policy.version;
    position = capability.position;
    state = GroupState.pending;
    started_at = none;
    completed_at = none;
  }

  unfoldable pub group_or_new : CapabilityConfig → Sheet → Option ReviewGroup → ReviewGroup × Sheet
  unfolding pending_group
  group_or_new capability sheet (some group) = (group, sheet)
  group_or_new capability sheet none =
      let group = pending_group capability sheet.groups in
      (group, record sheet { groups = sheet.groups ++ group ∷ [] })

  unfoldable pub get_or_create_group : CapabilityConfig → Sheet → ReviewGroup × Sheet
  unfolding group_or_new find_group
  get_or_create_group capability sheet =
      group_or_new capability sheet (find_group run_id capability.key sheet.groups)

  -- One turn of the loop of `fill_review`.
  unfoldable pub fill_group :
      ReviewScope
      → List Evidence
      → List CandidateRule
      → CapabilityConfig
      → Sheet
      → Result FillingProblem Sheet
  unfolding get_or_create_group withdraw_out_of_scope lift_rule read_active_rules populate_group
      capability_scope
  fill_group scope evidence rules capability sheet =
      let watched = capability_scope scope capability in
      let (group, opened) = get_or_create_group capability sheet in
      let left =
        withdraw_out_of_scope fold fresh now run_id capability group.id watched evidence opened in
      lift_rule (read_active_rules capability rules) >>= λ learned.
      ok (populate_group fold fresh now run_id capability group.id watched learned evidence left)

  unfoldable pub fill_each :
      ReviewScope
      → List Evidence
      → List CandidateRule
      → List CapabilityConfig
      → Sheet
      → Result FillingProblem Sheet
  unfolding fill_group
  fill_each scope evidence rules [] sheet = ok sheet
  fill_each scope evidence rules (c ∷ cs) sheet =
      fill_group scope evidence rules c sheet >>= λ filled. fill_each scope evidence rules cs filled

  unfoldable pub viewed : Sheet → Option (RunView × List ReviewPlan) → Result FillingProblem Filled
  unfolding group_in
  viewed sheet none = raised unknown_group
  viewed sheet (some (view, plans)) = ok record {
    view = view;
    plans = plans;
    sheet = record sheet { groups = map (λ g. group_in g view.groups) sheet.groups };
  }

unfoldable pub fill_review :
    (String → String)
    → Fresh
    → ℕ
    → Loaded
    → ReviewRun
    → ReviewScope
    → Option ℕ
    → List Evidence
    → List CandidateRule
    → List ReviewAction
    → List ReviewPlan
    → Sheet
    → Result FillingProblem Filled
unfolding fill_each viewed refresh_states enabled
fill_review fold fresh now loaded run scope refreshed evidence rules actions plans sheet =
    fill_each fold fresh now run.id scope evidence rules (enabled loaded.capabilities) sheet
    >>= λ filled. viewed fold fresh now run.id filled (
        refresh_states loaded (refreshed_at refreshed run) filled.groups filled.items actions now
          plans)

module _ (fold : String → String) (fresh : Fresh) (now : ℕ) (loaded : Loaded) (subject : Subject)
    (scope : ReviewScope) (refreshed : Option ℕ) (evidence : List Evidence)
    (rules : List CandidateRule) (actions : List ReviewAction) (plans : List ReviewPlan) where
  -- The review, the reviews and the scopes of execution, and what it was filled with.
  unfoldable pub open_fresh_review :
      String
      → List ReviewRun
      → List ActionScope
      → Sheet
      → Result FillingProblem (List ReviewRun × List ActionScope × Filled)
  unfolding open_fresh fill_review
  open_fresh_review run_id runs scopes sheet =
      let (run, opened, disarmed) = open_fresh loaded subject run_id now refreshed runs scopes in
      fill_review fold fresh now loaded run scope refreshed evidence rules actions plans sheet
      >>= λ filled. ok (map (run_in filled.view.run) opened, disarmed, filled)

  unfoldable pub continued : Sheet → Result OpeningProblem ReviewRun → Result FillingProblem Filled
  unfolding fill_review
  continued sheet (raised e) = raised (not_continued e)
  continued sheet (ok run) =
      fill_review fold fresh now loaded run scope refreshed evidence rules actions plans sheet

  unfoldable pub continue_filled : List ReviewRun → Sheet → Result FillingProblem Filled
  unfolding continued continue_review
  continue_filled runs sheet = continued sheet (continue_review subject runs sheet.decisions)
