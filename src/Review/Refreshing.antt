-- ===== src/Review/Refreshing.antt =====
-- `refresh_states` of adminos/domain/review.py. `none` of the answer is `UnknownCapability`.
use timmeny_admin_os.Common.{ℕ, Bool, true, false, not, Option, none, some, List, if◌then◌else◌}
use timmeny_admin_os.Actions.Rows.{ReviewItem, ReviewAction}
use timmeny_admin_os.Plan.Begin.{ReviewPlan, Loaded, plan_for, settle_plan}
use timmeny_admin_os.Review.Rows.{RunState, not_started, ReviewRun, ReviewGroup, is_abandoned}
use timmeny_admin_os.Review.Reading.{read_groups}
use timmeny_admin_os.Review.States.{
  GroupView, RunView, planned_by, refresh_each, run_state, is_run_completed, refreshed_run,
}

unfoldable pub is_not_started : RunState → Bool
is_not_started not_started = true
is_not_started _ = false

-- The plan of a review that is completed is settled.
unfoldable pub settled_where :
    Bool → ReviewPlan → ℕ → List ReviewPlan → Option ReviewPlan × List ReviewPlan
unfolding settle_plan
settled_where false plan now plans = (some plan, plans)
settled_where true plan now plans = settle_plan (some plan) now plans

unfoldable pub refreshed_view :
    ReviewRun → List GroupView → ReviewPlan → ℕ → List ReviewPlan → RunView × List ReviewPlan
unfolding run_state planned_by is_run_completed settled_where refreshed_run
refreshed_view run views plan now plans =
    let state = run_state (planned_by (some plan) views) in
    let (settled, after) = settled_where (is_run_completed state) plan now plans in
    (record { run = refreshed_run state now run; groups = views; plan = settled }, after)

unfoldable pub view_left :
    Bool
    → ReviewRun
    → ReviewPlan
    → ℕ
    → List ReviewPlan
    → Option (List GroupView)
    → Option (RunView × List ReviewPlan)
unfolding refreshed_view
view_left left run plan now plans none = none
view_left left run plan now plans (some views) = some (
    if left
    then (record { run = run; groups = views; plan = some plan }, plans)
    else refreshed_view run views plan now plans)

unfoldable pub refresh_states :
    Loaded
    → ReviewRun
    → List ReviewGroup
    → List ReviewItem
    → List ReviewAction
    → ℕ
    → List ReviewPlan
    → Option (RunView × List ReviewPlan)
unfolding plan_for is_not_started view_left refresh_each read_groups is_abandoned
refresh_states loaded run groups items actions now plans =
    let (plan, planned) = plan_for loaded run.id (not (is_not_started run.state)) now plans in
    let left = is_abandoned run.state in
    view_left left run plan now planned
      (refresh_each loaded run.id items actions now left (read_groups run.id groups))
