-- ===== src/Review/States.antt =====
-- The states of groups and of a run (adminos/domain/review.py): `group_state`, `refresh_states`, and what
-- a `RunView` says of the group at hand. `none` of a capability is `UnknownCapability`. The summary and
-- the review that was superseded, which a view also shows, are read from the same rows and left out.
use timmeny_admin_os.Common.{
  ℕ, suc, String, Bool, true, false, not, ◌&&◌, Option, none, some, List, [], ◌∷◌, ◌==◌,
  if◌then◌else◌, nat_eqb, length, any, all, keep, elem, is_empty, sort_by,
}
use timmeny_admin_os.Capabilities.Config.{CapabilityConfig, find_capability}
use timmeny_admin_os.Actions.Rows.{ReviewItem, ReviewAction}
use timmeny_admin_os.Plan.Arrange.{dedupe}
use timmeny_admin_os.Plan.Begin.{proposed, active, ReviewPlan, Loaded}
use timmeny_admin_os.Plan.Standing.{ReviewStanding, count_standing, owes_decision}
use timmeny_admin_os.Review.Rows.{RunState, not_started, GroupState, ReviewRun, ReviewGroup}
use timmeny_admin_os.Review.Reading.{read_group_items}
use timmeny_admin_os.Review.Checking.{is_pending}

-- `item.state in {APPROVED, FAILED}`, `UNEXECUTED_DECISION_STATES`, is `owes_decision`.
unfoldable pub group_state_of :
    CapabilityConfig → List ReviewItem → List ReviewItem → List ReviewItem → GroupState
group_state_of capability items undecided unexecuted =
    if is_empty items
    then GroupState.completed
    else if capability.completion.require_all_items_decided && not (is_empty undecided)
    then if nat_eqb (length undecided) (length items)
      then GroupState.pending
      else GroupState.in_progress
    else if capability.completion.require_executed_actions && not (is_empty unexecuted)
    then GroupState.awaiting_actions
    else GroupState.completed

unfoldable pub group_state : CapabilityConfig → List ReviewItem → GroupState
unfolding group_state_of is_pending owes_decision
group_state capability items =
    group_state_of capability items (keep (λ i. is_pending i.state) items)
      (keep (λ i. owes_decision i.state) items)

unfoldable pub is_completed : GroupState → Bool
is_completed GroupState.completed = true
is_completed _ = false

unfoldable pub is_waiting : GroupState → Bool
is_waiting GroupState.pending = true
is_waiting _ = false

-- `states <= {COMPLETED, AWAITING_ACTIONS}`, for one state.
unfoldable pub is_settled : GroupState → Bool
is_settled GroupState.completed = true
is_settled GroupState.awaiting_actions = true
is_settled _ = false

pub record GroupView : Type 0 where
  pub group : ReviewGroup
  pub items : List ReviewItem
  pub standing : ReviewStanding

pub record RunView : Type 0 where
  pub run : ReviewRun
  pub groups : List GroupView
  pub plan : Option ReviewPlan

-- `{key: index for index, key in enumerate(sequence)}.get(key)`: the last index of a key stays.
place : String → ℕ → Option ℕ → List String → Option ℕ
place key index found [] = found
place key index found (k ∷ keys) =
    place key (suc index) (if k == key then some index else found) keys

unfoldable pub rank : List String → String → ℕ
unfolding place dedupe
rank sequence key = elim (place key 0 none sequence) [
  | some index ↦ index
  | none ↦ length (dedupe sequence)
]

unfoldable pub planned_by : Option ReviewPlan → List GroupView → List GroupView
unfolding rank
planned_by none groups = groups
planned_by (some plan) groups =
    sort_by (λ v. rank plan.sequence v.group.capability_key)
      (keep (λ v. not (elem v.group.capability_key plan.skipped)) groups)

unfoldable pub planned_groups : RunView → List GroupView
unfolding planned_by
planned_groups view = planned_by view.plan view.groups

has_begun : Option ReviewPlan → Bool
has_begun none = true
has_begun (some plan) = elim plan.status [ active ↦ true | proposed ↦ false ]

unfoldable pub begun : RunView → Bool
unfolding has_begun
begun view = has_begun view.plan

unfoldable pub first_open : List GroupView → Option GroupView
unfolding is_completed
first_open [] = none
first_open (v ∷ rest) = if not (is_completed v.group.state) then some v else first_open rest

unfoldable pub current_group : RunView → Option GroupView
unfolding begun planned_groups first_open
current_group view = if not (begun view) then none else first_open (planned_groups view)

unfoldable pub awaiting_execution : RunView → List GroupView
unfolding owes_decision
awaiting_execution view = keep (λ v. any (λ i. owes_decision i.state) v.items) view.groups

-- `group.completed_at or moment`.
abbrev pub first_time : Option ℕ → ℕ → Option ℕ
first_time none now = some now
first_time (some t) now = some t

-- The columns of a group after its state was computed.
unfoldable pub refreshed_group : GroupState → ℕ → ReviewGroup → ReviewGroup
unfolding is_waiting is_completed
refreshed_group state now group = record group {
  state = state;
  started_at = if not (is_waiting state) then first_time group.started_at now else group.started_at;
  completed_at = if is_completed state then first_time group.completed_at now else none;
}

-- The actions of the run for one capability.
unfoldable pub actions_of : String → String → List ReviewAction → List ReviewAction
actions_of run_id key actions = keep (λ a. a.run_id == run_id && a.capability_key == key) actions

unfoldable pub view_of : String → List ReviewItem → List ReviewAction → ReviewGroup → GroupView
unfolding read_group_items count_standing actions_of
view_of run_id items actions group =
    let own = read_group_items group.id items in
    record {
      group = group;
      items = own;
      standing = count_standing own (actions_of run_id group.capability_key actions);
    }

-- The views of the groups, recomputed, or as they were left in a review that was abandoned.
unfoldable pub refresh_known :
    String
    → List ReviewItem
    → List ReviewAction
    → ℕ
    → Bool
    → ReviewGroup
    → CapabilityConfig
    → GroupView
unfolding view_of refreshed_group group_state
refresh_known run_id items actions now left group capability =
    if left
    then view_of run_id items actions group
    else view_of run_id items actions
        (refreshed_group (group_state capability (read_group_items group.id items)) now group)

-- A group whose capability is not configured ends the refreshing.
unfoldable pub view_with :
    String
    → List ReviewItem
    → List ReviewAction
    → ℕ
    → Bool
    → ReviewGroup
    → Option CapabilityConfig
    → Option (List GroupView)
    → Option (List GroupView)
unfolding refresh_known
view_with run_id items actions now left g none views = none
view_with run_id items actions now left g (some capability) none = none
view_with run_id items actions now left g (some capability) (some views) =
    some (refresh_known run_id items actions now left g capability ∷ views)

unfoldable pub refresh_each :
    Loaded
    → String
    → List ReviewItem
    → List ReviewAction
    → ℕ
    → Bool
    → List ReviewGroup
    → Option (List GroupView)
unfolding view_with find_capability
refresh_each loaded run_id items actions now left [] = some []
refresh_each loaded run_id items actions now left (g ∷ rest) =
    view_with run_id items actions now left g (find_capability g.capability_key loaded.capabilities)
      (refresh_each loaded run_id items actions now left rest)

unfoldable pub has_decided : List GroupView → Bool
unfolding is_pending
has_decided views = any (λ v. any (λ i. not (is_pending i.state)) v.items) views

unfoldable pub run_state : List GroupView → RunState
unfolding has_decided is_completed is_settled
run_state planned =
    if not (is_empty planned) && all (λ v. is_completed v.group.state) planned
    then RunState.completed
    else if not (has_decided planned)
    then not_started
    else if not (is_empty planned) && all (λ v. is_settled v.group.state) planned
    then RunState.awaiting_actions
    else RunState.in_progress

unfoldable pub is_run_completed : RunState → Bool
is_run_completed RunState.completed = true
is_run_completed _ = false

-- The run's columns, and the plan, which is settled where the review is completed.
unfoldable pub refreshed_run : RunState → ℕ → ReviewRun → ReviewRun
unfolding is_run_completed
refreshed_run state now run = record run {
  state = state;
  completed_at = if is_run_completed state then first_time run.completed_at now else none;
}
