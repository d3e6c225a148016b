-- ===== src/Requests.antt =====
-- adminos/api/actions.py: the requests that prepare and execute what was approved, over the rows of
-- the database and the mailbox. A request is one transaction, `session_scope` of adminos/db/engine.py:
-- where it raises, the rows are as they were, and the mailbox is as the calls to Gmail left it.
pub mod Selecting
pub mod Preparing
pub mod Executing
pub mod OneAction
pub mod Lookups
pub mod Confirmed
pub mod Tracking
pub mod Exact
pub mod Gates
pub mod RolledBack
pub mod Failing
use timmeny_admin_os.Common.{
  ℕ, String, Bool, true, false, Option, none, some, List, [], ◌∷◌, ◌==◌, if◌then◌else◌, Result, ok,
  raised,
}
use timmeny_admin_os.Capabilities.Config.{CapabilityConfig, find_capability}
use timmeny_admin_os.Actions.Rows.{
  ReviewAction, ReviewItem, ReviewDecision, ActionEvent, ActionError, find_item,
}
use timmeny_admin_os.Review.Rows.{ReviewRun, ReviewGroup, find_run, is_abandoned}
use timmeny_admin_os.Scopes.{ActionScope, ScopeError}

pub data HttpProblem : Type 0 where
  not_confirmed nothing_to_execute writes_disabled : HttpProblem
  review_not_found review_abandoned item_not_found : String → HttpProblem
  action_not_found unknown_capability no_group : String → HttpProblem
  no_items two_selections unknown_selection no_capability_named : HttpProblem
  scope_refused : ScopeError → HttpProblem
  action_failed : ActionError → HttpProblem

-- The rows that the requests read and write.
pub record Database : Type 0 where
  pub runs : List ReviewRun
  pub groups : List ReviewGroup
  pub items : List ReviewItem
  pub decisions : List ReviewDecision
  pub actions : List ReviewAction
  pub events : List ActionEvent
  pub scopes : List ActionScope

-- `session.get(ReviewAction, id)`, and the writes to the columns of a row that was read.
unfoldable pub find_action : String → List ReviewAction → Option ReviewAction
find_action id [] = none
find_action id (a ∷ rest) = if a.id == id then some a else find_action id rest

unfoldable pub save_action : ReviewAction → List ReviewAction → List ReviewAction
save_action action [] = []
save_action action (a ∷ rest) =
    let others = save_action action rest in if a.id == action.id then action ∷ rest else a ∷ others

unfoldable pub action_of_run :
    String → String → Option ReviewAction → Result HttpProblem ReviewAction
action_of_run run_id id none = raised (action_not_found id)
action_of_run run_id id (some action) =
    if action.run_id == run_id then ok action else raised (action_not_found id)

unfoldable pub lookup_action : String → String → List ReviewAction → Result HttpProblem ReviewAction
unfolding action_of_run find_action
lookup_action run_id id actions = action_of_run run_id id (find_action id actions)

capability_found : String → Option CapabilityConfig → Result HttpProblem CapabilityConfig
capability_found key none = raised (unknown_capability key)
capability_found key (some capability) = ok capability

unfoldable pub read_capability :
    List CapabilityConfig → String → Result HttpProblem CapabilityConfig
unfolding capability_found find_capability
read_capability loaded key = capability_found key (find_capability key loaded)

-- `open_review` and `refuse_abandoned` of adminos/api/review.py.
run_at_work : String → Option ReviewRun → Result HttpProblem ReviewRun
unfolding is_abandoned
run_at_work id none = raised (review_not_found id)
run_at_work id (some run) = if is_abandoned run.state then raised (review_abandoned id) else ok run

unfoldable pub open_review : String → List ReviewRun → Result HttpProblem ReviewRun
unfolding run_at_work find_run
open_review id runs = run_at_work id (find_run id runs)

unfoldable pub lift_scope : {A : Type 0} → Result ScopeError A → Result HttpProblem A
lift_scope (ok a) = ok a
lift_scope (raised e) = raised (scope_refused e)
