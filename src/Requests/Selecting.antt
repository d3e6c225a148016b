-- ===== src/Requests/Selecting.antt =====
-- `select_actions` of adminos/api/actions.py, and the checks that it makes before the first write.
use timmeny_admin_os.Common.{
  ℕ, String, Bool, true, false, not, ◌||◌, Option, none, some, List, [], ◌∷◌, keep, map, is_empty,
  ltb, Result, ok, raised, ◌>>=◌, ◌>>◌, refuse_if,
}
use timmeny_admin_os.Actions.Rows.{
  ItemState, pending, dismissed, deferred, ReviewAction, ReviewItem, find_item,
}
use timmeny_admin_os.Plan.Arrange.{same_set}
use timmeny_admin_os.Scopes.{
  ActionScope, ScopeError, mismatch, no_longer_approved, read_scope, check_scope_current,
  check_scope_matches, check_scope_invariant,
}
use timmeny_admin_os.Requests.{HttpProblem, nothing_to_execute, Database, lookup_action, lift_scope}

pub record ExecuteRequest : Type 0 where
  pub scope_id : String
  pub item_ids : List String
  pub action_ids : List String
  pub confirm : Bool

-- `item.state in WITHDRAWN_ITEM_STATES`.
unfoldable pub is_withdrawn : ItemState → Bool
is_withdrawn pending = true
is_withdrawn dismissed = true
is_withdrawn deferred = true
is_withdrawn _ = false

unfoldable pub check_action_ids : ActionScope → List String → Result ScopeError (Unit {0})
unfolding same_set
check_action_ids scope action_ids =
    refuse_if (not (same_set scope.action_ids action_ids))
      (mismatch scope.id scope.action_ids action_ids)

unfoldable pub later_than : ℕ → Option ℕ → Bool
later_than moment none = true
later_than moment (some decided_at) = ltb moment decided_at

unfoldable pub decided_after : ReviewItem → ActionScope → Bool
unfolding later_than
decided_after item scope = later_than scope.created_at item.decided_at

unfoldable pub no_longer_stands : ActionScope → Option ReviewItem → Bool
unfolding is_withdrawn decided_after
no_longer_stands scope none = true
no_longer_stands scope (some item) = is_withdrawn item.state || decided_after item scope

unfoldable pub is_redecided : ActionScope → List ReviewItem → ReviewAction → Bool
unfolding no_longer_stands find_item
is_redecided scope items action = no_longer_stands scope (find_item action.item_id items)

unfoldable pub check_decisions_stand :
    ActionScope → List ReviewItem → List ReviewAction → Result ScopeError (Unit {0})
unfolding is_redecided
check_decisions_stand scope items actions =
    let withdrawn = keep (is_redecided scope items) actions in
    refuse_if (not (is_empty withdrawn))
      (no_longer_approved scope.id (map (λ a. a.item_id) withdrawn))

-- `[lookup_action(session, run, action_id) for action_id in scope.action_ids]`.
unfoldable pub lookup_each :
    String → List String → List ReviewAction → Result HttpProblem (List ReviewAction)
unfolding lookup_action
lookup_each run_id [] actions = ok []
lookup_each run_id (id ∷ ids) actions = do
  action ← lookup_action run_id id actions
  others ← lookup_each run_id ids actions
  ok (action ∷ others)

-- The actions that a scope authorises.
unfoldable pub authorised :
    String → ExecuteRequest → Database → Result HttpProblem (ActionScope × List ReviewAction)
unfolding read_scope lookup_each check_scope_current check_scope_matches check_action_ids
    check_scope_invariant check_decisions_stand lift_scope
authorised run_id request db = do
  scope ← lift_scope (read_scope run_id request.scope_id db.scopes)
  lift_scope (check_scope_current scope)
  lift_scope (check_scope_matches scope request.item_ids)
  lift_scope (check_action_ids scope request.action_ids)
  actions ← lookup_each run_id scope.action_ids db.actions
  lift_scope (check_scope_invariant scope actions)
  lift_scope (check_decisions_stand scope db.items actions)
  ok (scope, actions)

abbrev pub with_scope :
    ActionScope × List ReviewAction → Result HttpProblem (Option ActionScope × List ReviewAction)
with_scope (scope, actions) = ok (some scope, actions)

-- Retrying one action is the only way without a scope.
unfoldable pub select_actions :
    String
    → Option ExecuteRequest
    → Option String
    → Database
    → Result HttpProblem (Option ActionScope × List ReviewAction)
unfolding authorised lookup_action
select_actions run_id request (some id) db = do
  action ← lookup_action run_id id db.actions
  ok (none, action ∷ [])
select_actions run_id none none db = raised nothing_to_execute
select_actions run_id (some request) none db = authorised run_id request db >>= with_scope
