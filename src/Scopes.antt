-- ===== src/Scopes.antt =====
-- adminos/domain/scopes.py: what was prepared, and what an execution is then allowed to touch.
-- The tables of a list of item identities are lists; a `set` of them is compared by `same_set`.
pub mod Single
use timmeny_admin_os.Common.{
  ℕ, String, Bool, true, false, not, ◌&&◌, Option, none, some, List, [], ◌∷◌, ◌++◌, ◌==◌,
  if◌then◌else◌, keep, map, elem, Result, ok, raised, refuse_if,
}
use timmeny_admin_os.Actions.Rows.{ReviewAction}
use timmeny_admin_os.Plan.Arrange.{dedupe, sort_keys, same_set}

pub data ScopeState : Type 0 where
  current executed superseded : ScopeState

pub record ExcludedItem : Type 0 where
  pub item_id : String
  pub reason : String

pub record ActionScope : Type 0 where
  pub id : String
  pub run_id : String
  pub capability_key : Option String
  pub state : ScopeState
  pub entire_capability : Bool
  pub requested_item_ids : List String
  pub prepared_item_ids : List String
  pub action_ids : List String
  pub excluded : List ExcludedItem
  pub executed_item_ids : Option (List String)
  pub verified_item_ids : Option (List String)
  pub superseded_by : Option String
  pub actor : String
  pub created_at : ℕ
  pub executed_at : Option ℕ

-- `ScopeMismatch` and `ScopeNotFound`: the two lists of a mismatch are what was prepared and what
-- was asked for, or would run.
pub data ScopeError : Type 0 where
  scope_not_found : String → ScopeError
  scope_not_current : String → ScopeState → ScopeError
  mismatch : String → List String → List String → ScopeError
  no_longer_approved : String → List String → ScopeError

unfoldable pub is_current : ScopeState → Bool
is_current current = true
is_current _ = false

-- `capability_key is None or scope.capability_key == capability_key`.
unfoldable pub covers : Option String → Option String → Bool
covers none held = true
covers (some key) none = false
covers (some key) (some held) = held == key

unfoldable pub is_open_scope : String → Option String → ActionScope → Bool
unfolding is_current covers
is_open_scope run_id capability_key scope =
    scope.run_id == run_id && is_current scope.state && covers capability_key scope.capability_key

unfoldable pub read_open_scopes : String → Option String → List ActionScope → List ActionScope
unfolding is_open_scope
read_open_scopes run_id capability_key scopes = keep (is_open_scope run_id capability_key) scopes

-- `scope.id == keep`.
unfoldable pub is_kept : Option String → ActionScope → Bool
is_kept none scope = false
is_kept (some kept) scope = scope.id == kept

unfoldable pub superseded_row : String → Option String → Option String → ActionScope → ActionScope
unfolding is_open_scope is_kept
superseded_row run_id capability_key kept scope =
    if is_open_scope run_id capability_key scope && not (is_kept kept scope)
    then record scope { state = superseded; superseded_by = kept }
    else scope

unfoldable pub supersede_open_scopes :
    String → Option String → Option String → List ActionScope → List ActionScope
unfolding superseded_row
supersede_open_scopes run_id capability_key kept scopes =
    map (superseded_row run_id capability_key kept) scopes

unfoldable pub new_scope :
    String
    → String
    → Option String
    → Bool
    → List String
    → List ReviewAction
    → List ExcludedItem
    → String
    → ℕ
    → ActionScope
new_scope id run_id capability_key entire_capability requested actions excluded actor now = record {
  id = id;
  run_id = run_id;
  capability_key = capability_key;
  state = current;
  entire_capability = entire_capability;
  requested_item_ids = requested;
  prepared_item_ids = map (λ a. a.item_id) actions;
  action_ids = map (λ a. a.id) actions;
  excluded = excluded;
  executed_item_ids = none;
  verified_item_ids = none;
  superseded_by = none;
  actor = actor;
  created_at = now;
  executed_at = none;
}

-- `id` is the identity that the database gives the new row.
unfoldable pub open_scope :
    String
    → String
    → Option String
    → Bool
    → List String
    → List ReviewAction
    → List ExcludedItem
    → String
    → ℕ
    → List ActionScope
    → ActionScope × List ActionScope
unfolding supersede_open_scopes new_scope
open_scope id run_id capability_key entire_capability requested actions excluded actor now scopes =
    let scope =
      new_scope id run_id capability_key entire_capability requested actions excluded actor now in
    (scope, supersede_open_scopes run_id capability_key none scopes ++ scope ∷ [])

unfoldable pub find_scope : String → List ActionScope → Option ActionScope
find_scope id [] = none
find_scope id (s ∷ ss) = if s.id == id then some s else find_scope id ss

unfoldable pub scope_of_run : String → String → Option ActionScope → Result ScopeError ActionScope
scope_of_run run_id id none = raised (scope_not_found id)
scope_of_run run_id id (some scope) =
    if scope.run_id == run_id then ok scope else raised (scope_not_found id)

unfoldable pub read_scope : String → String → List ActionScope → Result ScopeError ActionScope
unfolding scope_of_run find_scope
read_scope run_id id scopes = scope_of_run run_id id (find_scope id scopes)

unfoldable pub check_scope_current : ActionScope → Result ScopeError (Unit {0})
unfolding is_current
check_scope_current scope =
    refuse_if (not (is_current scope.state)) (scope_not_current scope.id scope.state)

unfoldable pub check_scope_matches : ActionScope → List String → Result ScopeError (Unit {0})
unfolding same_set
check_scope_matches scope item_ids =
    refuse_if (not (same_set scope.prepared_item_ids item_ids))
      (mismatch scope.id scope.prepared_item_ids item_ids)

unfoldable pub check_scope_invariant :
    ActionScope → List ReviewAction → Result ScopeError (Unit {0})
unfolding same_set
check_scope_invariant scope actions =
    let about_to_run = map (λ a. a.item_id) actions in
    refuse_if (not (same_set scope.prepared_item_ids about_to_run))
      (mismatch scope.id scope.prepared_item_ids about_to_run)

-- `sorted({action.item_id for action in actions})`.
unfoldable pub items_of : List ReviewAction → List String
unfolding dedupe sort_keys
items_of actions = sort_keys (dedupe (map (λ a. a.item_id) actions))

unfoldable pub settle_scope : List ReviewAction → List ReviewAction → ℕ → ActionScope → ActionScope
unfolding items_of
settle_scope executed_actions verified_actions now scope = record scope {
  executed_item_ids = some (items_of executed_actions);
  verified_item_ids = some (items_of verified_actions);
  state = executed;
  executed_at = some now;
}
