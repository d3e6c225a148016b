-- ===== src/Requests/Confirmed.antt =====
-- What `execute_actions` of adminos/api/actions.py has confirmed before anything runs.
use timmeny_admin_os.Common.{
  ℕ, ◌≤◌, String, Bool, true, false, not, ◌≡◌, refl, sym, subst, inl, inr, arith, Option, none,
  some, List, [], ◌∷◌, ◌==◌, Bool-cases, not-false, elem, keep, map, All, is_empty, ok, >>=-ok,
  then-ok, refuse_if, refuse_if-ok, ok-injective, eq_iff,
}
use timmeny_admin_os.Actions.Rows.{ReviewAction, ReviewItem, find_item}
use timmeny_admin_os.Plan.Arrange.{same_set}
use timmeny_admin_os.Plan.Arrange.Order.{same_set_sound}
use timmeny_admin_os.Scopes.{
  ScopeState, current, ActionScope, ScopeError, find_scope, read_scope, scope_of_run, is_current,
  check_scope_current, check_scope_matches, check_scope_invariant,
}
use timmeny_admin_os.Requests.{Database, find_action, lift_scope}
use timmeny_admin_os.Requests.Selecting.{
  ExecuteRequest, is_withdrawn, check_action_ids, no_longer_stands, later_than, is_redecided,
  decided_after, check_decisions_stand, lookup_each, authorised,
}
use timmeny_admin_os.Requests.Lookups.{lift_scope-ok, lookup_each-found}

-- The item of an action still is the approval that was prepared.
pub record Stands (scope : ActionScope) (items : List ReviewItem) (action : ReviewAction)
    : Type 0 where
  pub item : ReviewItem
  pub decided : ℕ
  pub found : find_item action.item_id items ≡ some item
  pub kept : is_withdrawn item.state ≡ false
  pub decided_at : item.decided_at ≡ some decided
  pub before : decided ≤ scope.created_at

-- The scope and the actions are those that the request restates.
pub record IsConfirmed (run_id : String) (request : ExecuteRequest) (db : Database)
    (scope : ActionScope) (actions : List ReviewAction) : Type 0 where
  pub found : find_scope request.scope_id db.scopes ≡ some scope
  pub own : scope.run_id ≡ run_id
  pub is_current : scope.state ≡ current
  pub same_items : (id : String) → elem id scope.prepared_item_ids ≡ elem id request.item_ids
  pub same_actions : (id : String) → elem id scope.action_ids ≡ elem id request.action_ids
  pub to_run : map (λ a. a.id) actions ≡ scope.action_ids
  pub looked_up : All (λ a. find_action a.id db.actions ≡ some a) actions
  pub run_items :
      (id : String) → elem id scope.prepared_item_ids ≡ elem id (map (λ a. a.item_id) actions)
  pub stand : All (Stands scope db.items) actions

checked_set :
    (xs ys : List String) (e : ScopeError)
    → lift_scope (refuse_if (not (same_set xs ys)) e) ≡ ok tt
    → (id : String) → elem id xs ≡ elem id ys
checked_set xs ys e h id =
    same_set_sound xs ys id (not-false (same_set xs ys) (refuse_if-ok _ e (lift_scope-ok _ h)))

state-current : (state : ScopeState) → is_current state ≡ true → state ≡ current
unfolding is_current
state-current state h = ground arith

scope_of_run-found :
    (run_id id : String) (o : Option ActionScope) (scope : ActionScope)
    → scope_of_run run_id id o ≡ ok scope
    → (o ≡ some scope) × (scope.run_id ≡ run_id)
unfolding scope_of_run
scope_of_run-found run_id id none scope h = cc
scope_of_run-found run_id id (some s) scope h = elim (Bool-cases (s.run_id == run_id)) [
  | inl own ↦
      let same = ok-injective (rw own at h) in
      subst (λ t. (some s ≡ some t) × (t.run_id ≡ run_id)) (sym same)
        (refl, (eq_iff s.run_id run_id).0 own)
  | inr other ↦ let impossible = rw other at h in cc
]

Stands-at :
    (scope : ActionScope) (items : List ReviewItem) (action : ReviewAction) (item : ReviewItem)
    (when : Option ℕ)
    → find_item action.item_id items ≡ some item
    → is_withdrawn item.state ≡ false
    → item.decided_at ≡ when
    → later_than scope.created_at when ≡ false
    → Stands scope items action
unfolding later_than
Stands-at scope items action item none e kept w l = cc
Stands-at scope items action item (some d) e kept w l = record {
  item = item;
  decided = d;
  found = e;
  kept = kept;
  decided_at = w;
  before = ground (arith, l);
}

Stands-of :
    (scope : ActionScope) (items : List ReviewItem) (action : ReviewAction) (o : Option ReviewItem)
    → find_item action.item_id items ≡ o
    → no_longer_stands scope o ≡ false
    → Stands scope items action
unfolding no_longer_stands decided_after
Stands-of scope items action none e h = cc
Stands-of scope items action (some item) e h = elim (Bool-cases (is_withdrawn item.state)) [
  | inl gone ↦ let impossible = rw gone at h in cc
  | inr kept ↦ Stands-at scope items action item item.decided_at e kept refl (rw kept at h)
]

All-Stands :
    (scope : ActionScope) (items : List ReviewItem) (actions : List ReviewAction)
    → All (λ a. is_redecided scope items a ≡ false) actions
    → All (Stands scope items) actions
unfolding is_redecided
All-Stands scope items [] h = tt
All-Stands scope items (a ∷ rest) h =
    (Stands-of scope items a _ refl h.0, All-Stands scope items rest h.1)

keep-none :
    (p : ReviewAction → Bool) (actions : List ReviewAction)
    → is_empty (keep p actions) ≡ true
    → All (λ a. p a ≡ false) actions
keep-none p [] h = tt
keep-none p (a ∷ rest) h = elim (Bool-cases (p a)) [
  | inl e ↦ let impossible = rw e at h in cc
  | inr e ↦ (e, keep-none p rest (rw e at h))
]

checked_stand :
    (scope : ActionScope) (items : List ReviewItem) (actions : List ReviewAction)
    → lift_scope (check_decisions_stand scope items actions) ≡ ok tt
    → All (Stands scope items) actions
unfolding check_decisions_stand
checked_stand scope items actions h = All-Stands scope items actions (
    keep-none (is_redecided scope items) actions
      (not-false _ (refuse_if-ok _ _ (lift_scope-ok _ h))))

pub authorised-IsConfirmed :
    (run_id : String) (request : ExecuteRequest) (db : Database) (scope : ActionScope)
    (actions : List ReviewAction)
    → authorised run_id request db ≡ ok (scope, actions)
    → IsConfirmed run_id request db scope actions
unfolding authorised read_scope check_scope_current check_scope_matches check_action_ids
    check_scope_invariant
authorised-IsConfirmed run_id request db scope actions h =
    let (s, read, more) = >>=-ok (lift_scope (read_scope run_id request.scope_id db.scopes)) _ h in
    let (now, more) = then-ok (lift_scope (check_scope_current s)) _ more in
    let (items, more) = then-ok (lift_scope (check_scope_matches s request.item_ids)) _ more in
    let (ids, more) = then-ok (lift_scope (check_action_ids s request.action_ids)) _ more in
    let (xs, looked, more) = >>=-ok (lookup_each run_id s.action_ids db.actions) _ more in
    let (invariant, more) = then-ok (lift_scope (check_scope_invariant s xs)) _ more in
    let (stand, made) = then-ok (lift_scope (check_decisions_stand s db.items xs)) _ more in
    let (found, own) = scope_of_run-found run_id request.scope_id _ s (lift_scope-ok _ read) in
    let (named, rows) = lookup_each-found run_id s.action_ids db.actions xs looked in
    subst (λ p. IsConfirmed run_id request db p.0 p.1) (sym (ok-injective made))
      record {
        found = found;
        own = own;
        is_current = state-current s.state (not-false _ (refuse_if-ok _ _ (lift_scope-ok _ now)));
        same_items = checked_set s.prepared_item_ids request.item_ids _ items;
        same_actions = checked_set s.action_ids request.action_ids _ ids;
        to_run = named;
        looked_up = rows;
        run_items = checked_set s.prepared_item_ids (map (λ a. a.item_id) xs) _ invariant;
        stand = checked_stand s db.items xs stand;
      }
