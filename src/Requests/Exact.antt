-- ===== src/Requests/Exact.antt =====
-- What an execution that returns records of the scope (adminos/api/actions.py,
-- adminos/domain/scopes.py).
use timmeny_admin_os.Common.{
  ℕ, String, ◌≡◌, refl, sym, ap, subst, ◌∙◌, inl, inr, arith, some, List, [], ◌∷◌, ◌==◌, Bool-cases,
  elem, keep, map, All, Result, ok, raised, eq_iff, eq_refl,
}
use timmeny_admin_os.Capabilities.Config.{CapabilityConfig}
use timmeny_admin_os.Actions.Rows.{ReviewAction, completed, state_eq}
use timmeny_admin_os.Actions.Mail.{GmailClient}
use timmeny_admin_os.Plan.Arrange.{dedupe, sort_keys}
use timmeny_admin_os.Plan.Arrange.Order.{elem-dedupe, elem-sort_keys}
use timmeny_admin_os.Scopes.{executed, ActionScope, find_scope, items_of, settle_scope}
use timmeny_admin_os.Requests.{HttpProblem, Database, find_action}
use timmeny_admin_os.Requests.Selecting.{ExecuteRequest}
use timmeny_admin_os.Requests.Confirmed.{IsConfirmed}
use timmeny_admin_os.Requests.Executing.{
  World, save_scope, as_they_are, settled_scopes, closed, run_selected,
}
use timmeny_admin_os.Requests.Tracking.{Tracks, run_each-Tracks, run_each-scopes}

some-injective : {x y : ReviewAction} → some x ≡ some y → y ≡ x
some-injective h = cc

as_they_are-items :
    (before after : List ReviewAction) (actions : List ReviewAction)
    → Tracks before after
    → All (λ a. find_action a.id before ≡ some a) actions
    → map (λ a. a.item_id) (as_they_are after actions) ≡ map (λ a. a.item_id) actions
unfolding as_they_are
as_they_are-items before after [] t f = refl
as_they_are-items before after (a ∷ rest) t f =
    let (a', found, same) = t a.id a f.0 in
    rw found (rw (ap (λ p. p.item_id) same) (rw (as_they_are-items before after rest t f.1) refl))

find-save_scope :
    (scope old : ActionScope) (scopes : List ActionScope)
    → find_scope scope.id scopes ≡ some old
    → find_scope scope.id (save_scope scope scopes) ≡ some scope
unfolding find_scope save_scope
find-save_scope scope old [] h = cc
find-save_scope scope old (s ∷ rest) h = elim (Bool-cases (s.id == scope.id)) [
  | inl e ↦ rw e (rw (eq_refl scope.id) refl)
  | inr e ↦ rw e (rw e (find-save_scope scope old rest (rw e at h)))
]

find_scope-id :
    (id : String) (scopes : List ActionScope) (scope : ActionScope)
    → find_scope id scopes ≡ some scope
    → scope.id ≡ id
unfolding find_scope
find_scope-id id [] scope h = cc
find_scope-id id (s ∷ rest) scope h = elim (Bool-cases (s.id == id)) [
  | inl e ↦ ground (arith, h, e, (eq_iff s.id id).0 e)
  | inr e ↦ find_scope-id id rest scope (rw e at h)
]

-- The scope is closed, and the items that it is recorded to have touched are those of the request.
pub record IsExact (request : ExecuteRequest) (scopes : List ActionScope) : Type 0 where
  pub scope : ActionScope
  pub touched : List String
  pub found : find_scope request.scope_id scopes ≡ some scope
  pub closed : scope.state ≡ executed
  pub recorded : scope.executed_item_ids ≡ some touched
  pub same_items : (id : String) → elem id touched ≡ elem id request.item_ids
  pub prepared : (id : String) → elem id touched ≡ elem id scope.prepared_item_ids

module _ {M : Type 0} (client : GmailClient M) (upper : String → String)
    (loaded : List CapabilityConfig) (now : ℕ) where
  settled_scopes-IsExact :
      (run_id : String) (request : ExecuteRequest) (before db : Database) (scope : ActionScope)
      (actions done : List ReviewAction)
      → IsConfirmed run_id request before scope actions
      → db.scopes ≡ before.scopes
      → map (λ a. a.item_id) done ≡ map (λ a. a.item_id) actions
      → IsExact request (settled_scopes now (some scope) done db).scopes
  unfolding settled_scopes settle_scope items_of
  settled_scopes-IsExact run_id request before db scope actions done c same items =
      let touched = sort_keys (dedupe (map (λ a. a.item_id) done)) in
      let own = find_scope-id request.scope_id before.scopes scope c.found in
      let ran = λ (id : String).
        elem-sort_keys id (dedupe (map (λ a. a.item_id) done))
        ∙ elem-dedupe id (map (λ a. a.item_id) done)
        ∙ ap (elem id) items
        ∙ sym (c.run_items id) in
      record {
        scope = settle_scope done (keep (λ a. state_eq a.state completed) done) now scope;
        touched = touched;
        found =
            subst
              (λ id.
                find_scope id (settled_scopes now (some scope) done db).scopes
                ≡ some (settle_scope done (keep (λ a. state_eq a.state completed) done) now scope))
              own
              (find-save_scope _ scope db.scopes (
                ap (find_scope scope.id) same
                ∙ subst (λ id. find_scope id before.scopes ≡ some scope) (sym own) c.found));
        closed = refl;
        recorded = refl;
        same_items = λ id. ran id ∙ c.same_items id;
        prepared = ran;
      }

  closed-IsExact :
      (run_id : String) (request : ExecuteRequest) (w : World M) (scope : ActionScope)
      (actions done : List ReviewAction) (o : Result HttpProblem (Unit {0}) × World M)
      → IsConfirmed run_id request w.db scope actions
      → Tracks w.db.actions o.1.db.actions
      → o.1.db.scopes ≡ w.db.scopes
      → (closed client upper loaded now w (some scope) actions o).0 ≡ ok done
      → IsExact request (closed client upper loaded now w (some scope) actions o).1.db.scopes
  unfolding closed
  closed-IsExact run_id request w scope actions done (raised e, w') c t same h = cc
  closed-IsExact run_id request w scope actions done (ok _, w') c t same h =
      settled_scopes-IsExact run_id request w.db w'.db scope actions
        (as_they_are w'.db.actions actions) c same
        (as_they_are-items w.db.actions w'.db.actions actions t c.looked_up)

  pub run_selected-IsExact :
      (run_id : String) (request : ExecuteRequest) (w : World M) (scope : ActionScope)
      (actions done : List ReviewAction)
      → IsConfirmed run_id request w.db scope actions
      → (run_selected client upper loaded now run_id w (ok (some scope, actions))).0 ≡ ok done
      → IsExact request
          (run_selected client upper loaded now run_id w (ok (some scope, actions))).1.db.scopes
  unfolding run_selected
  run_selected-IsExact run_id request w scope actions done c h =
      closed-IsExact run_id request w scope actions done _ c
        (run_each-Tracks client upper loaded now run_id (map (λ a. a.id) actions) w)
        (run_each-scopes client upper loaded now run_id (map (λ a. a.id) actions) w) h
