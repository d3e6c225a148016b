-- ===== src/Requests/Gates.antt =====
-- The gates of adminos/api/actions.py that stand before the first call to Gmail.
use timmeny_admin_os.Common.{
  ℕ, String, Bool, true, false, ◌≡◌, refl, sym, ap, subst, ◌⊎◌, inl, inr, Option, none, some, List,
  Bool-cases, not-false, if◌then◌else◌, Result, ok, raised, >>=-ok, then-ok, refuse_if,
  refuse_if-ok, ok-injective,
}
use timmeny_admin_os.Capabilities.Config.{CapabilityConfig}
use timmeny_admin_os.Actions.Rows.{ReviewAction}
use timmeny_admin_os.Actions.Mail.{GmailClient}
use timmeny_admin_os.Review.Rows.{ReviewRun, find_run, is_abandoned}
use timmeny_admin_os.Scopes.{ActionScope}
use timmeny_admin_os.Requests.{HttpProblem, not_confirmed, Database, open_review, run_at_work}
use timmeny_admin_os.Requests.Selecting.{ExecuteRequest, select_actions, authorised, with_scope}
use timmeny_admin_os.Requests.Confirmed.{IsConfirmed, authorised-IsConfirmed}
use timmeny_admin_os.Requests.Executing.{
  World, run_selected, selection, run_actions, execute_actions,
}
use timmeny_admin_os.Requests.Exact.{IsExact, run_selected-IsExact}

-- Writes are enabled, the review is one at work, and the scope is confirmed.
pub record IsAdmitted (write_enabled : Bool) (run_id : String) (request : ExecuteRequest)
    (db : Database) (scope : ActionScope) (actions : List ReviewAction) : Type 0 where
  pub run : ReviewRun
  pub asked : request.confirm ≡ true
  pub enabled : write_enabled ≡ true
  pub review : find_run run_id db.runs ≡ some run
  pub at_work : is_abandoned run.state ≡ false
  pub confirmed : IsConfirmed run_id request db scope actions

run_at_work-found :
    (id : String) (o : Option ReviewRun) (run : ReviewRun)
    → run_at_work id o ≡ ok run
    → (o ≡ some run) × (is_abandoned run.state ≡ false)
unfolding run_at_work
run_at_work-found id none run h = cc
run_at_work-found id (some r) run h = elim (Bool-cases (is_abandoned r.state)) [
  | inl gone ↦ let impossible = rw gone at h in cc
  | inr stays ↦
      subst (λ t. (some r ≡ some t) × (is_abandoned t.state ≡ false))
        (sym (ok-injective (rw stays at h))) (refl, stays)
]

with_scope-some :
    (p : ActionScope × List ReviewAction) (scope : Option ActionScope) (actions : List ReviewAction)
    → with_scope p ≡ ok (scope, actions)
    → (scope ≡ some p.0) × (actions ≡ p.1)
with_scope-some (s, xs) scope actions h =
    let same = ok-injective h in (ap (λ q. q.0) same, ap (λ q. q.1) same)

same_scope : {s scope : ActionScope} → some scope ≡ some s → s ≡ scope
same_scope h = cc

selection-IsAdmitted :
    (write_enabled : Bool) (run_id : String) (request : ExecuteRequest) (db : Database)
    (scope : Option ActionScope) (actions : List ReviewAction)
    → request.confirm ≡ true
    → selection write_enabled run_id (some request) none db ≡ ok (scope, actions)
    → (s : ActionScope) × (scope ≡ some s) × IsAdmitted write_enabled run_id request db s actions
unfolding selection open_review select_actions
selection-IsAdmitted write_enabled run_id request db scope actions asked h =
    let (writes, more) = then-ok (refuse_if _ _) _ h in
    let (run, opened, more) = >>=-ok (run_at_work run_id (find_run run_id db.runs)) _ more in
    let (p, chosen, made) = >>=-ok (authorised run_id request db) with_scope more in
    let (named, listed) = with_scope-some p scope actions made in
    let (there, at_work) = run_at_work-found run_id _ run opened in
    (
      p.0,
      named,
      record {
        run = run;
        asked = asked;
        enabled = not-false write_enabled (refuse_if-ok _ _ writes);
        review = there;
        at_work = at_work;
        confirmed =
            subst (λ xs. IsConfirmed run_id request db p.0 xs) (sym listed)
              (authorised-IsConfirmed run_id request db p.0 p.1 chosen);
      },
    )

module _ {M : Type 0} (client : GmailClient M) (upper : String → String)
    (loaded : List CapabilityConfig) (now : ℕ) where
  -- What an answer to `execute_actions` says: nothing was touched, or what ran was admitted and, where
  -- the request returns, what it is recorded to have touched is what was asked for.
  pub record IsGated (write_enabled : Bool) (run_id : String) (request : ExecuteRequest)
      (w : World M) (o : Result HttpProblem (List ReviewAction) × World M) : Type 0 where
    pub scope : ActionScope
    pub actions : List ReviewAction
    pub admitted : IsAdmitted write_enabled run_id request w.db scope actions
    pub exact : (done : List ReviewAction) → o.0 ≡ ok done → IsExact request o.1.db.scopes

  run_selected-IsGated :
      (write_enabled : Bool) (run_id : String) (request : ExecuteRequest) (w : World M)
      (r : Result HttpProblem (Option ActionScope × List ReviewAction))
      → request.confirm ≡ true
      → selection write_enabled run_id (some request) none w.db ≡ r
      → ((run_selected client upper loaded now run_id w r).1 ≡ w)
        ⊎ IsGated write_enabled run_id request w (run_selected client upper loaded now run_id w r)
  unfolding run_selected
  run_selected-IsGated write_enabled run_id request w (raised e) asked h = inl refl
  run_selected-IsGated write_enabled run_id request w (ok (none, actions)) asked h =
      let (s, named, _) =
        selection-IsAdmitted write_enabled run_id request w.db none actions asked h in
      cc
  run_selected-IsGated write_enabled run_id request w (ok (some scope, actions)) asked h =
      let (s, named, admitted) =
        selection-IsAdmitted write_enabled run_id request w.db (some scope) actions asked h in
      let own =
        subst (λ t. IsAdmitted write_enabled run_id request w.db t actions) (same_scope named)
          admitted in
      inr record {
        scope = scope;
        actions = actions;
        admitted = own;
        exact = λ done d.
            run_selected-IsExact client upper loaded now run_id request w scope actions done
              own.confirmed d;
      }

  asked-IsGated :
      (asked write_enabled : Bool) (run_id : String) (request : ExecuteRequest) (w : World M)
      → request.confirm ≡ asked
      → ((if asked
            then run_actions client upper loaded now write_enabled run_id (some request) none w
            else (raised not_confirmed, w)).1
          ≡ w)
        ⊎ IsGated write_enabled run_id request w (
            if asked
            then run_actions client upper loaded now write_enabled run_id (some request) none w
            else (raised not_confirmed, w))
  unfolding run_actions
  asked-IsGated false write_enabled run_id request w asked = inl refl
  asked-IsGated true write_enabled run_id request w asked =
      run_selected-IsGated write_enabled run_id request w _ asked refl

  -- `execute_actions` leaves every row and the mailbox untouched, or these hold: the request was
  -- confirmed, writes are enabled, the review is there and not abandoned, the scope is this review's
  -- and current, the items and the actions restated are as sets those prepared, the actions about to
  -- run are the scope's and have the prepared items, and each item is approved by a decision no later
  -- than the scope. Where it then returns, the scope is closed, and the items recorded as touched are
  -- those restated, no more and no fewer.
  pub execute_actions-IsGated :
      (write_enabled : Bool) (run_id : String) (request : ExecuteRequest) (w : World M)
      → ((execute_actions client upper loaded now write_enabled run_id request w).1 ≡ w)
        ⊎ IsGated write_enabled run_id request w
            (execute_actions client upper loaded now write_enabled run_id request w)
  unfolding execute_actions
  execute_actions-IsGated write_enabled run_id request w =
      asked-IsGated request.confirm write_enabled run_id request w refl
