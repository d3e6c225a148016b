-- ===== src/Requests/Executing.antt =====
-- `execute_actions`, `retry_action` and `run_actions` of adminos/api/actions.py. `upper` is `str.upper`.
-- The client stands for an open one, so that the 503 of `require_gmail_credentials` where Gmail is not
-- configured is left out.
use timmeny_admin_os.Common.{
  ℕ, String, Bool, true, not, Option, none, some, List, [], ◌∷◌, ◌==◌, if◌then◌else◌, keep, map,
  Result, ok, raised, ◌>>◌, refuse_if,
}
use timmeny_admin_os.Capabilities.Config.{CapabilityConfig}
use timmeny_admin_os.Actions.Rows.{ReviewAction, ActionError, completed, state_eq}
use timmeny_admin_os.Actions.Mail.{GmailClient}
use timmeny_admin_os.Actions.Lifecycle.{Work, prepare_action, execute_action}
use timmeny_admin_os.Scopes.{ActionScope, settle_scope}
use timmeny_admin_os.Requests.{
  HttpProblem, not_confirmed, writes_disabled, action_failed, Database, find_action, save_action,
  lookup_action, read_capability, open_review,
}
use timmeny_admin_os.Requests.Selecting.{ExecuteRequest, select_actions}

-- The rows of the transaction at hand, and the mailbox.
pub record World (M : Type 0) : Type 0 where
  pub db : Database
  pub mailbox : M

-- The writes to the columns of a scope that was read.
unfoldable pub save_scope : ActionScope → List ActionScope → List ActionScope
save_scope scope [] = []
save_scope scope (s ∷ rest) =
    let others = save_scope scope rest in if s.id == scope.id then scope ∷ rest else s ∷ others

-- The actions as they are at the end, the objects that the loop was given.
unfoldable pub as_they_are : List ReviewAction → List ReviewAction → List ReviewAction
unfolding find_action
as_they_are actions [] = []
as_they_are actions (a ∷ rest) =
    elim (find_action a.id actions) [ none ↦ a | some row ↦ row ] ∷ as_they_are actions rest

unfoldable pub settled_scopes : ℕ → Option ActionScope → List ReviewAction → Database → Database
unfolding save_scope settle_scope state_eq
settled_scopes now none executed db = db
settled_scopes now (some scope) executed db = record db {
  scopes =
      save_scope (settle_scope executed (keep (λ a. state_eq a.state completed) executed) now scope)
        db.scopes;
}

abbrev pub and_then :
    {M : Type 0}
    → Result HttpProblem (Unit {0}) × World M
    → (World M → Result HttpProblem (Unit {0}) × World M)
    → Result HttpProblem (Unit {0}) × World M
and_then (raised e, w) next = (raised e, w)
and_then (ok _, w) next = next w

-- What is found before the loop.
unfoldable pub selection :
    Bool
    → String
    → Option ExecuteRequest
    → Option String
    → Database
    → Result HttpProblem (Option ActionScope × List ReviewAction)
unfolding open_review select_actions
selection write_enabled run_id request retry db = do
  refuse_if (not write_enabled) writes_disabled
  open_review run_id db.runs
  select_actions run_id request retry db

module _ {M : Type 0} (client : GmailClient M) (upper : String → String)
    (loaded : List CapabilityConfig) (now : ℕ) where
  abbrev pub work_on : ReviewAction → World M → Work M
  work_on action w = record {
    action = action;
    items = w.db.items;
    events = w.db.events;
    mailbox = w.mailbox;
  }

  abbrev pub worked : Work M → World M → World M
  worked done w = record {
    db = record w.db {
      actions = save_action done.action w.db.actions;
      items = done.items;
      events = done.events;
    };
    mailbox = done.mailbox;
  }

  unfoldable pub execute_prepared :
      CapabilityConfig
      → Result ActionError (Unit {0}) × Work M
      → Result ActionError (Unit {0}) × Work M
  unfolding execute_action
  execute_prepared capability (raised e, w) = (raised e, w)
  execute_prepared capability (ok _, w) = execute_action client capability now true w

  unfoldable pub ended :
      World M → Result ActionError (Unit {0}) × Work M → Result HttpProblem (Unit {0}) × World M
  unfolding save_action
  ended w (raised e, done) = (raised (action_failed e), worked done w)
  ended w (ok _, done) = (ok tt, worked done w)

  unfoldable pub run_with :
      ReviewAction
      → World M
      → Result HttpProblem CapabilityConfig
      → Result HttpProblem (Unit {0}) × World M
  unfolding ended execute_prepared prepare_action
  run_with action w (raised e) = (raised e, w)
  run_with action w (ok capability) =
      ended w (execute_prepared capability (prepare_action upper capability now (work_on action w)))

  unfoldable pub run_found :
      World M → Result HttpProblem ReviewAction → Result HttpProblem (Unit {0}) × World M
  unfolding run_with read_capability
  run_found w (raised e) = (raised e, w)
  run_found w (ok action) = run_with action w (read_capability loaded action.capability_key)

  -- One turn of the loop. The row is the session's one object for it, so it is read as it is now.
  unfoldable pub run_one : String → String → World M → Result HttpProblem (Unit {0}) × World M
  unfolding run_found lookup_action
  run_one run_id id w = run_found w (lookup_action run_id id w.db.actions)

  -- The loop of `run_actions`: an exception ends it.
  unfoldable pub run_each : String → List String → World M → Result HttpProblem (Unit {0}) × World M
  unfolding run_one
  run_each run_id [] w = (ok tt, w)
  run_each run_id (id ∷ ids) w = and_then (run_one run_id id w) (λ w'. run_each run_id ids w')

  -- `session.commit()`, or `session.rollback()` and the exception.
  unfoldable pub closed :
      World M
      → Option ActionScope
      → List ReviewAction
      → Result HttpProblem (Unit {0}) × World M
      → Result HttpProblem (List ReviewAction) × World M
  unfolding settled_scopes as_they_are
  closed before scope actions (raised e, w) = (raised e, record w { db = before.db })
  closed before scope actions (ok _, w) =
      let executed = as_they_are w.db.actions actions in
      (ok executed, record w { db = settled_scopes now scope executed w.db })

  unfoldable pub run_selected :
      String
      → World M
      → Result HttpProblem (Option ActionScope × List ReviewAction)
      → Result HttpProblem (List ReviewAction) × World M
  unfolding closed run_each
  run_selected run_id w (raised e) = (raised e, w)
  run_selected run_id w (ok (scope, actions)) =
      closed w scope actions (run_each run_id (map (λ a. a.id) actions) w)

  unfoldable pub run_actions :
      Bool
      → String
      → Option ExecuteRequest
      → Option String
      → World M
      → Result HttpProblem (List ReviewAction) × World M
  unfolding run_selected selection
  run_actions write_enabled run_id request retry w =
      run_selected run_id w (selection write_enabled run_id request retry w.db)

  unfoldable pub execute_actions :
      Bool → String → ExecuteRequest → World M → Result HttpProblem (List ReviewAction) × World M
  unfolding run_actions
  execute_actions write_enabled run_id request w =
      if request.confirm
      then run_actions write_enabled run_id (some request) none w
      else (raised not_confirmed, w)

  unfoldable pub retry_action :
      Bool → String → String → World M → Result HttpProblem (List ReviewAction) × World M
  unfolding run_actions
  retry_action write_enabled run_id id w = run_actions write_enabled run_id none (some id) w
