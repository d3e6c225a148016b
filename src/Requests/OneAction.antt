-- ===== src/Requests/OneAction.antt =====
-- `verify_one_action` and `approve_send_draft` of adminos/api/actions.py.
use timmeny_admin_os.Common.{
  ℕ, String, Bool, not, ◌≡◌, refl, ◌∙◌, Option, none, some, List, Result, ok, raised, ◌>>=◌, ◌>>◌,
  refuse_if,
}
use timmeny_admin_os.Capabilities.Config.{CapabilityConfig}
use timmeny_admin_os.Actions.Rows.{ReviewAction, ReviewItem, Refusal, ActionError, refusal}
use timmeny_admin_os.Actions.Mail.{GmailClient}
use timmeny_admin_os.Actions.Executors.ReadOnly.{IsReadOnly}
use timmeny_admin_os.Actions.Approvals.{Services, ActionTables}
use timmeny_admin_os.Actions.Approvals.Sends.{authorise_send}
use timmeny_admin_os.Actions.Lifecycle.{Work, verify_action}
use timmeny_admin_os.Actions.Lifecycle.Retry.{verify_action_mailbox}
use timmeny_admin_os.Plan.Begin.{human_actor}
use timmeny_admin_os.Review.Rows.{ReviewRun, ReviewGroup, find_run}
use timmeny_admin_os.Review.Reading.{read_item, group_with_id}
use timmeny_admin_os.Requests.{
  HttpProblem, not_confirmed, review_not_found, item_not_found, no_group, action_failed, Database,
  save_action, lookup_action, read_capability, open_review,
}
use timmeny_admin_os.Requests.Executing.{World}

-- `open_review` alone: a review that was abandoned is read as well.
review_found : String → Option ReviewRun → Result HttpProblem ReviewRun
review_found id none = raised (review_not_found id)
review_found id (some run) = ok run

module _ {M : Type 0} (client : GmailClient M) (loaded : List CapabilityConfig) (now : ℕ) where
  verified :
      World M → Result ActionError (Unit {0}) × Work M → Result HttpProblem ReviewAction × World M
  unfolding save_action
  verified w (raised e, done) = (raised (action_failed e), record w { mailbox = done.mailbox })
  verified w (ok _, done) = (
    ok done.action,
    record {
      db = record w.db {
        actions = save_action done.action w.db.actions;
        items = done.items;
        events = done.events;
      };
      mailbox = done.mailbox;
    },
  )

  verify_chosen :
      World M
      → Result HttpProblem (ReviewAction × CapabilityConfig)
      → Result HttpProblem ReviewAction × World M
  unfolding verified verify_action
  verify_chosen w (raised e) = (raised e, w)
  verify_chosen w (ok (action, capability)) = verified w (
      verify_action client capability now
        record { action = action; items = w.db.items; events = w.db.events; mailbox = w.mailbox })

  action_to_verify :
      String → String → Database → Result HttpProblem (ReviewAction × CapabilityConfig)
  unfolding review_found find_run lookup_action read_capability
  action_to_verify run_id id db = do
    review_found run_id (find_run run_id db.runs)
    action ← lookup_action run_id id db.actions
    capability ← read_capability loaded action.capability_key
    ok (action, capability)

  unfoldable pub verify_one_action :
      String → String → World M → Result HttpProblem ReviewAction × World M
  unfolding verify_chosen action_to_verify
  verify_one_action run_id id w = verify_chosen w (action_to_verify run_id id w.db)

  verified_mailbox :
      (w : World M) (r : Result ActionError (Unit {0}) × Work M)
      → (verified w r).1.mailbox ≡ r.1.mailbox
  unfolding verified
  verified_mailbox w (ok _, done) = refl
  verified_mailbox w (raised e, done) = refl

  verify_chosen_mailbox :
      (w : World M) (r : Result HttpProblem (ReviewAction × CapabilityConfig))
      → IsReadOnly client
      → (verify_chosen w r).1.mailbox ≡ w.mailbox
  unfolding verify_chosen
  verify_chosen_mailbox w (raised e) reads = refl
  verify_chosen_mailbox w (ok (action, capability)) reads =
      let work : Work M = record {
        action = action;
        items = w.db.items;
        events = w.db.events;
        mailbox = w.mailbox;
      } in
      verified_mailbox w (verify_action client capability now work)
      ∙ verify_action_mailbox client capability now work reads

  -- Where Gmail's reads change nothing, a request to verify an action leaves the mailbox as it is,
  -- whether it finds the action, its effect, or neither.
  pub verify_one_action_mailbox :
      (run_id id : String) (w : World M)
      → IsReadOnly client
      → (verify_one_action run_id id w).1.mailbox ≡ w.mailbox
  unfolding verify_one_action
  verify_one_action_mailbox run_id id w reads =
      verify_chosen_mailbox w (action_to_verify run_id id w.db) reads

pub record SendDraftRequest : Type 0 where
  pub draft_id : String
  pub draft_message_id : String
  pub confirm : Bool

unfoldable pub lookup_item : String → String → List ReviewItem → Result HttpProblem ReviewItem
unfolding read_item
lookup_item run_id id items = elim (read_item run_id id items) [
  | raised e ↦ raised (item_not_found id)
  | ok item ↦ ok item
]

unfoldable pub read_item_capability : ReviewItem → List ReviewGroup → Result HttpProblem String
unfolding group_with_id
read_item_capability item groups = elim (group_with_id item.group_id groups) [
  | none ↦ raised (no_group item.id)
  | some group ↦ ok group.capability_key
]

approved_send :
    Database
    → Result Refusal (ReviewAction × ActionTables)
    → Result HttpProblem (ReviewAction × Database)
approved_send db (raised e) = raised (action_failed (refusal e))
approved_send db (ok (action, tables)) = ok (
  action,
  record db { actions = tables.actions; events = tables.events; decisions = tables.decisions },
)

unfoldable pub approve_send_draft :
    Services
    → List CapabilityConfig
    → String
    → String
    → SendDraftRequest
    → Database
    → Result HttpProblem (ReviewAction × Database)
unfolding open_review lookup_item read_item_capability read_capability authorise_send approved_send
approve_send_draft services loaded run_id item_id request db = do
  refuse_if (not request.confirm) not_confirmed
  open_review run_id db.runs
  item ← lookup_item run_id item_id db.items
  key ← read_item_capability item db.groups
  capability ← read_capability loaded key
  approved_send db (
      authorise_send services capability run_id item request.draft_id request.draft_message_id
        human_actor record { actions = db.actions; events = db.events; decisions = db.decisions })
