-- ===== src/Examples/Requests.antt =====
-- Preparations and executions of one archive, and of an archive that a refused action follows.
use timmeny_admin_os.Actions.Executors.{execute, verify}
use timmeny_admin_os.Actions.Lifecycle.{check_executable}
use timmeny_admin_os.Common.{String, true, false, ◌≡◌, refl, ◌⊎◌, none, some, List, [], ◌∷◌, raised}
use timmeny_admin_os.Capabilities.{gmail_trash, is_gmail}
use timmeny_admin_os.Capabilities.Config.{permits, may_execute, allows}
use timmeny_admin_os.Actions.Rows.{ReviewAction, ReviewItem, action_not_allowed, refusal}
use timmeny_admin_os.Scopes.{current, ActionScope, read_open_scopes, open_scope}
use timmeny_admin_os.Scopes.Single.{open_scope-alone}
use timmeny_admin_os.Requests.{action_failed}
use timmeny_admin_os.Requests.Selecting.{ExecuteRequest}
use timmeny_admin_os.Requests.Executing.{World, selection, run_actions, execute_actions}
use timmeny_admin_os.Requests.Gates.{IsGated, execute_actions-IsGated}
use timmeny_admin_os.Requests.RolledBack.{IsUndone, run_actions-IsUndone}
use timmeny_admin_os.Examples.Runs.{morning}
use timmeny_admin_os.Examples.Samples.{Mailbox, gmail, inboxed, mail, offer, archive_action}

-- The mail of a second thread is to be trashed, which the capability does not allow.
abbrev trash_action : ReviewAction
trash_action = record archive_action { id = "a2"; item_id = "i2"; action_kind = gmail_trash }

abbrev two_items : List ReviewItem
two_items = offer ∷ record offer { id = "i2"; evidence_id = "e2" } ∷ []

abbrev scope_of : List String → List String → ActionScope
scope_of items actions = record {
  id = "s1";
  run_id = "r1";
  capability_key = some "mail";
  state = current;
  entire_capability = false;
  requested_item_ids = items;
  prepared_item_ids = items;
  action_ids = actions;
  excluded = [];
  executed_item_ids = none;
  verified_item_ids = none;
  superseded_by = none;
  actor = "human";
  created_at = 5;
  executed_at = none;
}

abbrev world_of : List ReviewAction → ActionScope → World Mailbox
world_of actions scope = record {
  db = record {
    runs = morning ∷ [];
    groups = [];
    items = two_items;
    decisions = [];
    actions = actions;
    events = [];
    scopes = scope ∷ [];
  };
  mailbox = inboxed;
}

abbrev one : World Mailbox
one = world_of (archive_action ∷ []) (scope_of ("i1" ∷ []) ("a1" ∷ []))

abbrev both : World Mailbox
both =
    world_of (archive_action ∷ trash_action ∷ []) (scope_of ("i1" ∷ "i2" ∷ []) ("a1" ∷ "a2" ∷ []))

abbrev confirm_one : ExecuteRequest
confirm_one = record {
  scope_id = "s1";
  item_ids = "i1" ∷ [];
  action_ids = "a1" ∷ [];
  confirm = true;
}

abbrev confirm_both : ExecuteRequest
confirm_both = record {
  scope_id = "s1";
  item_ids = "i2" ∷ "i1" ∷ [];
  action_ids = "a1" ∷ "a2" ∷ [];
  confirm = true;
}

abbrev same_text : String → String
same_text s = s

open_scope-alone_example :
    read_open_scopes "r1"
      (some "mail")
      (open_scope "s2" "r1"
        (some "mail")
        false
        ("i2" ∷ [])
        (trash_action ∷ [])
        []
        "human"
        6
        (scope_of ("i1" ∷ []) ("a1" ∷ []) ∷ [])).1
    ≡ (open_scope "s2" "r1"
        (some "mail")
        false
        ("i2" ∷ [])
        (trash_action ∷ [])
        []
        "human"
        6
        (scope_of ("i1" ∷ []) ("a1" ∷ []) ∷ [])).0
      ∷ []
open_scope-alone_example =
    open_scope-alone "s2" "r1" (some "mail") false ("i2" ∷ []) (trash_action ∷ []) [] "human" 6
      (scope_of ("i1" ∷ []) ("a1" ∷ []) ∷ [])

runs_one :
    (execute_actions gmail same_text (mail ∷ []) 7 true "r1" confirm_one one).1.mailbox.labels ≡ []
unfolding execute_actions check_executable allows permits may_execute is_gmail execute verify
runs_one = refl

execute_actions-IsGated_example :
    ((execute_actions gmail same_text (mail ∷ []) 7 true "r1" confirm_one one).1 ≡ one)
    ⊎ IsGated gmail same_text
        (mail ∷ [])
        7
        true
        "r1"
        confirm_one
        one
        (execute_actions gmail same_text (mail ∷ []) 7 true "r1" confirm_one one)
execute_actions-IsGated_example =
    execute_actions-IsGated gmail same_text (mail ∷ []) 7 true "r1" confirm_one one

stops :
    (run_actions gmail same_text (mail ∷ []) 7 true "r1" (some confirm_both) none both).0
    ≡ raised (action_failed (refusal action_not_allowed))
unfolding run_actions check_executable allows permits may_execute is_gmail execute verify
stops = refl

-- The first thread is archived by then, and its action is still the one that was prepared.
archived_by_then :
    ((run_actions gmail same_text
        (mail ∷ [])
        7
        true
        "r1"
        (some confirm_both)
        none
        both).1.mailbox.labels
      ≡ [])
    × ((run_actions gmail same_text
          (mail ∷ [])
          7
          true
          "r1"
          (some confirm_both)
          none
          both).1.db.actions
        ≡ archive_action ∷ trash_action ∷ [])
unfolding run_actions check_executable allows permits may_execute is_gmail execute verify
archived_by_then = (refl, refl)

run_actions-IsUndone_example :
    IsUndone gmail same_text
      (mail ∷ [])
      7
      "r1"
      both
      (action_failed (refusal action_not_allowed))
      (selection true "r1" (some confirm_both) none both.db)
      (run_actions gmail same_text (mail ∷ []) 7 true "r1" (some confirm_both) none both).1
run_actions-IsUndone_example =
    run_actions-IsUndone gmail same_text (mail ∷ []) 7 true "r1" (some confirm_both) none both
      (action_failed (refusal action_not_allowed)) stops
