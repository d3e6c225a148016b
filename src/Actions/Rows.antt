-- ===== src/Actions/Rows.antt =====
-- The rows that adminos/domain/actions.py reads and writes (adminos/db/models.py), its states and
-- events, and `record_event`. Times are natural numbers.
use timmeny_admin_os.Common.{
  ℕ, suc, String, Bool, true, false, Option, none, some, List, [], ◌∷◌, ◌++◌, ◌==◌, max,
  if◌then◌else◌, is_set, Members,
}
use timmeny_admin_os.Capabilities.{ActionKind}
use timmeny_admin_os.Capabilities.Config.{LearningScope}

pub data ActionState : Type 0 where
  approved prepared executed verified completed failed : ActionState

unfoldable pub state_eq : ActionState → ActionState → Bool
state_eq approved approved = true
state_eq prepared prepared = true
state_eq executed executed = true
state_eq verified verified = true
state_eq completed completed = true
state_eq failed failed = true
state_eq _ _ = false

pub data ApprovalKind : Type 0 where
  human automatable_rule : ApprovalKind

pub data ActionEventKind : Type 0 where
  approved prepared execution_started executed adopted_existing : ActionEventKind
  already_applied verified verification_failed failed : ActionEventKind

-- adminos/domain/decisions.py.
pub data ItemState : Type 0 where
  pending approved executed failed dismissed deferred : ItemState

-- Why an operation is refused, or failed: the exception's message without its wording.
pub data Refusal : Type 0 where
  no_prepare_step action_not_allowed execution_not_permitted no_executor : Refusal
  move_unnamed gmail_writes_disabled no_execute_step not_prepared not_run : Refusal
  no_labels inbox_by_hand no_recipient no_body draft_unnamed : Refusal
  move_without_folder draft_incomplete send_incomplete draft_changed : Refusal
  send_not_allowed send_not_permitted not_the_draft not_the_message : Refusal
  not_a_destination not_text not_texts no_label draft_gone : String → Refusal

pub data Fault : Type 0 where
  gmail_error : String → Fault
  refused : Refusal → Fault

pub data ActionError : Type 0 where
  gmail_raised : String → ActionError
  refusal : Refusal → ActionError
  no_item : ActionError

-- What `last_error` and the detail of a failure say.
pub data Failure : Type 0 where
  fault : Fault → Failure
  verification_could_not_run : String → Failure
  not_shown : Failure
  no_longer_shown : Failure

pub record ReviewAction : Type 0 where
  pub id : String
  pub run_id : String
  pub item_id : String
  pub capability_key : String
  pub action_kind : ActionKind
  pub state : ActionState
  pub params : Members
  pub prepared_params : Option Members
  pub idempotency_key : String
  pub target_thread_id : String
  pub approval_kind : ApprovalKind
  pub approved_by : String
  pub rule_id : Option String
  pub attempts : ℕ
  pub external_kind : Option String
  pub external_ref : Option String
  pub last_error : Option Failure
  pub verification : Option Members
  pub prepared_at : Option ℕ
  pub executed_at : Option ℕ
  pub verified_at : Option ℕ
  pub completed_at : Option ℕ
  pub failed_at : Option ℕ

pub record ReviewItem : Type 0 where
  pub id : String
  pub run_id : String
  pub group_id : String
  pub evidence_id : String
  pub source_thread_id : String
  pub evidence_hash : Option String
  pub subject : Option String
  pub participants : Option (List String)
  pub received_at : Option ℕ
  pub state : ItemState
  pub recommendation : String
  pub recommendation_source : String
  pub recommendation_confidence : ℕ
  pub recommendation_rationale : Option String
  pub recommendation_params : Option Members
  pub policy_version : String
  pub rule_id : Option String
  pub model_version : Option String
  pub category : Option String
  pub objective_keys : Option (List String)
  pub approved_action : Option ActionKind
  pub approved_params : Option Members
  pub created_at : ℕ
  pub decided_at : Option ℕ

pub data DecisionKind : Type 0 where
  approve override dismiss defer : DecisionKind

pub record ReviewDecision : Type 0 where
  pub id : String
  pub run_id : String
  pub item_id : String
  pub capability_key : String
  pub decision : DecisionKind
  pub action : Option ActionKind
  pub action_params : Option Members
  pub followed_recommendation : Bool
  pub recommendation : String
  pub actor : String
  pub batch_id : Option String
  pub learning_scope : LearningScope
  pub note : Option String
  pub created_at : ℕ

pub record ActionEvent : Type 0 where
  pub action_id : String
  pub sequence : ℕ
  pub event : ActionEventKind
  pub state_after : ActionState
  pub detail : Option Members
  pub failure : Option Failure
  pub external_ref : Option String

-- `session.get(ReviewItem, id)`, and a write to the row's state.
unfoldable pub find_item : String → List ReviewItem → Option ReviewItem
find_item id [] = none
find_item id (i ∷ is) = if i.id == id then some i else find_item id is

unfoldable pub set_item_state : String → ItemState → List ReviewItem → List ReviewItem
set_item_state id state [] = []
set_item_state id state (i ∷ is) =
    let rest = set_item_state id state is in
    if i.id == id then record i { state = state } ∷ is else i ∷ rest

-- The highest sequence among the action's events, or 0.
unfoldable pub last_sequence : String → List ActionEvent → ℕ
last_sequence id [] = 0
last_sequence id (e ∷ es) =
    let rest = last_sequence id es in if e.action_id == id then max e.sequence rest else rest

-- `external_ref or action.external_ref`.
abbrev first_set : Option String → Option String → Option String
first_set none other = other
first_set (some s) other = if is_set s then some s else other

unfoldable pub record_event :
    ReviewAction
    → ActionEventKind
    → Option Members
    → Option Failure
    → Option String
    → List ActionEvent
    → List ActionEvent
unfolding last_sequence
record_event action event detail failure external_ref events =
    events
    ++ record {
      action_id = action.id;
      sequence = suc (last_sequence action.id events);
      event = event;
      state_after = action.state;
      detail = detail;
      failure = failure;
      external_ref = first_set external_ref action.external_ref;
    }
      ∷ []
