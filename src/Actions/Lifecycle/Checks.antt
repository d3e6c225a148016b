-- ===== src/Actions/Lifecycle/Checks.antt =====
-- The checks of adminos/domain/actions.py: `check_executable`, `check_move_destination`, the sets of
-- states, and `execution_event`.
use timmeny_admin_os.Common.{
  String, Bool, true, false, not, Option, none, some, List, if◌then◌else◌, elem, Result, ok, raised,
  ◌>>=◌, ◌>>◌, refuse_if,
}
use timmeny_admin_os.Capabilities.{
  ActionKind, gmail_move, monday_create_task, kind_eq, prepare_actions, destination_param,
}
use timmeny_admin_os.Capabilities.Config.{CapabilityConfig, allows, permits, may_execute}
use timmeny_admin_os.Actions.Rows.{
  ActionState, approved, prepared, executed, completed, failed, ActionEventKind, adopted_existing,
  already_applied, Refusal, no_prepare_step, action_not_allowed, execution_not_permitted,
  no_executor, move_unnamed, not_a_destination, ActionError, refusal, no_item, ReviewAction,
  ReviewItem, find_item,
}
use timmeny_admin_os.Actions.Params.{read_text}
use timmeny_admin_os.Actions.Executors.{ExecutionOutcome}

-- `kind in EXECUTORS`.
unfoldable pub has_executor : ActionKind → Bool
has_executor monday_create_task = false
has_executor _ = true

unfoldable pub from_refusal : {A : Type 0} → Result Refusal A → Result ActionError A
from_refusal (ok a) = ok a
from_refusal (raised r) = raised (refusal r)

unfoldable pub destination_allowed : CapabilityConfig → Option String → Result Refusal (Unit {0})
destination_allowed capability none = raised move_unnamed
destination_allowed capability (some d) =
    refuse_if (not (elem d capability.destinations)) (not_a_destination d)

unfoldable pub check_move_destination : CapabilityConfig → ReviewAction → Result Refusal (Unit {0})
unfolding destination_allowed
check_move_destination capability action = do
  destination ← read_text action.params destination_param
  destination_allowed capability destination

unfoldable pub check_executable : CapabilityConfig → ReviewAction → Result Refusal (Unit {0})
unfolding has_executor check_move_destination kind_eq
check_executable capability action = do
  refuse_if (not (allows capability.playbook prepare_actions)) no_prepare_step
  refuse_if (not (permits capability action.action_kind)) action_not_allowed
  refuse_if (not (may_execute capability action.action_kind)) execution_not_permitted
  refuse_if (not (has_executor action.action_kind)) no_executor
  if kind_eq action.action_kind gmail_move then check_move_destination capability action else ok tt

unfoldable pub read_item : Option ReviewItem → Result ActionError ReviewItem
read_item none = raised no_item
read_item (some item) = ok item

unfoldable pub read_action_item : ReviewAction → List ReviewItem → Result ActionError ReviewItem
unfolding read_item find_item
read_action_item action items = read_item (find_item action.item_id items)

unfoldable pub is_approved : ActionState → Bool
is_approved approved = true
is_approved _ = false

-- `execution_event`.
unfoldable pub execution_event : ExecutionOutcome → ActionEventKind
execution_event outcome =
    if outcome.already_applied
    then already_applied
    else if outcome.adopted
    then adopted_existing
    else ActionEventKind.executed

-- `state in TERMINAL_ACTION_STATES`, `state in EXECUTABLE_ACTION_STATES`, and neither approved nor
-- prepared.
unfoldable pub is_terminal : ActionState → Bool
is_terminal completed = true
is_terminal _ = false

unfoldable pub is_executable : ActionState → Bool
is_executable prepared = true
is_executable executed = true
is_executable failed = true
is_executable _ = false

unfoldable pub never_ran : ActionState → Bool
never_ran approved = true
never_ran prepared = true
never_ran _ = false
