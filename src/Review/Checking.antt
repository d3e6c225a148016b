-- ===== src/Review/Checking.antt =====
-- The checks of a decision, `check_decision` of adminos/domain/review.py and what it calls.
use timmeny_admin_os.Common.{
  String, Bool, true, false, not, ◌&&◌, Option, none, some, List, ◌==◌, if◌then◌else◌, is_set,
  is_empty, strip, elem, Json, str, Members, end, get, Result, ok, raised, ◌>>=◌, ◌>>◌, refuse_if,
}
use timmeny_admin_os.Capabilities.{
  ActionKind, gmail_move, gmail_trash, gmail_untrash, kind_eq, action_kind, action_value,
  destination_param, await_decision, execute_approved,
}
use timmeny_admin_os.Capabilities.Config.{CapabilityConfig, allows, permits}
use timmeny_admin_os.Actions.Rows.{
  ItemState, pending, executed, dismissed, ReviewItem, DecisionKind, approve, override, dismiss,
  defer,
}
use timmeny_admin_os.Actions.Approvals.{or_empty}

-- What `DecisionRefused` says.
pub data DecisionRefused : Type 0 where
  takes_no_decisions no_execute_step nowhere_to_file no_objective : DecisionRefused
  nothing_to_approve : String → DecisionRefused
  override_unnamed folder_unnamed : DecisionRefused
  already_settled : ItemState → DecisionRefused
  not_allowed : ActionKind → DecisionRefused
  not_a_folder : String → DecisionRefused

-- `item.state in TERMINAL_ITEM_STATES`.
unfoldable pub is_terminal : ItemState → Bool
is_terminal dismissed = true
is_terminal executed = true
is_terminal _ = false

unfoldable pub is_executed : ItemState → Bool
is_executed executed = true
is_executed _ = false

unfoldable pub is_pending : ItemState → Bool
is_pending pending = true
is_pending _ = false

unfoldable pub recommended_params : ReviewItem → DecisionKind → Members
recommended_params item approve = or_empty item.recommendation_params
recommended_params item _ = end

-- `action is kind`, for an action that may be absent.
unfoldable pub is_action : ActionKind → Option ActionKind → Bool
unfolding kind_eq
is_action kind none = false
is_action kind (some action) = kind_eq action kind

unfoldable pub is_override : DecisionKind → Bool
is_override override = true
is_override _ = false

unfoldable pub restores_trash : ReviewItem → DecisionKind → Option ActionKind → Bool
unfolding is_override is_action is_executed
restores_trash item decision action =
    is_override decision
    && is_action gmail_untrash action
    && is_executed item.state
    && is_action gmail_trash item.approved_action

unfoldable pub folder_allowed : List String → String → Result DecisionRefused String
folder_allowed allowed folder =
    refuse_if (not (elem folder allowed)) (not_a_folder folder) >> ok folder

unfoldable pub folder_of : List String → Option Json → Result DecisionRefused String
unfolding folder_allowed
folder_of allowed (some (str folder)) =
    refuse_if (not (is_set (strip folder))) folder_unnamed >> folder_allowed allowed (strip folder)
folder_of allowed _ = raised folder_unnamed

unfoldable pub check_destination : CapabilityConfig → Members → Result DecisionRefused String
unfolding folder_of get
check_destination capability params =
    folder_of capability.destinations (get params destination_param)

unfoldable pub permitted :
    CapabilityConfig → ActionKind → Result DecisionRefused (Option ActionKind)
unfolding permits
permitted capability chosen =
    refuse_if (not (permits capability chosen)) (not_allowed chosen) >> ok (some chosen)

unfoldable pub resolve_recommended :
    CapabilityConfig → String → Option ActionKind → Result DecisionRefused (Option ActionKind)
unfolding permitted
resolve_recommended capability recommendation none = raised (nothing_to_approve recommendation)
resolve_recommended capability recommendation (some chosen) = permitted capability chosen

unfoldable pub resolve_override :
    CapabilityConfig → Option ActionKind → Result DecisionRefused (Option ActionKind)
unfolding permitted
resolve_override capability none = raised override_unnamed
resolve_override capability (some chosen) = permitted capability chosen

unfoldable pub resolve_action :
    CapabilityConfig
    → ReviewItem
    → DecisionKind
    → Option ActionKind
    → Result DecisionRefused (Option ActionKind)
unfolding resolve_recommended resolve_override action_kind
resolve_action capability item approve action =
    resolve_recommended capability item.recommendation (action_kind item.recommendation)
resolve_action capability item override action = resolve_override capability action
resolve_action capability item dismiss action = ok none
resolve_action capability item defer action = ok none

-- `item.objective_keys` is a list with something in it.
unfoldable pub has_objective : ReviewItem → Bool
has_objective item = elim item.objective_keys [ none ↦ false | some keys ↦ not (is_empty keys) ]

-- A move that names no folder yet, `None`, needs only that there is one.
unfoldable pub check_move : CapabilityConfig → Option Members → Result DecisionRefused (Unit {0})
unfolding check_destination
check_move capability none = refuse_if (is_empty capability.destinations) nowhere_to_file
check_move capability (some params) = check_destination capability params >> ok tt

unfoldable pub check_chosen :
    CapabilityConfig
    → ReviewItem
    → Option Members
    → Option ActionKind
    → Result DecisionRefused (Option ActionKind)
unfolding check_move kind_eq has_objective
check_chosen capability item params none = ok none
check_chosen capability item params (some chosen) = do
  refuse_if (not (allows capability.playbook execute_approved)) no_execute_step
  refuse_if (capability.objectives.require_alignment && not (has_objective item)) no_objective
  if kind_eq chosen gmail_move then check_move capability params else ok tt
  ok (some chosen)

unfoldable pub check_decision :
    CapabilityConfig
    → ReviewItem
    → DecisionKind
    → Option ActionKind
    → Option Members
    → Result DecisionRefused (Option ActionKind)
unfolding is_terminal restores_trash resolve_action check_chosen
check_decision capability item decision action params = do
  refuse_if (not (allows capability.playbook await_decision)) takes_no_decisions
  refuse_if (is_terminal item.state && not (restores_trash item decision action))
      (already_settled item.state)
  chosen ← resolve_action capability item decision action
  check_chosen capability item params chosen

-- `followed_recommendation`.
unfoldable pub is_dismissal : DecisionKind → Bool
is_dismissal dismiss = true
is_dismissal _ = false

unfoldable pub followed_recommendation : ReviewItem → DecisionKind → Option ActionKind → Bool
unfolding action_value is_dismissal
followed_recommendation item decision none =
    is_dismissal decision && item.recommendation == "no_action"
followed_recommendation item decision (some chosen) = action_value chosen == item.recommendation
