-- ===== src/Rulebook/Standing.antt =====
-- `RuleStatus`, `TRANSITIONS` and `check_transition` of adminos/domain/rulebook.py.
use timmeny_admin_os.Common.{
  Bool, true, false, List, [], ◌∷◌, any, if◌then◌else◌, Result, ok, raised,
}

pub data RuleStatus : Type 0 where
  observed proposed tested confirmed active automatable paused retired : RuleStatus

unfoldable pub status_eq : RuleStatus → RuleStatus → Bool
status_eq observed observed = true
status_eq proposed proposed = true
status_eq tested tested = true
status_eq confirmed confirmed = true
status_eq active active = true
status_eq automatable automatable = true
status_eq paused paused = true
status_eq retired retired = true
status_eq _ _ = false

-- `status in EFFECTIVE_STATUSES`.
unfoldable pub is_effective : RuleStatus → Bool
is_effective active = true
is_effective automatable = true
is_effective _ = false

unfoldable pub transitions : RuleStatus → List RuleStatus
transitions observed = proposed ∷ retired ∷ []
transitions proposed = tested ∷ retired ∷ []
transitions tested = confirmed ∷ proposed ∷ retired ∷ []
transitions confirmed = active ∷ retired ∷ []
transitions active = paused ∷ automatable ∷ retired ∷ []
transitions automatable = active ∷ paused ∷ retired ∷ []
transitions paused = active ∷ retired ∷ []
transitions retired = []

pub data EventKind : Type 0 where
  proposed amended tested confirmed activated promoted paused resumed retired : EventKind

unfoldable pub event_eq : EventKind → EventKind → Bool
event_eq EventKind.proposed EventKind.proposed = true
event_eq amended amended = true
event_eq EventKind.tested EventKind.tested = true
event_eq EventKind.confirmed EventKind.confirmed = true
event_eq activated activated = true
event_eq promoted promoted = true
event_eq EventKind.paused EventKind.paused = true
event_eq resumed resumed = true
event_eq EventKind.retired EventKind.retired = true
event_eq _ _ = false

-- `TRANSITION_EVENTS`. Nothing moves a rule to `observed`, which has no entry there.
unfoldable pub transition_event : RuleStatus → EventKind
transition_event proposed = amended
transition_event tested = EventKind.tested
transition_event confirmed = EventKind.confirmed
transition_event active = activated
transition_event automatable = promoted
transition_event paused = EventKind.paused
transition_event retired = EventKind.retired
transition_event observed = EventKind.proposed

pub data TransitionProblem : Type 0 where
  already : RuleStatus → TransitionProblem
  not_allowed : RuleStatus → RuleStatus → TransitionProblem

unfoldable pub check_transition : RuleStatus → RuleStatus → Result TransitionProblem (Unit {0})
unfolding status_eq transitions
check_transition current wanted =
    if status_eq wanted current
    then raised (already current)
    else if any (status_eq wanted) (transitions current)
    then ok tt
    else raised (not_allowed current wanted)
