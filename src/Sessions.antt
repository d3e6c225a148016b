-- ===== src/Sessions.antt =====
-- adminos/domain/sessions.py: the working of a session, from its plan to its last activity. The
-- states of the review runs are read from a table that adminos/domain/review.py keeps: a parameter
-- of the operations, as it stands when they read it.
mod Rows
unfoldable pub use Rows.*
pub mod Advance
pub mod Beginning
pub mod Opening
pub mod Opened
use timmeny_admin_os.Common.{
  ℕ, suc, String, Bool, true, false, not, ◌&&◌, ◌||◌, Option, none, some, List, [], ◌∷◌, ◌==◌,
  if◌then◌else◌, elem, keep, map, sort_by, ltb, is_none, Result, ok, raised, ◌>>=◌, ◌>>◌, refuse_if,
}
use timmeny_admin_os.Capabilities.Config.{enabled_keys}
use timmeny_admin_os.Plan.Arrange.{PlanRefused}
use timmeny_admin_os.Plan.Begin.{ReviewPlan, Loaded, human_actor, begin_plan}

unfoldable pub is_proposed : SessionStatus → Bool
is_proposed proposed = true
is_proposed _ = false

unfoldable pub is_abandoned : SessionStatus → Bool
is_abandoned abandoned = true
is_abandoned _ = false

unfoldable pub is_pending : ActivityState → Bool
is_pending pending = true
is_pending _ = false

unfoldable pub is_working : ActivityState → Bool
is_working in_progress = true
is_working _ = false

-- `state in {PENDING, IN_PROGRESS}`.
unfoldable pub is_open : ActivityState → Bool
is_open pending = true
is_open in_progress = true
is_open _ = false

unfoldable pub is_over : RunState → Bool
is_over RunState.completed = true
is_over RunState.abandoned = true
is_over _ = false

run_over : Option RunState → Bool
unfolding is_over
run_over none = false
run_over (some state) = is_over state

run_finished : (String → Option RunState) → Option String → Bool
unfolding run_over
run_finished runs none = false
run_finished runs (some run_id) = run_over (runs run_id)

unfoldable pub finished : (String → Option RunState) → SessionActivity → Bool
unfolding run_finished
finished runs activity =
    if activity.activity_key == closeout_activity then true else run_finished runs activity.run_id

unfoldable pub read_activities : String → List SessionActivity → List SessionActivity
read_activities session_id activities =
    sort_by (λ a. a.position) (keep (λ a. a.session_id == session_id) activities)

-- The first loop of `advance_session`, for one row of the table.
unfoldable pub settled : (String → Option RunState) → ℕ → String → SessionActivity → SessionActivity
unfolding is_working finished
settled runs now session_id activity =
    if activity.session_id == session_id && is_working activity.state && finished runs activity
    then record activity { state = completed; completed_at = some now }
    else activity

move_on : ℕ → Desk → List SessionActivity → Desk
move_on now desk [] = record desk {
  row = record desk.row {
    status = completed;
    completed_at = some now;
    current_activity_key = none;
  };
}
move_on now desk (next ∷ _) = record desk {
  row = record desk.row { current_activity_key = some next.activity_key };
}

unfoldable pub advance_session : (String → Option RunState) → ℕ → Desk → Desk
unfolding settled read_activities is_open move_on
advance_session runs now desk =
    let activities = map (settled runs now desk.row.id) desk.activities in
    move_on now (record desk { activities = activities })
      (keep (λ a. is_open a.state) (read_activities desk.row.id activities))

abbrev pub find_activity : String → List SessionActivity → Option SessionActivity
find_activity key [] = none
find_activity key (a ∷ rest) = if a.activity_key == key then some a else find_activity key rest

unfoldable pub read_activity : Desk → String → Result SessionProblem SessionActivity
unfolding read_activities
read_activity desk key = elim (find_activity key (read_activities desk.row.id desk.activities)) [
  | none ↦ raised (no_activity key)
  | some a ↦ ok a
]

-- The refusals of `begin_activity`.
check_state : ActivityState → String → Result SessionProblem (Unit {0})
check_state unavailable key = raised (not_built key)
check_state skipped key = raised (set_aside key)
check_state _ key = ok tt

unfoldable pub check_workable :
    Option Availability → SessionActivity → Result SessionProblem (Unit {0})
unfolding check_state
check_workable none activity = raised (unknown_activity activity.activity_key)
check_workable (some _) activity = check_state activity.state activity.activity_key

unfoldable pub begun_row : ℕ → AssistantSession → AssistantSession
unfolding is_proposed
begun_row now row =
    if is_proposed row.status then record row { status = in_progress; begun_at = some now } else row

-- A pending activity is started; its row is found by its session and its key.
unfoldable pub started : ℕ → SessionActivity → SessionActivity → SessionActivity
unfolding is_pending
started now activity other =
    if other.session_id == activity.session_id
      && other.activity_key == activity.activity_key
      && is_pending other.state
    then record other { state = in_progress; started_at = some now }
    else other

unfoldable pub turned_off : ActivityConfig → Loaded → List String
unfolding enabled_keys
turned_off configured loaded =
    keep
      (λ key. not (elem key (map (λ s. s.capability_key) (keep (λ s. s.enabled) configured.steps))))
      (enabled_keys loaded.capabilities)

asked_to_skip : Option ActivityConfig → Loaded → Option (List String)
unfolding turned_off
asked_to_skip none loaded = none
asked_to_skip (some configured) loaded = some (turned_off configured loaded)

abbrev pub find_configured : String → List ActivityConfig → Option ActivityConfig
find_configured key [] = none
find_configured key (a ∷ rest) = if a.activity_key == key then some a else find_configured key rest

plan_agreed :
    Desk → Result PlanRefused ReviewPlan × List ReviewPlan → Result SessionProblem (Unit {0}) × Desk
plan_agreed desk (ok plan, plans) = (ok tt, record desk { plans = plans })
plan_agreed desk (raised e, plans) = (raised (plan_refused e), record desk { plans = plans })

module _ (loaded : Loaded) (playbook : List ActivityConfig) (runs : String → Option RunState) where
  -- Starting the email review agrees its plan, in the order of the activity's steps.
  agree_plan :
      ℕ
      → SessionActivity
      → String
      → Option RunState
      → Desk
      → Result SessionProblem (Unit {0}) × Desk
  unfolding plan_agreed asked_to_skip begin_plan
  agree_plan now activity run_id none desk = (raised (no_run run_id), desk)
  agree_plan now activity run_id (some _) desk = plan_agreed desk (
      begin_plan loaded run_id (some activity.steps) none
        (asked_to_skip (find_configured email_activity playbook) loaded) human_actor now desk.plans)

  work_review : ℕ → SessionActivity → Option String → Desk → Result SessionProblem (Unit {0}) × Desk
  unfolding agree_plan
  work_review now activity none desk = (ok tt, desk)
  work_review now activity (some run_id) desk =
      if activity.activity_key == email_activity
      then agree_plan now activity run_id (runs run_id) desk
      else (ok tt, desk)

  begin_found :
      ℕ → Result SessionProblem SessionActivity → Desk → Result SessionProblem (Unit {0}) × Desk
  unfolding begun_row started work_review
  begin_found now (raised e) desk = (raised e, desk)
  begin_found now (ok activity) desk = work_review now activity activity.run_id (record desk {
    row = record (begun_row now desk.row) { current_activity_key = some activity.activity_key };
    activities = map (started now activity) desk.activities;
  })

  unfoldable pub begin_activity : String → ℕ → Desk → Result SessionProblem (Unit {0}) × Desk
  unfolding read_activity known_activity check_workable begin_found
  begin_activity key now desk =
      begin_found now
        (do
          activity ← read_activity desk key
          check_workable (known_activity key) activity
          ok activity)
        desk

  is_known : SessionActivity → Bool
  unfolding known_activity
  is_known activity = not (is_none (known_activity activity.activity_key))

  first_pending : List SessionActivity → Option SessionActivity
  unfolding is_pending
  first_pending [] = none
  first_pending (a ∷ rest) = if is_pending a.state then some a else first_pending rest

  in_hand : Option String → List SessionActivity → Option SessionActivity
  in_hand none shown = none
  in_hand (some key) shown = find_activity key shown

  or_else : Option SessionActivity → Option SessionActivity → Option SessionActivity
  or_else none other = other
  or_else (some a) other = some a

  -- `view.current() or next(...)` over the activities that `read_session_view` shows.
  next_activity : Desk → Option SessionActivity
  unfolding read_activities is_known in_hand first_pending or_else
  next_activity desk =
      let shown = keep is_known (read_activities desk.row.id desk.activities) in
      or_else (in_hand desk.row.current_activity_key shown) (first_pending shown)

  work_next : ℕ → Option SessionActivity → Desk → Result SessionProblem (Unit {0}) × Desk
  unfolding advance_session begin_activity
  work_next now none desk = (ok tt, advance_session runs now desk)
  work_next now (some activity) desk = begin_activity activity.activity_key now desk

  unfoldable pub begin_session : ℕ → Desk → Result SessionProblem (Unit {0}) × Desk
  unfolding is_abandoned begun_row next_activity work_next
  begin_session now desk =
      let begun = record desk { row = begun_row now desk.row } in
      if is_abandoned desk.row.status
      then (raised was_abandoned, desk)
      else work_next now (next_activity begun) begun

-- `abandon_session` and `read_open_session`.
unfoldable pub abandon_session : ℕ → AssistantSession → AssistantSession
abandon_session now row = record row { status = abandoned; abandoned_at = some now }

unfoldable pub is_under_way : SessionStatus → Bool
is_under_way proposed = true
is_under_way in_progress = true
is_under_way _ = false

unfoldable pub opened_later : AssistantSession → Option AssistantSession → AssistantSession
opened_later row none = row
opened_later row (some other) = if ltb row.opened_at other.opened_at then other else row

unfoldable pub read_open_session : String → List AssistantSession → Option AssistantSession
unfolding is_under_way opened_later
read_open_session playbook_id [] = none
read_open_session playbook_id (row ∷ rows) =
    let rest = read_open_session playbook_id rows in
    if row.playbook_id == playbook_id && is_under_way row.status
    then some (opened_later row rest)
    else rest
