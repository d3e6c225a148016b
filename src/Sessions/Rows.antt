-- ===== src/Sessions/Rows.antt =====
-- The rows and states of a session (adminos/domain/sessions.py, adminos/db/models.py), the activities
-- that the service knows (adminos/domain/activities.py), and what a session reads of a playbook.
use timmeny_admin_os.Common.{ℕ, String, Bool, Option, none, some, List, ◌==◌, if◌then◌else◌}
pub use timmeny_admin_os.Review.Rows.{RunState}
use timmeny_admin_os.Plan.Arrange.{PlanRefused}
use timmeny_admin_os.Plan.Begin.{ReviewPlan}
use timmeny_admin_os.Review.Filling.{FillingProblem}

pub data SessionStatus : Type 0 where
  proposed in_progress completed abandoned : SessionStatus

pub data ActivityState : Type 0 where
  pending in_progress completed skipped unavailable : ActivityState

pub data SessionProblem : Type 0 where
  no_activity unknown_activity not_built set_aside : String → SessionProblem
  no_run : String → SessionProblem
  was_abandoned nothing_to_do no_session : SessionProblem
  not_in_playbook : List String → SessionProblem
  review_failed : FillingProblem → SessionProblem
  plan_refused : PlanRefused → SessionProblem

pub record AssistantSession : Type 0 where
  pub id : String
  pub playbook_id : String
  pub playbook_revision_id : String
  pub status : SessionStatus
  pub sequence : List String
  pub skipped : List String
  pub current_activity_key : Option String
  pub opened_at : ℕ
  pub begun_at : Option ℕ
  pub completed_at : Option ℕ
  pub abandoned_at : Option ℕ
  pub supersedes_session_id : Option String

pub record SessionActivity : Type 0 where
  pub session_id : String
  pub activity_key : String
  pub label : String
  pub position : ℕ
  pub state : ActivityState
  pub intro : Option String
  pub steps : List String
  pub run_id : Option String
  pub started_at : Option ℕ
  pub completed_at : Option ℕ

-- `StepConfig` and `ActivityConfig` of adminos/domain/playbook.py, with what a session reads of them.
pub record StepConfig : Type 0 where
  pub capability_key : String
  pub enabled : Bool
  pub order : ℕ

pub record ActivityConfig : Type 0 where
  pub activity_key : String
  pub label : String
  pub enabled : Bool
  pub order : ℕ
  pub intro : String
  pub steps : List StepConfig

pub data Availability : Type 0 where
  built planned : Availability

abbrev pub email_activity : String
email_activity = "email_review"

abbrev pub closeout_activity : String
closeout_activity = "session_closeout"

-- `known_activity` of adminos/domain/activities.py, with what it says of being built.
unfoldable pub known_activity : String → Option Availability
known_activity key =
    if key == "email_review"
    then some built
    else if key == "objectives_review"
    then some planned
    else if key == "todo_review"
    then some planned
    else if key == "calendar_review"
    then some planned
    else if key == "follow_up_review"
    then some planned
    else if key == "session_closeout"
    then some built
    else none

-- The session at work, with the tables that its operations change.
pub record Desk : Type 0 where
  pub row : AssistantSession
  pub activities : List SessionActivity
  pub plans : List ReviewPlan
